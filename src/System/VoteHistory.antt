-- ===== src/System/VoteHistory.antt =====
-- Any history of votes, of proxies and of stakes: the chains of proxies end, whatever is called.
use ux_contracts.Prelude.{
  ℕ, ◌≡◌, refl, sym, ap, subst, ◌∙◌, Bool, true, false, not, ◌||◌, Option, none, some, List, [],
  ◌∷◌, ◌==◌, if◌then◌else◌, arith, Bool-cases, inl, inr,
}
use ux_contracts.Chain.Action.{Result, Action, ok, err}
use ux_contracts.Chain.Asset.{Asset}
use ux_contracts.Chain.Context.{Context}
use ux_contracts.Chain.Platform.{Platform}
use ux_contracts.Chain.Double.{Double}
use ux_contracts.Chain.Frame.{bind-ok, check-then}
use ux_contracts.System.Tables.{Names, VoterInfo, new_voter}
use ux_contracts.System.State.{State, put_voter}
use ux_contracts.System.RexStake.{update_rex_stake}
use ux_contracts.System.Voting.{update_votes, voteproducer, regproxy, register_proxy}
use ux_contracts.System.Staking.{changebw, delegatebw, undelegatebw}
use ux_contracts.System.StakeSteps.{delegatebw-changes, undelegatebw-changes}
use ux_contracts.System.Steps.{propagate_weight_change-Keeps}
use ux_contracts.System.Proxies.{proxy_of, is_proxy_of, same_proxies, proxies-Steps}
use ux_contracts.System.Chains.{
  IsChained, SameProxies-IsChained, update_votes-IsChained, freed-IsChained, retired-IsChained,
}
use ux_contracts.System.Votes.{update_rex_stake-Keeps}
use ux_contracts.System.Voters.{changebw-SameProxies}

-- The actions that change who votes through whom, or how much a vote weighs.
pub data Call : Type 0 where
  voteproducer_call : (voter_name proxy : ℕ) → List ℕ → Call
  regproxy_call : ℕ → Bool → Call
  delegatebw_call : (from receiver : ℕ) → (net cpu : Asset) → Bool → Call
  undelegatebw_call : (from receiver : ℕ) → (net cpu : Asset) → Call

module _ ⦃p : Platform⦄ ⦃d : Double⦄ ⦃n : Names⦄ (depth : ℕ) where
  open p use {find, find-put}

  unfoldable pub perform : Context → Call → Action State (Unit {0})
  perform ctx (voteproducer_call voter_name proxy producers) =
      voteproducer depth ctx voter_name proxy producers
  perform ctx (regproxy_call proxy isproxy) = regproxy depth ctx proxy isproxy
  perform ctx (delegatebw_call from receiver net cpu transfer) =
      delegatebw depth ctx from receiver net cpu transfer
  perform ctx (undelegatebw_call from receiver net cpu) =
      undelegatebw depth ctx from receiver net cpu

  -- A call that fails changes nothing.
  abbrev pub settle : Result (Unit {0} × State) → State → State
  settle (ok (u, s')) s = s'
  settle (err e) s = s

  unfoldable pub run : List (Context × Call) → State → State
  run [] s = s
  run ((ctx, call) ∷ calls) s = run calls (settle (perform ctx call s) s)

  voteproducer-IsChained :
      (ctx : Context) (voter_name proxy : ℕ) (producers : List ℕ) (s t : State)
      → IsChained ctx.self s
      → voteproducer depth ctx voter_name proxy producers s ≡ ok (tt, t)
      → IsChained ctx.self t
  unfolding voteproducer
  voteproducer-IsChained ctx voter_name proxy producers s t c run =
      let (signed, r0) =
        check-then (ctx.has_auth voter_name) "missing required authority" _ s t tt run in
      let (u1, s1, e1, r1) = bind-ok (update_rex_stake ctx voter_name) _ s t tt r0 in
      let (u2, s2, e2, r2) =
        bind-ok (update_votes depth ctx voter_name proxy producers true) _ s1 t tt r1 in
      let same : t ≡ s2 = ground arith in
      subst (IsChained ctx.self) (sym same) (
        update_votes-IsChained depth ctx voter_name proxy producers s1 s2
          (SameProxies-IsChained ctx.self s s1 (update_rex_stake-Keeps ctx voter_name s s1 u1 e1) c)
          e2)

  register_proxy-IsChained :
      (ctx : Context) (proxy : ℕ) (isproxy : Bool) (o : Option VoterInfo) (s t : State)
      → IsChained ctx.self s
      → find s.voters ctx.self proxy ≡ o
      → register_proxy depth ctx proxy isproxy o s ≡ ok (tt, t)
      → IsChained ctx.self t
  register_proxy-IsChained ctx proxy isproxy none s t c found run =
      let w = record (new_voter proxy) { is_proxy = isproxy } in
      let s1 = put_voter 0 ctx.self proxy w s in
      let after : t ≡ put_voter proxy ctx.self proxy w s = ground arith in
      let rows : (a : ℕ) → find t.voters ctx.self a ≡ find s1.voters ctx.self a = λ a.
        ap (λ (x : State). find x.voters ctx.self a) after
        ∙ find-put s.voters proxy ctx.self proxy w ctx.self a
        ∙ sym (find-put s.voters 0 ctx.self proxy w ctx.self a) in
      SameProxies-IsChained ctx.self s1 t
        (record { proxy = λ a. ap proxy_of (rows a); is_proxy = λ a. ap is_proxy_of (rows a) })
        (freed-IsChained ctx.self proxy w s c refl)
  register_proxy-IsChained ctx proxy isproxy (some v) s t c found run =
      let (effect, r0) =
        check-then (if isproxy then not v.is_proxy else v.is_proxy) "action has no effect" _ s t tt
          run in
      let (free, r1) =
        check-then (not isproxy || v.proxy == 0)
          "account that uses a proxy is not allowed to become a proxy" _ s t tt r0 in
      let w : VoterInfo = record v { is_proxy = isproxy } in
      let s1 = put_voter 0 ctx.self proxy w s in
      let first : IsChained ctx.self s1 = elim (Bool-cases isproxy) [
        | inl becomes ↦ freed-IsChained ctx.self proxy w s c (ground arith)
        | inr retires ↦ retired-IsChained ctx.self proxy w s c (sym (ap proxy_of found)) retires
      ] in
      SameProxies-IsChained ctx.self s1 t
        (propagate_weight_change-Keeps (same_proxies ctx.self) (proxies-Steps ctx.self) depth ctx
          proxy w s1 t tt r1)
        first

  regproxy-IsChained :
      (ctx : Context) (proxy : ℕ) (isproxy : Bool) (s t : State)
      → IsChained ctx.self s
      → regproxy depth ctx proxy isproxy s ≡ ok (tt, t)
      → IsChained ctx.self t
  unfolding regproxy
  regproxy-IsChained ctx proxy isproxy s t c run =
      let (signed, r0) =
        check-then (ctx.has_auth proxy) "missing required authority" _ s t tt run in
      register_proxy-IsChained ctx proxy isproxy (find s.voters ctx.self proxy) s t c refl r0

  changebw-IsChained :
      (ctx : Context) (from receiver : ℕ) (net cpu : Asset) (transfer : Bool) (s t : State)
      → IsChained ctx.self s
      → changebw depth ctx from receiver net cpu transfer s ≡ ok (tt, t)
      → IsChained ctx.self t
  changebw-IsChained ctx from receiver net cpu transfer s t c run =
      SameProxies-IsChained ctx.self s t
        (changebw-SameProxies depth ctx from receiver net cpu transfer s t run) c

  settle-IsChained :
      (self : ℕ) (r : Result (Unit {0} × State)) (s : State)
      → IsChained self s
      → ((t : State) → r ≡ ok (tt, t) → IsChained self t)
      → IsChained self (settle r s)
  settle-IsChained self (ok (tt, t)) s c h = h t refl
  settle-IsChained self (err e) s c h = c

  perform-IsChained :
      (ctx : Context) (call : Call) (s t : State)
      → IsChained ctx.self s
      → perform ctx call s ≡ ok (tt, t)
      → IsChained ctx.self t
  unfolding perform
  perform-IsChained ctx (voteproducer_call v q ps) s t c run =
      voteproducer-IsChained ctx v q ps s t c run
  perform-IsChained ctx (regproxy_call q b) s t c run = regproxy-IsChained ctx q b s t c run
  perform-IsChained ctx (delegatebw_call f r x y b) s t c run =
      changebw-IsChained ctx f r x y b s t c (delegatebw-changes depth ctx f r x y b s t run)
  perform-IsChained ctx (undelegatebw_call f r x y) s t c run =
      changebw-IsChained ctx f r (p.asset_neg x) (p.asset_neg y) false s t c
        (undelegatebw-changes depth ctx f r x y s t run)

  -- All calls are to the contract of one account.
  abbrev pub AreTo : ℕ → List (Context × Call) → Type 0
  AreTo self [] = Unit
  AreTo self ((ctx, call) ∷ calls) = (ctx.self ≡ self) × AreTo self calls

  -- Whatever is called of voteproducer, regproxy, delegatebw and undelegatebw, by anyone and any
  -- number of times, failed calls dropped: from a state in which no proxy has a proxy and the
  -- accounts can be ranked so that each stands above its proxy, only such states are reached.
  pub run-IsChained :
      (self : ℕ) (calls : List (Context × Call)) (s : State)
      → AreTo self calls
      → IsChained self s
      → IsChained self (run calls s)
  unfolding run
  run-IsChained self [] s here c = c
  run-IsChained self ((ctx, call) ∷ calls) s (here, rest) c =
      run-IsChained self calls (settle (perform ctx call s) s) rest (
        settle-IsChained self (perform ctx call s) s c (λ t e.
          subst (λ w. IsChained w t) here
            (perform-IsChained ctx call s t (subst (λ w. IsChained w s) (sym here) c) e)))
