-- ===== src/System/Votes.antt =====
-- What keeps everyone's proxy: the stakes that are counted again.
use ux_contracts.Prelude.{
  ℕ, ◌≡◌, refl, sym, ap, subst, ◌∙◌, Bool, true, false, not, ◌||◌, Option, none, some, ◌==◌,
  if◌then◌else◌, arith, length, ℤ, ltb_ℤ, leb_ℤ, eqb_ℤ, pos, int64, ◌+ℤ◌, ◌-ℤ◌, is_some,
}
use ux_contracts.Chain.Action.{ok, when}
use ux_contracts.Chain.Asset.{Asset}
use ux_contracts.Chain.Context.{Context}
use ux_contracts.Chain.Platform.{Platform}
use ux_contracts.Chain.Double.{Double}
use ux_contracts.Chain.Frame.{
  Keeps, bind-ok, check-then, or_fail-then, pure-Keeps, when-Keeps, when-modify-Keeps,
}
use ux_contracts.System.Tables.{Names, VoterInfo, RexBalance, RexPool, b1_account}
use ux_contracts.System.State.{State, put_voter, core_asset}
use ux_contracts.System.RexStake.{
  update_rex_stake, rex_stake_of, restake, rex_stake, with_stake, add_stake,
}
use ux_contracts.System.Voting.{cast_votes, update_votes}
use ux_contracts.System.Staking.{staked_voter, validate_b1_vesting, update_voting_power}
use ux_contracts.System.Steps.{cast_votes-Keeps}
use ux_contracts.System.Proxies.{
  proxy_of, is_proxy_of, SameProxies, same_proxies, proxies-Steps, put_voter-SameProxies,
}

module _ ⦃p : Platform⦄ ⦃d : Double⦄ where
  open p use {find, find-put}

  pub same_of : (self : ℕ) (s t : State) → t.voters ≡ s.voters → SameProxies self s t
  same_of self s t e = record {
    proxy = λ a. ap (λ w. proxy_of (find w self a)) e;
    is_proxy = λ a. ap (λ w. is_proxy_of (find w self a)) e;
  }

  add_stake-SameProxies :
      (self voter : ℕ) (delta : ℤ) (o : Option VoterInfo) (s : State)
      → find s.voters self voter ≡ o
      → SameProxies self s (add_stake self voter delta o s)
  add_stake-SameProxies self voter delta none s found = same_of self s s refl
  add_stake-SameProxies self voter delta (some v) s found =
      put_voter-SameProxies self 0 self voter (record v { staked = int64 (v.staked +ℤ delta) })
        (some v) s found refl refl

  restake-Keeps :
      (ctx : Context) (voter : ℕ) (b : RexBalance) (pool : RexPool)
      → Keeps (same_proxies ctx.self) (restake ctx voter b pool)
  restake-Keeps ctx voter b pool s s' a run =
      let stake = rex_stake b.rex_balance.amount pool in
      let delta = int64 (stake -ℤ b.vote_stake.amount) in
      let (zero_stake, s1, e1, r1) = bind-ok (core_asset (pos 0)) _ s s' a run in
      let same : s1 ≡ s = ground arith in
      let s2 = with_stake ctx.self voter stake b s1 in
      let first : SameProxies ctx.self s s2 =
        same_of ctx.self s s2 (ap (λ (w : State). w.voters) same) in
      (same_proxies ctx.self).join s s2 s' first (
        when-modify-Keeps (same_proxies ctx.self) (not (eqb_ℤ delta (pos 0)))
          (add_stake ctx.self voter delta (find s2.voters ctx.self voter)) s2 s' a
          (add_stake-SameProxies ctx.self voter delta (find s2.voters ctx.self voter) s2 refl) r1)

  rex_stake_of-Keeps :
      (ctx : Context) (voter : ℕ) (b : Option RexBalance) (pool : Option RexPool)
      → Keeps (same_proxies ctx.self) (rex_stake_of ctx voter b pool)
  rex_stake_of-Keeps ctx voter none pool = pure-Keeps (same_proxies ctx.self) tt
  rex_stake_of-Keeps ctx voter (some b) none = pure-Keeps (same_proxies ctx.self) tt
  rex_stake_of-Keeps ctx voter (some b) (some pool) =
      when-Keeps (same_proxies ctx.self) (ltb_ℤ (pos 0) pool.total_rex.amount) _
        (restake-Keeps ctx voter b pool)

  pub update_rex_stake-Keeps :
      (ctx : Context) (voter : ℕ) → Keeps (same_proxies ctx.self) (update_rex_stake ctx voter)
  unfolding update_rex_stake
  update_rex_stake-Keeps ctx voter s s' a run =
      rex_stake_of-Keeps ctx voter (find s.rexbalance ctx.self voter) s.rexpool s s' a run

  -- The votes of an account cast again, with a stake that has changed.
  update_votes-Keeps :
      ⦃n : Names⦄ (depth : ℕ) (ctx : Context) (voter : ℕ) (v : VoterInfo) (s t : State)
      → find s.voters ctx.self voter ≡ some v
      → update_votes depth ctx voter v.proxy v.producers false s ≡ ok (tt, t)
      → SameProxies ctx.self s t
  unfolding update_votes
  update_votes-Keeps depth ctx voter v s t there run =
      let kept = same_proxies ctx.self in
      let (weight, s1, e1, r1) =
        bind-ok (cast_votes depth ctx voter v.proxy v.producers false) _ s t tt run in
      let same =
        cast_votes-Keeps kept (proxies-Steps ctx.self) depth ctx voter v.proxy v.producers false s
          s1 weight e1 in
      let (v1, found, r2) =
        or_fail-then (find s1.voters ctx.self voter) "object passed to modify is not in multi_index"
          _ s1 t tt r1 in
      let w : VoterInfo = record v1 {
        last_vote_weight = weight;
        producers = v.producers;
        proxy = v.proxy;
      } in
      let after : t ≡ put_voter 0 ctx.self voter w s1 = ground arith in
      let own : v.proxy ≡ v1.proxy =
        sym (ap proxy_of there) ∙ sym (same.proxy voter) ∙ ap proxy_of found in
      kept.join s s1 t same (
        subst (SameProxies ctx.self s1) (sym after)
          (put_voter-SameProxies ctx.self 0 ctx.self voter w (some v1) s1 found own refl))

  staked_voter-SameProxies :
      (self payer voter : ℕ) (update : ℤ) (o : Option VoterInfo) (s : State)
      → find s.voters self voter ≡ o
      → SameProxies self s (put_voter payer self voter (staked_voter voter update o) s)
  staked_voter-SameProxies self payer voter update none s found =
      put_voter-SameProxies self payer self voter (staked_voter voter update none) none s found refl
        refl
  staked_voter-SameProxies self payer voter update (some v) s found =
      put_voter-SameProxies self payer self voter (staked_voter voter update (some v)) (some v) s
        found refl refl

  b1_same :
      (ctx : Context) (stake : ℤ) (b : Bool) (s t : State)
      → when b (validate_b1_vesting ctx stake) s ≡ ok (tt, t)
      → t ≡ s
  unfolding validate_b1_vesting
  b1_same ctx stake true s t run = ground arith
  b1_same ctx stake false s t run = ground arith

  recast :
      ⦃n : Names⦄ (depth : ℕ) (ctx : Context) (voter : ℕ) (v : VoterInfo) (b : Bool) (s t : State)
      → find s.voters ctx.self voter ≡ some v
      → when b (update_votes depth ctx voter v.proxy v.producers false) s ≡ ok (tt, t)
      → SameProxies ctx.self s t
  recast depth ctx voter v true s t there run = update_votes-Keeps depth ctx voter v s t there run
  recast depth ctx voter v false s t there run =
      let e : t.voters ≡ s.voters = ground arith in same_of ctx.self s t e

  pub update_voting_power-Keeps :
      ⦃n : Names⦄ (depth : ℕ) (ctx : Context) (voter : ℕ) (update : Asset)
      → Keeps (same_proxies ctx.self) (update_voting_power depth ctx voter update)
  unfolding update_voting_power
  update_voting_power-Keeps depth ctx voter update s s' a run =
      let kept = same_proxies ctx.self in
      let found = find s.voters ctx.self voter in
      let v = staked_voter voter update.amount found in
      let payer = if is_some found then 0 else voter in
      let s1 = put_voter payer ctx.self voter v s in
      let here : find s1.voters ctx.self voter ≡ some v =
        find-put s.voters payer ctx.self voter v ctx.self voter ∙ ground arith in
      let (nonneg, r1) =
        check-then (leb_ℤ (pos 0) v.staked) "stake for voting cannot be negative" _ s1 s' a run in
      let (u, s2, e2, r2) =
        bind-ok (when (voter == b1_account) (validate_b1_vesting ctx v.staked)) _ s1 s' a r1 in
      let same : s2 ≡ s1 = b1_same ctx v.staked (voter == b1_account) s1 s2 e2 in
      kept.join s s1 s' (staked_voter-SameProxies ctx.self payer voter update.amount found s refl) (
        recast depth ctx voter v (not (length v.producers == 0) || not (v.proxy == 0)) s1 s' here
          (rw same at r2))
