-- ===== src/System/Voters.antt =====
-- Staking and taking back leave everyone's proxy.
use ux_contracts.Prelude.{
  ℕ, ◌≡◌, refl, ap, ◌∙◌, Bool, false, not, ◌||◌, Option, none, some, ◌==◌, if◌then◌else◌, arith,
  ltb_ℤ, pos,
}
use ux_contracts.Chain.Action.{ok, pure}
use ux_contracts.Chain.Asset.{Asset}
use ux_contracts.Chain.Context.{Context}
use ux_contracts.Chain.Platform.{Platform}
use ux_contracts.Chain.Double.{Double}
use ux_contracts.Chain.Frame.{Relation, Keeps, bind-ok, pure-Keeps, if-Keeps, when-Keeps}
use ux_contracts.System.Tables.{
  Names, stake_account, RefundRequest, VoterInfo, UserResources, Limits,
}
use ux_contracts.System.State.{State}
use ux_contracts.System.Bandwidth.{
  change_delegated, delegated_row, change_totals, totals_row, change_refund, settle_part, new_part,
  create_refund, move_refund, is_refunding, Moved,
}
use ux_contracts.System.Staking.{changebw}
use ux_contracts.System.StakeSteps.{owner_of, changebw-steps}
use ux_contracts.System.Proxies.{SameProxies, same_proxies}
use ux_contracts.System.Votes.{same_of, update_rex_stake-Keeps, update_voting_power-Keeps}

module _ ⦃p : Platform⦄ ⦃d : Double⦄ where
  open p use {find, find-put}

  -- The parts of the state that neither a change of the stake nor one of the refund touches.
  pub record Untouched : Type 0 where
    pub voters : p.Table VoterInfo
    pub userres : p.Table UserResources
    pub limits : ℕ → Limits

  abbrev pub untouched : State → Untouched
  untouched s = record { voters = s.voters; userres = s.userres; limits = s.limits }

  pub change_delegated-untouched :
      (from receiver : ℕ) (net cpu : Asset) (s t : State)
      → change_delegated from receiver net cpu s ≡ ok (tt, t)
      → untouched t ≡ untouched s
  unfolding change_delegated delegated_row
  change_delegated-untouched from receiver net cpu s t run = ground arith

  pub change_totals-voters :
      (ctx : Context) (from receiver : ℕ) (net cpu : Asset) (s t : State)
      → change_totals ctx from receiver net cpu s ≡ ok (tt, t)
      → t.voters ≡ s.voters
  unfolding change_totals totals_row
  change_totals-voters ctx from receiver net cpu s t run = ground arith

  abbrev pub same_untouched : Relation State
  same_untouched = record {
    R = λ s t. untouched t ≡ untouched s;
    same = λ s. refl;
    join = λ s t u h k. k ∙ h;
  }

  settle_part-Keeps : (held balance : Asset) → Keeps same_untouched (settle_part held balance)
  unfolding settle_part
  settle_part-Keeps held balance s s' a run = ground arith

  new_part-Keeps : (balance : Asset) → Keeps same_untouched (new_part balance)
  unfolding new_part
  new_part-Keeps balance s s' a run = ground arith

  create_refund-Keeps :
      (ctx : Context) (from : ℕ) (net cpu : Asset)
      → Keeps same_untouched (create_refund ctx from net cpu)
  unfolding create_refund
  create_refund-Keeps ctx from net cpu s s' a run =
      let (n, s1, e1, r1) = bind-ok (new_part net) _ s s' a run in
      let (c, s2, e2, r2) = bind-ok (new_part cpu) _ s1 s' a r1 in
      let last : untouched s' ≡ untouched s2 = ground arith in
      last ∙ new_part-Keeps cpu s1 s2 c e2 ∙ new_part-Keeps net s s1 n e1

  move_refund-Keeps :
      (ctx : Context) (from : ℕ) (net cpu : Asset) (o : Option RefundRequest)
      → Keeps same_untouched (move_refund ctx from net cpu o)
  unfolding move_refund
  move_refund-Keeps ctx from net cpu none s s' a run =
      if-Keeps same_untouched (ltb_ℤ net.amount (pos 0) || ltb_ℤ cpu.amount (pos 0)) _ _
        (create_refund-Keeps ctx from net cpu) (pure-Keeps same_untouched _) s s' a run
  move_refund-Keeps ctx from net cpu (some r) s s' a run =
      let (n, s1, e1, r1) = bind-ok (settle_part r.net_amount net) _ s s' a run in
      let (c, s2, e2, r2) = bind-ok (settle_part r.cpu_amount cpu) _ s1 s' a r1 in
      let last : untouched s' ≡ untouched s2 = ground arith in
      last
      ∙ settle_part-Keeps r.cpu_amount cpu s1 s2 c e2
      ∙ settle_part-Keeps r.net_amount net s s1 n e1

  pub change_refund-untouched :
      (ctx : Context) (source from receiver : ℕ) (net cpu : Asset) (transfer : Bool)
      → Keeps same_untouched (change_refund ctx source from receiver net cpu transfer)
  unfolding change_refund
  change_refund-untouched ctx source from receiver net cpu transfer s s' a run =
      let b = is_refunding from receiver net cpu transfer in
      let moving = move_refund ctx from net cpu (find s.refunds from from) in
      let still : Moved = record {
        net_balance = net;
        cpu_balance = cpu;
        need_deferred_trx = false;
      } in
      let (moved, s1, e1, r1) = bind-ok (if b then moving else pure still) _ s s' a run in
      let last : untouched s' ≡ untouched s1 = ground arith in
      last
      ∙ if-Keeps same_untouched b moving (pure still)
          (move_refund-Keeps ctx from net cpu (find s.refunds from from))
          (pure-Keeps same_untouched still) s s1 moved e1

  -- Staking leaves the chains as they are.
  pub changebw-SameProxies :
      ⦃n : Names⦄ (depth : ℕ) (ctx : Context) (from receiver : ℕ) (net cpu : Asset)
      (transfer : Bool) (s s' : State)
      → changebw depth ctx from receiver net cpu transfer s ≡ ok (tt, s')
      → SameProxies ctx.self s s'
  changebw-SameProxies depth ctx from receiver net cpu transfer s s' run =
      let steps = changebw-steps depth ctx from receiver net cpu transfer s s' run in
      let owner = owner_of from receiver transfer in
      let other = not (stake_account == from) in
      let refunds = change_refund ctx from owner receiver net cpu transfer in
      let voters =
        ap (λ (w : Untouched). w.voters)
          (when-Keeps same_untouched other refunds
            (change_refund-untouched ctx from owner receiver net cpu transfer) steps.s2 steps.s3 tt
            steps.refunded)
        ∙ change_totals-voters ctx owner receiver net cpu steps.s1 steps.s2 steps.totalled
        ∙ ap (λ (w : Untouched). w.voters)
            (change_delegated-untouched owner receiver net cpu s steps.s1 steps.delegated) in
      let kept = same_proxies ctx.self in
      kept.join s steps.s3 s' (same_of ctx.self s steps.s3 voters) (
        kept.join steps.s3 steps.s4 s'
          (update_rex_stake-Keeps ctx owner steps.s3 steps.s4 tt steps.saved)
          (update_voting_power-Keeps depth ctx owner steps.total steps.s4 s' tt steps.voted))
