-- ===== src/System/StakeSteps.antt =====
-- contracts/eosio.system/src/delegate_bandwidth.cpp: the steps of a change of the stake that goes through.
use ux_contracts.Prelude.{
  ℕ, ◌≡◌, ◌∙◌, Bool, true, false, not, ◌&&◌, ◌||◌, Option, none, some, ◌==◌, if◌then◌else◌, arith,
  ltb_ℤ, eqb_ℤ, pos, leb, ◌+ℤ◌, int64,
}
use ux_contracts.Chain.Action.{ok, when}
use ux_contracts.Chain.Asset.{Asset}
use ux_contracts.Chain.Context.{Context}
use ux_contracts.Chain.Platform.{Platform}
use ux_contracts.Chain.Double.{Double}
use ux_contracts.Chain.Frame.{bind-ok, check-then, lift-then}
use ux_contracts.System.Tables.{Names, stake_account, DelegatedBandwidth}
use ux_contracts.System.State.{State, core_asset}
use ux_contracts.System.RexStake.{update_rex_stake}
use ux_contracts.System.Bandwidth.{change_delegated, change_totals, change_refund}
use ux_contracts.System.Staking.{
  abs, changebw, update_voting_power, delegatebw, undelegatebw, check_at_least, keeps_stake,
  is_active_producer,
}

-- Whose stake changes: the receiver's, where it is transferred.
abbrev pub owner_of : (from receiver : ℕ) → Bool → ℕ
owner_of from receiver transfer = if transfer then receiver else from

module _ ⦃p : Platform⦄ ⦃d : Double⦄ ⦃n : Names⦄ (depth : ℕ) (ctx : Context)
    (from receiver : ℕ) where
  open p use {find}

  -- The states that a change of the stake goes through, after each of its parts.
  pub record ChangeSteps (net cpu : Asset) (transfer : Bool) (s t : State) : Type 0 where
    pub signed : ctx.has_auth from ≡ true
    pub s1 : State
    pub delegated :
        change_delegated (owner_of from receiver transfer) receiver net cpu s ≡ ok (tt, s1)
    pub s2 : State
    pub totalled :
        change_totals ctx (owner_of from receiver transfer) receiver net cpu s1 ≡ ok (tt, s2)
    pub s3 : State
    pub refunded :
        when
          (not (stake_account == from))
          (change_refund ctx from (owner_of from receiver transfer) receiver net cpu transfer)
          s2
        ≡ ok (tt, s3)
    pub s4 : State
    pub saved : update_rex_stake ctx (owner_of from receiver transfer) s3 ≡ ok (tt, s4)
    pub total : Asset
    pub voted :
        update_voting_power depth ctx (owner_of from receiver transfer) total s4 ≡ ok (tt, t)

  pub changebw-steps :
      (net cpu : Asset) (transfer : Bool) (s t : State)
      → changebw depth ctx from receiver net cpu transfer s ≡ ok (tt, t)
      → ChangeSteps net cpu transfer s t
  unfolding changebw
  changebw-steps net cpu transfer s t run =
      let owner = if transfer then receiver else from in
      let (signed, r0) = check-then (ctx.has_auth from) "missing required authority" _ s t tt run in
      let (nonzero, r1) =
        check-then (not (eqb_ℤ net.amount (pos 0)) || not (eqb_ℤ cpu.amount (pos 0)))
          "should stake non-zero amount" _ s t tt r0 in
      let (sum, e2, r2) = lift-then (p.asset_add net cpu) _ s t tt r1 in
      let (signs, r3) =
        check-then (leb (abs net.amount) (abs sum.amount) && leb (abs cpu.amount) (abs sum.amount))
          "net and cpu deltas cannot be opposite signs" _ s t tt r2 in
      let (u1, s1, delegated, r4) = bind-ok (change_delegated owner receiver net cpu) _ s t tt r3 in
      let (u2, s2, totalled, r5) =
        bind-ok (change_totals ctx owner receiver net cpu) _ s1 t tt r4 in
      let refunds = change_refund ctx from owner receiver net cpu transfer in
      let (u3, s3, refunded, r6) =
        bind-ok (when (not (stake_account == from)) refunds) _ s2 t tt r5 in
      let (u4, s4, saved, r7) = bind-ok (update_rex_stake ctx owner) _ s3 t tt r6 in
      let (total, e8, voted) = lift-then (p.asset_add net cpu) _ s4 t tt r7 in
      record {
        signed = signed;
        s1 = s1;
        delegated = delegated;
        s2 = s2;
        totalled = totalled;
        s3 = s3;
        refunded = refunded;
        s4 = s4;
        saved = saved;
        total = total;
        voted = voted;
      }

  pub delegatebw-changes :
      (net cpu : Asset) (transfer : Bool) (s t : State)
      → delegatebw depth ctx from receiver net cpu transfer s ≡ ok (tt, t)
      → changebw depth ctx from receiver net cpu transfer s ≡ ok (tt, t)
  unfolding delegatebw
  delegatebw-changes net cpu transfer s t run =
      let (zero_asset, s1, e1, r1) = bind-ok (core_asset (pos 0)) _ s t tt run in
      let (u2, s2, e2, r2) =
        bind-ok (check_at_least cpu zero_asset "must stake a positive amount") _ s1 t tt r1 in
      let (u3, s3, e3, r3) =
        bind-ok (check_at_least net zero_asset "must stake a positive amount") _ s2 t tt r2 in
      let (positive, r4) =
        check-then (ltb_ℤ (pos 0) (int64 (net.amount +ℤ cpu.amount))) "must stake a positive amount"
          _ s3 t tt r3 in
      let (other, r5) =
        check-then (not transfer || not (from == receiver))
          "cannot use transfer flag if delegating to self" _ s3 t tt r4 in
      let same : s3 ≡ s = ground arith in rw same at r5

  keeps_stake-same :
      (b : Bool) (net cpu : Asset) (o : Option DelegatedBandwidth) (s t : State)
      → when b (keeps_stake net cpu o) s ≡ ok (tt, t)
      → t ≡ s
  keeps_stake-same true net cpu none s t run = absurd (ground arith)
  keeps_stake-same true net cpu (some o) s t run = ground arith
  keeps_stake-same false net cpu o s t run = ground arith

  pub undelegatebw-changes :
      (net cpu : Asset) (s t : State)
      → undelegatebw depth ctx from receiver net cpu s ≡ ok (tt, t)
      → changebw depth ctx from receiver (p.asset_neg net) (p.asset_neg cpu) false s ≡ ok (tt, t)
  unfolding undelegatebw
  undelegatebw-changes net cpu s t run =
      let (zero_asset, s1, e1, r1) = bind-ok (core_asset (pos 0)) _ s t tt run in
      let active = is_active_producer (find s1.producers ctx.self from) in
      let own = find s1.delband from from in
      let (u2, s2, e2, r2) = bind-ok (when active (keeps_stake net cpu own)) _ s1 t tt r1 in
      let (u3, s3, e3, r3) =
        bind-ok (check_at_least cpu zero_asset "must unstake a positive amount") _ s2 t tt r2 in
      let (u4, s4, e4, r4) =
        bind-ok (check_at_least net zero_asset "must unstake a positive amount") _ s3 t tt r3 in
      let (positive, r5) =
        check-then (ltb_ℤ (pos 0) (int64 (cpu.amount +ℤ net.amount)))
          "must unstake a positive amount" _ s4 t tt r4 in
      let (active_chain, r6) =
        check-then (not (s4.global.thresh_activated_stake_time == 0))
          "cannot undelegate bandwidth until the chain is activated (at least 15% of all tokens participate in voting)"
          _ s4 t tt r5 in
      let first : s1 ≡ s = ground arith in
      let second : s2 ≡ s1 = keeps_stake-same active net cpu own s1 s2 e2 in
      let third : s4 ≡ s2 = ground arith in
      let same : s4 ≡ s = third ∙ second ∙ first in rw same at r6
