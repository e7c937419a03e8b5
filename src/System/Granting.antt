-- ===== src/System/Granting.antt =====
-- contracts/eosio.system/src/delegate_bandwidth.cpp: staking, and the memory that is granted.
use ux_contracts.Prelude.{
  ℕ, ◌≡◌, refl, sym, ap, subst, ◌∙◌, Bool, not, Option, none, some, ◌==◌, if◌then◌else◌, arith,
  leb_ℤ, pos, is_some,
}
use ux_contracts.Chain.Action.{ok}
use ux_contracts.Chain.Asset.{Asset}
use ux_contracts.Chain.Context.{Context}
use ux_contracts.Chain.Platform.{Platform}
use ux_contracts.Chain.Double.{Double}
use ux_contracts.Chain.Frame.{bind-ok, check-then, lift-then, when-Keeps}
use ux_contracts.System.Tables.{Names, stake_account, UserResources}
use ux_contracts.System.State.{State}
use ux_contracts.System.Bandwidth.{
  change_totals, totals_row, change_refund, update_limits, store_totals,
}
use ux_contracts.System.Staking.{changebw}
use ux_contracts.System.Limits.{own}
use ux_contracts.System.StakeSteps.{owner_of, changebw-steps}
use ux_contracts.System.VoteGrants.{
  untouched-Same, update_rex_stake-Keeps, update_voting_power-Keeps,
}
use ux_contracts.System.Voters.{same_untouched, change_delegated-untouched, change_refund-untouched}
use ux_contracts.System.Grants.{IsGranted, Same-IsGranted, totalled-IsGranted}

module _ ⦃p : Platform⦄ ⦃d : Double⦄ where
  open p use {find}

  -- The row after the change has the memory of the row before it.
  totals_row-memory :
      (receiver : ℕ) (net cpu : Asset) (o : Option UserResources) (s t : State)
      (row : UserResources)
      → ((r : UserResources) → o ≡ some r → r.owner ≡ receiver)
      → totals_row receiver net cpu o s ≡ ok (row, t)
      → (row.owner ≡ receiver) × (row.ram_bytes ≡ own (λ r. r.ram_bytes) o) × (t ≡ s)
  unfolding totals_row
  totals_row-memory receiver net cpu none s t row owners run =
      (ground arith, ground arith, ground arith)
  totals_row-memory receiver net cpu (some r) s t row owners run =
      let (n, e0, r0) = lift-then (p.asset_add r.net_weight net) _ s t row run in
      let (c, e1, r1) = lift-then (p.asset_add r.cpu_weight cpu) _ s t row r0 in
      (ground (arith, owners r refl), ground arith, ground arith)

  change_totals-IsGranted :
      (ctx : Context) (from receiver : ℕ) (net cpu : Asset) (s t : State)
      → IsGranted ctx.self s
      → change_totals ctx from receiver net cpu s ≡ ok (tt, t)
      → IsGranted ctx.self t
  unfolding change_totals
  change_totals-IsGranted ctx from receiver net cpu s t h run =
      let itr = find s.userres receiver receiver in
      let (row, s1, e1, r1) = bind-ok (totals_row receiver net cpu itr) _ s t tt run in
      let (named, bytes, same) =
        totals_row-memory receiver net cpu itr s s1 row (λ r f. (h receiver r f).0) e1 in
      let (net_left, r2) =
        check-then (leb_ℤ (pos 0) row.net_weight.amount) "insufficient staked total net bandwidth" _
          s1 t tt r1 in
      let (cpu_left, r3) =
        check-then (leb_ℤ (pos 0) row.cpu_weight.amount) "insufficient staked total cpu bandwidth" _
          s1 t tt r2 in
      let payer = if is_some itr then if from == receiver then from else 0 else from in
      let after : t ≡ store_totals payer receiver row (update_limits ctx.self receiver row s1) =
        ground arith in
      subst (IsGranted ctx.self)
        (sym (
          after
          ∙ ap (λ w. store_totals payer receiver row (update_limits ctx.self receiver row w)) same))
        (totalled-IsGranted ctx.self payer receiver row s named bytes h)

  -- A change of the stake leaves what is granted covered.
  pub changebw-IsGranted :
      ⦃n : Names⦄ (depth : ℕ) (ctx : Context) (from receiver : ℕ) (net cpu : Asset)
      (transfer : Bool) (s t : State)
      → IsGranted ctx.self s
      → changebw depth ctx from receiver net cpu transfer s ≡ ok (tt, t)
      → IsGranted ctx.self t
  changebw-IsGranted depth ctx from receiver net cpu transfer s t h run =
      let steps = changebw-steps depth ctx from receiver net cpu transfer s t run in
      let owner = owner_of from receiver transfer in
      let self = ctx.self in
      let other = not (stake_account == from) in
      let refunds = change_refund ctx from owner receiver net cpu transfer in
      let h1 =
        Same-IsGranted self s steps.s1
          (untouched-Same self s steps.s1
            (change_delegated-untouched owner receiver net cpu s steps.s1 steps.delegated))
          h in
      let h2 =
        change_totals-IsGranted ctx owner receiver net cpu steps.s1 steps.s2 h1 steps.totalled in
      let h3 =
        Same-IsGranted self steps.s2 steps.s3
          (untouched-Same self steps.s2 steps.s3 (
            when-Keeps same_untouched other refunds
              (change_refund-untouched ctx from owner receiver net cpu transfer) steps.s2 steps.s3
              tt steps.refunded))
          h2 in
      let h4 =
        Same-IsGranted self steps.s3 steps.s4
          (update_rex_stake-Keeps ctx owner steps.s3 steps.s4 tt steps.saved) h3 in
      Same-IsGranted self steps.s4 t
        (update_voting_power-Keeps depth ctx owner steps.total steps.s4 t tt steps.voted) h4
