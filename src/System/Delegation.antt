-- ===== src/System/Delegation.antt =====
-- What it takes to stake tokens for bandwidth, or to take them back: of all that an account has in the
-- stake account, staked or waiting for its refund, nothing is lost and nothing is made.
use ux_contracts.Prelude.{ℕ, ◌≡◌, ◌≢◌, ◌∙◌, Bool, true, not, if◌then◌else◌, ◌==◌, arith}
use ux_contracts.Chain.Action.{ok}
use ux_contracts.Chain.Asset.{Asset, IsInRange}
use ux_contracts.Chain.Context.{Context}
use ux_contracts.Chain.Platform.{Platform}
use ux_contracts.Chain.Double.{Double}
use ux_contracts.Chain.Frame.{when-then}
use ux_contracts.System.Tables.{Names, stake_account}
use ux_contracts.System.State.{State}
use ux_contracts.System.Bandwidth.{change_refund}
use ux_contracts.System.Staking.{changebw}
use ux_contracts.System.StakeSteps.{owner_of, changebw-steps}
use ux_contracts.System.Frames.{update_rex_stake-Keeps, update_voting_power-Keeps}
use ux_contracts.System.Held.{IsSound, Staked, Stored-Staked, stored_lem}

module _ ⦃p : Platform⦄ ⦃d : Double⦄ where
  -- Where the amounts are in range and every stake, total and refund is between zero and the
  -- maximum of an asset: a change of bandwidth by an account other than the stake account that
  -- goes through was signed by it. All that the owner of the stake has there, staked to the
  -- receiver or waiting for its refund, changes by exactly what is transferred from the payer to
  -- the stake account; the stake and the receiver's totals change by the two amounts, the
  -- receiver's limits are its totals unless they are managed, no other stake and no other refund
  -- changes, and the bounds are kept.
  pub changebw-Staked :
      ⦃n : Names⦄ (depth : ℕ) (ctx : Context) (from receiver : ℕ) (net cpu : Asset)
      (transfer : Bool) (s s' : State)
      → IsInRange net.amount
      → IsInRange cpu.amount
      → IsSound s
      → from ≢ stake_account
      → changebw depth ctx from receiver net cpu transfer s ≡ ok (tt, s')
      → Staked ctx from (if transfer then receiver else from) receiver net cpu s s'
  changebw-Staked depth ctx from receiver net cpu transfer s s' h k sound other run =
      let steps = changebw-steps depth ctx from receiver net cpu transfer s s' run in
      let owner = owner_of from receiver transfer in
      let no_stake : not (stake_account == from) ≡ true = ground arith in
      let refunded : change_refund ctx from owner receiver net cpu transfer steps.s2
          ≡ ok (tt, steps.s3) =
        when-then (not (stake_account == from))
          (change_refund ctx from owner receiver net cpu transfer) steps.s2 (ok (tt, steps.s3))
          no_stake steps.refunded in
      let i =
        stored_lem ctx from owner receiver net cpu transfer s steps.s1 steps.s2 steps.s3 h k sound
          steps.delegated steps.totalled refunded in
      let same =
        update_voting_power-Keeps depth ctx owner steps.total steps.s4 s' tt steps.voted
        ∙ update_rex_stake-Keeps ctx owner steps.s3 steps.s4 tt steps.saved in
      Stored-Staked ctx from owner receiver net cpu s steps.s3 s' steps.signed i same
