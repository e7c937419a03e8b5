-- ===== src/System/Tests/SelfStaking.antt =====
-- A run in which an active producer takes back a part of its stake.
use ux_contracts.Prelude.{
  ◌≡◌, refl, true, false, none, [], ◌∷◌, pos, arith, ◌+ℤ◌, ◌≤ℤ◌, neg, int64, uint64,
}
use ux_contracts.Chain.Action.{ok}
use ux_contracts.Chain.Asset.{checked}
use ux_contracts.Chain.Platform.{checked_add}
use ux_contracts.Chain.Memory.{memory}
use ux_contracts.Chain.Millionths.{millionths}
use ux_contracts.System.State.{State}
use ux_contracts.System.Staking.{
  changebw, update_voting_power, undelegatebw, self_stake, is_active_producer,
}
use ux_contracts.System.RexStake.{update_rex_stake}
use ux_contracts.System.Bandwidth.{
  change_delegated, delegated_row, change_totals, totals_row, change_refund, move_refund,
  create_refund, new_part,
}
use ux_contracts.System.Held.{IsSound, staked_to}
use ux_contracts.System.Delegation.{changebw-Staked}
use ux_contracts.System.SelfStake.{undelegatebw-keeps}
use ux_contracts.System.Tests.{names, at, tokens, empty, settled}

-- A producer with 11 million tokens staked to itself takes back half a million.
abbrev producing : State
producing = record empty {
  producers =
      (
        1,
        7,
        record {
          owner = 7;
          total_votes = 0;
          producer_key = 1;
          is_active = true;
          url = "";
          unpaid_blocks = 0;
          last_claim_time = 0;
          location = 0;
          producer_authority = none;
        },
      )
      ∷ [];
}

abbrev backed : State
unfolding changebw change_delegated delegated_row change_totals totals_row change_refund move_refund
    update_rex_stake update_voting_power checked_add checked int64 uint64 ◌+ℤ◌
backed = settled (
    changebw 9 (at 3) 7 7 (tokens (pos 60_000_000_000)) (tokens (pos 50_000_000_000)) false
      producing)

backs_it :
    changebw 9
      (at 3)
      7
      7
      (tokens (pos 60_000_000_000))
      (tokens (pos 50_000_000_000))
      false
      producing
    ≡ ok (tt, backed)
unfolding changebw change_delegated delegated_row change_totals totals_row change_refund move_refund
    update_rex_stake update_voting_power checked_add checked int64 uint64 ◌+ℤ◌ backed
backs_it = refl

producing-IsSound : IsSound producing
producing-IsSound = (
  λ a b r e. absurd (ground arith),
  λ a b r e. absurd (ground arith),
  λ a b r e. absurd (ground arith),
)

backed-IsSound : IsSound backed
backed-IsSound =
    (changebw-Staked 9 (at 3) 7 7 (tokens (pos 60_000_000_000)) (tokens (pos 50_000_000_000)) false
      producing backed (omega arith, omega arith) (omega arith, omega arith) producing-IsSound
      (λ e. ground arith) backs_it).sound

abbrev reduced : State
unfolding undelegatebw changebw change_delegated delegated_row change_totals totals_row
    change_refund move_refund create_refund new_part update_rex_stake update_voting_power
    checked_add checked int64 uint64 ◌+ℤ◌ neg backed
reduced =
    settled
      (undelegatebw 9 (at 4) 7 7 (tokens (pos 2_000_000_000)) (tokens (pos 3_000_000_000)) backed)

reduces :
    undelegatebw 9 (at 4) 7 7 (tokens (pos 2_000_000_000)) (tokens (pos 3_000_000_000)) backed
    ≡ ok (tt, reduced)
unfolding undelegatebw changebw change_delegated delegated_row change_totals totals_row
    change_refund move_refund create_refund new_part update_rex_stake update_voting_power
    checked_add checked int64 uint64 ◌+ℤ◌ neg backed reduced
reduces = refl

is_producing : is_active_producer (memory.find backed.producers 1 7) ≡ true
unfolding backed changebw change_delegated delegated_row change_totals totals_row change_refund
    move_refund update_rex_stake update_voting_power checked_add checked int64 uint64 ◌+ℤ◌
is_producing = refl

has_enough : pos self_stake ≤ℤ staked_to backed 7 7
unfolding backed changebw change_delegated delegated_row change_totals totals_row change_refund
    move_refund update_rex_stake update_voting_power checked_add checked int64 uint64 ◌+ℤ◌
has_enough = ground arith

undelegatebw-keeps_example : pos self_stake ≤ℤ staked_to reduced 7 7
undelegatebw-keeps_example =
    undelegatebw-keeps 9 (at 4) 7 7 (tokens (pos 2_000_000_000)) (tokens (pos 3_000_000_000)) backed
      reduced (omega arith, omega arith) (omega arith, omega arith) backed-IsSound
      (λ e. ground arith) is_producing has_enough reduces
