-- ===== src/System/Tests/Granting.antt =====
-- Runs of the actions on accounts, and of the limits that are set by hand.
use ux_contracts.Prelude.{
  ◌≡◌, ◌∷◌, refl, arith, none, some, List, [], pos, negsuc, int64, uint64, ◌+ℤ◌, ◌-ℤ◌, times, quot,
  neg, false,
}
use ux_contracts.Chain.Asset.{checked}
use ux_contracts.Chain.Context.{Context}
use ux_contracts.Chain.Platform.{checked_add}
use ux_contracts.Chain.Memory.{memory}
use ux_contracts.Chain.Millionths.{millionths}
use ux_contracts.System.Ram.{update_ram_supply, buyram, sellram, bytes_for, tokens_for}
use ux_contracts.System.Core.{newaccount}
use ux_contracts.System.Limits.{setalimits, setacctram}
use ux_contracts.System.RexStake.{update_rex_stake}
use ux_contracts.System.Bandwidth.{
  change_delegated, delegated_row, change_totals, totals_row, change_refund, move_refund,
}
use ux_contracts.System.Staking.{changebw, delegatebw, update_voting_power}
use ux_contracts.System.VoteHistory.{delegatebw_call, perform}
use ux_contracts.System.PriceHistory.{buyram_call, sellram_call, perform_ram}
use ux_contracts.System.Grants.{IsGranted}
use ux_contracts.System.GrantHistory.{
  AccountCall, newaccount_call, vote_call, ram_call, setalimits_call, setacctram_call,
  perform_account, run_accounts, run_accounts-IsGranted,
}
use ux_contracts.System.Tests.{names, at, tokens, empty}
use ux_contracts.System.Tests.Memory.{units}

-- Account 7 stakes and buys memory; its limit is set by hand, and given back after it has sold some.
abbrev calls : List (Context × AccountCall)
calls =
    (at 3, newaccount_call 1 7)
    ∷ (at 3, vote_call (delegatebw_call 7 7 (tokens (pos 30)) (tokens (pos 70)) false))
    ∷ (at 4, ram_call (buyram_call 5 8 7 (units (pos 30_000))))
    ∷ (at 5, setacctram_call 7 (some (pos 100)))
    ∷ (at 6, ram_call (sellram_call 7 7 (pos 2048)))
    ∷ []

-- An account without a row has no limits any more.
abbrev more_calls : List (Context × AccountCall)
more_calls =
    (at 7, setacctram_call 7 none)
    ∷ (at 8, setalimits_call 30 (negsuc 0) (negsuc 0) (negsuc 0))
    ∷ []

manages :
    (run_accounts 9 calls empty).limits 7 ≡ record { ram = pos 100; net = pos 30; cpu = pos 70 }
unfolding run_accounts perform_account perform perform_ram newaccount delegatebw changebw
    change_delegated delegated_row change_totals totals_row change_refund move_refund
    update_rex_stake update_voting_power buyram sellram update_ram_supply setacctram setalimits
    bytes_for tokens_for checked_add checked times quot int64 uint64 ◌+ℤ◌ ◌-ℤ◌ neg
manages = refl

gives_back :
    (run_accounts 9 more_calls (run_accounts 9 calls empty)).limits 7
    ≡ record { ram = pos 1024; net = pos 30; cpu = pos 70 }
unfolding run_accounts perform_account perform perform_ram newaccount delegatebw changebw
    change_delegated delegated_row change_totals totals_row change_refund move_refund
    update_rex_stake update_voting_power buyram sellram update_ram_supply setacctram setalimits
    bytes_for tokens_for checked_add checked times quot int64 uint64 ◌+ℤ◌ ◌-ℤ◌ neg
gives_back = refl

sets_free :
    (run_accounts 9 more_calls empty).limits 30
    ≡ record { ram = negsuc 0; net = negsuc 0; cpu = negsuc 0 }
unfolding run_accounts perform_account perform perform_ram newaccount delegatebw changebw
    change_delegated delegated_row change_totals totals_row change_refund move_refund
    update_rex_stake update_voting_power buyram sellram update_ram_supply setacctram setalimits
    bytes_for tokens_for checked_add checked times quot int64 uint64 ◌+ℤ◌ ◌-ℤ◌ neg
sets_free = refl

empty-IsGranted : IsGranted 1 empty
empty-IsGranted a row found = absurd (ground arith)

run_accounts-IsGranted_example : IsGranted 1 (run_accounts 9 calls empty)
run_accounts-IsGranted_example =
    run_accounts-IsGranted 9 1 calls empty (refl, (refl, (refl, (refl, (refl, tt)))))
      empty-IsGranted
