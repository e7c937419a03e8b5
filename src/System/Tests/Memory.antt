-- ===== src/System/Tests/Memory.antt =====
-- Runs of the actions on memory.
use ux_contracts.Prelude.{◌≡◌, ◌∷◌, refl, List, [], ℤ, pos, int64, uint64, ◌+ℤ◌, ◌-ℤ◌, times, quot}
use ux_contracts.Chain.Asset.{Asset}
use ux_contracts.Chain.Context.{Context}
use ux_contracts.Chain.Memory.{memory}
use ux_contracts.Chain.Millionths.{millionths}
use ux_contracts.System.Tables.{ramcore_symbol}
use ux_contracts.System.Ram.{
  update_ram_supply, buyram, buyrambytes, sellram, setram, setramrate, bytes_for, tokens_for,
}
use ux_contracts.System.Price.{IsPriced}
use ux_contracts.System.PriceHistory.{
  RamCall, buyram_call, buyrambytes_call, sellram_call, setram_call, setramrate_call, perform_ram,
  run_ram, run_ram-IsPriced,
}
use ux_contracts.System.Tests.{names, at, empty}

abbrev pub units : ℤ → Asset
units amount = record { amount = amount; symbol = ramcore_symbol }

-- Of the purchases the second fails, since it is not of whole kilobytes.
abbrev trades : List (Context × RamCall)
trades =
    (at 3, setramrate_call 3 100)
    ∷ (at 4, buyram_call 5 8 7 (units (pos 30_000)))
    ∷ (at 4, buyram_call 5 8 7 (units (pos 30_001)))
    ∷ (at 5, buyrambytes_call 6 7 7 2048)
    ∷ (at 6, sellram_call 7 7 (pos 4096))
    ∷ (at 7, setram_call 20_000_000_000)
    ∷ []

reserves : (run_ram trades empty).global.total_ram_bytes_reserved ≡ 1024
unfolding run_ram perform_ram buyram buyrambytes sellram setram setramrate update_ram_supply
    bytes_for tokens_for times quot int64 uint64 ◌+ℤ◌ ◌-ℤ◌
reserves = refl

stakes_units : (run_ram trades empty).global.total_ram_stake ≡ pos 10_000
unfolding run_ram perform_ram buyram buyrambytes sellram setram setramrate update_ram_supply
    bytes_for tokens_for times quot int64 uint64 ◌+ℤ◌ ◌-ℤ◌
stakes_units = refl

empty-IsPriced : IsPriced empty
unfolding uint64
empty-IsPriced = refl

run_ram-IsPriced_example : IsPriced (run_ram trades empty)
run_ram-IsPriced_example = run_ram-IsPriced trades empty empty-IsPriced
