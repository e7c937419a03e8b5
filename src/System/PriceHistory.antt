-- ===== src/System/PriceHistory.antt =====
-- Any history of purchases and sales of memory, and of changes of its supply.
use ux_contracts.Prelude.{ℕ, ◌≡◌, refl, List, [], ◌∷◌, ℤ}
use ux_contracts.Chain.Action.{Result, Action, ok, err}
use ux_contracts.Chain.Asset.{Asset}
use ux_contracts.Chain.Context.{Context}
use ux_contracts.Chain.Platform.{Platform}
use ux_contracts.Chain.Double.{Double}
use ux_contracts.System.State.{State}
use ux_contracts.System.Ram.{buyram, buyrambytes, sellram, setram, setramrate}
use ux_contracts.System.Price.{
  IsPriced, buyram-IsPriced, buyrambytes-IsPriced, sellram-IsPriced, setram-IsPriced,
  setramrate-IsPriced,
}

-- The actions on memory, with the slot of the block where they read it.
pub data RamCall : Type 0 where
  buyram_call : (cbt payer receiver : ℕ) → Asset → RamCall
  buyrambytes_call : (cbt payer receiver bytes : ℕ) → RamCall
  sellram_call : (cbt account : ℕ) → ℤ → RamCall
  setram_call : ℕ → RamCall
  setramrate_call : (cbt bytes_per_block : ℕ) → RamCall

module _ ⦃p : Platform⦄ ⦃d : Double⦄ where
  unfoldable pub perform_ram : Context → RamCall → Action State (Unit {0})
  perform_ram ctx (buyram_call cbt payer receiver quant) = buyram ctx cbt payer receiver quant
  perform_ram ctx (buyrambytes_call cbt payer receiver bytes) =
      buyrambytes ctx cbt payer receiver bytes
  perform_ram ctx (sellram_call cbt account bytes) = sellram ctx cbt account bytes
  perform_ram ctx (setram_call max_ram_size) = setram ctx max_ram_size
  perform_ram ctx (setramrate_call cbt bytes_per_block) = setramrate ctx cbt bytes_per_block

  -- A call that fails changes nothing.
  abbrev settled_ram : Result (Unit {0} × State) → State → State
  settled_ram (ok (u, s')) s = s'
  settled_ram (err e) s = s

  unfoldable pub run_ram : List (Context × RamCall) → State → State
  run_ram [] s = s
  run_ram ((ctx, call) ∷ calls) s = run_ram calls (settled_ram (perform_ram ctx call s) s)

  perform_ram-IsPriced :
      (ctx : Context) (call : RamCall) (s t : State)
      → perform_ram ctx call s ≡ ok (tt, t)
      → IsPriced s
      → IsPriced t
  unfolding perform_ram
  perform_ram-IsPriced ctx (buyram_call cbt payer receiver quant) s t =
      buyram-IsPriced ctx cbt payer receiver quant s t
  perform_ram-IsPriced ctx (buyrambytes_call cbt payer receiver bytes) s t =
      buyrambytes-IsPriced ctx cbt payer receiver bytes s t
  perform_ram-IsPriced ctx (sellram_call cbt account bytes) s t =
      sellram-IsPriced ctx cbt account bytes s t
  perform_ram-IsPriced ctx (setram_call max_ram_size) s t = setram-IsPriced ctx max_ram_size s t
  perform_ram-IsPriced ctx (setramrate_call cbt bytes_per_block) s t =
      setramrate-IsPriced ctx cbt bytes_per_block s t

  settled_ram-IsPriced :
      (r : Result (Unit {0} × State)) (s : State)
      → IsPriced s
      → ((t : State) → r ≡ ok (tt, t) → IsPriced t)
      → IsPriced (settled_ram r s)
  settled_ram-IsPriced (ok (u, t)) s here after = after t refl
  settled_ram-IsPriced (err e) s here after = here

  -- From a state in which 10000 times the reserved bytes and 1024 times the stake of the memory are
  -- the same word of 64 bits, whatever is bought and sold of memory by anyone, and however its supply
  -- is changed, failed calls dropped: they are the same word after it.
  pub run_ram-IsPriced :
      (calls : List (Context × RamCall)) (s : State) → IsPriced s → IsPriced (run_ram calls s)
  unfolding run_ram
  run_ram-IsPriced [] s h = h
  run_ram-IsPriced ((ctx, call) ∷ calls) s h =
      run_ram-IsPriced calls (settled_ram (perform_ram ctx call s) s) (
        settled_ram-IsPriced (perform_ram ctx call s) s h
          (λ t e. perform_ram-IsPriced ctx call s t e h))
