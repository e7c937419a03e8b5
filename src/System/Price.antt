-- ===== src/System/Price.antt =====
-- Memory is bought and sold at one price: the bytes that are reserved and what was paid for them stay
-- in proportion.
use ux_contracts.Prelude.{
  ℕ, ◌+◌, ◌-◌, ◌*◌, ◌/◌, ◌%◌, ◌^◌, ◌≡◌, sym, ap, subst, ◌∙◌, true, arith, ℤ, pos, negsuc, ltb_ℤ,
  ◌+ℤ◌, ◌-ℤ◌, times, int64, uint64, quot, add_64, sub_64,
}
use ux_contracts.Chain.Action.{ok}
use ux_contracts.Chain.Asset.{Asset}
use ux_contracts.Chain.Context.{Context}
use ux_contracts.Chain.Platform.{Platform}
use ux_contracts.Chain.Double.{Double}
use ux_contracts.Chain.Frame.{bind-ok, check-then}
use ux_contracts.System.Tables.{UserResources, ExchangeState}
use ux_contracts.System.State.{State, set_global}
use ux_contracts.System.RamSteps.{Sold, buyram-steps, sellram-steps, buyrambytes-buys}
use ux_contracts.System.Ram.{
  divides, update_ram_supply, bytes_for, tokens_for, reserve, buyram, buyrambytes, sellram, setram,
  setramrate, modify_market, update_ram_limit, put_resources,
}

-- 10000 units of the token of the memory for 1024 bytes, in words of 64 bits.
abbrev pub AtPrice : (reserved : ℕ) → (stake : ℤ) → Type 0
AtPrice reserved stake = 10000 * reserved % 2 ^ 64 ≡ 1024 * uint64 stake % 2 ^ 64

reserved_lem :
    (r w k : ℕ)
    → 10000 * r % 2 ^ 64 ≡ 1024 * w % 2 ^ 64
    → 10000 * ((r + 1024 * k % 2 ^ 64) % 2 ^ 64) % 2 ^ 64
      ≡ 1024 * ((w + 10000 * k) % 2 ^ 64) % 2 ^ 64
reserved_lem r w k e = omega arith

released_lem :
    (r w k : ℕ)
    → 10000 * r % 2 ^ 64 ≡ 1024 * w % 2 ^ 64
    → 10000 * ((r + (2 ^ 64 - 1024 * k % 2 ^ 64)) % 2 ^ 64) % 2 ^ 64
      ≡ 1024 * ((w + (2 ^ 64 - 10000 * k % 2 ^ 64)) % 2 ^ 64) % 2 ^ 64
released_lem r w k e = omega arith

uint64-int64 : (a : ℤ) → uint64 (int64 a) ≡ uint64 a
unfolding int64 uint64
uint64-int64 a = ground arith

uint64-sum : (a : ℤ) (n : ℕ) → uint64 (int64 (a +ℤ pos n)) ≡ (uint64 a + n) % 2 ^ 64
unfolding int64 uint64 ◌+ℤ◌
uint64-sum a n = ground arith

uint64-difference : (a b : ℤ) → uint64 (int64 (a -ℤ b)) ≡ (uint64 a + (2 ^ 64 - uint64 b)) % 2 ^ 64
unfolding int64 uint64 ◌-ℤ◌
uint64-difference a b = ground arith

uint64_pos : (n : ℕ) → uint64 (pos n) ≡ n % 2 ^ 64
unfolding uint64
uint64_pos n = omega arith

-- The amounts of a purchase and of a sale, in units of the price.
times_pos : (k n : ℕ) → times k (pos n) ≡ pos (k * n)
unfolding times
times_pos k n = ground arith

bytes_for_pos : (n : ℕ) → uint64 (bytes_for (pos n)) ≡ 1024 * (n / 10000) % 2 ^ 64
unfolding bytes_for quot
bytes_for_pos n =
    uint64-int64 (times 1024 (pos (n / 10000)))
    ∙ ap uint64 (times_pos 1024 (n / 10000))
    ∙ uint64_pos (1024 * (n / 10000))

tokens_for_pos : (n : ℕ) → uint64 (tokens_for (pos n)) ≡ 10000 * (n / 1024) % 2 ^ 64
unfolding tokens_for quot
tokens_for_pos n =
    uint64-int64 (times 10000 (pos (n / 1024)))
    ∙ ap uint64 (times_pos 10000 (n / 1024))
    ∙ uint64_pos (10000 * (n / 1024))

reserve-AtPrice :
    (r : ℕ) (stake amount : ℤ)
    → divides 10000 amount ≡ true
    → ltb_ℤ (pos 0) amount ≡ true
    → AtPrice r stake
    → AtPrice (add_64 r (uint64 (bytes_for amount))) (int64 (stake +ℤ amount))
reserve-AtPrice r stake (pos n) whole positive e =
    let unit : n ≡ 10000 * (n / 10000) = ground arith in
    rw (bytes_for_pos n) (
      rw (uint64-sum stake n) (
        subst
          (λ w.
            10000 * ((r + 1024 * (n / 10000) % 2 ^ 64) % 2 ^ 64) % 2 ^ 64
            ≡ 1024 * ((uint64 stake + w) % 2 ^ 64) % 2 ^ 64)
          (sym unit) (reserved_lem r (uint64 stake) (n / 10000) e)))
reserve-AtPrice r stake (negsuc n) whole positive e = absurd (ground arith)

release-AtPrice :
    (r : ℕ) (stake bytes : ℤ)
    → divides 1024 bytes ≡ true
    → ltb_ℤ (pos 0) bytes ≡ true
    → AtPrice r stake
    → AtPrice (sub_64 r (uint64 bytes)) (int64 (stake -ℤ tokens_for bytes))
release-AtPrice r stake (pos n) whole positive e =
    let unit : n ≡ 1024 * (n / 1024) = ground arith in
    let word : uint64 (pos n) ≡ 1024 * (n / 1024) % 2 ^ 64 =
      uint64_pos n ∙ ap (λ w. w % 2 ^ 64) unit in
    rw word (
      rw (uint64-difference stake (tokens_for (pos n)))
        (rw (tokens_for_pos n) (released_lem r (uint64 stake) (n / 1024) e)))
release-AtPrice r stake (negsuc n) whole positive e = absurd (ground arith)

module _ ⦃p : Platform⦄ ⦃d : Double⦄ where
  open p use {find}

  abbrev pub IsPriced : State → Type 0
  IsPriced s = AtPrice s.global.total_ram_bytes_reserved s.global.total_ram_stake

  -- The totals are those of another state.
  abbrev pub SameTotals : State → State → Type 0
  SameTotals s t =
      (t.global.total_ram_bytes_reserved ≡ s.global.total_ram_bytes_reserved)
      × (t.global.total_ram_stake ≡ s.global.total_ram_stake)

  SameTotals-IsPriced : (s t : State) → SameTotals s t → IsPriced s → IsPriced t
  SameTotals-IsPriced s t (e, f) h = rw e (rw f h)

  modify_market-SameTotals :
      (f : ExchangeState → ExchangeState) (s t : State)
      → modify_market f s ≡ ok (tt, t)
      → SameTotals s t
  modify_market-SameTotals f s t run = ground arith

  update_ram_supply-SameTotals :
      (cbt : ℕ) (s t : State) → update_ram_supply cbt s ≡ ok (tt, t) → SameTotals s t
  unfolding update_ram_supply
  update_ram_supply-SameTotals cbt s t run = ground arith

  -- What a purchase and a sale do last.
  bought-SameTotals :
      (self receiver : ℕ) (res : UserResources) (s : State)
      → SameTotals s (update_ram_limit self res (put_resources receiver receiver res s))
  bought-SameTotals self receiver res s = ground arith

  Sold-SameTotals :
      (self account : ℕ) (res : UserResources) (s t : State)
      → Sold self account res s t
      → SameTotals s t
  Sold-SameTotals self account res s t after = ground arith

  pub buyram-IsPriced :
      (ctx : Context) (cbt payer receiver : ℕ) (quant : Asset) (s t : State)
      → buyram ctx cbt payer receiver quant s ≡ ok (tt, t)
      → IsPriced s
      → IsPriced t
  buyram-IsPriced ctx cbt payer receiver quant s t run h =
      let steps = buyram-steps ctx cbt payer receiver quant s t run in
      let s1 = steps.s1 in
      let s3 : State = set_global (reserve (bytes_for quant.amount) quant.amount) steps.s2 in
      let h1 = SameTotals-IsPriced s s1 (update_ram_supply-SameTotals cbt s s1 steps.supplied) h in
      let h2 : IsPriced steps.s2 = subst IsPriced (sym steps.paid) h1 in
      let h3 : IsPriced s3 =
        reserve-AtPrice steps.s2.global.total_ram_bytes_reserved steps.s2.global.total_ram_stake
          quant.amount steps.whole steps.positive h2 in
      let last : State =
        update_ram_limit ctx.self steps.res (put_resources receiver receiver steps.res s3) in
      subst IsPriced (sym steps.after)
        (SameTotals-IsPriced s3 last (bought-SameTotals ctx.self receiver steps.res s3) h3)

  pub sellram-IsPriced :
      (ctx : Context) (cbt account : ℕ) (bytes : ℤ) (s t : State)
      → sellram ctx cbt account bytes s ≡ ok (tt, t)
      → IsPriced s
      → IsPriced t
  sellram-IsPriced ctx cbt account bytes s t run h =
      let steps = sellram-steps ctx cbt account bytes s t run in
      let s1 = steps.s1 in
      let h1 = SameTotals-IsPriced s s1 (update_ram_supply-SameTotals cbt s s1 steps.supplied) h in
      let h2 : IsPriced steps.s2 = subst IsPriced (sym steps.released) (
        release-AtPrice s1.global.total_ram_bytes_reserved s1.global.total_ram_stake bytes
          steps.whole steps.positive h1) in
      SameTotals-IsPriced steps.s2 t (Sold-SameTotals ctx.self account _ steps.s2 t steps.after) h2

  pub setram-IsPriced :
      (ctx : Context) (max_ram_size : ℕ) (s t : State)
      → setram ctx max_ram_size s ≡ ok (tt, t)
      → IsPriced s
      → IsPriced t
  unfolding setram
  setram-IsPriced ctx max_ram_size s t run = SameTotals-IsPriced s t (ground arith)

  pub setramrate-IsPriced :
      (ctx : Context) (cbt n : ℕ) (s t : State)
      → setramrate ctx cbt n s ≡ ok (tt, t)
      → IsPriced s
      → IsPriced t
  unfolding setramrate
  setramrate-IsPriced ctx cbt n s t run h =
      let (signed, r0) =
        check-then (ctx.has_auth ctx.self) "missing required authority" _ s t tt run in
      let (u1, s1, e1, r1) = bind-ok (update_ram_supply cbt) _ s t tt r0 in
      SameTotals-IsPriced s1 t (ground arith)
        (SameTotals-IsPriced s s1 (update_ram_supply-SameTotals cbt s s1 e1) h)

  pub buyrambytes-IsPriced :
      (ctx : Context) (cbt payer receiver bytes : ℕ) (s t : State)
      → buyrambytes ctx cbt payer receiver bytes s ≡ ok (tt, t)
      → IsPriced s
      → IsPriced t
  buyrambytes-IsPriced ctx cbt payer receiver bytes s t run =
      let (quant, bought) = buyrambytes-buys ctx cbt payer receiver bytes s t run in
      buyram-IsPriced ctx cbt payer receiver quant s t bought
