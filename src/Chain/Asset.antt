-- ===== src/Chain/Asset.antt =====
-- Assets and symbols: the public members of the library's classes, and its documented checks.
use ux_contracts.Prelude.{
  ℕ, ◌-◌, ◌^◌, ◌≤◌, ◌≡◌, Bool, true, ◌&&◌, ◌↔◌, String, arith, leb, ◌==◌, if◌then◌else◌, ℤ,
  pos_part, neg_part,
}
use ux_contracts.Chain.Action.{Result, ok, err}

pub record Symbol : Type 0 where
  pub code : ℕ
  pub precision : ℕ

pub record Asset : Type 0 where
  pub amount : ℤ
  pub symbol : Symbol

abbrev pub symbol_eq : Symbol → Symbol → Bool
symbol_eq a b = (a.code == b.code) && (a.precision == b.precision)

pub symbol_eq_iff : (a b : Symbol) → (symbol_eq a b ≡ true) ↔ (a ≡ b)
symbol_eq_iff a b = ground arith

-- `asset::max_amount`
abbrev pub max_amount : ℕ
max_amount = 2 ^ 62 - 1

abbrev pub in_range : ℤ → Bool
in_range a = leb (pos_part a) max_amount && leb (neg_part a) max_amount

abbrev pub IsInRange : ℤ → Type 0
IsInRange a = (pos_part a ≤ max_amount) × (neg_part a ≤ max_amount)

-- What a checked operation gives for the raw result `amount`: the symbols agree and it is in range.
unfoldable pub checked : String → String → String → Asset → Asset → ℤ → Result Asset
checked differ under over a b amount =
    if symbol_eq a.symbol b.symbol
    then if leb (neg_part amount) max_amount
      then if leb (pos_part amount) max_amount
        then ok (record { amount = amount; symbol = a.symbol })
        else err over
      else err under
    else err differ
