-- ===== src/Chain/Double.antt =====
-- What the contracts use of `double` and of the mathematics library, as a record of operations: no
-- theorem depends on how the numbers round.
use ux_contracts.Prelude.{ℕ, Bool, ℤ, pos}

pub record Double : Type 1 where
  pub F : Type 0
  -- the conversions from integers, and the literal with the given digits and number of decimals
  pub of_ℤ : ℤ → F
  pub decimal : (digits decimals : ℕ) → F
  pub add : F → F → F
  pub sub : F → F → F
  pub mul : F → F → F
  pub div : F → F → F
  pub minus : F → F
  pub pow : F → F → F
  pub log : F → F
  pub exp : F → F
  pub fmin : F → F → F
  pub lt : F → F → Bool
  pub le : F → F → Bool
  pub fabs : F → F
  pub log1p : F → F
  -- `static_cast<int64_t>`
  pub to_int64 : F → ℤ

module _ ⦃d : Double⦄ where
  abbrev pub of_ℕ : ℕ → d.F
  of_ℕ n = d.of_ℤ (pos n)
