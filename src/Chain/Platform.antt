-- ===== src/Chain/Platform.antt =====
-- What the contracts take from the contract library and the chain: tables (`multi_index`) by scope
-- and primary key, and assets with checked arithmetic. Each law is documented behaviour.
use ux_contracts.Prelude.{
  List, contains, is_some, ℕ, ◌≡◌, Bool, ◌&&◌, Option, none, some, ◌==◌, if◌then◌else◌, ◌+ℤ◌, ◌-ℤ◌,
  int64, neg, ℤ,
}
use ux_contracts.Chain.Action.{Result, Action, ◌>>◌, check, pure}
use ux_contracts.Chain.Asset.{Symbol, Asset, in_range, checked}

-- The documented behaviour of `+=` and `-=`.
unfoldable pub checked_add : Asset → Asset → Result Asset
unfolding checked
checked_add a b =
    checked "attempt to add asset with different symbol" "addition underflow" "addition overflow" a
      b (int64 (a.amount +ℤ b.amount))

unfoldable pub checked_sub : Asset → Asset → Result Asset
unfolding checked
checked_sub a b =
    checked "attempt to subtract asset with different symbol" "subtraction underflow"
      "subtraction overflow" a b (int64 (a.amount -ℤ b.amount))

pub record Platform : Type 1 where
  -- A table of rows, in all its scopes; `put` adds a row or replaces it, for a payer of the memory.
  pub Table : Type 0 → Type 0
  pub find : {R : Type 0} → Table R → (scope key : ℕ) → Option R
  pub put : {R : Type 0} → Table R → (payer scope key : ℕ) → R → Table R
  pub drop : {R : Type 0} → Table R → (scope key : ℕ) → Table R
  pub find-put :
      {R : Type 0} (t : Table R) (payer scope key : ℕ) (r : R) (s k : ℕ)
      → find (put t payer scope key r) s k
        ≡ (if (scope == s) && (key == k) then some r else find t s k)
  pub find-drop :
      {R : Type 0} (t : Table R) (scope key s k : ℕ)
      → find (drop t scope key) s k ≡ (if (scope == s) && (key == k) then none else find t s k)
  -- The keys of a scope, as the iterators from `begin` to `end` meet them, and a key that is free.
  pub keys : {R : Type 0} → Table R → (scope : ℕ) → List ℕ
  pub contains-keys :
      {R : Type 0} (t : Table R) (s k : ℕ) → contains (keys t s) k ≡ is_some (find t s k)
  pub available_primary_key : {R : Type 0} → Table R → (scope : ℕ) → ℕ
  pub find-available :
      {R : Type 0} (t : Table R) (s : ℕ) → find t s (available_primary_key t s) ≡ none
  -- `symbol::is_valid`, `asset::is_valid`, `+=`, `-=` and unary `-` of assets.
  pub symbol_is_valid : Symbol → Bool
  pub asset_is_valid : Asset → Bool
  pub asset_add : Asset → Asset → Result Asset
  pub asset_sub : Asset → Asset → Result Asset
  pub asset_neg : Asset → Asset
  pub asset_is_valid_lem :
      (a : Asset) → asset_is_valid a ≡ (in_range a.amount && symbol_is_valid a.symbol)
  pub asset_add_lem : (a b : Asset) → asset_add a b ≡ checked_add a b
  pub asset_sub_lem : (a b : Asset) → asset_sub a b ≡ checked_sub a b
  pub asset_neg_lem : (a : Asset) → asset_neg a ≡ record a { amount = int64 (neg a.amount) }

-- `asset( amount, symbol )`
module _ {S : Type 0} ⦃p : Platform⦄ where
  abbrev pub make_asset : Symbol → ℤ → Action S Asset
  make_asset symbol amount = do
    check (in_range amount) "magnitude of asset amount must be less than 2^62"
    check (p.symbol_is_valid symbol) "invalid symbol name"
    pure (record { amount = amount; symbol = symbol })
