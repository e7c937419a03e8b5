-- ===== src/Chain/Memory.antt =====
-- A platform that runs: tables as association lists. It shows that the laws of `Platform` can be met,
-- and the tests evaluate the contracts on it.
use Prim.Native.Nat.{max}
use ux_contracts.Prelude.{
  contains, is_some, ◌+◌, ◌≤◌, ℕ, ◌≡◌, refl, Bool, ◌&&◌, Option, none, some, List, [], ◌∷◌, arith,
  leb, ltb, ◌==◌, if◌then◌else◌, int64, neg,
}
use ux_contracts.Chain.Asset.{Symbol, in_range}
use ux_contracts.Chain.Platform.{Platform, checked_add, checked_sub}

abbrev pub Rows : Type 0 → Type 0
Rows R = List (ℕ × ℕ × R)

module _ {R : Type 0} where
  abbrev pub find : Rows R → ℕ → ℕ → Option R
  find [] s k = none
  find ((scope, key, r) ∷ t) s k = if (scope == s) && (key == k) then some r else find t s k

  abbrev pub drop : Rows R → ℕ → ℕ → Rows R
  drop [] s k = []
  drop ((scope, key, r) ∷ t) s k =
      let rest = drop t s k in if (scope == s) && (key == k) then rest else (scope, key, r) ∷ rest

  abbrev pub put : Rows R → ℕ → ℕ → ℕ → R → Rows R
  put t payer scope key r = (scope, key, r) ∷ drop t scope key

  pub find-drop :
      (t : Rows R) (scope key s k : ℕ)
      → find (drop t scope key) s k ≡ (if (scope == s) && (key == k) then none else find t s k)
  find-drop [] scope key s k = ground arith
  find-drop ((a, b, r) ∷ t) scope key s k = ground (arith, find-drop t scope key s k)

  pub find-put :
      (t : Rows R) (payer scope key : ℕ) (r : R) (s k : ℕ)
      → find (put t payer scope key r) s k
        ≡ (if (scope == s) && (key == k) then some r else find t s k)
  find-put t payer scope key r s k = ground (arith, find-drop t scope key s k)

  abbrev pub keys : Rows R → ℕ → List ℕ
  keys [] s = []
  keys ((scope, key, r) ∷ t) s = let rest = keys t s in if scope == s then key ∷ rest else rest

  pub contains-keys : (t : Rows R) (s k : ℕ) → contains (keys t s) k ≡ is_some (find t s k)
  contains-keys [] s k = refl
  contains-keys ((scope, key, r) ∷ t) s k = ground (arith, contains-keys t s k)

  -- One more than the greatest key.
  abbrev pub available_primary_key : Rows R → ℕ → ℕ
  available_primary_key [] s = 0
  available_primary_key ((scope, key, r) ∷ t) s =
      let rest = available_primary_key t s in if scope == s then max (key + 1) rest else rest

  find-above : (t : Rows R) (s k : ℕ) → available_primary_key t s ≤ k → find t s k ≡ none
  find-above [] s k h = refl
  find-above ((scope, key, r) ∷ t) s k h = ground (arith, find-above t s k)

  pub find-available : (t : Rows R) (s : ℕ) → find t s (available_primary_key t s) ≡ none
  find-available t s = find-above t s (available_primary_key t s) (omega arith)

-- A symbol with a code and at most 18 decimals is valid.
abbrev symbol_is_valid : Symbol → Bool
symbol_is_valid s = ltb 0 s.code && leb s.precision 18

instance abbrev pub memory : Platform
memory = record {
  Table = Rows;
  find = find;
  put = put;
  drop = drop;
  find-put = find-put;
  find-drop = find-drop;
  keys = keys;
  contains-keys = contains-keys;
  available_primary_key = available_primary_key;
  find-available = find-available;
  symbol_is_valid = symbol_is_valid;
  asset_is_valid = λ a. in_range a.amount && symbol_is_valid a.symbol;
  asset_add = checked_add;
  asset_sub = checked_sub;
  asset_neg = λ a. record a { amount = int64 (neg a.amount) };
  asset_is_valid_lem = λ a. refl;
  asset_add_lem = λ a b. refl;
  asset_sub_lem = λ a b. refl;
  asset_neg_lem = λ a. refl;
}
