-- ===== src/Chain/Sums.antt =====
-- Checked arithmetic on amounts that are in range: where it goes through, it is exact. And rows that are
-- erased when nothing is left in them.
use ux_contracts.Prelude.{
  ℕ, ◌≡◌, refl, Bool, true, false, ◌&&◌, none, some, ◌==◌, if◌then◌else◌, arith, ℤ, ◌+ℤ◌, ◌-ℤ◌, neg,
  IsInt64, int64_id,
}
use ux_contracts.Chain.Action.{ok}
use ux_contracts.Chain.Asset.{Asset, IsInRange, checked}
use ux_contracts.Chain.Platform.{Platform, checked_add, checked_sub}

pub sum-IsInt64 : (a b : ℤ) → IsInRange a → IsInRange b → IsInt64 (a +ℤ b)
unfolding ◌+ℤ◌
sum-IsInt64 a b h k = ground arith

pub difference-IsInt64 : (a b : ℤ) → IsInRange a → IsInRange b → IsInt64 (a -ℤ b)
unfolding ◌-ℤ◌
difference-IsInt64 a b h k = ground arith

pub neg-IsInRange : (a : ℤ) → IsInRange a → IsInRange (neg a)
unfolding neg
neg-IsInRange a h = ground arith

in_range-IsInt64 : (a : ℤ) → IsInRange a → IsInt64 a
in_range-IsInt64 a h = ground arith

module _ ⦃p : Platform⦄ where
  open p use {find, put, drop, find-put, find-drop, asset_add, asset_sub, asset_neg}

  pub asset_add-exact :
      (a b c : Asset)
      → IsInRange a.amount
      → IsInRange b.amount
      → asset_add a b ≡ ok c
      → (c.amount ≡ a.amount +ℤ b.amount) × (c.symbol ≡ a.symbol) × IsInRange c.amount
  unfolding checked_add checked
  asset_add-exact a b c h k e =
      let i = int64_id (a.amount +ℤ b.amount) (sum-IsInt64 a.amount b.amount h k) in
      let e' : checked_add a b ≡ ok c = rw (p.asset_add_lem a b) at e in
      let e2 = rw i at e' in ground arith

  pub asset_sub-exact :
      (a b c : Asset)
      → IsInRange a.amount
      → IsInRange b.amount
      → asset_sub a b ≡ ok c
      → (c.amount ≡ a.amount -ℤ b.amount) × (c.symbol ≡ a.symbol) × IsInRange c.amount
  unfolding checked_sub checked
  asset_sub-exact a b c h k e =
      let i = int64_id (a.amount -ℤ b.amount) (difference-IsInt64 a.amount b.amount h k) in
      let e' : checked_sub a b ≡ ok c = rw (p.asset_sub_lem a b) at e in
      let e2 = rw i at e' in ground arith

  pub asset_neg-exact :
      (a : Asset)
      → IsInRange a.amount
      → ((asset_neg a).amount ≡ neg a.amount) × ((asset_neg a).symbol ≡ a.symbol)
  asset_neg-exact a h =
      let i =
        int64_id (neg a.amount) (in_range-IsInt64 (neg a.amount) (neg-IsInRange a.amount h)) in
      rw (p.asset_neg_lem a) (i, refl)

  module _ {R : Type 0} where
    -- `table.modify( row ); if( row.is_empty() ) table.erase( row )`
    abbrev pub store : Bool → p.Table R → (payer scope key : ℕ) → R → p.Table R
    store is_empty t payer scope key r =
        let t' = put t payer scope key r in if is_empty then drop t' scope key else t'

    pub find-store :
        (is_empty : Bool) (t : p.Table R) (payer scope key : ℕ) (r : R) (s k : ℕ)
        → find (store is_empty t payer scope key r) s k
          ≡ (if (scope == s) && (key == k) then if is_empty then none else some r else find t s k)
    find-store true t payer scope key r s k =
        ground (
          arith,
          find-drop (put t payer scope key r) scope key s k,
          find-put t payer scope key r s k,
        )
    find-store false t payer scope key r s k = find-put t payer scope key r s k
