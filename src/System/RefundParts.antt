-- ===== src/System/RefundParts.antt =====
-- The parts of a refund: what each of them is before and after a change of the stake.
use ux_contracts.Prelude.{
  ℕ, ◌≡◌, Bool-cases, refl, sym, subst, true, false, Option, none, some, arith, ℤ, pos, ltb_ℤ, ◌+ℤ◌,
  ◌-ℤ◌, neg, +ℤ_parts, -ℤ_parts, neg_parts, eq_of_parts, inl, inr,
}
use ux_contracts.Chain.Action.{ok}
use ux_contracts.Chain.Asset.{Asset, IsInRange}
use ux_contracts.Chain.Platform.{Platform}
use ux_contracts.Chain.Sums.{asset_sub-exact, asset_neg-exact}
use ux_contracts.Chain.Double.{Double}
use ux_contracts.Chain.Frame.{lift-then}
use ux_contracts.Token.Balances.{IsAmount}
use ux_contracts.System.Tables.{RefundRequest}
use ux_contracts.System.State.{State}
use ux_contracts.System.Stakes.{amount-IsInRange}
use ux_contracts.System.Bandwidth.{settle_part, new_part}

abbrev pub net_refund : Option RefundRequest → ℤ
net_refund none = pos 0
net_refund (some r) = r.net_amount.amount

abbrev pub cpu_refund : Option RefundRequest → ℤ
cpu_refund none = pos 0
cpu_refund (some r) = r.cpu_amount.amount

abbrev pub IsRefund : RefundRequest → Type 0
IsRefund r = IsAmount r.net_amount.amount × IsAmount r.cpu_amount.amount

-- A part: `held` before, `left` after, where `balance` was added to the stake and `more` of it is still
-- to be transferred.
pub record Settled (held balance left more : ℤ) : Type 0 where
  pub left_lem : left +ℤ balance ≡ held +ℤ more
  pub left_IsAmount : IsAmount left
  pub more_IsAmount : IsAmount more

Settled-less :
    (held balance left more : ℤ)
    → IsInRange left
    → left ≡ held -ℤ balance
    → ltb_ℤ left (pos 0) ≡ true
    → more ≡ neg left
    → Settled held balance (pos 0) more
Settled-less held balance left more h e f g =
    let d = -ℤ_parts held balance in
    let n = neg_parts left in
    let a = +ℤ_parts (pos 0) balance in
    let b = +ℤ_parts held more in
    record {
      left_lem = eq_of_parts _ _ ground arith;
      left_IsAmount = ground arith;
      more_IsAmount = ground arith;
    }

Settled-more :
    (held balance left : ℤ)
    → IsInRange left
    → left ≡ held -ℤ balance
    → ltb_ℤ left (pos 0) ≡ false
    → Settled held balance left (pos 0)
Settled-more held balance left h e f =
    let d = -ℤ_parts held balance in
    let a = +ℤ_parts left balance in
    let b = +ℤ_parts held (pos 0) in
    record {
      left_lem = eq_of_parts _ _ ground arith;
      left_IsAmount = ground arith;
      more_IsAmount = ground arith;
    }

-- A part that is not held yet: what is taken back is held, what is added is to be transferred.
Settled-new :
    (balance : ℤ)
    → IsInRange balance
    → ltb_ℤ balance (pos 0) ≡ true
    → Settled (pos 0) balance (neg balance) (pos 0)
Settled-new balance h f =
    let n = neg_parts balance in
    let a = +ℤ_parts (neg balance) balance in
    let b = +ℤ_parts (pos 0) (pos 0) in
    record {
      left_lem = eq_of_parts _ _ (ground arith);
      left_IsAmount = ground arith;
      more_IsAmount = ground arith;
    }

pub Settled-none :
    (balance : ℤ)
    → IsInRange balance
    → ltb_ℤ balance (pos 0) ≡ false
    → Settled (pos 0) balance (pos 0) balance
Settled-none balance h f = record {
  left_lem = refl;
  left_IsAmount = ground arith;
  more_IsAmount = ground arith;
}

module _ ⦃p : Platform⦄ ⦃d : Double⦄ where
  open p use {find, find-put}

  abbrev pub AreRefunds : State → Type 0
  AreRefunds s =
      (scope owner : ℕ) (r : RefundRequest) → find s.refunds scope owner ≡ some r → IsRefund r

  pub settle_part-Settled :
      (held balance : Asset) (s s' : State) (parts : Asset × Asset)
      → IsAmount held.amount
      → IsInRange balance.amount
      → settle_part held balance s ≡ ok (parts, s')
      → Settled held.amount balance.amount parts.0.amount parts.1.amount × (s' ≡ s)
  unfolding settle_part
  settle_part-Settled held balance s s' parts h k run =
      let (left, e, r1) = lift-then (p.asset_sub held balance) _ s s' parts run in
      let (amount, symbol, within) = asset_sub-exact held balance left (amount-IsInRange _ h) k e in
      let (opposite, other_symbol) = asset_neg-exact left within in
      elim (Bool-cases (ltb_ℤ left.amount (pos 0))) [
        | inl less ↦
            let e0 : parts.0.amount ≡ pos 0 = ground arith in
            let e1 : parts.1.amount ≡ neg left.amount = ground (arith, opposite) in
            (
              subst (λ w. Settled held.amount balance.amount w parts.1.amount) (sym e0)
                  (Settled-less held.amount balance.amount left.amount parts.1.amount within amount
                    less e1),
              ground arith,
            )
        | inr more ↦
            let e0 : parts.0.amount ≡ left.amount = ground arith in
            let e1 : parts.1.amount ≡ pos 0 = ground arith in
            (
              rw (e0, e1) (Settled-more held.amount balance.amount left.amount within amount more),
              ground arith,
            )
      ]

  pub new_part-Settled :
      (balance : Asset) (s s' : State) (parts : Asset × Asset)
      → IsInRange balance.amount
      → new_part balance s ≡ ok (parts, s')
      → Settled (pos 0) balance.amount parts.0.amount parts.1.amount × (s' ≡ s)
  unfolding new_part
  new_part-Settled balance s s' parts k run =
      let (opposite, other_symbol) = asset_neg-exact balance k in
      elim (Bool-cases (ltb_ℤ balance.amount (pos 0))) [
        | inl less ↦
            let e0 : parts.0.amount ≡ neg balance.amount = ground (arith, opposite) in
            let e1 : parts.1.amount ≡ pos 0 = ground arith in
            (rw (e0, e1) (Settled-new balance.amount k less), ground arith)
        | inr more ↦
            let e0 : parts.0.amount ≡ pos 0 = ground arith in
            let e1 : parts.1.amount ≡ balance.amount = ground arith in
            (rw (e0, e1) (Settled-none balance.amount k more), ground arith)
      ]
