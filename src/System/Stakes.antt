-- ===== src/System/Stakes.antt =====
-- What an account has staked, and what is to be refunded to it: each part of a change of bandwidth, where
-- the amounts are in range.
use ux_contracts.Prelude.{
  ℕ, ◌≡◌, refl, sym, ap, subst, ◌∙◌, Bool, true, false, ◌&&◌, Option, none, some, ◌==◌,
  if◌then◌else◌, arith, ℤ, pos, ◌≤ℤ◌, leb_ℤ, ◌+ℤ◌, +ℤ_parts, eq_of_parts, is_some,
}
use ux_contracts.Chain.Action.{ok}
use ux_contracts.Chain.Asset.{Asset, IsInRange}
use ux_contracts.Chain.Platform.{Platform}
use ux_contracts.Chain.Sums.{asset_add-exact, find-store}
use ux_contracts.Chain.Double.{Double}
use ux_contracts.Chain.Frame.{bind-ok, check-then, lift-then}
use ux_contracts.Token.Balances.{IsAmount}
use ux_contracts.System.Tables.{DelegatedBandwidth, is_empty_bandwidth}
use ux_contracts.System.State.{State}
use ux_contracts.System.Bandwidth.{delegated_row, store_delegated, change_delegated}

abbrev pub net_staked : Option DelegatedBandwidth → ℤ
net_staked none = pos 0
net_staked (some b) = b.net_weight.amount

abbrev pub cpu_staked : Option DelegatedBandwidth → ℤ
cpu_staked none = pos 0
cpu_staked (some b) = b.cpu_weight.amount

abbrev pub IsStake : DelegatedBandwidth → Type 0
IsStake b = IsAmount b.net_weight.amount × IsAmount b.cpu_weight.amount

pub amount-IsInRange : (a : ℤ) → IsAmount a → IsInRange a
amount-IsInRange a h = ground arith

pub zero-add : (a : ℤ) → a ≡ pos 0 +ℤ a
zero-add a = let e = +ℤ_parts (pos 0) a in eq_of_parts a (pos 0 +ℤ a) (omega arith)

pub IsAmount_of : (a : ℤ) → IsInRange a → pos 0 ≤ℤ a → IsAmount a
IsAmount_of a h k = ground arith

-- What holds of a row that is stored, and of the others, holds of any row found.
pub stored_lem :
    {R : Type 0} (P : R → Type 0) (row x : R) (is_empty hit : Bool) (other : Option R)
    → P row
    → (other ≡ some x → P x)
    → (if hit then if is_empty then none else some row else other) ≡ some x
    → P x
stored_lem P row x is_empty false other h k e = k e
stored_lem P row x true true other h k e = absurd (ground arith)
stored_lem P row x false true other h k e = let same : row ≡ x = ground arith in subst P same h

module _ ⦃p : Platform⦄ ⦃d : Double⦄ where
  open p use {find}

  -- Every stake is between zero and the maximum of an asset.
  abbrev pub IsStaked : State → Type 0
  IsStaked s = (from to : ℕ) (b : DelegatedBandwidth) → find s.delband from to ≡ some b → IsStake b

  -- The row after a change.
  delegated_row-exact :
      (from receiver : ℕ) (net cpu : Asset) (found : Option DelegatedBandwidth) (s s' : State)
      (row : DelegatedBandwidth)
      → IsInRange net.amount
      → IsInRange cpu.amount
      → ((b : DelegatedBandwidth) → found ≡ some b → IsStake b)
      → delegated_row from receiver net cpu found s ≡ ok (row, s')
      → (row.net_weight.amount ≡ net_staked found +ℤ net.amount)
        × (row.cpu_weight.amount ≡ cpu_staked found +ℤ cpu.amount)
        × IsInRange row.net_weight.amount
        × IsInRange row.cpu_weight.amount
        × (s' ≡ s)
  unfolding delegated_row
  delegated_row-exact from receiver net cpu none s s' row h k stake run =
      let e = zero-add net.amount in let f = zero-add cpu.amount in ground arith
  delegated_row-exact from receiver net cpu (some b) s s' row h k stake run =
      let (held_net, held_cpu) = stake b refl in
      let (n, e1, r1) = lift-then (p.asset_add b.net_weight net) _ s s' row run in
      let (c, e2, r2) = lift-then (p.asset_add b.cpu_weight cpu) _ s s' row r1 in
      let x = asset_add-exact b.net_weight net n (amount-IsInRange _ held_net) h e1 in
      let y = asset_add-exact b.cpu_weight cpu c (amount-IsInRange _ held_cpu) k e2 in ground arith

  -- What a change of a stake does.
  pub record Delegated (from receiver : ℕ) (net cpu : Asset) (s s' : State) : Type 0 where
    pub new_net : ℤ
    pub new_cpu : ℤ
    pub net_lem : new_net ≡ net_staked (find s.delband from receiver) +ℤ net.amount
    pub cpu_lem : new_cpu ≡ cpu_staked (find s.delband from receiver) +ℤ cpu.amount
    pub net_nonneg : pos 0 ≤ℤ new_net
    pub cpu_nonneg : pos 0 ≤ℤ new_cpu
    pub net_at :
        (a b : ℕ)
        → net_staked (find s'.delband a b)
          ≡ (if (from == a) && (receiver == b) then new_net else net_staked (find s.delband a b))
    pub cpu_at :
        (a b : ℕ)
        → cpu_staked (find s'.delband a b)
          ≡ (if (from == a) && (receiver == b) then new_cpu else cpu_staked (find s.delband a b))
    pub staked : IsStaked s'
    pub rest : s' ≡ record s { delband = s'.delband }

  net_stored :
      (row : DelegatedBandwidth) (hit : Bool) (other : Option DelegatedBandwidth)
      → net_staked (if hit then if is_empty_bandwidth row then none else some row else other)
        ≡ (if hit then row.net_weight.amount else net_staked other)
  net_stored row hit other = ground arith

  cpu_stored :
      (row : DelegatedBandwidth) (hit : Bool) (other : Option DelegatedBandwidth)
      → cpu_staked (if hit then if is_empty_bandwidth row then none else some row else other)
        ≡ (if hit then row.cpu_weight.amount else cpu_staked other)
  cpu_stored row hit other = ground arith

  pub change_delegated-Delegated :
      (from receiver : ℕ) (net cpu : Asset) (s s' : State)
      → IsInRange net.amount
      → IsInRange cpu.amount
      → IsStaked s
      → change_delegated from receiver net cpu s ≡ ok (tt, s')
      → Delegated from receiver net cpu s s'
  unfolding change_delegated
  change_delegated-Delegated from receiver net cpu s s' h k stake run =
      let found = find s.delband from receiver in
      let (row, s1, e1, r1) = bind-ok (delegated_row from receiver net cpu found) _ s s' tt run in
      let (net_sum, cpu_sum, net_in, cpu_in, same) =
        delegated_row-exact from receiver net cpu found s s1 row h k (stake from receiver) e1 in
      let (net_nonneg, r2) =
        check-then (leb_ℤ (pos 0) row.net_weight.amount) "insufficient staked net bandwidth" _ s1 s'
          tt r1 in
      let (cpu_nonneg, r3) =
        check-then (leb_ℤ (pos 0) row.cpu_weight.amount) "insufficient staked cpu bandwidth" _ s1 s'
          tt r2 in
      let payer = if is_some found then 0 else from in
      let after : s' ≡ store_delegated payer from receiver row s = ground arith in
      let at : (a b : ℕ)
          → find s'.delband a b ≡ (
              if (from == a) && (receiver == b)
              then if is_empty_bandwidth row then none else some row
              else find s.delband a b) =
        λ a b.
          ap (λ (w : State). find w.delband a b) after
          ∙ find-store (is_empty_bandwidth row) s.delband payer from receiver row a b in
      record {
        new_net = row.net_weight.amount;
        new_cpu = row.cpu_weight.amount;
        net_lem = net_sum;
        cpu_lem = cpu_sum;
        net_nonneg = ground arith;
        cpu_nonneg = ground arith;
        net_at = λ a b.
            ap net_staked (at a b)
            ∙ net_stored row ((from == a) && (receiver == b)) (find s.delband a b);
        cpu_at = λ a b.
            ap cpu_staked (at a b)
            ∙ cpu_stored row ((from == a) && (receiver == b)) (find s.delband a b);
        staked = λ a b x there.
            stored_lem IsStake row x (is_empty_bandwidth row) ((from == a) && (receiver == b)) _
              (ground arith) (stake a b x) (sym (at a b) ∙ there);
        rest = rw after refl;
      }
