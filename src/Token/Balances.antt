-- ===== src/Token/Balances.antt =====
-- The two private functions of the token contract that change a balance, on rows that are sound.
use ux_contracts.Prelude.{
  ℕ, ◌≡◌, none, some, if◌then◌else◌, arith, ℤ, pos, ◌≤ℤ◌, ◌+ℤ◌, ◌-ℤ◌, leb_ℤ, int64_id, +ℤ_parts,
  -ℤ_parts, IsInt64,
}
use ux_contracts.Chain.Action.{ok, err}
use ux_contracts.Chain.Asset.{Asset, symbol_eq, max_amount}
use ux_contracts.Chain.Platform.{Platform, checked_add, checked_sub}
use ux_contracts.Token.{Account, State, find_account, sub_balance, add_balance}

-- An amount that a balance may hold.
abbrev pub IsAmount : ℤ → Type 0
IsAmount a = (pos 0 ≤ℤ a) × (a ≤ℤ pos max_amount)

sum-IsInt64 : (a b : ℤ) → IsAmount a → IsAmount b → IsInt64 (a +ℤ b)
unfolding ◌+ℤ◌
sum-IsInt64 a b h k = ground arith

pub difference-IsInt64 : (a b : ℤ) → IsAmount a → IsAmount b → IsInt64 (a -ℤ b)
unfolding ◌-ℤ◌
difference-IsInt64 a b h k = ground arith

module _ ⦃p : Platform⦄ where
  open p use {find, put, asset_add, asset_sub, asset_add_lem, asset_sub_lem}

  -- The balance of an account, zero where there is no row.
  abbrev pub balance : State → ℕ → ℕ → ℤ
  balance s owner code = elim (find_account s owner code) [
    | none ↦ pos 0
    | some a ↦ a.balance.amount
  ]

  pub balance_some :
      (s : State) (owner code : ℕ) (a : Account)
      → find_account s owner code ≡ some a
      → balance s owner code ≡ a.balance.amount
  balance_some s owner code a f = ground arith

  pub balance_none :
      (s : State) (owner code : ℕ) → find_account s owner code ≡ none → balance s owner code ≡ pos 0
  balance_none s owner code f = ground arith

  abbrev pub with_balance : State → ℕ → ℕ → ℕ → Asset → State
  with_balance s payer owner code a = record s {
    accounts = put s.accounts payer owner code (record { balance = a });
  }

  pub asset_sub-eq :
      (a b : Asset)
      → IsAmount a.amount
      → IsAmount b.amount
      → asset_sub a b ≡ (
          if symbol_eq a.symbol b.symbol
          then ok (record { amount = a.amount -ℤ b.amount; symbol = a.symbol })
          else err "attempt to subtract asset with different symbol")
  unfolding checked_sub
  asset_sub-eq a b ha hb =
      rw (asset_sub_lem a b, int64_id (a.amount -ℤ b.amount) (difference-IsInt64 _ _ ha hb))
        (ground (arith, -ℤ_parts a.amount b.amount))

  pub asset_add-eq :
      (a b : Asset)
      → IsAmount a.amount
      → IsAmount b.amount
      → asset_add a b ≡ (
          if symbol_eq a.symbol b.symbol
          then if leb_ℤ (a.amount +ℤ b.amount) (pos max_amount)
            then ok (record { amount = a.amount +ℤ b.amount; symbol = a.symbol })
            else err "addition overflow"
          else err "attempt to add asset with different symbol")
  unfolding checked_add
  asset_add-eq a b ha hb =
      rw (asset_add_lem a b, int64_id (a.amount +ℤ b.amount) (sum-IsInt64 _ _ ha hb))
        (ground (arith, +ℤ_parts a.amount b.amount))

  pub sub_balance-eq :
      (owner : ℕ) (v : Asset) (s : State) (a : Account)
      → find_account s owner v.symbol.code ≡ some a
      → IsAmount a.balance.amount
      → IsAmount v.amount
      → sub_balance owner v s ≡ (
          if leb_ℤ v.amount a.balance.amount
          then if symbol_eq a.balance.symbol v.symbol
            then ok (
              tt,
              with_balance s owner owner v.symbol.code
                  (record { amount = a.balance.amount -ℤ v.amount; symbol = a.balance.symbol }),
            )
            else err "attempt to subtract asset with different symbol"
          else err "overdrawn balance")
  unfolding sub_balance
  sub_balance-eq owner v s a e ha hv = ground (arith, asset_sub-eq a.balance v ha hv)

  pub add_balance-eq :
      (owner : ℕ) (v : Asset) (payer : ℕ) (s : State) (a : Account)
      → find_account s owner v.symbol.code ≡ some a
      → IsAmount a.balance.amount
      → IsAmount v.amount
      → add_balance owner v payer s ≡ (
          if symbol_eq a.balance.symbol v.symbol
          then if leb_ℤ (a.balance.amount +ℤ v.amount) (pos max_amount)
            then ok (
              tt,
              with_balance s 0 owner v.symbol.code
                  (record { amount = a.balance.amount +ℤ v.amount; symbol = a.balance.symbol }),
            )
            else err "addition overflow"
          else err "attempt to add asset with different symbol")
  unfolding add_balance
  add_balance-eq owner v payer s a e ha hv = ground (arith, asset_add-eq a.balance v ha hv)

  pub add_balance-new :
      (owner : ℕ) (v : Asset) (payer : ℕ) (s : State)
      → find_account s owner v.symbol.code ≡ none
      → add_balance owner v payer s ≡ ok (tt, with_balance s payer owner v.symbol.code v)
  unfolding add_balance
  add_balance-new owner v payer s e = ground arith

  pub sub_balance_missing :
      (owner : ℕ) (v : Asset) (s : State)
      → find_account s owner v.symbol.code ≡ none
      → sub_balance owner v s ≡ err "no balance object found"
  unfolding sub_balance
  sub_balance_missing owner v s e = ground arith
