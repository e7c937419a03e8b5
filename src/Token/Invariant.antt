-- ===== src/Token/Invariant.antt =====
-- When the rows of the token contract are sound, and what the two balance functions then do.
use ux_contracts.Prelude.{
  ℕ, ◌≡◌, refl, none, some, ◌&&◌, ◌==◌, if◌then◌else◌, arith, ℤ, pos, ◌≤ℤ◌, ◌+ℤ◌, ◌-ℤ◌,
  Option-cases, Bool-cases, inl, inr, int_laws,
}
use ux_contracts.Chain.Action.{ok}
use ux_contracts.Chain.Asset.{Asset, max_amount}
use ux_contracts.Chain.Platform.{Platform}
use ux_contracts.Token.{
  Account, CurrencyStats, State, find_account, find_stat, sub_balance, add_balance,
}
use ux_contracts.Token.Balances.{
  IsAmount, balance, with_balance, sub_balance-eq, add_balance-eq, add_balance-new,
  sub_balance_missing, balance_some, balance_none,
}

-- A symbol's row: its key is the code, and 0 <= supply <= max_supply.
pub record IsStat (code : ℕ) (st : CurrencyStats) : Type 0 where
  pub keyed : st.supply.symbol.code ≡ code
  pub same_symbol : st.max_supply.symbol ≡ st.supply.symbol
  pub supply_nonneg : pos 0 ≤ℤ st.supply.amount
  pub supply_le_max : st.supply.amount ≤ℤ st.max_supply.amount
  pub max_in_range : st.max_supply.amount ≤ℤ pos max_amount

zero_plus : (a : ℤ) → pos 0 +ℤ a ≡ a
zero_plus a = omega int_laws

module _ ⦃p : Platform⦄ where
  open p use {Table, find, put, find-put}

  -- A balance row has the symbol of its token, and an amount that is not negative.
  pub record IsRow (stats : Table CurrencyStats) (code : ℕ) (a : Account) : Type 0 where
    pub stat : CurrencyStats
    pub found : find stats code code ≡ some stat
    pub same_symbol : a.balance.symbol ≡ stat.supply.symbol
    pub is_amount : IsAmount a.balance.amount

  pub record IsSound (s : State) : Type 0 where
    pub stats : (code : ℕ) (st : CurrencyStats) → find_stat s code ≡ some st → IsStat code st
    pub rows :
        (owner code : ℕ) (a : Account) → find_account s owner code ≡ some a → IsRow s.stat code a

  -- `balances'` is `balances` but for one entry, which is now `amount`.
  abbrev pub Updates : State → State → ℕ → ℕ → ℤ → Type 0
  Updates s s' owner code amount =
      (o c : ℕ) → balance s' o c ≡ (if (owner == o) && (code == c) then amount else balance s o c)

  pub with_balance-Updates :
      (s : State) (payer owner code : ℕ) (a : Asset)
      → Updates s (with_balance s payer owner code a) owner code a.amount
  with_balance-Updates s payer owner code a o c =
      ground (arith, find-put s.accounts payer owner code (record { balance = a }) o c)

  with_balance-IsRow :
      (s : State) (payer owner code : ℕ) (a : Asset) (st : CurrencyStats)
      → IsSound s
      → find_stat s code ≡ some st
      → a.symbol ≡ st.supply.symbol
      → IsAmount a.amount
      → (o c : ℕ) (b : Account)
      → (if (owner == o) && (code == c) then some (record { balance = a }) else find_account s o c)
        ≡ some b
      → IsRow s.stat c b
  with_balance-IsRow s payer owner code a st h e same amt o c b =
      elim (Bool-cases ((owner == o) && (code == c))) [
        | inl same_key ↦ λ f. record {
          stat = st;
          found = ground arith;
          same_symbol = ground arith;
          is_amount = ground arith;
        }
        | inr other ↦ λ f. h.rows o c b (ground arith)
      ]

  pub with_balance-IsSound :
      (s : State) (payer owner code : ℕ) (a : Asset) (st : CurrencyStats)
      → IsSound s
      → find_stat s code ≡ some st
      → a.symbol ≡ st.supply.symbol
      → IsAmount a.amount
      → IsSound (with_balance s payer owner code a)
  with_balance-IsSound s payer owner code a st h e same amt = record {
    stats = h.stats;
    rows =
        λ o c b f. with_balance-IsRow s payer owner code a st h e same amt o c b (rw find-put at f);
  }

  -- What a successful call of either function has done to the state.
  pub record Effect (s s' : State) (owner code : ℕ) (amount : ℤ) : Type 0 where
    pub updates : Updates s s' owner code amount
    pub same_stat : s'.stat ≡ s.stat
    pub same_notified : s'.notified ≡ s.notified
    pub sound : IsSound s'

  pub with_balance-Effect :
      (s : State) (payer owner code : ℕ) (a : Asset) (st : CurrencyStats)
      → IsSound s
      → find_stat s code ≡ some st
      → a.symbol ≡ st.supply.symbol
      → IsAmount a.amount
      → Effect s (with_balance s payer owner code a) owner code a.amount
  with_balance-Effect s payer owner code a st h e same amt = record {
    updates = with_balance-Updates s payer owner code a;
    same_stat = refl;
    same_notified = refl;
    sound = with_balance-IsSound s payer owner code a st h e same amt;
  }

  pub row_of :
      (s : State) (o c : ℕ) (a : Account) (st : CurrencyStats)
      → IsSound s
      → find_stat s c ≡ some st
      → find_account s o c ≡ some a
      → (a.balance.symbol ≡ st.supply.symbol) × IsAmount a.balance.amount
  row_of s o c a st h e f =
      let r = h.rows o c a f in ground (arith, r.found, r.same_symbol, r.is_amount)

  sub_row :
      (s s' : State) (owner : ℕ) (v : Asset) (a : Account) (st : CurrencyStats)
      → IsSound s
      → find_stat s v.symbol.code ≡ some st
      → v.symbol ≡ st.supply.symbol
      → IsAmount v.amount
      → sub_balance owner v s ≡ ok (tt, s')
      → find_account s owner v.symbol.code ≡ some a
      → (v.amount ≤ℤ a.balance.amount)
        × (s'
            ≡ with_balance s owner owner v.symbol.code
                (record { amount = a.balance.amount -ℤ v.amount; symbol = a.balance.symbol }))
  sub_row s s' owner v a st h e same amt run f =
      let (sym, held) = row_of s owner v.symbol.code a st h e f in
      ground (arith, sub_balance-eq owner v s a f held amt)

  -- A successful `sub_balance` was covered, and lowers the one balance by the value.
  pub sub_balance-Effect :
      (s s' : State) (owner : ℕ) (v : Asset) (st : CurrencyStats)
      → IsSound s
      → find_stat s v.symbol.code ≡ some st
      → v.symbol ≡ st.supply.symbol
      → IsAmount v.amount
      → sub_balance owner v s ≡ ok (tt, s')
      → (v.amount ≤ℤ balance s owner v.symbol.code)
        × Effect s s' owner v.symbol.code (balance s owner v.symbol.code -ℤ v.amount)
  sub_balance-Effect s s' owner v st h e same amt run =
      elim (Option-cases (find_account s owner v.symbol.code)) [
        | inl missing ↦ absurd (ground (arith, sub_balance_missing owner v s missing))
        | inr (a, f) ↦
            let (covered, after) = sub_row s s' owner v a st h e same amt run f in
            let (sym, held) = row_of s owner v.symbol.code a st h e f in
            rw (balance_some s owner v.symbol.code a f) (
              covered,
              rw after (
                  with_balance-Effect s owner owner v.symbol.code
                    (record { amount = a.balance.amount -ℤ v.amount; symbol = a.balance.symbol }) st
                    h e sym (omega int_laws)),
            )
      ]

  add_row :
      (s s' : State) (owner : ℕ) (v : Asset) (payer : ℕ) (a : Account) (st : CurrencyStats)
      → IsSound s
      → find_stat s v.symbol.code ≡ some st
      → v.symbol ≡ st.supply.symbol
      → IsAmount v.amount
      → add_balance owner v payer s ≡ ok (tt, s')
      → find_account s owner v.symbol.code ≡ some a
      → (a.balance.amount +ℤ v.amount ≤ℤ pos max_amount)
        × (s'
            ≡ with_balance s 0 owner v.symbol.code
                (record { amount = a.balance.amount +ℤ v.amount; symbol = a.balance.symbol }))
  add_row s s' owner v payer a st h e same amt run f =
      let (sym, held) = row_of s owner v.symbol.code a st h e f in
      ground (arith, add_balance-eq owner v payer s a f held amt)

  add_new :
      (s s' : State) (owner : ℕ) (v : Asset) (payer : ℕ)
      → add_balance owner v payer s ≡ ok (tt, s')
      → find_account s owner v.symbol.code ≡ none
      → s' ≡ with_balance s payer owner v.symbol.code v
  add_new s s' owner v payer run f = ground (arith, add_balance-new owner v payer s f)

  -- A successful `add_balance` raises the one balance by the value.
  pub add_balance-Effect :
      (s s' : State) (owner : ℕ) (v : Asset) (payer : ℕ) (st : CurrencyStats)
      → IsSound s
      → find_stat s v.symbol.code ≡ some st
      → v.symbol ≡ st.supply.symbol
      → IsAmount v.amount
      → add_balance owner v payer s ≡ ok (tt, s')
      → Effect s s' owner v.symbol.code (balance s owner v.symbol.code +ℤ v.amount)
  add_balance-Effect s s' owner v payer st h e same amt run =
      elim (Option-cases (find_account s owner v.symbol.code)) [
        | inl missing ↦
            rw
              (
                balance_none s owner v.symbol.code missing,
                add_new s s' owner v payer run missing,
                zero_plus v.amount,
              )
              (with_balance-Effect s payer owner v.symbol.code v st h e same amt)
        | inr (a, f) ↦
            let (fits, after) = add_row s s' owner v payer a st h e same amt run f in
            let (sym, held) = row_of s owner v.symbol.code a st h e f in
            rw (balance_some s owner v.symbol.code a f, after)
              (with_balance-Effect s 0 owner v.symbol.code
                (record { amount = a.balance.amount +ℤ v.amount; symbol = a.balance.symbol }) st h e
                sym (omega int_laws))
      ]

  pub balance_nonneg : (s : State) → IsSound s → (o c : ℕ) → pos 0 ≤ℤ balance s o c
  balance_nonneg s h o c = elim (Option-cases (find_account s o c)) [
    | inl missing ↦ rw (balance_none s o c missing) (omega arith)
    | inr (a, f) ↦ rw (balance_some s o c a f) ((h.rows o c a f).is_amount.0)
  ]

  pub sub_balance_covered :
      (s s' : State) (owner : ℕ) (v : Asset)
      → ((a : Account) → find_account s owner v.symbol.code ≡ some a → IsAmount a.balance.amount)
      → IsAmount v.amount
      → sub_balance owner v s ≡ ok (tt, s')
      → v.amount ≤ℤ balance s owner v.symbol.code
  sub_balance_covered s s' owner v held amt run =
      elim (Option-cases (find_account s owner v.symbol.code)) [
        | inl missing ↦ absurd (ground (arith, sub_balance_missing owner v s missing))
        | inr (a, f) ↦
            rw (balance_some s owner v.symbol.code a f)
              (ground (arith, sub_balance-eq owner v s a f (held a f) amt))
      ]
