-- ===== src/Token/Coverage.antt =====
-- When a transfer goes through: the checks are enough, and nothing can overflow.
use Prim.Native.String.{len}
use ux_contracts.Prelude.{
  ℕ, ◌≡◌, ◌≢◌, true, some, arith, pos, ◌≤ℤ◌, ◌≤◌, ◌+ℤ◌, ◌-ℤ◌, Option-cases, inl, inr, int_laws,
  String, ap, ◌∷◌, ◌∙◌, if◌then◌else◌,
}
use ux_contracts.Chain.Action.{ok}
use ux_contracts.Chain.Asset.{Asset, symbol_eq, symbol_eq_iff, max_amount}
use ux_contracts.Chain.Context.{Context}
use ux_contracts.Chain.Platform.{Platform}
use ux_contracts.Token.{
  CurrencyStats, State, find_account, find_stat, sub_balance, add_balance, transfer,
}
use ux_contracts.Token.Balances.{
  with_balance, IsAmount, balance, balance_some, balance_none, sub_balance-eq, add_balance-eq,
  add_balance-new,
}
use ux_contracts.Token.Invariant.{IsSound, sub_balance-Effect, balance_nonneg, row_of}
use ux_contracts.Token.Supply.{pair-le-supply}
use ux_contracts.Token.Conservation.{IsConserved}

module _ ⦃p : Platform⦄ where
  open p use {find, asset_is_valid, asset_is_valid_lem}

  sub_balance_succeeds :
      (s : State) (owner : ℕ) (v : Asset) (st : CurrencyStats)
      → IsSound s
      → find_stat s v.symbol.code ≡ some st
      → v.symbol ≡ st.supply.symbol
      → IsAmount v.amount
      → pos 1 ≤ℤ v.amount
      → v.amount ≤ℤ balance s owner v.symbol.code
      → (s' : State) × (sub_balance owner v s ≡ ok (tt, s'))
  sub_balance_succeeds s owner v st h e same amt positive covered =
      elim (Option-cases (find_account s owner v.symbol.code)) [
        | inl missing ↦
            absurd (omega (arith, rw (balance_none s owner v.symbol.code missing) at covered))
        | inr (a, f) ↦
            let (sym, held) = row_of s owner v.symbol.code a st h e f in
            let le : v.amount ≤ℤ a.balance.amount =
              rw (balance_some s owner v.symbol.code a f) at covered in
            let eq : symbol_eq a.balance.symbol v.symbol ≡ true =
              (symbol_eq_iff a.balance.symbol v.symbol).1 (cc (sym, same)) in
            (
              with_balance s owner owner v.symbol.code
                  (record { amount = a.balance.amount -ℤ v.amount; symbol = a.balance.symbol }),
              ground (arith, sub_balance-eq owner v s a f held amt),
            )
      ]

  add_balance_succeeds :
      (s : State) (owner : ℕ) (v : Asset) (payer : ℕ) (st : CurrencyStats)
      → IsSound s
      → find_stat s v.symbol.code ≡ some st
      → v.symbol ≡ st.supply.symbol
      → IsAmount v.amount
      → balance s owner v.symbol.code +ℤ v.amount ≤ℤ pos max_amount
      → (s' : State) × (add_balance owner v payer s ≡ ok (tt, s'))
  add_balance_succeeds s owner v payer st h e same amt room =
      elim (Option-cases (find_account s owner v.symbol.code)) [
        | inl missing ↦ (_, add_balance-new owner v payer s missing)
        | inr (a, f) ↦
            let (sym, held) = row_of s owner v.symbol.code a st h e f in
            let le : a.balance.amount +ℤ v.amount ≤ℤ pos max_amount =
              rw (balance_some s owner v.symbol.code a f) at room in
            let eq : symbol_eq a.balance.symbol v.symbol ≡ true =
              (symbol_eq_iff a.balance.symbol v.symbol).1 (cc (sym, same)) in
            (
              with_balance s 0 owner v.symbol.code
                  (record { amount = a.balance.amount +ℤ v.amount; symbol = a.balance.symbol }),
              ground (arith, add_balance-eq owner v payer s a f held amt),
            )
      ]

  -- A transfer of a valid, positive quantity that the sender has signed and can cover goes through,
  -- whatever the receiver holds, where the token, the receiver's account and the memo are in order.
  pub transfer-succeeds :
      (ctx : Context) (from to : ℕ) (quantity : Asset) (memo : String) (s : State)
      (st : CurrencyStats)
      → IsConserved s
      → find_stat s quantity.symbol.code ≡ some st
      → quantity.symbol ≡ st.supply.symbol
      → asset_is_valid quantity ≡ true
      → pos 1 ≤ℤ quantity.amount
      → quantity.amount ≤ℤ balance s from quantity.symbol.code
      → from ≢ to
      → ctx.has_auth from ≡ true
      → ctx.is_account to ≡ true
      → len memo ≤ 256
      → (s' : State) × (transfer ctx from to quantity memo s ≡ ok (tt, s'))
  unfolding transfer
  transfer-succeeds ctx from to quantity memo s st h e same valid positive covered ne signed exists
        short =
      let code = quantity.symbol.code in
      let payer = if ctx.has_auth to then to else from in
      let start : State = record s { notified = to ∷ from ∷ s.notified } in
      let sound : IsSound start = record { stats = h.sound.stats; rows = h.sound.rows } in
      let amt : IsAmount quantity.amount = ground (arith, asset_is_valid_lem quantity) in
      let eq : symbol_eq quantity.symbol st.supply.symbol ≡ true =
        (symbol_eq_iff quantity.symbol st.supply.symbol).1 same in
      let (middle, taken) =
        sub_balance_succeeds start from quantity st sound e same amt positive covered in
      let (_, after) = sub_balance-Effect start middle from quantity st sound e same amt taken in
      let v = h.sound.stats code st e in
      let pair =
        pair-le-supply (λ o. balance s o code) st.supply.amount from to ne
          (λ o. balance_nonneg s h.sound o code) (h.backed code st e) in
      let kept : balance middle to code ≡ balance s to code =
        ground (arith, ne, after.updates to code) in
      let room : balance middle to code +ℤ quantity.amount ≤ℤ pos max_amount =
        rw kept (omega (int_laws, pair, v.supply_le_max, v.max_in_range)) in
      let here : find_stat middle code ≡ some st = ap (λ t. find t code code) after.same_stat ∙ e in
      let (final, given) =
        add_balance_succeeds middle to quantity payer st after.sound here same amt room in
      (final, ground arith)
