-- ===== src/Token/Rows.antt =====
-- Creating a token, and opening and closing a balance row.
use ux_contracts.Prelude.{
  ℕ, ◌≡◌, refl, true, none, some, ◌==◌, arith, pos, ◌≤ℤ◌, Option-cases, Bool-cases, inl, inr, sym,
  ==_iff,
}
use ux_contracts.Chain.Action.{ok}
use ux_contracts.Chain.Asset.{Asset, Symbol, symbol_eq_iff, max_amount}
use ux_contracts.Chain.Context.{Context}
use ux_contracts.Chain.Platform.{Platform}
use ux_contracts.Token.{
  Account, CurrencyStats, State, find_account, find_stat, create, open_account, close,
}
use ux_contracts.Token.Balances.{balance, balance_none, balance_some, with_balance}
use ux_contracts.Token.Invariant.{IsSound, with_balance-Effect}
use ux_contracts.Token.Stats.{with_stat, find-with_stat, with_stat-IsSound}
use ux_contracts.Token.Supply.{IsBacked-zero}
use ux_contracts.Token.Conservation.{IsConserved, same-IsConserved}

module _ ⦃p : Platform⦄ where
  open p use {find, drop, asset_is_valid_lem, find-drop}

  -- The row that `create` writes.
  abbrev pub created : ℕ → Asset → CurrencyStats
  created issuer maximum_supply = record {
    supply = record { amount = pos 0; symbol = maximum_supply.symbol };
    max_supply = maximum_supply;
    issuer = issuer;
  }

  no_rows : (s : State) (c : ℕ) → IsSound s → find_stat s c ≡ none → (o : ℕ) → balance s o c ≡ pos 0
  no_rows s c h missing o = elim (Option-cases (find_account s o c)) [
    | inl empty ↦ balance_none s o c empty
    | inr (a, f) ↦ let r = h.rows o c a f in absurd (cc (r.found, missing))
  ]

  module _ (ctx : Context) (issuer : ℕ) (maximum_supply : Asset) (s s' : State) where
    abbrev sym_code : ℕ
    sym_code = maximum_supply.symbol.code

    -- What `create` has checked and written.
    pub record Created : Type 0 where
      pub signed : ctx.has_auth ctx.self ≡ true
      pub fresh : find_stat s maximum_supply.symbol.code ≡ none
      pub positive : pos 1 ≤ℤ maximum_supply.amount
      pub fits : maximum_supply.amount ≤ℤ pos max_amount
      pub written :
          s' ≡ with_stat s ctx.self maximum_supply.symbol.code (created issuer maximum_supply)

    pub create-Created : create ctx issuer maximum_supply s ≡ ok (tt, s') → Created
    unfolding create
    create-Created run = record {
      signed = ground arith;
      fresh = ground arith;
      positive = ground arith;
      fits = ground (arith, asset_is_valid_lem maximum_supply);
      written = ground arith;
    }

    created-IsSound :
        IsSound s
        → Created
        → IsSound (with_stat s ctx.self sym_code (created issuer maximum_supply))
    created-IsSound h c =
        with_stat-IsSound s ctx.self sym_code (created issuer maximum_supply) h
          (record {
            keyed = refl;
            same_symbol = refl;
            supply_nonneg = omega arith;
            supply_le_max = omega (arith, c.positive);
            max_in_range = c.fits;
          })
          (λ old f. absurd (cc (f, c.fresh)))

    -- Creating a token keeps every supply backed: the new one is zero.
    pub create-IsConserved :
        IsConserved s → create ctx issuer maximum_supply s ≡ ok (tt, s') → IsConserved s'
    create-IsConserved h run =
        let c = create-Created run in
        let after = with_stat s ctx.self sym_code (created issuer maximum_supply) in
        rw c.written (record {
          sound = created-IsSound h.sound c;
          backed = λ n row g. elim (Bool-cases (sym_code == n)) [
            | inl here ↦
                let k : sym_code ≡ n = (==_iff sym_code n).0 here in
                let e : created issuer maximum_supply ≡ row =
                  ground
                    (arith, find-with_stat s ctx.self sym_code (created issuer maximum_supply) n) in
                rw (← e) (
                  IsBacked-zero (λ o. balance s o n)
                    (rw (← k) (no_rows s sym_code h.sound c.fresh)))
            | inr there ↦ h.backed n row (
                ground
                  (arith, find-with_stat s ctx.self sym_code (created issuer maximum_supply) n))
          ];
        })

  module _ (ctx : Context) (owner : ℕ) (symbol : Symbol) (ram_payer : ℕ) (s s' : State) where
    -- Opening a row changes no balance and no supply.
    pub open_account-IsConserved :
        IsConserved s → open_account ctx owner symbol ram_payer s ≡ ok (tt, s') → IsConserved s'
    unfolding open_account
    open_account-IsConserved h run = elim (Option-cases (find_account s owner symbol.code)) [
      | inl missing ↦ elim (Option-cases (find_stat s symbol.code)) [
        | inl unknown ↦ absurd (ground arith)
        | inr (st, f) ↦
            let zero : Asset = record { amount = pos 0; symbol = symbol } in
            let after : s' ≡ with_balance s ram_payer owner symbol.code zero = ground arith in
            let same : symbol ≡ st.supply.symbol = sym ((symbol_eq_iff _ _).0 (ground arith)) in
            let e =
              with_balance-Effect s ram_payer owner symbol.code zero st h.sound f same
                (omega arith) in
            rw after (
              same-IsConserved s (with_balance s ram_payer owner symbol.code zero) h
                (λ o c. ground (arith, e.updates o c, balance_none s owner symbol.code missing))
                refl e.sound)
      ]
      | inr (a, there) ↦ let after : s' ≡ s = ground arith in rw after h
    ]

  module _ (ctx : Context) (owner : ℕ) (symbol : Symbol) (s s' : State) where
    abbrev without_row : State
    without_row = record s { accounts = drop s.accounts owner symbol.code }

    -- What `close` has checked: the owner signed, and its row holds nothing.
    pub record Closed : Type 0 where
      pub row : Account
      pub found : find_account s owner symbol.code ≡ some row
      pub signed : ctx.has_auth owner ≡ true
      pub empty : row.balance.amount ≡ pos 0
      pub written : s' ≡ without_row

    pub close-Closed : close ctx owner symbol s ≡ ok (tt, s') → Closed
    unfolding close
    close-Closed run = elim (Option-cases (find_account s owner symbol.code)) [
      | inl missing ↦ absurd (ground arith)
      | inr (row, found) ↦ record {
        row = row;
        found = found;
        signed = ground arith;
        empty = ground arith;
        written = ground arith;
      }
    ]

    -- Closing a row destroys no tokens: it removes an empty row.
    pub close-IsConserved : IsConserved s → close ctx owner symbol s ≡ ok (tt, s') → IsConserved s'
    close-IsConserved h run =
        let c = close-Closed run in
        rw c.written (
          same-IsConserved s without_row h
            (λ o n. ground (
              arith,
              find-drop s.accounts owner symbol.code o n,
              c.empty,
              balance_some s owner symbol.code c.row c.found,
            ))
            refl
            (record {
              stats = h.sound.stats;
              rows = λ o n a f.
                  h.sound.rows o n a (ground (arith, find-drop s.accounts owner symbol.code o n));
            }))
