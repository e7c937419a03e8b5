-- ===== src/Token/Stats.antt =====
-- Writing a symbol's row keeps the rows sound, and leaves the other symbols alone.
use ux_contracts.Prelude.{
  ℕ, ◌≡◌, some, ◌==◌, if◌then◌else◌, arith, Bool-cases, inl, inr, ◌∙◌, sym, subst,
}
use ux_contracts.Chain.Platform.{Platform}
use ux_contracts.Token.{Account, CurrencyStats, State, find_account, find_stat}
use ux_contracts.Token.Invariant.{IsSound, IsStat, IsRow}

module _ ⦃p : Platform⦄ where
  open p use {Table, find, put, find-put}

  abbrev pub with_stat : State → ℕ → ℕ → CurrencyStats → State
  with_stat s payer code row = record s { stat = put s.stat payer code code row }

  pub find-with_stat :
      (s : State) (payer code : ℕ) (row : CurrencyStats) (c : ℕ)
      → find_stat (with_stat s payer code row) c ≡ (if code == c then some row else find_stat s c)
  find-with_stat s payer code row c = ground (arith, find-put s.stat payer code code row c c)

  module _ (s : State) (payer code : ℕ) (row : CurrencyStats) (h : IsSound s)
      (ok_row : IsStat code row) where
    stats_after :
        (c : ℕ) (st : CurrencyStats)
        → find_stat (with_stat s payer code row) c ≡ some st
        → IsStat c st
    stats_after c st f = elim (Bool-cases (code == c)) [
      | inl here ↦
          let e : row ≡ st = ground (arith, find-with_stat s payer code row c) in
          let k : code ≡ c = ground arith in rw (← e, ← k) ok_row
      | inr there ↦ h.stats c st (ground (arith, find-with_stat s payer code row c))
    ]

    -- The row is that of a symbol with no row so far, or keeps the symbol.
    rows_after :
        ((old : CurrencyStats)
          → find_stat s code ≡ some old
          → row.supply.symbol ≡ old.supply.symbol)
        → (o c : ℕ) (a : Account) → find_account s o c ≡ some a
        → IsRow (put s.stat payer code code row) c a
    rows_after keep o c a f = elim (Bool-cases (code == c)) [
      | inl here ↦
          let r = h.rows o c a f in
          let k : code ≡ c = ground arith in
          record {
            stat = row;
            found = ground (arith, find-put s.stat payer code code row c c);
            same_symbol =
                r.same_symbol
                ∙ sym (keep r.stat (subst (λ n. find s.stat n n ≡ some r.stat) (sym k) r.found));
            is_amount = r.is_amount;
          }
      | inr there ↦
          let r = h.rows o c a f in
          record {
            stat = r.stat;
            found = find-with_stat s payer code row c ∙ ground (arith, r.found);
            same_symbol = r.same_symbol;
            is_amount = r.is_amount;
          }
    ]

    pub with_stat-IsSound :
        ((old : CurrencyStats)
          → find_stat s code ≡ some old
          → row.supply.symbol ≡ old.supply.symbol)
        → IsSound (with_stat s payer code row)
    with_stat-IsSound keep = record { stats = stats_after; rows = rows_after keep }
