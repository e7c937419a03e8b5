-- ===== src/Token/Transfer.antt =====
-- What a transfer does.
use ux_contracts.Prelude.{
  ℕ, ◌≡◌, ◌≢◌, true, false, some, ◌&&◌, ◌==◌, if◌then◌else◌, arith, pos, ◌≤ℤ◌, ◌∷◌, ◌+ℤ◌, ◌-ℤ◌,
  Option-cases, inl, inr, String, ◌∙◌, ap,
}
use ux_contracts.Chain.Action.{ok, Result-cases}
use ux_contracts.Chain.Asset.{Asset, symbol_eq_iff}
use ux_contracts.Chain.Context.{Context}
use ux_contracts.Chain.Platform.{Platform}
use ux_contracts.Token.{CurrencyStats, State, find_stat, sub_balance, add_balance, transfer}
use ux_contracts.Token.Balances.{IsAmount, balance}
use ux_contracts.Token.Invariant.{IsSound, sub_balance-Effect, add_balance-Effect}

module _ ⦃p : Platform⦄ where
  open p use {find, asset_is_valid_lem}

  abbrev notify_both : ℕ → ℕ → State → State
  notify_both from to s = record s { notified = to ∷ from ∷ s.notified }

  module _ (ctx : Context) (from to : ℕ) (quantity : Asset) (memo : String) where
    abbrev payer : ℕ
    payer = if ctx.has_auth to then to else from

    -- What a transfer that went through has checked, and the two steps that it made.
    pub record Passed (s s' : State) : Type 0 where
      pub st : CurrencyStats
      pub found : find_stat s quantity.symbol.code ≡ some st
      pub distinct : from ≢ to
      pub signed : ctx.has_auth from ≡ true
      pub receiver_exists : ctx.is_account to ≡ true
      pub same_symbol : quantity.symbol ≡ st.supply.symbol
      pub is_amount : IsAmount quantity.amount
      pub positive : pos 1 ≤ℤ quantity.amount
      pub middle : State
      pub taken : sub_balance from quantity (notify_both from to s) ≡ ok (tt, middle)
      pub given : add_balance to quantity payer middle ≡ ok (tt, s')

    pub transfer-Passed :
        (s s' : State) → transfer ctx from to quantity memo s ≡ ok (tt, s') → Passed s s'
    unfolding transfer
    transfer-Passed s s' run = elim (Option-cases (find_stat s quantity.symbol.code)) [
      | inl missing ↦ absurd (ground arith)
      | inr (st, found) ↦ elim (Result-cases (sub_balance from quantity (notify_both from to s))) [
        | inl (e, failed) ↦ absurd (ground arith)
        | inr (middle, taken) ↦ record {
          st = st;
          found = found;
          distinct = ground arith;
          signed = ground arith;
          receiver_exists = ground arith;
          same_symbol = (symbol_eq_iff _ _).0 (ground arith);
          is_amount = ground (arith, asset_is_valid_lem quantity);
          positive = ground arith;
          middle = middle;
          taken = taken;
          given = ground arith;
        }
      ]
    ]

    -- The transfer was signed and covered, moved the amount, touched no other balance and no supply,
    -- and told both parties.
    pub record Moved (s s' : State) : Type 0 where
      pub signed : ctx.has_auth from ≡ true
      pub receiver_exists : ctx.is_account to ≡ true
      pub distinct : from ≢ to
      pub positive : pos 1 ≤ℤ quantity.amount
      pub covered : quantity.amount ≤ℤ balance s from quantity.symbol.code
      pub sender :
          balance s' from quantity.symbol.code
          ≡ balance s from quantity.symbol.code -ℤ quantity.amount
      pub receiver :
          balance s' to quantity.symbol.code ≡ balance s to quantity.symbol.code +ℤ quantity.amount
      pub others :
          (o c : ℕ)
          → ((from == o) && (quantity.symbol.code == c)) ≡ false
          → ((to == o) && (quantity.symbol.code == c)) ≡ false
          → balance s' o c ≡ balance s o c
      pub same_stat : s'.stat ≡ s.stat
      pub notified : s'.notified ≡ to ∷ from ∷ s.notified
      pub sound : IsSound s'

    -- A transfer that goes through from sound rows was signed by the sender and covered by its
    -- balance; it moves the amount, changes no other balance and no supply, and notifies both.
    pub transfer-Moved :
        (s s' : State) → IsSound s → transfer ctx from to quantity memo s ≡ ok (tt, s') → Moved s s'
    transfer-Moved s s' h run =
        let t = transfer-Passed s s' run in
        let start : IsSound (notify_both from to s) = record { stats = h.stats; rows = h.rows } in
        let (covered, taken) =
          sub_balance-Effect (notify_both from to s) t.middle from quantity t.st start t.found
            t.same_symbol t.is_amount t.taken in
        let found : find_stat t.middle quantity.symbol.code ≡ some t.st =
          ap (λ r. find r quantity.symbol.code quantity.symbol.code) taken.same_stat ∙ t.found in
        let given =
          add_balance-Effect t.middle s' to quantity payer t.st taken.sound found t.same_symbol
            t.is_amount t.given in
        record {
          signed = t.signed;
          receiver_exists = t.receiver_exists;
          distinct = t.distinct;
          positive = t.positive;
          covered = covered;
          sender = ground (
            arith,
            t.distinct,
            taken.updates from quantity.symbol.code,
            given.updates from quantity.symbol.code,
          );
          receiver = ground (
            arith,
            t.distinct,
            taken.updates to quantity.symbol.code,
            given.updates to quantity.symbol.code,
          );
          others = λ o c a b. ground (arith, taken.updates o c, given.updates o c);
          same_stat = given.same_stat ∙ taken.same_stat;
          notified = given.same_notified ∙ taken.same_notified;
          sound = given.sound;
        }
