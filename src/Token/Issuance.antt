-- ===== src/Token/Issuance.antt =====
-- What issuing and retiring tokens do.
use ux_contracts.Prelude.{
  ℕ, ◌≡◌, true, some, ◌==◌, if◌then◌else◌, arith, ℤ, pos, ◌≤ℤ◌, ◌+ℤ◌, ◌-ℤ◌, int_laws, String, ◌∙◌,
  ap, int64, int64_id, -ℤ_parts, +ℤ_parts,
}
use ux_contracts.Chain.Action.{ok}
use ux_contracts.Chain.Asset.{Asset, symbol_eq_iff}
use ux_contracts.Chain.Context.{Context}
use ux_contracts.Chain.Platform.{Platform}
use ux_contracts.Token.{CurrencyStats, State, find_stat, sub_balance, add_balance, issue, retire}
use ux_contracts.Token.Balances.{difference-IsInt64, IsAmount, balance, asset_add-eq, asset_sub-eq}
use ux_contracts.Token.Invariant.{
  IsSound, IsStat, Updates, sub_balance_covered, sub_balance-Effect, add_balance-Effect,
}
use ux_contracts.Token.Stats.{with_stat, find-with_stat, with_stat-IsSound}

abbrev with_supply : CurrencyStats → ℤ → CurrencyStats
with_supply st amount = record st { supply = record { amount = amount; symbol = st.supply.symbol } }

room-IsInt64 :
    (st : CurrencyStats) (code : ℕ)
    → IsStat code st
    → int64 (st.max_supply.amount -ℤ st.supply.amount) ≡ st.max_supply.amount -ℤ st.supply.amount
room-IsInt64 st code h = int64_id _ (difference-IsInt64 _ _ (omega arith) (omega arith))

module _ ⦃p : Platform⦄ where
  open p use {find, asset_is_valid_lem}

  -- Tokens of the symbol were issued (or retired, with the new supply smaller): who signed, and the
  -- one balance and the one supply that changed.
  pub record Supplied (ctx : Context) (quantity : Asset) (s s' : State) (st : CurrencyStats)
      (supply amount : ℤ) : Type 0 where
    pub signed : ctx.has_auth st.issuer ≡ true
    pub same_symbol : quantity.symbol ≡ st.supply.symbol
    pub positive : pos 1 ≤ℤ quantity.amount
    pub in_bounds : (pos 0 ≤ℤ supply) × (supply ≤ℤ st.max_supply.amount)
    pub stats :
        (c : ℕ)
        → find_stat s' c
          ≡ (if quantity.symbol.code == c then some (with_supply st supply) else find_stat s c)
    pub balances : Updates s s' st.issuer quantity.symbol.code amount
    pub sound : IsSound s'

  module _ (ctx : Context) (quantity : Asset) (memo : String) (s s' : State)
      (st : CurrencyStats) where
    abbrev code : ℕ
    code = quantity.symbol.code

    record IssueStep (to : ℕ) : Type 0 where
      to_issuer : to ≡ st.issuer
      signed : ctx.has_auth st.issuer ≡ true
      same_symbol : quantity.symbol ≡ st.supply.symbol
      is_amount : IsAmount quantity.amount
      positive : pos 1 ≤ℤ quantity.amount
      fits : st.supply.amount +ℤ quantity.amount ≤ℤ st.max_supply.amount
      given :
          add_balance st.issuer quantity st.issuer
            (with_stat s 0 code (with_supply st (st.supply.amount +ℤ quantity.amount)))
          ≡ ok (tt, s')

    issue-IssueStep :
        (to : ℕ)
        → IsSound s
        → find_stat s code ≡ some st
        → issue ctx to quantity memo s ≡ ok (tt, s')
        → IssueStep to
    unfolding issue
    issue-IssueStep to h found run =
        let v = h.stats code st found in
        let amt : IsAmount quantity.amount = ground (arith, asset_is_valid_lem quantity) in
        let room = room-IsInt64 st code v in
        let fits : st.supply.amount +ℤ quantity.amount ≤ℤ st.max_supply.amount = ground (
          arith,
          room,
          -ℤ_parts st.max_supply.amount st.supply.amount,
          +ℤ_parts st.supply.amount quantity.amount,
        ) in
        record {
          to_issuer = ground arith;
          signed = ground arith;
          same_symbol = (symbol_eq_iff _ _).0 (ground arith);
          is_amount = amt;
          positive = ground arith;
          fits = fits;
          given =
              ground (arith, asset_add-eq st.supply quantity (v.supply_nonneg, omega int_laws) amt);
        }

    record RetireStep : Type 0 where
      signed : ctx.has_auth st.issuer ≡ true
      same_symbol : quantity.symbol ≡ st.supply.symbol
      is_amount : IsAmount quantity.amount
      positive : pos 1 ≤ℤ quantity.amount
      covered : quantity.amount ≤ℤ st.supply.amount
      taken :
          sub_balance st.issuer quantity
            (with_stat s 0 code (with_supply st (st.supply.amount -ℤ quantity.amount)))
          ≡ ok (tt, s')

    retire-RetireStep :
        IsSound s
        → find_stat s code ≡ some st
        → ((o : ℕ) → balance s o code ≤ℤ st.supply.amount)
        → retire ctx quantity memo s ≡ ok (tt, s')
        → RetireStep
    unfolding retire
    retire-RetireStep h found backed run =
        let v = h.stats code st found in
        let amt : IsAmount quantity.amount = ground (arith, asset_is_valid_lem quantity) in
        let next = asset_sub-eq st.supply quantity (v.supply_nonneg, omega int_laws) amt in
        let taken : sub_balance st.issuer quantity
              (with_stat s 0 code (with_supply st (st.supply.amount -ℤ quantity.amount)))
            ≡ ok (tt, s') =
          ground (arith, next) in
        record {
          signed = ground arith;
          same_symbol = (symbol_eq_iff _ _).0 (ground arith);
          is_amount = amt;
          positive = ground arith;
          covered =
              let paid =
                sub_balance_covered
                  (with_stat s 0 code (with_supply st (st.supply.amount -ℤ quantity.amount))) s'
                  st.issuer quantity (λ a f. (h.rows st.issuer code a f).is_amount) amt taken in
              omega (arith, paid, backed st.issuer);
          taken = taken;
        }

    -- The row that a new supply within bounds makes.
    with_supply-IsStat :
        (supply : ℤ)
        → IsStat code st
        → pos 0 ≤ℤ supply
        → supply ≤ℤ st.max_supply.amount
        → IsStat code (with_supply st supply)
    with_supply-IsStat supply v lo hi = record {
      keyed = v.keyed;
      same_symbol = v.same_symbol;
      supply_nonneg = lo;
      supply_le_max = hi;
      max_in_range = v.max_in_range;
    }

    resupplied-IsSound :
        (supply : ℤ)
        → IsSound s
        → find_stat s code ≡ some st
        → pos 0 ≤ℤ supply
        → supply ≤ℤ st.max_supply.amount
        → IsSound (with_stat s 0 code (with_supply st supply))
    resupplied-IsSound supply h found lo hi =
        with_stat-IsSound s 0 code (with_supply st supply) h
          (with_supply-IsStat supply (h.stats code st found) lo hi) (λ old f. cc)

    stats_of :
        (supply : ℤ)
        → s'.stat ≡ (with_stat s 0 code (with_supply st supply)).stat
        → (c : ℕ)
        → find_stat s' c ≡ (if code == c then some (with_supply st supply) else find_stat s c)
    stats_of supply e c = ap (λ t. find t c c) e ∙ find-with_stat s 0 code (with_supply st supply) c

    -- A successful issue was signed by the issuer, to the issuer, and stays within the maximum; it
    -- raises the supply and the issuer's balance by the quantity and changes nothing else.
    pub issue-Supplied :
        (to : ℕ)
        → IsSound s
        → find_stat s code ≡ some st
        → issue ctx to quantity memo s ≡ ok (tt, s')
        → Supplied ctx quantity s s' st
            (st.supply.amount +ℤ quantity.amount)
            (balance s st.issuer code +ℤ quantity.amount)
          × (to ≡ st.issuer)
    issue-Supplied to h found run =
        let i = issue-IssueStep to h found run in
        let v = h.stats code st found in
        let lo : pos 0 ≤ℤ st.supply.amount +ℤ quantity.amount =
          omega (int_laws, v.supply_nonneg, i.positive) in
        let middle = with_stat s 0 code (with_supply st (st.supply.amount +ℤ quantity.amount)) in
        let sound = resupplied-IsSound (st.supply.amount +ℤ quantity.amount) h found lo i.fits in
        let here : find_stat middle code
            ≡ some (with_supply st (st.supply.amount +ℤ quantity.amount)) =
          ground (
            arith,
            find-with_stat s 0 code (with_supply st (st.supply.amount +ℤ quantity.amount)) code,
          ) in
        let given =
          add_balance-Effect middle s' st.issuer quantity st.issuer
            (with_supply st (st.supply.amount +ℤ quantity.amount)) sound here i.same_symbol
            i.is_amount i.given in
        (
          record {
            signed = i.signed;
            same_symbol = i.same_symbol;
            positive = i.positive;
            in_bounds = (lo, i.fits);
            stats = stats_of (st.supply.amount +ℤ quantity.amount) given.same_stat;
            balances = given.updates;
            sound = given.sound;
          },
          i.to_issuer,
        )

    -- A successful retirement was signed by the issuer and covered by its balance; it lowers the
    -- supply and that balance by the quantity and changes nothing else.
    pub retire-Supplied :
        IsSound s
        → find_stat s code ≡ some st
        → ((o : ℕ) → balance s o code ≤ℤ st.supply.amount)
        → retire ctx quantity memo s ≡ ok (tt, s')
        → Supplied ctx quantity s s' st
            (st.supply.amount -ℤ quantity.amount)
            (balance s st.issuer code -ℤ quantity.amount)
    retire-Supplied h found backed run =
        let i = retire-RetireStep h found backed run in
        let v = h.stats code st found in
        let lo : pos 0 ≤ℤ st.supply.amount -ℤ quantity.amount = omega (int_laws, i.covered) in
        let hi : st.supply.amount -ℤ quantity.amount ≤ℤ st.max_supply.amount =
          omega (int_laws, v.supply_le_max, i.positive) in
        let middle = with_stat s 0 code (with_supply st (st.supply.amount -ℤ quantity.amount)) in
        let sound = resupplied-IsSound (st.supply.amount -ℤ quantity.amount) h found lo hi in
        let here : find_stat middle code
            ≡ some (with_supply st (st.supply.amount -ℤ quantity.amount)) =
          ground (
            arith,
            find-with_stat s 0 code (with_supply st (st.supply.amount -ℤ quantity.amount)) code,
          ) in
        let (paid, taken) =
          sub_balance-Effect middle s' st.issuer quantity
            (with_supply st (st.supply.amount -ℤ quantity.amount)) sound here i.same_symbol
            i.is_amount i.taken in
        record {
          signed = i.signed;
          same_symbol = i.same_symbol;
          positive = i.positive;
          in_bounds = (lo, hi);
          stats = stats_of (st.supply.amount -ℤ quantity.amount) taken.same_stat;
          balances = taken.updates;
          sound = taken.sound;
        }
