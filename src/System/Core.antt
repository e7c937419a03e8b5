-- ===== src/System/Core.antt =====
-- contracts/eosio.system/src/eosio.system.cpp: accounts are created, and the system is set up.
use ux_contracts.Prelude.{
  ℕ, zero, suc, ◌+◌, ◌*◌, ◌/◌, ◌%◌, Bool, false, not, ◌&&◌, ◌||◌, Option, some, [], ◌∷◌, ◌==◌,
  if◌then◌else◌, ℤ, pos, ltb_ℤ, leb_ℤ, int64, quot, ltb, leb, is_some, sub_64,
}
use ux_contracts.Chain.Action.{Action, ◌>>=◌, ◌>>◌, check, or_fail, gets, modify, when}
use ux_contracts.Chain.Asset.{Symbol, Asset, symbol_eq}
use ux_contracts.Chain.Context.{Context, require_auth}
use ux_contracts.Chain.Platform.{Platform}
use ux_contracts.Chain.Double.{Double, of_ℕ}
use ux_contracts.Token.History.{open_call}
use ux_contracts.System.Tables.{Names, UserResources, ramcore_symbol, rex_account}
use ux_contracts.System.State.{State, send, set_global, core_asset, set_resource_limits}
use ux_contracts.System.Ram.{put_resources}
use ux_contracts.System.Weights.{update_weights}

-- The loop over the characters of a name: one of them is a dot.
abbrev pub has_dot : (characters tmp : ℕ) → Bool
has_dot zero tmp = false
has_dot (suc n) tmp = (tmp % 32 == 0) || has_dot n (tmp / 32)

module _ ⦃p : Platform⦄ ⦃d : Double⦄ where
  open p use {find, put, drop}

  -- A name without a suffix has to be won in an auction that is closed, and is taken off the auctions.
  abbrev pub claim_name : Context → (creator newact : ℕ) → Action State (Unit {0})
  claim_name ctx creator newact = do
    found ← gets (λ s. find s.bids ctx.self newact)
    current ← or_fail found "no active bid for name"
    check (current.high_bidder == creator) "only highest bidder can claim"
    check (ltb_ℤ current.high_bid (pos 0)) "auction for name is not closed yet"
    modify (λ s. record s { bids = drop s.bids ctx.self newact })

  abbrev pub check_name : ⦃n : Names⦄ → Context → (creator newact : ℕ) → Action State (Unit {0})
  check_name ⦃n⦄ ctx creator newact =
      if n.suffix newact == newact
      then claim_name ctx creator newact
      else check (creator == n.suffix newact) "only suffix may create this account"

  abbrev pub new_resources : ℕ → Asset → Asset → UserResources
  new_resources owner net cpu = record {
    owner = owner;
    net_weight = net;
    cpu_weight = cpu;
    ram_bytes = pos 0;
  }

  unfoldable pub newaccount : ⦃n : Names⦄ → Context → (creator newact : ℕ) → Action State (Unit {0})
  newaccount ctx creator newact = do
    when (not (creator == ctx.self) && has_dot 12 (newact / 16)) (check_name ctx creator newact)
    net ← core_asset (pos 0)
    cpu ← core_asset (pos 0)
    found ← gets (λ s. find s.userres newact newact)
    check (not (is_some found))
        "could not insert object, most likely a uniqueness constraint was violated"
    modify (put_resources newact newact (new_resources newact net cpu))
    modify (set_resource_limits newact (pos 0) (pos 0) (pos 0))

  unfoldable pub updtrevision : Context → ℕ → Action State (Unit {0})
  updtrevision ctx revision = do
    require_auth ctx ctx.self
    g ← gets (λ s. s.global)
    check (ltb g.revision 255) "can not increment revision"
    check (revision == g.revision + 1) "can only increment revision by one"
    check (leb revision 1) "specified revision is not yet supported by the code"
    modify (set_global (λ g. record g { revision = revision }))

  abbrev pay_factor_precision : ℤ
  pay_factor_precision = pos 10_000

  -- `std::log1p(double(annual_rate)/double(100*inflation_precision))`
  abbrev pub get_continuous_rate : ℤ → d.F
  get_continuous_rate annual_rate = d.log1p (d.div (d.of_ℤ annual_rate) (of_ℕ (100 * 100)))

  unfoldable pub setinflation :
      Context → (annual_rate inflation_pay_factor votepay_factor : ℤ) → Action State (Unit {0})
  setinflation ctx annual_rate inflation_pay_factor votepay_factor = do
    require_auth ctx ctx.self
    check (leb_ℤ (pos 0) annual_rate) "annual_rate can't be negative"
    check (leb_ℤ pay_factor_precision inflation_pay_factor)
        "inflation_pay_factor must not be less than 10000"
    check (leb_ℤ pay_factor_precision votepay_factor) "votepay_factor must not be less than 10000"
    modify (
        update_weights (λ w. record w {
          continuous_rate = get_continuous_rate annual_rate;
          inflation_pay_factor = inflation_pay_factor;
          votepay_factor = votepay_factor;
        }))

  abbrev ram_symbol : Symbol
  ram_symbol = record { code = 5062994; precision = 0 }

  -- `system_token_supply` is what the token contract has as the supply of `core`, if it has a row.
  unfoldable pub init :
      Context → (version : ℕ) → (core : Symbol) → Option Asset → Action State (Unit {0})
  init ctx version core supply = do
    require_auth ctx ctx.self
    check (version == 0) "unsupported version for init action"
    itr ← gets (λ s. s.rammarket)
    check (not (is_some itr)) "system contract has already been initialized"
    system_token_supply ← or_fail supply "unable to find key"
    check (symbol_eq system_token_supply.symbol core)
        "specified core symbol does not exist (precision mismatch)"
    check (ltb_ℤ (pos 0) system_token_supply.amount) "system token supply must be greater than 0"
    g ← gets (λ s. s.global)
    let free_ram = int64 (pos (sub_64 g.max_ram_size g.total_ram_bytes_reserved))
    modify (λ s. record s {
      rammarket = some (record {
        supply = record { amount = pos 100_000_000_000_000; symbol = ramcore_symbol };
        base = record { amount = free_ram; symbol = ram_symbol };
        quote = record { amount = quot system_token_supply.amount 1000; symbol = core };
      });
    })
    send (ctx.self ∷ []) (open_call rex_account core ctx.self)
