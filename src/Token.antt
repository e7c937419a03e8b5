-- ===== src/Token.antt =====
-- contracts/eosio.token: the token contract's tables and its six actions.
pub mod Balances
pub mod Invariant
pub mod Supply
pub mod Stats
pub mod Transfer
pub mod Issuance
pub mod Conservation
pub mod Rows
pub mod History
pub mod Coverage
pub mod Ledger
pub mod Refinement
mod Tests
use Prim.Native.String.{len}
use ux_contracts.Prelude.{
  ℕ, is_some, Bool, not, Option, none, some, List, ◌∷◌, String, leb, ◌==◌, if◌then◌else◌, pos,
  ltb_ℤ, leb_ℤ, eqb_ℤ, ◌-ℤ◌, int64, true, false,
}
use ux_contracts.Chain.Action.{Action, ◌>>=◌, ◌>>◌, check, or_fail, gets, modify, lift}
use ux_contracts.Chain.Asset.{Symbol, Asset, symbol_eq}
use ux_contracts.Chain.Context.{Context, require_auth}
use ux_contracts.Chain.Platform.{Platform}

pub record Account : Type 0 where
  pub balance : Asset

pub record CurrencyStats : Type 0 where
  pub supply : Asset
  pub max_supply : Asset
  pub issuer : ℕ

module _ ⦃p : Platform⦄ where
  open p use {Table, find, put, drop, symbol_is_valid, asset_is_valid, asset_add, asset_sub}

  -- The rows of the two tables, and the accounts that `require_recipient` has notified.
  pub record State : Type 0 where
    pub accounts : Table Account
    pub stat : Table CurrencyStats
    pub notified : List ℕ

  -- `stats statstable( get_self(), code )`, row `code`
  abbrev pub find_stat : State → ℕ → Option CurrencyStats
  find_stat s code = find s.stat code code

  abbrev put_stat : ℕ → ℕ → CurrencyStats → State → State
  put_stat payer code row s = record s { stat = put s.stat payer code code row }

  -- `accounts acnts( get_self(), owner )`, row `code`
  abbrev pub find_account : State → ℕ → ℕ → Option Account
  find_account s owner code = find s.accounts owner code

  abbrev put_account : ℕ → ℕ → ℕ → Asset → State → State
  put_account payer owner code balance s = record s {
    accounts = put s.accounts payer owner code (record { balance = balance });
  }

  abbrev require_recipient : ℕ → Action State (Unit {0})
  require_recipient account = modify (λ s. record s { notified = account ∷ s.notified })

  pub create : Context → ℕ → Asset → Action State (Unit {0})
  create ctx issuer maximum_supply = do
    require_auth ctx ctx.self
    let sym = maximum_supply.symbol
    check (symbol_is_valid sym) "invalid symbol name"
    check (asset_is_valid maximum_supply) "invalid supply"
    check (ltb_ℤ (pos 0) maximum_supply.amount) "max-supply must be positive"
    existing ← gets (λ s. find_stat s sym.code)
    check (not (is_some existing)) "token with symbol already exists"
    modify (
        put_stat ctx.self sym.code (record {
          supply = record { amount = pos 0; symbol = sym };
          max_supply = maximum_supply;
          issuer = issuer;
        }))

  pub sub_balance : ℕ → Asset → Action State (Unit {0})
  sub_balance owner value = do
    found ← gets (λ s. find_account s owner value.symbol.code)
    from ← or_fail found "no balance object found"
    check (leb_ℤ value.amount from.balance.amount) "overdrawn balance"
    left ← lift (asset_sub from.balance value)
    modify (put_account owner owner value.symbol.code left)

  -- `to == to_acnts.end()` is `none`
  abbrev add_to : ℕ → Asset → ℕ → Option Account → Action State (Unit {0})
  add_to owner value ram_payer none = modify (put_account ram_payer owner value.symbol.code value)
  add_to owner value ram_payer (some to) = do
    sum ← lift (asset_add to.balance value)
    modify (put_account 0 owner value.symbol.code sum)

  pub add_balance : ℕ → Asset → ℕ → Action State (Unit {0})
  add_balance owner value ram_payer = do
    to ← gets (λ s. find_account s owner value.symbol.code)
    add_to owner value ram_payer to

  pub issue : Context → ℕ → Asset → String → Action State (Unit {0})
  issue ctx to quantity memo = do
    let sym = quantity.symbol
    check (symbol_is_valid sym) "invalid symbol name"
    check (leb (len memo) 256) "memo has more than 256 bytes"
    existing ← gets (λ s. find_stat s sym.code)
    st ← or_fail existing "token with symbol does not exist, create token before issue"
    check (to == st.issuer) "tokens can only be issued to issuer account"
    require_auth ctx st.issuer
    check (asset_is_valid quantity) "invalid quantity"
    check (ltb_ℤ (pos 0) quantity.amount) "must issue positive quantity"
    check (symbol_eq quantity.symbol st.supply.symbol) "symbol precision mismatch"
    check (leb_ℤ quantity.amount (int64 (st.max_supply.amount -ℤ st.supply.amount)))
        "quantity exceeds available supply"
    supply ← lift (asset_add st.supply quantity)
    modify (put_stat 0 sym.code (record st { supply = supply }))
    add_balance st.issuer quantity st.issuer

  pub retire : Context → Asset → String → Action State (Unit {0})
  retire ctx quantity memo = do
    let sym = quantity.symbol
    check (symbol_is_valid sym) "invalid symbol name"
    check (leb (len memo) 256) "memo has more than 256 bytes"
    existing ← gets (λ s. find_stat s sym.code)
    st ← or_fail existing "token with symbol does not exist"
    require_auth ctx st.issuer
    check (asset_is_valid quantity) "invalid quantity"
    check (ltb_ℤ (pos 0) quantity.amount) "must retire positive quantity"
    check (symbol_eq quantity.symbol st.supply.symbol) "symbol precision mismatch"
    supply ← lift (asset_sub st.supply quantity)
    modify (put_stat 0 sym.code (record st { supply = supply }))
    sub_balance st.issuer quantity

  pub transfer : Context → ℕ → ℕ → Asset → String → Action State (Unit {0})
  transfer ctx from to quantity memo = do
    check (not (from == to)) "cannot transfer to self"
    require_auth ctx from
    check (ctx.is_account to) "to account does not exist"
    existing ← gets (λ s. find_stat s quantity.symbol.code)
    st ← or_fail existing "unable to find key"
    require_recipient from
    require_recipient to
    check (asset_is_valid quantity) "invalid quantity"
    check (ltb_ℤ (pos 0) quantity.amount) "must transfer positive quantity"
    check (symbol_eq quantity.symbol st.supply.symbol) "symbol precision mismatch"
    check (leb (len memo) 256) "memo has more than 256 bytes"
    let payer = if ctx.has_auth to then to else from
    sub_balance from quantity
    add_balance to quantity payer

  abbrev open_row : ℕ → Symbol → ℕ → Option Account → Action State (Unit {0})
  open_row owner symbol ram_payer none =
      modify (put_account ram_payer owner symbol.code (record { amount = pos 0; symbol = symbol }))
  open_row owner symbol ram_payer (some it) = modify (λ s. s)

  -- `token::open`
  pub open_account : Context → ℕ → Symbol → ℕ → Action State (Unit {0})
  open_account ctx owner symbol ram_payer = do
    require_auth ctx ram_payer
    check (ctx.is_account owner) "owner account does not exist"
    existing ← gets (λ s. find_stat s symbol.code)
    st ← or_fail existing "symbol does not exist"
    check (symbol_eq st.supply.symbol symbol) "symbol precision mismatch"
    it ← gets (λ s. find_account s owner symbol.code)
    open_row owner symbol ram_payer it

  -- `token::close`
  pub close : Context → ℕ → Symbol → Action State (Unit {0})
  close ctx owner symbol = do
    require_auth ctx owner
    found ← gets (λ s. find_account s owner symbol.code)
    it ← or_fail found "Balance row already deleted or never existed. Action won't have any effect."
    check (eqb_ℤ it.balance.amount (pos 0)) "Cannot close because the balance is not zero."
    modify (λ s. record s { accounts = drop s.accounts owner symbol.code })
