-- ===== src/Token/Ledger.antt =====
-- contracts/eosio.token, as a ledger: amounts of tokens without rows, without wrap-around of words, and
-- without what is paid for memory. What a call is to do is said without the contract's code.
use ux_contracts.Prelude.{
  ℕ, ◌≡◌, Bool, not, ◌&&◌, Option, none, some, List, [], ◌∷◌, ◌==◌, if◌then◌else◌, ℤ, pos, ltb_ℤ,
  leb_ℤ, ◌+ℤ◌, ◌-ℤ◌, ap,
}
use ux_contracts.Chain.Asset.{Symbol, Asset, symbol_eq}
use ux_contracts.Chain.Context.{Context}
use ux_contracts.Token.{CurrencyStats}
use ux_contracts.Token.History.{
  Call, create_call, issue_call, retire_call, transfer_call, open_call, close_call,
}

-- What each account has of each symbol code, and the tokens that there are.
pub record Ledger : Type 0 where
  pub held : ℕ → ℕ → ℤ
  pub token : ℕ → Option CurrencyStats

pub ledger_eq :
    (l m : Ledger)
    → ((o c : ℕ) → l.held o c ≡ m.held o c)
    → ((c : ℕ) → l.token c ≡ m.token c)
    → l ≡ m
ledger_eq l m h k = λ i. record { held = λ o c. h o c i; token = λ c. k c i }

abbrev pub set_held : (owner code : ℕ) → ℤ → (ℕ → ℕ → ℤ) → ℕ → ℕ → ℤ
set_held owner code amount held o c = if (owner == o) && (code == c) then amount else held o c

abbrev pub set_token : ℕ → CurrencyStats → (ℕ → Option CurrencyStats) → ℕ → Option CurrencyStats
set_token code st token c = if code == c then some st else token c

abbrev pub with_supply : CurrencyStats → ℤ → CurrencyStats
with_supply st amount = record st { supply = record { amount = amount; symbol = st.supply.symbol } }

-- The ledger after a call, if the test of the call holds.
abbrev pub allow : Bool → Ledger → Option Ledger
allow test l = if test then some l else none

abbrev pub is_of : Asset → CurrencyStats → Bool
is_of q st = ltb_ℤ (pos 0) q.amount && symbol_eq q.symbol st.supply.symbol

-- The creator of a token is the contract itself.
abbrev pub created : ℕ → Asset → CurrencyStats
created issuer maximum_supply = record {
  supply = record { amount = pos 0; symbol = maximum_supply.symbol };
  max_supply = maximum_supply;
  issuer = issuer;
}

abbrev create_on : Context → ℕ → Asset → Option CurrencyStats → Ledger → Option Ledger
create_on ctx issuer max none l =
    allow (ctx.has_auth ctx.self && ltb_ℤ (pos 0) max.amount)
      (record l { token = set_token max.symbol.code (created issuer max) l.token })
create_on ctx issuer max (some st) l = none

-- The issuer alone issues, to itself, and no more than the maximum.
abbrev issue_on : Context → ℕ → Asset → Option CurrencyStats → Ledger → Option Ledger
issue_on ctx to q none l = none
issue_on ctx to q (some st) l =
    allow
      ((to == st.issuer)
        && ctx.has_auth to
        && is_of q st
        && leb_ℤ (st.supply.amount +ℤ q.amount) st.max_supply.amount)
      (record {
        held = set_held to q.symbol.code (l.held to q.symbol.code +ℤ q.amount) l.held;
        token = set_token q.symbol.code (with_supply st (st.supply.amount +ℤ q.amount)) l.token;
      })

-- The issuer alone retires, and what it has itself.
abbrev retire_on : Context → Asset → Option CurrencyStats → Ledger → Option Ledger
retire_on ctx q none l = none
retire_on ctx q (some st) l =
    allow (ctx.has_auth st.issuer && is_of q st && leb_ℤ q.amount (l.held st.issuer q.symbol.code))
      (record {
        held = set_held st.issuer q.symbol.code (l.held st.issuer q.symbol.code -ℤ q.amount) l.held;
        token = set_token q.symbol.code (with_supply st (st.supply.amount -ℤ q.amount)) l.token;
      })

-- The sender moves what it has, to another account that exists.
abbrev transfer_on : Context → (from to : ℕ) → Asset → Option CurrencyStats → Ledger → Option Ledger
transfer_on ctx from to q none l = none
transfer_on ctx from to q (some st) l =
    allow
      (not (from == to)
        && ctx.has_auth from
        && ctx.is_account to
        && is_of q st
        && leb_ℤ q.amount (l.held from q.symbol.code))
      (record l {
        held =
            set_held to q.symbol.code (l.held to q.symbol.code +ℤ q.amount)
              (set_held from q.symbol.code (l.held from q.symbol.code -ℤ q.amount) l.held);
      })

-- A row is opened for a token that there is, and closed when it is empty: the ledger stays.
abbrev open_on : Context → ℕ → Symbol → ℕ → Option CurrencyStats → Ledger → Option Ledger
open_on ctx owner symbol ram_payer none l = none
open_on ctx owner symbol ram_payer (some st) l =
    allow (ctx.has_auth ram_payer && ctx.is_account owner && symbol_eq st.supply.symbol symbol) l

abbrev close_on : Context → ℕ → Symbol → Ledger → Option Ledger
close_on ctx owner symbol l =
    allow (ctx.has_auth owner && leb_ℤ (l.held owner symbol.code) (pos 0)) l

unfoldable pub specified : Context → Call → Ledger → Option Ledger
specified ctx (create_call issuer max) l = create_on ctx issuer max (l.token max.symbol.code) l
specified ctx (issue_call to q memo) l = issue_on ctx to q (l.token q.symbol.code) l
specified ctx (retire_call q memo) l = retire_on ctx q (l.token q.symbol.code) l
specified ctx (transfer_call from to q memo) l = transfer_on ctx from to q (l.token q.symbol.code) l
specified ctx (open_call owner symbol ram_payer) l =
    open_on ctx owner symbol ram_payer (l.token symbol.code) l
specified ctx (close_call owner symbol) l = close_on ctx owner symbol l

abbrev continue : Option Ledger → (Ledger → Option Ledger) → Option Ledger
continue none f = none
continue (some m) f = f m

-- Calls in sequence, each of which has to be allowed.
unfoldable pub replay : List (Context × Call) → Ledger → Option Ledger
replay [] l = some l
replay ((ctx, call) ∷ calls) l = continue (specified ctx call l) (replay calls)

pub replay-cons :
    (ctx : Context) (call : Call) (calls : List (Context × Call)) (l m : Ledger)
    → specified ctx call l ≡ some m
    → replay ((ctx, call) ∷ calls) l ≡ replay calls m
unfolding replay
replay-cons ctx call calls l m e = ap (λ o. continue o (replay calls)) e
