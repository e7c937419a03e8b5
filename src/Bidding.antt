-- ===== src/Bidding.antt =====
-- contracts/eosio.system/src/name_bidding.cpp: auctions of account names, and the refund of bids that
-- have been outbid.
pub mod Accounts
pub mod Stake
pub mod Outbid
mod Tests
use ux_contracts.Prelude.{
  ℕ, ◌+◌, ◌*◌, ◌/◌, ◌%◌, ◌^◌, Bool, not, ◌&&◌, Option, none, some, List, [], ◌∷◌, ◌++◌, ◌==◌,
  if◌then◌else◌, String, ℤ, pos, ltb_ℤ, ◌-ℤ◌, int64, quot,
}
use ux_contracts.Chain.Action.{Action, ◌>>=◌, ◌>>◌, check, or_fail, gets, modify, lift, pure}
use ux_contracts.Chain.Asset.{Symbol, Asset, symbol_eq}
use ux_contracts.Chain.Context.{Context, require_auth}
use ux_contracts.Chain.Platform.{Platform, make_asset}
use ux_contracts.Token.History.{Call, transfer_call, Inline}

pub record NameBid : Type 0 where
  pub newname : ℕ
  pub high_bidder : ℕ
  pub high_bid : ℤ
  pub last_bid_time : ℕ

pub record BidRefund : Type 0 where
  pub bidder : ℕ
  pub amount : Asset

-- What the code takes from the class of names: the suffix after the last dot, and the texts of the memos.
pub record Names : Type 0 where
  pub suffix : ℕ → ℕ
  pub bid_memo : ℕ → String
  pub refund_memo : ℕ → String

-- A deferred call of `bidrefund`, which its payer has sent under an id.
pub record Deferred : Type 0 where
  pub id : ℕ
  pub payer : ℕ
  pub bidder : ℕ
  pub newname : ℕ

abbrev pub names_account : ℕ
names_account = 6138663588137709568

-- `cancel_deferred( id )`
abbrev pub cancel_deferred : ℕ → List Deferred → List Deferred
cancel_deferred id [] = []
cancel_deferred id (t ∷ ts) =
    let rest = cancel_deferred id ts in if t.id == id then rest else t ∷ rest

module _ ⦃p : Platform⦄ where
  open p use {Table, find, put, drop, asset_add}

  -- `bids` has one scope; `refunds` has a scope for each name.
  pub record State : Type 0 where
    pub bids : Table NameBid
    pub refunds : Table BidRefund
    pub inlines : List Inline
    pub deferred : List Deferred

  abbrev pub send : List ℕ → Call → Action State (Unit {0})
  send authorization call = modify (λ s. record s {
    inlines = s.inlines ++ record { authorization = authorization; call = call } ∷ [];
  })

  abbrev pub put_bid : Context → ℕ → ℕ → ℤ → State → State
  put_bid ctx bidder newname amount s = record s {
    bids = put s.bids bidder ctx.self newname (record {
      newname = newname;
      high_bidder = bidder;
      high_bid = amount;
      last_bid_time = ctx.current_time_point;
    });
  }

  abbrev pub put_refund : ℕ → ℕ → ℕ → Asset → State → State
  put_refund payer bidder newname amount s = record s {
    refunds = put s.refunds payer newname bidder (record { bidder = bidder; amount = amount });
  }

  -- The bid that has been outbid: more in the bidder's refund, or a new one.
  abbrev add_refund : ℕ → ℕ → ℕ → Asset → Option BidRefund → Action State (Unit {0})
  add_refund payer bidder newname amount none = modify (put_refund payer bidder newname amount)
  add_refund payer bidder newname amount (some r) = do
    sum ← lift (asset_add r.amount amount)
    modify (put_refund 0 bidder newname sum)

  unfoldable pub refund_bid : ℕ → ℕ → ℕ → Asset → Action State (Unit {0})
  refund_bid payer bidder newname amount = do
    it ← gets (λ s. find s.refunds newname bidder)
    add_refund payer bidder newname amount it

  -- `uint128_t( newname ) << 64 | bidder`
  abbrev pub refund_id : ℕ → ℕ → ℕ
  refund_id newname bidder = newname * 2 ^ 64 + bidder

  abbrev pub defer_refund : ℕ → ℕ → ℕ → State → State
  defer_refund payer bidder newname s =
      let id = refund_id newname bidder in
      record s {
        deferred =
            record { id = id; payer = payer; bidder = bidder; newname = newname }
            ∷ cancel_deferred id s.deferred;
      }

  -- The bid on a name: `current == bids.end()` is `none`.
  unfoldable pub place_bid : Context → Symbol → ℕ → ℕ → ℤ → Option NameBid → Action State (Unit {0})
  place_bid ctx core_symbol bidder newname amount none = modify (put_bid ctx bidder newname amount)
  place_bid ctx core_symbol bidder newname amount (some current) = do
    check (ltb_ℤ (pos 0) current.high_bid) "this auction has already closed"
    check (ltb_ℤ (quot current.high_bid 10) (int64 (amount -ℤ current.high_bid)))
        "must increase bid by 10%"
    check (not (current.high_bidder == bidder)) "account is already highest bidder"
    old ← make_asset core_symbol current.high_bid
    refund_bid bidder current.high_bidder newname old
    modify (defer_refund bidder current.high_bidder newname)
    modify (put_bid ctx bidder newname amount)

  unfoldable pub bidname : ⦃n : Names⦄ → Context → Symbol → ℕ → ℕ → Asset → Action State (Unit {0})
  bidname ⦃n⦄ ctx core_symbol bidder newname bid = do
    require_auth ctx bidder
    check (n.suffix newname == newname) "you can only bid on top-level suffix"
    check (not (newname == 0)) "the empty name is not a valid account name to bid on"
    check (newname % 16 == 0) "13 character names are not valid account names to bid on"
    check (newname / 16 % 32 == 0)
        "accounts with 12 character names and no dots can be created without bidding required"
    check (not (ctx.is_account newname)) "account already exists"
    check (symbol_eq bid.symbol core_symbol) "asset must be system token"
    check (ltb_ℤ (pos 0) bid.amount) "insufficient bid"
    send (bidder ∷ []) (transfer_call bidder names_account bid (n.bid_memo newname))
    current ← gets (λ s. find s.bids ctx.self newname)
    place_bid ctx core_symbol bidder newname bid.amount current

  unfoldable pub bidrefund : ⦃n : Names⦄ → Context → ℕ → ℕ → Action State (Unit {0})
  bidrefund ⦃n⦄ ctx bidder newname = do
    found ← gets (λ s. find s.refunds newname bidder)
    it ← or_fail found "refund not found"
    send (names_account ∷ bidder ∷ [])
        (transfer_call names_account bidder it.amount (n.refund_memo newname))
    modify (λ s. record s { refunds = drop s.refunds newname bidder })
