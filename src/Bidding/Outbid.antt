-- ===== src/Bidding/Outbid.antt =====
-- What the bidders have at stake: every token that an account has bid on a name either stands as the
-- highest bid or is there to be refunded.
use ux_contracts.Prelude.{
  ℕ, ◌≡◌, ◌≢◌, ◌∙◌, true, false, not, ◌&&◌, none, some, [], ◌∷◌, ◌++◌, arith, ◌==◌, if◌then◌else◌,
  pos, ◌<ℤ◌, ◌-ℤ◌, ◌+ℤ◌, ltb_ℤ, int64, quot, String, ◌%◌, ◌/◌,
}
use ux_contracts.Chain.Action.{ok}
use ux_contracts.Chain.Asset.{Symbol, Asset, symbol_eq, symbol_eq_iff}
use ux_contracts.Chain.Context.{Context}
use ux_contracts.Chain.Platform.{Platform}
use ux_contracts.Chain.Frame.{check-then, or_fail-then}
use ux_contracts.Token.History.{transfer_call}
use ux_contracts.Bidding.{
  NameBid, BidRefund, Names, State, names_account, place_bid, bidname, bidrefund,
}
use ux_contracts.Bidding.Accounts.{IsRefundable}
use ux_contracts.Bidding.Stake.{at_stake, bid_row, placed_lem, with_inlines}

module _ ⦃p : Platform⦄ where
  open p use {find, drop, find-drop}

  -- What a bid does.
  pub record Bid (ctx : Context) (core_symbol : Symbol) (bidder newname : ℕ) (bid : Asset)
      (s s' : State) : Type 0 where
    pub signed : ctx.has_auth bidder ≡ true
    pub free : ctx.is_account newname ≡ false
    pub token : bid.symbol ≡ core_symbol
    pub positive : pos 0 <ℤ bid.amount
    pub raised :
        (current : NameBid)
        → find s.bids ctx.self newname ≡ some current
        → (pos 0 <ℤ current.high_bid)
          × (quot current.high_bid 10 <ℤ int64 (bid.amount -ℤ current.high_bid))
          × (current.high_bidder ≢ bidder)
    pub leads : find s'.bids ctx.self newname ≡ some (bid_row ctx bidder newname bid.amount)
    pub stakes :
        (account name : ℕ)
        → at_stake s' ctx.self account name
          ≡ at_stake s ctx.self account name
            +ℤ (if (newname == name) && (bidder == account) then bid.amount else pos 0)

  -- Where every refund is an amount from zero to the maximum: a bid that goes through was signed by the
  -- bidder, for a name that no account has, of a positive number of core tokens; it is more than a
  -- tenth (as 64 bits) above any standing bid, which another account made, and leads. The bidder has its amount
  -- more at stake on the name, as the standing bid or a refund, and no account has less or more at
  -- stake otherwise: the beaten bid is there to be refunded in full.
  pub bidname-Bid :
      ⦃n : Names⦄ (ctx : Context) (core_symbol : Symbol) (bidder newname : ℕ) (bid : Asset)
      (s s' : State)
      → IsRefundable s
      → bidname ctx core_symbol bidder newname bid s ≡ ok (tt, s')
      → Bid ctx core_symbol bidder newname bid s s'
  unfolding bidname
  bidname-Bid ⦃n⦄ ctx core_symbol bidder newname bid s s' h run =
      let (signed, r1) =
        check-then (ctx.has_auth bidder) "missing required authority" _ s s' tt run in
      let (top, r2) =
        check-then (n.suffix newname == newname) "you can only bid on top-level suffix" _ s s' tt
          r1 in
      let (named, r3) =
        check-then (not (newname == 0)) "the empty name is not a valid account name to bid on" _ s
          s' tt r2 in
      let (short, r4) =
        check-then (newname % 16 == 0) "13 character names are not valid account names to bid on" _
          s s' tt r3 in
      let (shorter, r5) =
        check-then (newname / 16 % 32 == 0)
          "accounts with 12 character names and no dots can be created without bidding required" _ s
          s' tt r4 in
      let (free, r6) =
        check-then (not (ctx.is_account newname)) "account already exists" _ s s' tt r5 in
      let (token, r7) =
        check-then (symbol_eq bid.symbol core_symbol) "asset must be system token" _ s s' tt r6 in
      let (positive, r8) = check-then (ltb_ℤ (pos 0) bid.amount) "insufficient bid" _ s s' tt r7 in
      let s1 = with_inlines s (
        s.inlines
        ++ record {
          authorization = bidder ∷ [];
          call = transfer_call bidder names_account bid (n.bid_memo newname);
        }
          ∷ []) in
      let more : pos 0 <ℤ bid.amount = ground arith in
      let placed : place_bid ctx core_symbol bidder newname bid.amount
            (find s.bids ctx.self newname) s1
          ≡ ok (tt, s') =
        r8 in
      let (raised, leads, stakes) =
        placed_lem ctx core_symbol bidder newname bid.amount s1 s' h more placed in
      record {
        signed = signed;
        free = ground arith;
        token = (symbol_eq_iff bid.symbol core_symbol).0 token;
        positive = more;
        raised = raised;
        leads = leads;
        stakes = stakes;
      }

  -- What a refund does.
  pub record Returned (ctx : Context) (bidder newname : ℕ) (memo : String) (s s' : State)
      : Type 0 where
    pub row : BidRefund
    pub found : find s.refunds newname bidder ≡ some row
    pub sent :
        s'.inlines
        ≡ s.inlines
          ++ record {
            authorization = names_account ∷ bidder ∷ [];
            call = transfer_call names_account bidder row.amount memo;
          }
            ∷ []
    pub bids : s'.bids ≡ s.bids
    pub gone : find s'.refunds newname bidder ≡ none
    pub others :
        (account name : ℕ)
        → ((newname == name) && (bidder == account)) ≡ false
        → find s'.refunds name account ≡ find s.refunds name account

  -- A refund that goes through sends the bidder all that is to be refunded to it on the name, from the
  -- account of the names, and removes it; no bid and no other refund changes.
  pub bidrefund-Returned :
      ⦃n : Names⦄ (ctx : Context) (bidder newname : ℕ) (s s' : State)
      → bidrefund ctx bidder newname s ≡ ok (tt, s')
      → Returned ctx bidder newname (n.refund_memo newname) s s'
  unfolding bidrefund
  bidrefund-Returned ctx bidder newname s s' run =
      let (row, found, r1) =
        or_fail-then (find s.refunds newname bidder) "refund not found" _ s s' tt run in
      let e : s'.refunds ≡ drop s.refunds newname bidder = ground arith in
      record {
        row = row;
        found = found;
        sent = ground arith;
        bids = ground arith;
        gone = rw e (find-drop s.refunds newname bidder newname bidder ∙ ground arith);
        others =
            λ account name f. rw e (find-drop s.refunds newname bidder name account ∙ ground arith);
      }
