-- ===== src/Bidding/Accounts.antt =====
-- What a bid writes: the refund of the bid that it beats, and the new bid.
use ux_contracts.Prelude.{
  ℕ, ◌≡◌, refl, sym, ap, ◌∙◌, true, not, Option, none, some, arith, ◌==◌, Option-cases, inl, inr, ℤ,
  pos, ◌<ℤ◌, ◌-ℤ◌, ◌+ℤ◌, ltb_ℤ, int64, quot, +ℤ_parts, eq_of_parts, ◌≢◌,
}
use ux_contracts.Chain.Action.{ok}
use ux_contracts.Chain.Asset.{Symbol, Asset, in_range}
use ux_contracts.Chain.Context.{Context}
use ux_contracts.Chain.Platform.{Platform, make_asset}
use ux_contracts.Chain.Frame.{check-then, bind-ok}
use ux_contracts.Token.Balances.{IsAmount, asset_add-eq}
use ux_contracts.Bidding.{
  NameBid, BidRefund, State, put_refund, put_bid, defer_refund, refund_bid, place_bid,
}

abbrev pub amount_of : Option BidRefund → ℤ
amount_of none = pos 0
amount_of (some r) = r.amount.amount

zero_add : (a : ℤ) → a ≡ pos 0 +ℤ a
zero_add a = let e = +ℤ_parts (pos 0) a in eq_of_parts a (pos 0 +ℤ a) (omega arith)

module _ ⦃p : Platform⦄ where
  open p use {find, asset_add}

  -- The refunds are amounts, from zero to the maximum.
  abbrev pub IsRefundable : State → Type 0
  IsRefundable s =
      (bidder newname : ℕ) (r : BidRefund)
      → find s.refunds newname bidder ≡ some r
      → IsAmount r.amount.amount

  -- A refund goes on top of what is there.
  record Refunded (bidder newname : ℕ) (a : Asset) (s s' : State) : Type 0 where
    payer : ℕ
    total : Asset
    sum : total.amount ≡ amount_of (find s.refunds newname bidder) +ℤ a.amount
    after : s' ≡ put_refund payer bidder newname total s

  refund_bid-Refunded :
      (payer bidder newname : ℕ) (a : Asset) (s s' : State)
      → IsRefundable s
      → IsAmount a.amount
      → refund_bid payer bidder newname a s ≡ ok (tt, s')
      → Refunded bidder newname a s s'
  unfolding refund_bid
  refund_bid-Refunded payer bidder newname a s s' h k run =
      elim (Option-cases (find s.refunds newname bidder)) [
        | inl missing ↦ record {
          payer = payer;
          total = a;
          sum = rw missing (zero_add a.amount);
          after = ground arith;
        }
        | inr (r, there) ↦
            let law = asset_add-eq r.amount a (h bidder newname r there) k in
            record {
              payer = 0;
              total = record { amount = r.amount.amount +ℤ a.amount; symbol = r.amount.symbol };
              sum = rw there refl;
              after = ground arith;
            }
      ]

  make_asset-ok :
      (symbol : Symbol) (amount : ℤ) (s s' : State) (a : Asset)
      → make_asset symbol amount s ≡ ok (a, s')
      → (s' ≡ s) × (a.amount ≡ amount) × (in_range amount ≡ true)
  make_asset-ok symbol amount s s' a run = (ground arith, ground arith, ground arith)

  -- What a bid on a name with a standing bid does.
  pub record Outbids (ctx : Context) (bidder newname : ℕ) (amount : ℤ) (current : NameBid)
      (s s' : State) : Type 0 where
    pub open_auction : pos 0 <ℤ current.high_bid
    pub raised : quot current.high_bid 10 <ℤ int64 (amount -ℤ current.high_bid)
    pub other : current.high_bidder ≢ bidder
    pub payer : ℕ
    pub total : Asset
    pub sum :
        total.amount ≡ amount_of (find s.refunds newname current.high_bidder) +ℤ current.high_bid
    pub after :
        s'
        ≡ put_bid ctx bidder newname amount (
            defer_refund bidder current.high_bidder newname
              (put_refund payer current.high_bidder newname total s))

  pub place_bid-Outbids :
      (ctx : Context) (core_symbol : Symbol) (bidder newname : ℕ) (amount : ℤ) (current : NameBid)
      (s s' : State)
      → IsRefundable s
      → place_bid ctx core_symbol bidder newname amount (some current) s ≡ ok (tt, s')
      → Outbids ctx bidder newname amount current s s'
  unfolding place_bid
  place_bid-Outbids ctx core_symbol bidder newname amount current s s' h run =
      let (opened, r1) =
        check-then (ltb_ℤ (pos 0) current.high_bid) "this auction has already closed" _ s s' tt
          run in
      let (raised, r2) =
        check-then (ltb_ℤ (quot current.high_bid 10) (int64 (amount -ℤ current.high_bid)))
          "must increase bid by 10%" _ s s' tt r1 in
      let (other, r3) =
        check-then (not (current.high_bidder == bidder)) "account is already highest bidder" _ s s'
          tt r2 in
      let (old, t, made, r4) = bind-ok (make_asset core_symbol current.high_bid) _ s s' tt r3 in
      let (same, value, bound) = make_asset-ok core_symbol current.high_bid s t old made in
      let (u, v, refunded, r5) =
        bind-ok (refund_bid bidder current.high_bidder newname old) _ t s' tt r4 in
      let moved : refund_bid bidder current.high_bidder newname old s ≡ ok (tt, v) =
        ap (refund_bid bidder current.high_bidder newname old) (sym same) ∙ refunded in
      let i =
        refund_bid-Refunded bidder current.high_bidder newname old s v h
          (let e = value in ground arith) moved in
      record {
        open_auction = let e = opened in ground arith;
        raised = let e = raised in ground arith;
        other = λ e. absurd (ground arith);
        payer = i.payer;
        total = i.total;
        sum = i.sum ∙ ap (λ w. amount_of (find s.refunds newname current.high_bidder) +ℤ w) value;
        after =
            let e : s'
                ≡ put_bid ctx bidder newname amount
                    (defer_refund bidder current.high_bidder newname v) =
              ground arith in
            e
            ∙ ap
                (λ w.
                  put_bid ctx bidder newname amount
                    (defer_refund bidder current.high_bidder newname w))
                i.after;
      }
