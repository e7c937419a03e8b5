-- ===== src/Bidding/Stake.antt =====
-- What an account has at stake on a name, before and after a bid.
use ux_contracts.Prelude.{
  ℕ, ◌≡◌, ◌≢◌, refl, sym, ap, subst, ◌∙◌, false, ◌&&◌, Option, none, some, List, arith, ◌==◌,
  if◌then◌else◌, Option-cases, Bool-cases, inl, inr, ℤ, pos, ◌<ℤ◌, ◌-ℤ◌, ◌+ℤ◌, ltb_ℤ, int64, quot,
  +ℤ_parts, eq_of_parts,
}
use ux_contracts.Chain.Action.{ok}
use ux_contracts.Chain.Asset.{Symbol}
use ux_contracts.Chain.Context.{Context}
use ux_contracts.Chain.Platform.{Platform}
use ux_contracts.Token.History.{Inline}
use ux_contracts.Bidding.{NameBid, BidRefund, State, put_bid, put_refund, defer_refund, place_bid}
use ux_contracts.Bidding.Accounts.{amount_of, IsRefundable, Outbids, place_bid-Outbids}

-- The part of a standing bid that is the account's: a closed auction has a negative bid.
abbrev pub standing : ℕ → Option NameBid → ℤ
standing account none = pos 0
standing account (some current) =
    if (current.high_bidder == account) && ltb_ℤ (pos 0) current.high_bid
    then current.high_bid
    else pos 0

module _ ⦃p : Platform⦄ where
  open p use {find, drop, find-put, find-drop}

  abbrev pub at_stake : State → ℕ → ℕ → ℕ → ℤ
  at_stake s self account name =
      amount_of (find s.refunds name account) +ℤ standing account (find s.bids self name)

  abbrev pub with_inlines : State → List Inline → State
  with_inlines s xs = record s { inlines = xs }

  added_zero : (a : ℤ) → a ≡ a +ℤ pos 0
  added_zero a = let e = +ℤ_parts a (pos 0) in eq_of_parts a (a +ℤ pos 0) (omega arith)

  -- The bid of an account that has none standing.
  added_bid : (x y : ℤ) → x +ℤ y ≡ (x +ℤ pos 0) +ℤ y
  added_bid x y = ap (λ w. w +ℤ y) (added_zero x)

  stake_is :
      (s : State) (self account name : ℕ) (r : Option BidRefund) (b : Option NameBid)
      → find s.refunds name account ≡ r
      → find s.bids self name ≡ b
      → at_stake s self account name ≡ amount_of r +ℤ standing account b
  stake_is s self account name r b e f = rw e (rw f refl)

  abbrev own : ℕ → ℕ → ℤ → ℤ
  own bidder account amount = if bidder == account then amount else pos 0

  -- It is enough to look at the name that is bid on, and at the others.
  by_name :
      (bidder newname self : ℕ) (amount : ℤ) (s s' : State)
      → ((account : ℕ)
          → at_stake s' self account newname
            ≡ at_stake s self account newname +ℤ own bidder account amount)
      → ((account name : ℕ)
          → (newname == name) ≡ false
          → at_stake s' self account name ≡ at_stake s self account name)
      → (account name : ℕ)
      → at_stake s' self account name
        ≡ at_stake s self account name
          +ℤ (if (newname == name) && (bidder == account) then amount else pos 0)
  by_name bidder newname self amount s s' same others account name =
      elim (Bool-cases (newname == name)) [
        | inl e ↦
            let n : newname ≡ name = ground arith in
            rw e (
              subst
                (λ k.
                  at_stake s' self account k
                  ≡ at_stake s self account k +ℤ own bidder account amount)
                n (same account))
        | inr e ↦ rw e (others account name e ∙ added_zero (at_stake s self account name))
      ]

  abbrev pub bid_row : Context → ℕ → ℕ → ℤ → NameBid
  bid_row ctx bidder newname amount = record {
    newname = newname;
    high_bidder = bidder;
    high_bid = amount;
    last_bid_time = ctx.current_time_point;
  }

  standing_new :
      (ctx : Context) (bidder newname account : ℕ) (amount : ℤ)
      → pos 0 <ℤ amount
      → standing account (some (bid_row ctx bidder newname amount)) ≡ own bidder account amount
  standing_new ctx bidder newname account amount h = ground arith

  -- The bids after a bid.
  bids_same :
      (ctx : Context) (bidder newname : ℕ) (amount : ℤ) (s : State)
      → find (put_bid ctx bidder newname amount s).bids ctx.self newname
        ≡ some (bid_row ctx bidder newname amount)
  bids_same ctx bidder newname amount s =
      find-put s.bids bidder ctx.self newname (bid_row ctx bidder newname amount) ctx.self newname
      ∙ ground arith

  bids_other :
      (ctx : Context) (bidder newname name : ℕ) (amount : ℤ) (s : State)
      → (newname == name) ≡ false
      → find (put_bid ctx bidder newname amount s).bids ctx.self name ≡ find s.bids ctx.self name
  bids_other ctx bidder newname name amount s e =
      find-put s.bids bidder ctx.self newname (bid_row ctx bidder newname amount) ctx.self name
      ∙ ground arith

  first_stake :
      (ctx : Context) (bidder newname : ℕ) (amount : ℤ) (s : State)
      → pos 0 <ℤ amount
      → find s.bids ctx.self newname ≡ none
      → (account name : ℕ)
      → at_stake (put_bid ctx bidder newname amount s) ctx.self account name
        ≡ at_stake s ctx.self account name
          +ℤ (if (newname == name) && (bidder == account) then amount else pos 0)
  first_stake ctx bidder newname amount s h first =
      let s' = put_bid ctx bidder newname amount s in
      by_name bidder newname ctx.self amount s s'
        (λ account.
          let before = stake_is s ctx.self account newname _ none refl first in
          let after =
            stake_is s' ctx.self account newname (find s.refunds newname account) _ refl
              (bids_same ctx bidder newname amount s) in
          after
          ∙ ap (λ w. amount_of (find s.refunds newname account) +ℤ w)
              (standing_new ctx bidder newname account amount h)
          ∙ added_bid (amount_of (find s.refunds newname account)) (own bidder account amount)
          ∙ ap (λ w. w +ℤ own bidder account amount) (sym before))
        (λ account name e.
          stake_is s' ctx.self account name (find s.refunds name account) _ refl
            (bids_other ctx bidder newname name amount s e))

  over_stake :
      (ctx : Context) (bidder newname : ℕ) (amount : ℤ) (current : NameBid) (s s' : State)
      → pos 0 <ℤ amount
      → find s.bids ctx.self newname ≡ some current
      → Outbids ctx bidder newname amount current s s'
      → (account name : ℕ)
      → at_stake s' ctx.self account name
        ≡ at_stake s ctx.self account name
          +ℤ (if (newname == name) && (bidder == account) then amount else pos 0)
  over_stake ctx bidder newname amount current s s' h there i =
      let hb = current.high_bidder in
      let m = defer_refund bidder hb newname (put_refund i.payer hb newname i.total s) in
      let row : BidRefund = record { bidder = hb; amount = i.total } in
      let bids_of : s'.bids ≡ (put_bid ctx bidder newname amount m).bids =
        ap (λ (w : State). w.bids) i.after in
      let refunds_of : s'.refunds ≡ m.refunds = ap (λ (w : State). w.refunds) i.after in
      let refund_at : (account name : ℕ)
          → find s'.refunds name account ≡ (
              if (newname == name) && (hb == account)
              then some row
              else find s.refunds name account) =
        λ account name.
          ap (λ w. find w name account) refunds_of
          ∙ find-put s.refunds i.payer newname hb row name account in
      let bid_at : find s'.bids ctx.self newname ≡ some (bid_row ctx bidder newname amount) =
        ap (λ w. find w ctx.self newname) bids_of ∙ bids_same ctx bidder newname amount m in
      by_name bidder newname ctx.self amount s s'
        (λ account.
          let now = standing_new ctx bidder newname account amount h in
          elim (Bool-cases (hb == account)) [
            | inl mine ↦
                let same : hb ≡ account = ground arith in
                subst
                  (λ k.
                    at_stake s' ctx.self k newname
                    ≡ at_stake s ctx.self k newname +ℤ own bidder k amount)
                  same
                  (let before = stake_is s ctx.self hb newname _ (some current) refl there in
                    let paid : standing hb (some current) ≡ current.high_bid =
                      (let e = i.open_auction in ground arith) in
                    let after =
                      stake_is s' ctx.self hb newname (some row) _
                        (refund_at hb newname ∙ ground arith) bid_at in
                    after
                    ∙ ap (λ w. i.total.amount +ℤ w) (standing_new ctx bidder newname hb amount h)
                    ∙ ap (λ w. w +ℤ own bidder hb amount)
                        (i.sum
                          ∙ sym
                              (before ∙ ap (λ w. amount_of (find s.refunds newname hb) +ℤ w) paid)))
            | inr other ↦
                let before = stake_is s ctx.self account newname _ (some current) refl there in
                let unpaid : standing account (some current) ≡ pos 0 = ground arith in
                let old = amount_of (find s.refunds newname account) in
                let after =
                  stake_is s' ctx.self account newname (find s.refunds newname account) _
                    (refund_at account newname ∙ ground arith) bid_at in
                after
                ∙ ap (λ w. old +ℤ w) now
                ∙ added_bid old (own bidder account amount)
                ∙ ap (λ w. w +ℤ own bidder account amount)
                    (sym (before ∙ ap (λ w. old +ℤ w) unpaid))
          ])
        (λ account name e.
          stake_is s' ctx.self account name (find s.refunds name account) _
            (refund_at account name ∙ ground arith)
            (ap (λ w. find w ctx.self name) bids_of
              ∙ bids_other ctx bidder newname name amount m e))

  -- The parts of what a bid does that are about the tables.
  pub placed_lem :
      (ctx : Context) (core_symbol : Symbol) (bidder newname : ℕ) (amount : ℤ) (s s' : State)
      → IsRefundable s
      → pos 0 <ℤ amount
      → place_bid ctx core_symbol bidder newname amount (find s.bids ctx.self newname) s
        ≡ ok (tt, s')
      → ((current : NameBid)
          → find s.bids ctx.self newname ≡ some current
          → (pos 0 <ℤ current.high_bid)
            × (quot current.high_bid 10 <ℤ int64 (amount -ℤ current.high_bid))
            × (current.high_bidder ≢ bidder))
        × (find s'.bids ctx.self newname ≡ some (bid_row ctx bidder newname amount))
        × ((account name : ℕ)
            → at_stake s' ctx.self account name
              ≡ at_stake s ctx.self account name
                +ℤ (if (newname == name) && (bidder == account) then amount else pos 0))
  unfolding place_bid
  placed_lem ctx core_symbol bidder newname amount s s' h more run =
      elim (Option-cases (find s.bids ctx.self newname)) [
        | inl first ↦
            let e : s' ≡ put_bid ctx bidder newname amount s =
              (let placed : place_bid ctx core_symbol bidder newname amount none s ≡ ok (tt, s') =
                  rw first at run in
                ground arith) in
            (
              λ current there. absurd (cc (first, there)),
              ap (λ (w : State). find w.bids ctx.self newname) e
                  ∙ bids_same ctx bidder newname amount s,
              λ account name.
                  ap (λ w. at_stake w ctx.self account name) e
                  ∙ first_stake ctx bidder newname amount s more first account name,
            )
        | inr (current, there) ↦
            let placed : place_bid ctx core_symbol bidder newname amount (some current) s
                ≡ ok (tt, s') =
              rw there at run in
            let i = place_bid-Outbids ctx core_symbol bidder newname amount current s s' h placed in
            (
              λ other found.
                  let same : current ≡ other = ground arith in
                  subst
                    (λ (c : NameBid).
                      (pos 0 <ℤ c.high_bid)
                      × (quot c.high_bid 10 <ℤ int64 (amount -ℤ c.high_bid))
                      × (c.high_bidder ≢ bidder))
                    same (i.open_auction, i.raised, i.other),
              ap (λ (w : State). find w.bids ctx.self newname) i.after
                  ∙ bids_same ctx bidder newname amount (
                      defer_refund bidder current.high_bidder newname
                        (put_refund i.payer current.high_bidder newname i.total s)),
              over_stake ctx bidder newname amount current s s' more there i,
            )
      ]
