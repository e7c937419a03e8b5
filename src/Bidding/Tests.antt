-- ===== src/Bidding/Tests.antt =====
-- Runs of the auctions, and their theorems at concrete inputs.
use ux_contracts.Prelude.{ℕ, ◌≡◌, refl, [], true, pos, arith, quot, ◌+ℤ◌, ◌-ℤ◌, int64, uint64, ltb}
use ux_contracts.Chain.Action.{Result, ok, err}
use ux_contracts.Chain.Asset.{Symbol, Asset, checked}
use ux_contracts.Chain.Context.{Context}
use ux_contracts.Chain.Platform.{checked_add}
use ux_contracts.Chain.Memory.{memory}
use ux_contracts.Bidding.{Names, State, place_bid, refund_bid, bidname, bidrefund}
use ux_contracts.Bidding.Accounts.{IsRefundable}
use ux_contracts.Bidding.Outbid.{Bid, bidname-Bid, Returned, bidrefund-Returned}

instance abbrev names : Names
names = record {
  suffix = λ a. a;
  bid_memo = λ a. "bid name";
  refund_memo = λ a. "refund bid on name";
}

abbrev at : ℕ → Context
at time = record {
  self = 1;
  has_auth = λ a. true;
  has_auth_level = λ a b. true;
  is_account = λ a. ltb a 100;
  current_time_point = time;
}

abbrev core : Symbol
core = record { code = 9; precision = 4 }

abbrev tokens : ℕ → Asset
tokens amount = record { amount = pos amount; symbol = core }

abbrev empty : State
empty = record { bids = []; refunds = []; inlines = []; deferred = [] }

abbrev settled : Result (Unit {0} × State) → State
settled (ok (u, s)) = s
settled (err e) = empty

-- The name 512 is short enough to be auctioned.
abbrev first_bid : State
unfolding bidname place_bid
first_bid = settled (bidname (at 3) core 7 512 (tokens 100) empty)

bids_first : bidname (at 3) core 7 512 (tokens 100) empty ≡ ok (tt, first_bid)
unfolding bidname place_bid first_bid
bids_first = refl

abbrev second_bid : State
unfolding bidname place_bid refund_bid quot ◌-ℤ◌ ◌+ℤ◌ int64 uint64 checked checked_add first_bid
second_bid = settled (bidname (at 4) core 8 512 (tokens 111) first_bid)

bids_over : bidname (at 4) core 8 512 (tokens 111) first_bid ≡ ok (tt, second_bid)
unfolding bidname place_bid refund_bid quot ◌-ℤ◌ ◌+ℤ◌ int64 uint64 checked checked_add first_bid
    second_bid
bids_over = refl

-- A tenth more is not enough: it has to be above that.
bids_tenth : bidname (at 4) core 8 512 (tokens 110) first_bid ≡ err "must increase bid by 10%"
unfolding bidname place_bid refund_bid quot ◌-ℤ◌ ◌+ℤ◌ int64 uint64 checked checked_add first_bid
bids_tenth = refl

abbrev refunded : State
unfolding bidrefund second_bid
refunded = settled (bidrefund (at 5) 7 512 second_bid)

refunds : bidrefund (at 5) 7 512 second_bid ≡ ok (tt, refunded)
unfolding bidrefund bidname place_bid refund_bid quot ◌-ℤ◌ ◌+ℤ◌ int64 uint64 checked checked_add
    first_bid second_bid refunded
refunds = refl

first_bid-IsRefundable : IsRefundable first_bid
unfolding bidname place_bid first_bid
first_bid-IsRefundable bidder newname r found = absurd (ground arith)

bidname-Bid_example : Bid (at 4) core 8 512 (tokens 111) first_bid second_bid
bidname-Bid_example =
    bidname-Bid (at 4) core 8 512 (tokens 111) first_bid second_bid first_bid-IsRefundable bids_over

bidrefund-Returned_example : Returned (at 5) 7 512 "refund bid on name" second_bid refunded
bidrefund-Returned_example = bidrefund-Returned (at 5) 7 512 second_bid refunded refunds
