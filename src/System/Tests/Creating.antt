-- ===== src/System/Tests/Creating.antt =====
-- A run of the creation of an account with a name that was auctioned.
use ux_contracts.Prelude.{◌≡◌, ◌∷◌, refl, [], negsuc, pos}
use ux_contracts.Chain.Action.{ok}
use ux_contracts.Chain.Millionths.{millionths}
use ux_contracts.Chain.Memory.{memory}
use ux_contracts.System.State.{State}
use ux_contracts.System.Core.{newaccount}
use ux_contracts.System.Creation.{Created, newaccount-Created}
use ux_contracts.System.Tests.{names, at, empty, settled}

abbrev won : State
won = record empty {
  bids =
      (1, 7, record { newname = 7; high_bidder = 8; high_bid = negsuc 99; last_bid_time = 3 })
      ∷ (1, 9, record { newname = 9; high_bidder = 8; high_bid = pos 50; last_bid_time = 3 })
      ∷ [];
}

abbrev with_account : State
unfolding newaccount
with_account = settled (newaccount (at 5) 8 7 won)

creates : newaccount (at 5) 8 7 won ≡ ok (tt, with_account)
unfolding newaccount with_account
creates = refl

newaccount-Created_example : Created 1 8 7 won with_account
newaccount-Created_example = newaccount-Created (at 5) 8 7 won with_account refl refl refl creates
