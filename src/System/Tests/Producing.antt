-- ===== src/System/Tests/Producing.antt =====
-- Runs of an election and of a claim of rewards.
use ux_contracts.Prelude.{ℕ, ◌≡◌, ◌∷◌, refl, true, none, [], pos, arith, ◌-ℤ◌, int64}
use ux_contracts.Chain.Action.{ok}
use ux_contracts.Chain.Memory.{memory}
use ux_contracts.Chain.Millionths.{millionths}
use ux_contracts.Chain.Platform.{checked_sub}
use ux_contracts.Chain.Asset.{checked}
use ux_contracts.System.Tables.{ProducerInfo}
use ux_contracts.System.State.{State}
use ux_contracts.System.Producers.{Election, update_elected_producers}
use ux_contracts.System.Elections.{Elected, update_elected_producers-Elected}
use ux_contracts.System.Pay.{claimrewards}
use ux_contracts.System.Rewards.{Claimed, claimrewards-Claimed}
use ux_contracts.System.Tests.{at, empty, settled, tokens}

abbrev candidate : (owner votes : ℕ) → ProducerInfo
candidate owner votes = record {
  owner = owner;
  total_votes = votes;
  producer_key = owner;
  is_active = true;
  url = "";
  unpaid_blocks = 0;
  last_claim_time = 0;
  location = 0;
  producer_authority = none;
}

abbrev election : Election
election = record {
  by_votes = λ s. candidate 9 300 ∷ candidate 7 200 ∷ candidate 8 0 ∷ [];
  set_proposed_producers = λ l. true;
}

update_elected_producers-Elected_example :
    (t : State) × (update_elected_producers election 12 empty ≡ ok (tt, t))
    × Elected election 12 empty t
update_elected_producers-Elected_example = update_elected_producers-Elected election 12 empty

abbrev owing : State
owing = record empty {
  producer_pay = (1, 7, record { owner = 7; balance = tokens (pos 40); last_claim_time = 0 }) ∷ [];
}

abbrev claimed_state : State
unfolding claimrewards checked_sub checked int64 ◌-ℤ◌
claimed_state = settled (claimrewards (at 9) 7 owing)

claims : claimrewards (at 9) 7 owing ≡ ok (tt, claimed_state)
unfolding claimrewards checked_sub checked int64 ◌-ℤ◌ claimed_state
claims = refl

claimrewards-Claimed_example : Claimed (at 9) 7 owing claimed_state
claimrewards-Claimed_example =
    claimrewards-Claimed (at 9) 7 owing claimed_state (λ pay found. ground arith) claims
