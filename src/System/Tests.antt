-- ===== src/System/Tests.antt =====
-- Runs of the system contract, and its theorems at concrete inputs.
mod Memory
mod Granting
mod Creating
mod Producing
mod SelfStaking
use ux_contracts.Prelude.{
  ℕ, ◌≡◌, refl, true, false, none, some, List, [], ◌∷◌, ◌==◌, if◌then◌else◌, ℤ, pos, negsuc, arith,
  ltb, ◌+ℤ◌, ◌-ℤ◌, ◌≤ℤ◌, neg, int64, uint64, quot,
}
use ux_contracts.Chain.Action.{Result, ok, err}
use ux_contracts.Chain.Asset.{Symbol, Asset, checked}
use ux_contracts.Chain.Context.{Context}
use ux_contracts.Chain.Platform.{checked_add}
use ux_contracts.Chain.Memory.{memory}
use ux_contracts.Chain.Millionths.{millionths}
use ux_contracts.System.Tables.{new_voter, Names, Global, Weights, ExchangeState, ramcore_symbol}
use ux_contracts.System.State.{State}
use ux_contracts.System.Privileged.{get_default_parameters, get_default_inflation_parameters}
use ux_contracts.System.Staking.{
  changebw, update_voting_power, refund, undelegatebw, self_stake, is_active_producer,
}
use ux_contracts.System.RexStake.{update_rex_stake}
use ux_contracts.System.Bandwidth.{
  change_delegated, delegated_row, change_totals, totals_row, change_refund, move_refund,
  create_refund, new_part,
}
use ux_contracts.System.Weights.{stake2vote, update_total_votepay_share, change_votes}
use ux_contracts.System.Voting.{
  propagate_weight_change, pass_on, cast_votes, update_votes, apply_deltas, voteproducer, regproxy,
}
use ux_contracts.System.Proxies.{proxy_of, IsRanked}
use ux_contracts.System.Chains.{IsChained}
use ux_contracts.System.VoteHistory.{
  Call, regproxy_call, voteproducer_call, perform, run, run-IsChained,
}
use ux_contracts.System.Depth.{update_votes-same}
use ux_contracts.System.Held.{IsSound, Staked, staked_to}
use ux_contracts.System.Delegation.{changebw-Staked}
use ux_contracts.System.Refunding.{Refunded, refund-Refunded}
use ux_contracts.System.SelfStake.{undelegatebw-keeps}

instance abbrev names : Names
names = record {
  suffix = λ a. a;
  not_registered = λ a. "producer is not registered";
  not_currently_registered = λ a. "producer is not currently registered";
}

abbrev at : ℕ → Context
at time = record {
  self = 1;
  has_auth = λ a. true;
  has_auth_level = λ a b. true;
  is_account = λ a. ltb a 100;
  current_time_point = time;
}

abbrev core : Symbol
core = record { code = 9; precision = 4 }

abbrev tokens : ℤ → Asset
tokens amount = record { amount = amount; symbol = core }

abbrev start : Global
start = record (get_default_parameters 0) { thresh_activated_stake_time = 5 }

abbrev market : ExchangeState
market = record {
  supply = record { amount = pos 100_000_000_000_000; symbol = ramcore_symbol };
  base = record { amount = pos 9_663_676_416; symbol = record { code = 5062994; precision = 0 } };
  quote = tokens (pos 1000);
}

abbrev empty : State
empty = record {
  voters = [];
  producers = [];
  producers2 = [];
  userres = [];
  delband = [];
  refunds = [];
  bids = [];
  producer_pay = [];
  rexbalance = [];
  rexpool = none;
  rammarket = some market;
  global = start;
  weights = get_default_inflation_parameters;
  limits = λ a. record { ram = pos 0; net = pos 0; cpu = pos 0 };
  inlines = [];
  deferred = [];
  abi_hashes = [];
  privileged = [];
}

abbrev settled : Result (Unit {0} × State) → State
settled (ok (u, s)) = s
settled (err e) = empty

-- An account stakes for itself, and takes back a part.
abbrev staked : State
unfolding changebw change_delegated delegated_row change_totals totals_row change_refund move_refund
    update_rex_stake update_voting_power checked_add checked int64 uint64 ◌+ℤ◌
staked = settled (changebw 9 (at 3) 7 7 (tokens (pos 30)) (tokens (pos 70)) false empty)

stakes_it : changebw 9 (at 3) 7 7 (tokens (pos 30)) (tokens (pos 70)) false empty ≡ ok (tt, staked)
unfolding changebw change_delegated delegated_row change_totals totals_row change_refund move_refund
    update_rex_stake update_voting_power checked_add checked int64 uint64 ◌+ℤ◌ staked
stakes_it = refl

empty-IsSound : IsSound empty
empty-IsSound = (
  λ a b r e. absurd (ground arith),
  λ a b r e. absurd (ground arith),
  λ a b r e. absurd (ground arith),
)

stakes-Staked : Staked (at 3) 7 7 7 (tokens (pos 30)) (tokens (pos 70)) empty staked
stakes-Staked =
    changebw-Staked 9 (at 3) 7 7 (tokens (pos 30)) (tokens (pos 70)) false empty staked
      (omega arith, omega arith) (omega arith, omega arith) empty-IsSound (λ e. ground arith)
      stakes_it

abbrev unstaked : State
unfolding changebw change_delegated delegated_row change_totals totals_row change_refund move_refund
    create_refund new_part update_rex_stake update_voting_power checked_add checked int64 uint64
    ◌+ℤ◌ neg staked
unstaked = settled (changebw 9 (at 4) 7 7 (tokens (negsuc 9)) (tokens (negsuc 19)) false staked)

takes_back :
    changebw 9 (at 4) 7 7 (tokens (negsuc 9)) (tokens (negsuc 19)) false staked ≡ ok (tt, unstaked)
unfolding changebw change_delegated delegated_row change_totals totals_row change_refund move_refund
    create_refund new_part update_rex_stake update_voting_power checked_add checked int64 uint64
    ◌+ℤ◌ neg staked unstaked
takes_back = refl

changebw-Staked_example :
    Staked (at 4) 7 7 7 (tokens (negsuc 9)) (tokens (negsuc 19)) staked unstaked
changebw-Staked_example =
    changebw-Staked 9 (at 4) 7 7 (tokens (negsuc 9)) (tokens (negsuc 19)) false staked unstaked
      (omega arith, omega arith) (omega arith, omega arith) stakes-Staked.sound (λ e. ground arith)
      takes_back

-- Two accounts become proxies, one of them no more, and votes through the other.
abbrev calls : List (Context × Call)
calls =
    (at 3, regproxy_call 8 true)
    ∷ (at 3, regproxy_call 7 true)
    ∷ (at 4, regproxy_call 7 false)
    ∷ (at 5, voteproducer_call 7 8 [])
    ∷ []

votes_through : proxy_of (memory.find (run 9 calls empty).voters 1 7) ≡ 8
unfolding run perform regproxy voteproducer propagate_weight_change pass_on change_votes
    update_rex_stake update_votes cast_votes apply_deltas stake2vote update_total_votepay_share
    int64 uint64 ◌+ℤ◌ ◌-ℤ◌ neg quot
votes_through = refl

empty-IsChained : IsChained 1 empty
empty-IsChained = record {
  rank = λ a. 0;
  ranked = λ a nonzero. absurd (nonzero refl);
  proxies = λ a e. refl;
}

run-IsChained_example : IsChained 1 (run 9 calls empty)
run-IsChained_example =
    run-IsChained 9 1 calls empty (refl, (refl, (refl, (refl, tt)))) empty-IsChained

abbrev chain : State
chain = record empty {
  voters =
      (1, 7, record (new_voter 7) { proxy = 8; staked = pos 100; last_vote_weight = 50 })
      ∷ (1, 8, record (new_voter 8) { is_proxy = true; proxied_vote_weight = 50 })
      ∷ [];
}

abbrev rank : ℕ → ℕ
rank a = if a == 7 then 1 else 0

chain-IsRanked : IsRanked 1 rank chain
chain-IsRanked a nonzero = ground arith

update_votes-same_example :
    update_votes 2 (at 6) 7 8 [] true chain ≡ update_votes 9 (at 6) 7 8 [] true chain
update_votes-same_example =
    update_votes-same (at 6) rank 2 9 7 8 [] true chain chain-IsRanked
      (λ a. (ground arith, ground arith))

takes_back-IsSound : IsSound unstaked
takes_back-IsSound =
    (changebw-Staked 9 (at 4) 7 7 (tokens (negsuc 9)) (tokens (negsuc 19)) false staked unstaked
      (omega arith, omega arith) (omega arith, omega arith) stakes-Staked.sound (λ e. ground arith)
      takes_back).sound

abbrev paid_out : State
unfolding refund checked_add checked ◌+ℤ◌ unstaked
paid_out = settled (refund (at 300_000_000_000) 7 unstaked)

pays_out : refund (at 300_000_000_000) 7 unstaked ≡ ok (tt, paid_out)
unfolding refund checked_add checked ◌+ℤ◌ unstaked paid_out
pays_out = refl

refund-Refunded_example : Refunded (at 300_000_000_000) 7 unstaked paid_out
refund-Refunded_example =
    refund-Refunded (at 300_000_000_000) 7 unstaked paid_out takes_back-IsSound.2 pays_out
