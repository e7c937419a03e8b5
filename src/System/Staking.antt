-- ===== src/System/Staking.antt =====
-- contracts/eosio.system/src/delegate_bandwidth.cpp: the actions that stake tokens, take them back and
-- pay the refund.
use ux_contracts.Prelude.{
  ℕ, ◌+◌, ◌*◌, Bool, false, not, ◌&&◌, ◌||◌, Option, none, some, [], ◌∷◌, ◌==◌, if◌then◌else◌,
  String, ℤ, pos, ltb_ℤ, leb_ℤ, eqb_ℤ, ◌+ℤ◌, ◌-ℤ◌, int64, uint64, sub_64, leb, is_some, length,
  pos_part, neg_part,
}
use ux_contracts.Chain.Action.{Action, ◌>>=◌, ◌>>◌, check, or_fail, gets, modify, when, lift}
use ux_contracts.Chain.Asset.{Asset, symbol_eq}
use ux_contracts.Chain.Context.{Context, require_auth, current_seconds}
use ux_contracts.Chain.Platform.{Platform}
use ux_contracts.Chain.Double.{Double, of_ℕ}
use ux_contracts.Token.History.{transfer_call}
use ux_contracts.System.Tables.{
  Names, DelegatedBandwidth, VoterInfo, new_voter, ProducerInfo, stake_account, b1_account,
  seconds_per_year, refund_delay_sec,
}
use ux_contracts.System.State.{State, send, core_asset, put_voter}
use ux_contracts.System.RexStake.{update_rex_stake}
use ux_contracts.System.Voting.{update_votes}
use ux_contracts.System.Bandwidth.{change_delegated, change_totals, change_refund}

-- `std::abs`
abbrev pub abs : ℤ → ℕ
abs a = pos_part a + neg_part a

-- `a >= zero_asset`, which compares only what has one symbol.
abbrev pub check_at_least : {S : Type 0} → (a b : Asset) → String → Action S (Unit {0})
check_at_least a b message = do
  check (symbol_eq a.symbol b.symbol) "comparison of assets with different symbols is not allowed"
  check (leb_ℤ b.amount a.amount) message

-- 10 million tokens.
abbrev pub self_stake : ℕ
self_stake = 100_000_000_000

module _ ⦃p : Platform⦄ ⦃d : Double⦄ where
  open p use {find, put, drop, asset_add, asset_sub, asset_neg}

  abbrev max_claimable : ℤ
  max_claimable = pos 1_000_000_000_000

  -- What `b1` may have claimed by now.
  abbrev claimable : Context → ℤ
  claimable ctx =
      let passed = pos (current_seconds ctx) -ℤ pos 1_527_811_200 in
      d.to_int64
        (d.div (d.mul (d.of_ℤ max_claimable) (d.of_ℤ passed)) (of_ℕ (10 * seconds_per_year)))

  unfoldable pub validate_b1_vesting : Context → ℤ → Action State (Unit {0})
  validate_b1_vesting ctx stake =
      check (leb_ℤ (int64 (max_claimable -ℤ claimable ctx)) stake)
        "b1 can only claim their tokens over 10 years"

  -- `voter_itr == _voters.end()` is `none`.
  abbrev pub staked_voter : ℕ → ℤ → Option VoterInfo → VoterInfo
  staked_voter voter update none = record (new_voter voter) { staked = update }
  staked_voter voter update (some v) = record v { staked = int64 (v.staked +ℤ update) }

  unfoldable pub update_voting_power :
      ⦃n : Names⦄ → (depth : ℕ) → Context → ℕ → Asset → Action State (Unit {0})
  update_voting_power depth ctx voter total_update = do
    found ← gets (λ s. find s.voters ctx.self voter)
    let v = staked_voter voter total_update.amount found
    modify (put_voter (if is_some found then 0 else voter) ctx.self voter v)
    check (leb_ℤ (pos 0) v.staked) "stake for voting cannot be negative"
    when (voter == b1_account) (validate_b1_vesting ctx v.staked)
    when (not (length v.producers == 0) || not (v.proxy == 0))
        (update_votes depth ctx voter v.proxy v.producers false)

  unfoldable pub changebw :
      ⦃n : Names⦄
      → (depth : ℕ) → Context
      → (from receiver : ℕ) → (net cpu : Asset) → Bool
      → Action State (Unit {0})
  changebw depth ctx from receiver net cpu transfer = do
    require_auth ctx from
    check (not (eqb_ℤ net.amount (pos 0)) || not (eqb_ℤ cpu.amount (pos 0)))
        "should stake non-zero amount"
    sum ← lift (asset_add net cpu)
    check (leb (abs net.amount) (abs sum.amount) && leb (abs cpu.amount) (abs sum.amount))
        "net and cpu deltas cannot be opposite signs"
    let owner = if transfer then receiver else from
    change_delegated owner receiver net cpu
    change_totals ctx owner receiver net cpu
    when (not (stake_account == from)) (change_refund ctx from owner receiver net cpu transfer)
    update_rex_stake ctx owner
    total ← lift (asset_add net cpu)
    update_voting_power depth ctx owner total

  unfoldable pub delegatebw :
      ⦃n : Names⦄
      → (depth : ℕ) → Context
      → (from receiver : ℕ) → (net cpu : Asset) → Bool
      → Action State (Unit {0})
  delegatebw depth ctx from receiver net cpu transfer = do
    zero_asset ← core_asset (pos 0)
    check_at_least cpu zero_asset "must stake a positive amount"
    check_at_least net zero_asset "must stake a positive amount"
    check (ltb_ℤ (pos 0) (int64 (net.amount +ℤ cpu.amount))) "must stake a positive amount"
    check (not transfer || not (from == receiver)) "cannot use transfer flag if delegating to self"
    changebw depth ctx from receiver net cpu transfer

  -- An active producer keeps a stake of its own.
  abbrev pub keeps_stake : (net cpu : Asset) → Option DelegatedBandwidth → Action State (Unit {0})
  keeps_stake net cpu itr = do
    own ←
        or_fail itr
          "producer must maintain 10 million UTX tokens staked to self while registered as a producer. Please unregister first."
    let stake_change = uint64 (net.amount +ℤ cpu.amount)
    let total_staked = uint64 (own.net_weight.amount +ℤ own.cpu_weight.amount)
    check (leb self_stake (sub_64 total_staked stake_change))
        "producer must maintain 10 million UTX tokens staked to self while registered as a producer. Please unregister first."

  abbrev pub is_active_producer : Option ProducerInfo → Bool
  is_active_producer none = false
  is_active_producer (some i) = i.is_active

  unfoldable pub undelegatebw :
      ⦃n : Names⦄
      → (depth : ℕ) → Context
      → (from receiver : ℕ) → (net cpu : Asset) → Action State (Unit {0})
  undelegatebw depth ctx from receiver net cpu = do
    zero_asset ← core_asset (pos 0)
    prod ← gets (λ s. find s.producers ctx.self from)
    itr ← gets (λ s. find s.delband from from)
    when (is_active_producer prod) (keeps_stake net cpu itr)
    check_at_least cpu zero_asset "must unstake a positive amount"
    check_at_least net zero_asset "must unstake a positive amount"
    check (ltb_ℤ (pos 0) (int64 (cpu.amount +ℤ net.amount))) "must unstake a positive amount"
    g ← gets (λ s. s.global)
    check (not (g.thresh_activated_stake_time == 0))
        "cannot undelegate bandwidth until the chain is activated (at least 15% of all tokens participate in voting)"
    changebw depth ctx from receiver (asset_neg net) (asset_neg cpu) false

  unfoldable pub refund : Context → ℕ → Action State (Unit {0})
  refund ctx owner = do
    require_auth ctx owner
    found ← gets (λ s. find s.refunds owner owner)
    req ← or_fail found "refund request not found"
    check (leb ((req.request_time + refund_delay_sec) * 1_000_000) ctx.current_time_point)
        "refund is not available yet"
    total ← lift (asset_add req.net_amount req.cpu_amount)
    send (stake_account ∷ req.owner ∷ []) (transfer_call stake_account req.owner total "unstake")
    modify (λ s. record s { refunds = drop s.refunds owner owner })
