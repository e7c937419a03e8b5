-- ===== src/System/Pay.antt =====
-- contracts/eosio.system/src/producer_pay.cpp: what happens in every block, and the pay that a producer
-- claims.
use ux_contracts.Prelude.{
  ℕ, ◌+◌, ◌-◌, ◌*◌, ◌%◌, ◌^◌, Bool, not, ◌&&◌, Option, none, some, [], ◌∷◌, ◌==◌, if◌then◌else◌,
  pos, neg, ltb_ℤ, ◌-ℤ◌, int64, ltb,
}
use ux_contracts.Chain.Action.{Action, ◌>>=◌, ◌>>◌, check, or_fail, gets, modify, when, pure, lift}
use ux_contracts.Chain.Context.{Context, require_auth, current_seconds}
use ux_contracts.Chain.Platform.{Platform}
use ux_contracts.Chain.Double.{Double}
use ux_contracts.Token.History.{transfer_call}
use ux_contracts.Bidding.{NameBid}
use ux_contracts.System.Tables.{
  ProducerInfo, Global, blocks_per_day, bpay_account, names_account, upay_account,
}
use ux_contracts.System.State.{State, send, set_global, core_asset}
use ux_contracts.System.Weights.{put_producer, useconds_per_day}
use ux_contracts.System.Producers.{Election, update_elected_producers}

-- `a.slot - b.slot`, in 32 bits.
abbrev slots_since : ℕ → ℕ → ℕ
slots_since b a = (a + (2 ^ 32 - b)) % 2 ^ 32

module _ ⦃p : Platform⦄ ⦃d : Double⦄ where
  open p use {find, put, asset_sub}

  abbrev count_block : ℕ → ℕ → Option ProducerInfo → State → State
  count_block self producer none s = s
  count_block self producer (some i) s =
      put_producer 0 self producer (record i { unpaid_blocks = (i.unpaid_blocks + 1) % 2 ^ 32 })
        (set_global (λ g. record g { total_unpaid_blocks = (g.total_unpaid_blocks + 1) % 2 ^ 32 })
          s)

  -- `now - since > length`, for times that are less than 2^63.
  abbrev is_longer : (length since now : ℕ) → Bool
  is_longer length since now = ltb_ℤ (pos length) (pos now -ℤ pos since)

  abbrev is_won : Context → Global → NameBid → Bool
  is_won ctx g b =
      ltb_ℤ (pos 0) b.high_bid
      && is_longer useconds_per_day b.last_bid_time ctx.current_time_point
      && ltb 0 g.thresh_activated_stake_time
      && is_longer (14 * useconds_per_day) g.thresh_activated_stake_time ctx.current_time_point

  -- The bid of the auction that closes becomes negative.
  abbrev close_bid : ℕ → NameBid → State → State
  close_bid self b s = record s {
    bids = put s.bids 0 self b.newname (record b { high_bid = int64 (neg b.high_bid) });
  }

  abbrev close_auction : Context → ℕ → Option NameBid → Action State (Unit {0})
  close_auction ctx timestamp none = pure tt
  close_auction ctx timestamp (some b) = do
    g ← gets (λ s. s.global)
    when (is_won ctx g b) (do
      modify (set_global (λ g. record g { last_name_close = timestamp }))
      bid ← core_asset b.high_bid
      send (names_account ∷ []) (transfer_call names_account upay_account bid "winning auction bid")
      modify (close_bid ctx.self b))

  -- `highest` is the row that `lower_bound` of the index by bids finds in the table of bids, if any.
  unfoldable pub close_name_auction :
      Context → (State → Option NameBid) → ℕ → Action State (Unit {0})
  close_name_auction ctx highest timestamp = do
    g ← gets (λ s. s.global)
    found ← gets highest
    when (ltb blocks_per_day (slots_since g.last_name_close timestamp))
        (close_auction ctx timestamp found)

  unfoldable pub onblock :
      Election
      → Context
      → (State → Option NameBid)
      → (timestamp producer : ℕ) → Action State (Unit {0})
  onblock e ctx highest timestamp producer = do
    require_auth ctx ctx.self
    modify (set_global (λ g. record g { last_block_num = timestamp }))
    g ← gets (λ s. s.global)
    when (not (g.thresh_activated_stake_time == 0)) (do
      modify (
          set_global (λ g. record g {
            last_pervote_bucket_fill =
                if g.last_pervote_bucket_fill == 0
                then ctx.current_time_point
                else g.last_pervote_bucket_fill;
          }))
      prod ← gets (λ s. find s.producers ctx.self producer)
      modify (count_block ctx.self producer prod)
      g ← gets (λ s. s.global)
      when (ltb 120 (slots_since g.last_producer_schedule_update timestamp))
          (do update_elected_producers e timestamp; close_name_auction ctx highest timestamp))

  unfoldable pub claimrewards : Context → ℕ → Action State (Unit {0})
  claimrewards ctx owner = do
    require_auth ctx owner
    found ← gets (λ s. find s.producer_pay ctx.self owner)
    pay ← or_fail found "owner balance not found"
    check (ltb_ℤ (pos 0) pay.balance.amount) "no balance to claim"
    send (bpay_account ∷ owner ∷ [])
        (transfer_call bpay_account owner pay.balance "producer reward")
    rest ← lift (asset_sub pay.balance pay.balance)
    modify (λ s. record s {
      producer_pay =
          put s.producer_pay 0 ctx.self owner
            (record pay { balance = rest; last_claim_time = current_seconds ctx });
    })
