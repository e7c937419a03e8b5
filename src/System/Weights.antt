-- ===== src/System/Weights.antt =====
-- contracts/eosio.system/src/voting.cpp: what a vote weighs, and the shares of the producers in the pay
-- for votes, which follow a change of their votes.
use ux_contracts.Prelude.{
  ℕ, ◌+◌, ◌-◌, ◌*◌, Bool, not, ◌&&◌, Option, none, some, List, [], ◌∷◌, ◌==◌, if◌then◌else◌, ℤ, pos,
  ◌-ℤ◌, quot, ltb, leb,
}
use ux_contracts.Chain.Action.{Action, ◌>>=◌, ◌>>◌, or_fail, gets, modify, pure}
use ux_contracts.Chain.Context.{Context, current_seconds}
use ux_contracts.Chain.Platform.{Platform}
use ux_contracts.Chain.Double.{Double, of_ℕ}
use ux_contracts.System.Tables.{VoterInfo, ProducerInfo, ProducerInfo2, Weights, seconds_per_day}
use ux_contracts.System.State.{State}

abbrev pub useconds_per_day : ℕ
useconds_per_day = seconds_per_day * 1_000_000

-- `block_timestamp::block_timestamp_epoch / 1000`
abbrev block_timestamp_epoch : ℕ
block_timestamp_epoch = 946_684_800

-- `producer_deltas`, in the order of the names: the change of votes, and whether the producer is in the new set.
pub record Delta {ℓ} (F : Type ℓ) : Type ℓ where
  pub producer : ℕ
  pub weight : F
  pub is_new : Bool

-- The sums that the loops over producers keep.
pub record Rates {ℓ} (F : Type ℓ) : Type ℓ where
  pub delta_change_rate : F
  pub total_inactive_vpay_share : F

module _ ⦃d : Double⦄ where
  open d use {F, of_ℤ, add, sub, mul, div, minus, pow, lt, le, fabs, to_int64}

  unfoldable pub stake2vote : Context → ℤ → F
  stake2vote ctx staked =
      let weeks =
        quot (pos (current_seconds ctx) -ℤ pos block_timestamp_epoch) (seconds_per_day * 7) in
      mul (of_ℤ staked) (pow (of_ℕ 2) (div (of_ℤ weeks) (of_ℕ 52)))

  -- `(to - from).count() / 1E6`, for `from <= to`
  abbrev elapsed : (from to : ℕ) → F
  elapsed from to = div (of_ℕ (to - from)) (of_ℕ 1_000_000)

  -- `d.first += weight; d.second = is_new`, where `d` is `producer_deltas[p]`
  abbrev pub add_delta : ℕ → F → Bool → List (Delta F) → List (Delta F)
  add_delta p w n [] = record { producer = p; weight = add (of_ℕ 0) w; is_new = n } ∷ []
  add_delta p w n (x ∷ xs) =
      let rest = add_delta p w n xs in
      if p == x.producer
      then record { producer = p; weight = add x.weight w; is_new = n } ∷ xs
      else if ltb p x.producer
      then record { producer = p; weight = add (of_ℕ 0) w; is_new = n } ∷ x ∷ xs
      else x ∷ rest

  abbrev pub add_deltas : List ℕ → F → Bool → List (Delta F) → List (Delta F)
  add_deltas [] w n xs = xs
  add_deltas (p ∷ ps) w n xs = add_deltas ps w n (add_delta p w n xs)

  -- The total share grows by its rate over the time passed, and neither falls below zero.
  abbrev clamped : F → F → F
  clamped total delta =
      if lt delta (of_ℕ 0) && lt total (minus delta) then of_ℕ 0 else add total delta

  unfoldable pub update_total_votepay_share : ℕ → (shares_delta rate_delta : F) → Weights → Weights
  update_total_votepay_share ct shares_delta rate_delta w =
      let grown =
        if ltb w.last_vpay_state_update ct
        then mul w.total_vpay_share_change_rate (elapsed w.last_vpay_state_update ct)
        else of_ℕ 0 in
      record w {
        total_producer_votepay_share =
            clamped w.total_producer_votepay_share (add grown shares_delta);
        total_vpay_share_change_rate = clamped w.total_vpay_share_change_rate rate_delta;
        last_vpay_state_update = ct;
      }

  abbrev pub new_votepay_share : ℕ → F → ProducerInfo2 → F
  new_votepay_share ct shares_rate prod = add prod.votepay_share (
      if lt (of_ℕ 0) shares_rate && ltb prod.last_votepay_share_update ct
      then mul shares_rate (elapsed prod.last_votepay_share_update ct)
      else of_ℕ 0)

module _ ⦃p : Platform⦄ ⦃d : Double⦄ where
  open p use {find, put}
  open d use {F, of_ℤ, add, sub, mul, div, minus, lt, le, fabs}

  abbrev pub put_producer : ℕ → ℕ → ℕ → ProducerInfo → State → State
  put_producer payer self account i s = record s {
    producers = put s.producers payer self account i;
  }

  abbrev pub put_producer2 : ℕ → ℕ → ℕ → ProducerInfo2 → State → State
  put_producer2 payer self account i s = record s {
    producers2 = put s.producers2 payer self account i;
  }

  abbrev pub update_weights : (Weights → Weights) → State → State
  update_weights f s = record s { weights = f s.weights }

  -- The row of `producers2`, with the share up to now.
  abbrev pub with_share : ℕ → F → Bool → ProducerInfo2 → ProducerInfo2
  with_share ct shares_rate reset_to_zero prod = record prod {
    votepay_share = if reset_to_zero then of_ℕ 0 else new_votepay_share ct shares_rate prod;
    last_votepay_share_update = ct;
  }

  unfoldable pub update_producer_votepay_share :
      Context → ℕ → ProducerInfo2 → F → Bool → Action State F
  update_producer_votepay_share ctx account prod shares_rate reset_to_zero = do
    let ct = ctx.current_time_point
    modify (put_producer2 0 ctx.self account (with_share ct shares_rate reset_to_zero prod))
    pure (new_votepay_share ct shares_rate prod)

  -- What a change of a producer's votes does to its row in `producers2`, and to the sums.
  abbrev pub votepay_rates : (crossed updated : Bool) → (delta votes share : F) → Rates F → Rates F
  votepay_rates crossed updated delta votes share r =
      if crossed
      then if updated then r else record {
        delta_change_rate = sub r.delta_change_rate votes;
        total_inactive_vpay_share = add r.total_inactive_vpay_share share;
      }
      else record r { delta_change_rate = add r.delta_change_rate delta }

  abbrev pub votepay :
      Context
      → ℕ
      → (last_claim_time : ℕ) → (delta votes : F) → Rates F
      → Option ProducerInfo2
      → Action State (Rates F)
  votepay ctx account last_claim_time delta votes r none = pure r
  votepay ctx account last_claim_time delta votes r (some prod2) = do
    let crossed = leb (last_claim_time + 3 * useconds_per_day) ctx.current_time_point
    let updated = leb (last_claim_time + 3 * useconds_per_day) prod2.last_votepay_share_update
    share ←
        update_producer_votepay_share ctx account prod2 (if updated then of_ℕ 0 else votes)
          (crossed && not updated)
    pure (votepay_rates crossed updated delta votes share r)

  abbrev pub add_vote_weight : F → Weights → Weights
  add_vote_weight w g = record g { total_producer_vote_weight = add g.total_producer_vote_weight w }

  -- `for ( auto acnt : voter.producers )`
  unfoldable pub change_votes : Context → List ℕ → F → Rates F → Action State (Rates F)
  change_votes ctx [] delta r = pure r
  change_votes ctx (acnt ∷ rest) delta r = do
    found ← gets (λ s. find s.producers ctx.self acnt)
    prod ← or_fail found "producer not found"
    modify (put_producer 0 ctx.self acnt (record prod { total_votes = add prod.total_votes delta }))
    modify (update_weights (add_vote_weight delta))
    prod2 ← gets (λ s. find s.producers2 ctx.self acnt)
    r' ← votepay ctx acnt prod.last_claim_time delta prod.total_votes r prod2
    change_votes ctx rest delta r'

  abbrev pub no_rates : Rates F
  no_rates = record { delta_change_rate = of_ℕ 0; total_inactive_vpay_share = of_ℕ 0 }

  abbrev pub settle_rates : Context → Rates F → State → State
  settle_rates ctx r = update_weights (
      update_total_votepay_share ctx.current_time_point (minus r.total_inactive_vpay_share)
        r.delta_change_rate)

  -- `stake2vote`, and for a proxy what is delegated to it.
  abbrev pub vote_weight : Context → VoterInfo → F
  vote_weight ctx v =
      let w = stake2vote ctx v.staked in if v.is_proxy then add w v.proxied_vote_weight else w
