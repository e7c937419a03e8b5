-- ===== src/System/Voting.antt =====
-- contracts/eosio.system/src/voting.cpp: accounts vote for producers, by themselves or through a proxy.
-- `depth` is how many calls deep a change of weight may be passed on from proxy to proxy: the chain
-- stops what calls deeper.
use ux_contracts.Prelude.{
  ℕ, zero, suc, Bool, true, false, not, ◌&&◌, ◌||◌, Option, none, some, List, [], ◌∷◌, ◌==◌,
  if◌then◌else◌, String, ℤ, pos, leb_ℤ, ◌+ℤ◌, int64, ltb, leb, length,
}
use ux_contracts.Chain.Action.{Action, ◌>>=◌, ◌>>◌, check, or_fail, gets, modify, when, pure, fail}
use ux_contracts.Chain.Context.{Context, require_auth}
use ux_contracts.Chain.Platform.{Platform}
use ux_contracts.Chain.Double.{Double, of_ℕ}
use ux_contracts.System.Tables.{Names, VoterInfo, new_voter, ProducerInfo, Global}
use ux_contracts.System.State.{State, set_global, put_voter}
use ux_contracts.System.RexStake.{update_rex_stake, check_voting_requirement, holds_rex}
use ux_contracts.System.Weights.{
  Delta, Rates, add_deltas, put_producer, update_weights, votepay, add_vote_weight, change_votes,
  no_rates, settle_rates, vote_weight,
}

abbrev min_activated_stake : ℤ
min_activated_stake = pos 1_500_000_000_000

abbrev min_activated_date : ℕ
min_activated_date = 1_598_918_400_000_000

-- `producers[i-1] < producers[i]`
abbrev pub is_sorted : List ℕ → Bool
is_sorted [] = true
is_sorted (x ∷ []) = true
is_sorted (x ∷ y ∷ ys) = ltb x y && is_sorted (y ∷ ys)

module _ ⦃p : Platform⦄ ⦃d : Double⦄ where
  open p use {find, put}
  open d use {F, add, sub, minus, lt, le, fabs}

  abbrev pub set_last_vote_weight : Context → ℕ → F → Action State (Unit {0})
  set_last_vote_weight ctx account weight = do
    found ← gets (λ s. find s.voters ctx.self account)
    v ← or_fail found "object passed to modify is not in multi_index"
    modify (put_voter 0 ctx.self account (record v { last_vote_weight = weight }))

  -- A change of the weight that is delegated to a proxy, which `next` takes on.
  abbrev pub pass_to :
      Context
      → ℕ
      → F
      → String
      → (next : ℕ → VoterInfo → Action State (Unit {0})) → Action State (Unit {0})
  pass_to ctx proxy weight message next = do
    found ← gets (λ s. find s.voters ctx.self proxy)
    vp ← or_fail found message
    let row = record vp { proxied_vote_weight = add vp.proxied_vote_weight weight }
    modify (put_voter 0 ctx.self proxy row)
    next proxy row

  -- A change of weight goes to the producers voted for, or to the proxy.
  unfoldable pub pass_on :
      Context
      → VoterInfo
      → F
      → (next : ℕ → VoterInfo → Action State (Unit {0})) → Action State (Unit {0})
  pass_on ctx voter delta next =
      if voter.proxy == 0
      then (do r ← change_votes ctx voter.producers delta no_rates; modify (settle_rates ctx r))
      else pass_to ctx voter.proxy delta "proxy not found" next

  -- `voter` is the row of the account, which another call may change in the meantime.
  unfoldable pub propagate_weight_change :
      (depth : ℕ) → Context → ℕ → VoterInfo → Action State (Unit {0})
  propagate_weight_change zero ctx account voter = fail "call depth exceeded"
  propagate_weight_change (suc depth) ctx account voter = do
    check (voter.proxy == 0 || not voter.is_proxy)
        "account registered as a proxy is not allowed to use a proxy"
    let new_weight = vote_weight ctx voter
    let delta = sub new_weight voter.last_vote_weight
    when (lt (of_ℕ 1) (fabs delta)) (pass_on ctx voter delta (propagate_weight_change depth ctx))
    set_last_vote_weight ctx account new_weight

  abbrev pub validate_votes : ℕ → ℕ → List ℕ → Action State (Unit {0})
  validate_votes voter_name proxy producers =
      if proxy == 0
      then (do
        check (leb (length producers) 30) "attempt to vote for too many producers"
        check (is_sorted producers) "producer votes must be unique and sorted")
      else (do
        check (length producers == 0) "cannot vote for producers and proxy at same time"
        check (not (voter_name == proxy)) "cannot proxy to self")

  -- The first vote of an account activates its stake, until enough is activated.
  abbrev pub activate_stake : ℕ → VoterInfo → Global → Global
  activate_stake now v g =
      let stake =
        if le v.last_vote_weight (of_ℕ 0)
        then int64 (g.total_activated_stake +ℤ v.staked)
        else g.total_activated_stake in
      if g.thresh_activated_stake_time == 0
      then record g {
        total_activated_stake = stake;
        thresh_activated_stake_time =
            if leb_ℤ min_activated_stake stake && leb min_activated_date now then now else 0;
      }
      else g

  abbrev pub delegate_weight : (depth : ℕ) → Context → ℕ → F → String → Action State (Unit {0})
  delegate_weight depth ctx proxy weight message =
      pass_to ctx proxy weight message (propagate_weight_change depth ctx)

  -- What the account last voted for loses the weight: the proxy now, the producers later.
  abbrev pub undo_votes : (depth : ℕ) → Context → VoterInfo → Action State (List (Delta F))
  undo_votes depth ctx v =
      if lt (of_ℕ 0) v.last_vote_weight
      then if v.proxy == 0
        then pure (add_deltas v.producers (minus v.last_vote_weight) false [])
        else (do
          delegate_weight depth ctx v.proxy (minus v.last_vote_weight) "old proxy not found"
          pure [])
      else pure []

  abbrev pub new_votes :
      (depth : ℕ) → Context → ℕ → List ℕ → Bool → F → List (Delta F) → Action State (List (Delta F))
  new_votes depth ctx proxy producers voting weight deltas =
      if proxy == 0
      then pure (if le (of_ℕ 0) weight then add_deltas producers weight true deltas else deltas)
      else (do
        found ← gets (λ s. find s.voters ctx.self proxy)
        vp ← or_fail found "invalid proxy specified"
        check (not voting || vp.is_proxy) "proxy not found"
        when (le (of_ℕ 0) weight) (delegate_weight depth ctx proxy weight "invalid proxy specified")
        pure deltas)

  -- `for( const auto& pd : producer_deltas )`
  abbrev pub apply_delta :
      ⦃n : Names⦄
      → Context
      → Bool
      → Delta F
      → Rates F
      → Option ProducerInfo
      → Action State (Rates F)
  apply_delta ⦃n⦄ ctx voting pd r none = do
    check (not pd.is_new) (n.not_registered pd.producer)
    pure r
  apply_delta ⦃n⦄ ctx voting pd r (some prod) = do
    check (not (voting && not prod.is_active && pd.is_new)) (n.not_currently_registered prod.owner)
    let votes = add prod.total_votes pd.weight
    modify (
        put_producer 0 ctx.self pd.producer
          (record prod { total_votes = if lt votes (of_ℕ 0) then of_ℕ 0 else votes }))
    modify (update_weights (add_vote_weight pd.weight))
    prod2 ← gets (λ s. find s.producers2 ctx.self pd.producer)
    votepay ctx pd.producer prod.last_claim_time pd.weight prod.total_votes r prod2

  unfoldable pub apply_at :
      ⦃n : Names⦄ → Context → Bool → Delta F → Rates F → Action State (Rates F)
  apply_at ctx voting pd r = do
    prod ← gets (λ s. find s.producers ctx.self pd.producer)
    apply_delta ctx voting pd r prod

  unfoldable pub apply_deltas :
      ⦃n : Names⦄ → Context → Bool → List (Delta F) → Rates F → Action State (Rates F)
  apply_deltas ctx voting [] r = pure r
  apply_deltas ctx voting (pd ∷ rest) r = do
    r' ← apply_at ctx voting pd r
    apply_deltas ctx voting rest r'

  abbrev pub record_votes : Context → ℕ → ℕ → List ℕ → F → Action State (Unit {0})
  record_votes ctx voter_name proxy producers weight = do
    found ← gets (λ s. find s.voters ctx.self voter_name)
    v ← or_fail found "object passed to modify is not in multi_index"
    modify (
        put_voter 0 ctx.self voter_name
          (record v { last_vote_weight = weight; producers = producers; proxy = proxy }))

  -- All but the last step of `update_votes`: the weight that the account has now.
  unfoldable pub cast_votes :
      ⦃n : Names⦄ → (depth : ℕ) → Context → ℕ → ℕ → List ℕ → Bool → Action State F
  cast_votes depth ctx voter_name proxy producers voting = do
    validate_votes voter_name proxy producers
    found ← gets (λ s. find s.voters ctx.self voter_name)
    voter ← or_fail found "user must stake before they can vote"
    check (proxy == 0 || not voter.is_proxy)
        "account registered as a proxy is not allowed to use a proxy"
    modify (set_global (activate_stake ctx.current_time_point voter))
    let weight = vote_weight ctx voter
    old ← undo_votes depth ctx voter
    deltas ← new_votes depth ctx proxy producers voting weight old
    r ← apply_deltas ctx voting deltas no_rates
    modify (settle_rates ctx r)
    pure weight

  unfoldable pub update_votes :
      ⦃n : Names⦄ → (depth : ℕ) → Context → ℕ → ℕ → List ℕ → Bool → Action State (Unit {0})
  update_votes depth ctx voter_name proxy producers voting = do
    weight ← cast_votes depth ctx voter_name proxy producers voting
    record_votes ctx voter_name proxy producers weight

  unfoldable pub voteproducer :
      ⦃n : Names⦄ → (depth : ℕ) → Context → ℕ → ℕ → List ℕ → Action State (Unit {0})
  voteproducer depth ctx voter_name proxy producers = do
    require_auth ctx voter_name
    update_rex_stake ctx voter_name
    update_votes depth ctx voter_name proxy producers true
    rex_itr ← gets (λ s. find s.rexbalance ctx.self voter_name)
    when (holds_rex rex_itr) (
        check_voting_requirement ctx voter_name
          "voter holding REX tokens must vote for at least 21 producers or for a proxy")

  abbrev pub register_proxy :
      (depth : ℕ) → Context → ℕ → Bool → Option VoterInfo → Action State (Unit {0})
  register_proxy depth ctx proxy isproxy none =
      modify (put_voter proxy ctx.self proxy (record (new_voter proxy) { is_proxy = isproxy }))
  register_proxy depth ctx proxy isproxy (some v) = do
    check (if isproxy then not v.is_proxy else v.is_proxy) "action has no effect"
    check (not isproxy || v.proxy == 0) "account that uses a proxy is not allowed to become a proxy"
    let row = record v { is_proxy = isproxy }
    modify (put_voter 0 ctx.self proxy row)
    propagate_weight_change depth ctx proxy row

  unfoldable pub regproxy : (depth : ℕ) → Context → ℕ → Bool → Action State (Unit {0})
  regproxy depth ctx proxy isproxy = do
    require_auth ctx proxy
    pitr ← gets (λ s. find s.voters ctx.self proxy)
    register_proxy depth ctx proxy isproxy pitr
