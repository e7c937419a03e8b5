-- ===== src/System/Producers.antt =====
-- contracts/eosio.system/src/voting.cpp: producers register and are elected. Also `rmvproducer` of
-- eosio.system.cpp.
use Prim.Native.String.{len}
use ux_contracts.Prelude.{
  ℕ, zero, suc, Bool, true, not, ◌&&◌, Option, none, some, List, [], ◌∷◌, ◌==◌, if◌then◌else◌,
  String, leb_ℤ, pos, ltb, leb, length, is_some,
}
use ux_contracts.Chain.Action.{Action, ◌>>=◌, ◌>>◌, check, or_fail, gets, modify, when, lift}
use ux_contracts.Chain.Context.{Context, require_auth}
use ux_contracts.Chain.Platform.{Platform}
use ux_contracts.Chain.Double.{Double, of_ℕ}
use ux_contracts.System.Tables.{
  Authority, Authorities, convert_to_block_signing_authority, ProducerInfo, ProducerInfo2,
  deactivate, get_producer_authority,
}
use ux_contracts.System.State.{State, set_global}
use ux_contracts.System.Weights.{
  put_producer, put_producer2, update_weights, update_total_votepay_share,
}
use ux_contracts.System.Staking.{self_stake}

-- The legacy field holds the key of an authority that has one.
abbrev legacy_key : List (ℕ × ℕ) → ℕ
legacy_key [] = 0
legacy_key (k ∷ []) = k.0
legacy_key (k ∷ l ∷ ks) = 0

-- What the code takes from the chain to elect the producers: the producers in the order of their votes,
-- and whether the proposed ones are accepted.
pub record Election ⦃p : Platform⦄ ⦃d : Double⦄ : Type 0 where
  pub by_votes : State → List ProducerInfo
  pub set_proposed_producers : List (ℕ × Authority) → Bool

module _ ⦃p : Platform⦄ ⦃d : Double⦄ where
  open p use {find, asset_add}

  abbrev registered : Authority → String → ℕ → ProducerInfo → ProducerInfo
  registered authority url location info = record info {
    producer_key = legacy_key authority.authority_keys;
    is_active = true;
    url = url;
    location = location;
    producer_authority = some authority;
  }

  abbrev new_producer : ℕ → ℕ → ProducerInfo
  new_producer producer ct = record {
    owner = producer;
    total_votes = of_ℕ 0;
    producer_key = 0;
    is_active = true;
    url = "";
    unpaid_blocks = 0;
    last_claim_time = ct;
    location = 0;
    producer_authority = none;
  }

  abbrev new_producer2 : ℕ → ℕ → ProducerInfo2
  new_producer2 producer ct = record {
    owner = producer;
    votepay_share = of_ℕ 0;
    last_votepay_share_update = ct;
  }

  abbrev store_producer :
      Context → ℕ → Authority → String → ℕ → Option ProducerInfo → Action State (Unit {0})
  store_producer ctx producer authority url location none = do
    modify (
        put_producer producer ctx.self producer
          (registered authority url location (new_producer producer ctx.current_time_point)))
    modify
        (put_producer2 producer ctx.self producer (new_producer2 producer ctx.current_time_point))
  store_producer ctx producer authority url location (some info) = do
    let claimed = if info.last_claim_time == 0 then ctx.current_time_point else info.last_claim_time
    modify (
        put_producer producer ctx.self producer
          (registered authority url location (record info { last_claim_time = claimed })))
    prod2 ← gets (λ s. find s.producers2 ctx.self producer)
    when (not (is_some prod2)) (do
      modify
          (put_producer2 producer ctx.self producer (new_producer2 producer ctx.current_time_point))
      modify (
          update_weights
            (update_total_votepay_share ctx.current_time_point (of_ℕ 0) info.total_votes)))

  unfoldable pub register_producer : Context → ℕ → Authority → String → ℕ → Action State (Unit {0})
  register_producer ctx producer authority url location = do
    itr ← gets (λ s. find s.delband producer producer)
    own ←
        or_fail itr "producer must stake 10 million UTX tokens to self in order to call regproducer"
    total_staked ← lift (asset_add own.net_weight own.cpu_weight)
    check (leb_ℤ (pos self_stake) total_staked.amount)
        "producer must stake 10 million UTX tokens to self in order to call regproducer"
    prod ← gets (λ s. find s.producers ctx.self producer)
    store_producer ctx producer authority url location prod

  unfoldable pub regproducer : Context → ℕ → ℕ → String → ℕ → Action State (Unit {0})
  regproducer ctx producer producer_key url location = do
    require_auth ctx producer
    check (ltb (len url) 512) "url too long"
    register_producer ctx producer (convert_to_block_signing_authority producer_key) url location

  unfoldable pub regproducer2 :
      ⦃a : Authorities⦄ → Context → ℕ → Authority → String → ℕ → Action State (Unit {0})
  regproducer2 ⦃a⦄ ctx producer producer_authority url location = do
    require_auth ctx producer
    check (ltb (len url) 512) "url too long"
    check (a.is_valid producer_authority) "invalid producer authority"
    register_producer ctx producer producer_authority url location

  unfoldable pub unregprod : Context → ℕ → Action State (Unit {0})
  unregprod ctx producer = do
    require_auth ctx producer
    found ← gets (λ s. find s.producers ctx.self producer)
    prod ← or_fail found "producer not found"
    modify (put_producer 0 ctx.self producer (deactivate prod))

  unfoldable pub rmvproducer : Context → ℕ → Action State (Unit {0})
  rmvproducer ctx producer = do
    require_auth ctx ctx.self
    found ← gets (λ s. find s.producers ctx.self producer)
    prod ← or_fail found "producer not found"
    modify (put_producer 0 ctx.self producer (deactivate prod))

  -- The first producers in the order, up to 21, that have votes and are active.
  unfoldable pub top_producers : (room : ℕ) → List ProducerInfo → List (ℕ × Authority)
  top_producers zero ps = []
  top_producers (suc room) [] = []
  top_producers (suc room) (it ∷ ps) =
      let rest = top_producers room ps in
      if d.lt (of_ℕ 0) it.total_votes && it.is_active
      then (it.owner, get_producer_authority it) ∷ rest
      else []

  -- `std::sort` by name
  unfoldable pub insert_by_name : ℕ × Authority → List (ℕ × Authority) → List (ℕ × Authority)
  insert_by_name x [] = x ∷ []
  insert_by_name x (y ∷ ys) =
      let rest = insert_by_name x ys in if leb x.0 y.0 then x ∷ y ∷ ys else y ∷ rest

  unfoldable pub sort_by_name : List (ℕ × Authority) → List (ℕ × Authority)
  sort_by_name [] = []
  sort_by_name (x ∷ xs) = insert_by_name x (sort_by_name xs)

  unfoldable pub update_elected_producers : Election → ℕ → Action State (Unit {0})
  update_elected_producers e block_time = do
    modify (set_global (λ g. record g { last_producer_schedule_update = block_time }))
    top ← gets (λ s. top_producers 21 (e.by_votes s))
    g ← gets (λ s. s.global)
    when
        (not (length top == 0)
          && leb g.last_producer_schedule_size (length top)
          && e.set_proposed_producers (sort_by_name top))
        (modify (set_global (λ g. record g { last_producer_schedule_size = length top })))
