-- ===== src/System/Depth.antt =====
-- A change of weight is passed on from proxy to proxy, and comes to an end: with the accounts ranked so
-- that each stands above its proxy, as many calls as the rank are enough.
use ux_contracts.Prelude.{
  ℕ, zero, suc, ◌<◌, ◌≡◌, ◌≢◌, refl, ap, subst, ◌∙◌, Bool, true, false, not, ◌||◌, some, List, [],
  if◌then◌else◌, ◌==◌, arith, String,
}
use ux_contracts.Chain.Action.{Action, ◌>>=◌, ◌>>◌, when, check, or_fail, gets, modify, pure}
use ux_contracts.Chain.Context.{Context}
use ux_contracts.Chain.Platform.{Platform}
use ux_contracts.Chain.Double.{Double, of_ℕ}
use ux_contracts.Chain.Frame.{bind-cong, bind-same, check-same, when-same, if-same, or_fail-same}
use ux_contracts.System.Tables.{Names, VoterInfo}
use ux_contracts.System.State.{State, put_voter, set_global}
use ux_contracts.System.Weights.{vote_weight, add_deltas, Delta, no_rates, settle_rates}
use ux_contracts.System.Voting.{
  pass_to, pass_on, propagate_weight_change, delegate_weight, undo_votes, new_votes, cast_votes,
  apply_deltas, activate_stake, validate_votes, record_votes, update_votes, set_last_vote_weight,
}
use ux_contracts.System.Steps.{validate_votes-Keeps, undo_votes-Keeps}
use ux_contracts.System.Proxies.{
  proxy_of, IsRanked, put_voter-SameProxies, SameProxies-IsRanked, same_proxies, proxies-Steps,
}

module _ ⦃p : Platform⦄ ⦃d : Double⦄ (ctx : Context) (rank : ℕ → ℕ) where
  open p use {find, find-put}

  -- Two ways to take a change on agree on the accounts below a rank.
  abbrev Agree : ℕ → (next next' : ℕ → VoterInfo → Action State (Unit {0})) → Type 0
  Agree bound next next' =
      (a : ℕ) (v : VoterInfo) (s : State)
      → IsRanked ctx.self rank s
      → find s.voters ctx.self a ≡ some v
      → rank a < bound
      → next a v s ≡ next' a v s

  pass_to-same :
      (bound proxy : ℕ) (weight : d.F) (message : String)
      (next next' : ℕ → VoterInfo → Action State (Unit {0})) (s : State)
      → Agree bound next next'
      → IsRanked ctx.self rank s
      → rank proxy < bound
      → pass_to ctx proxy weight message next s ≡ pass_to ctx proxy weight message next' s
  pass_to-same bound proxy weight message next next' s agree ranked below =
      or_fail-same (find s.voters ctx.self proxy) message _ _ s λ vp found.
        let row = record vp { proxied_vote_weight = d.add vp.proxied_vote_weight weight } in
        let t = put_voter 0 ctx.self proxy row s in
        let same =
          put_voter-SameProxies ctx.self 0 ctx.self proxy row (some vp) s found refl refl in
        agree proxy row t (SameProxies-IsRanked ctx.self rank s t same ranked)
          (find-put s.voters 0 ctx.self proxy row ctx.self proxy ∙ ground arith) below

  pass_on-same :
      (voter : VoterInfo) (a : ℕ) (delta : d.F)
      (next next' : ℕ → VoterInfo → Action State (Unit {0})) (s : State)
      → Agree (rank a) next next'
      → IsRanked ctx.self rank s
      → find s.voters ctx.self a ≡ some voter
      → pass_on ctx voter delta next s ≡ pass_on ctx voter delta next' s
  unfolding pass_on
  pass_on-same voter a delta next next' s agree ranked found =
      if-same (voter.proxy == 0) _ _ _ _ s (λ e. refl)
        λ e.
          let is : proxy_of (find s.voters ctx.self a) ≡ voter.proxy = ap proxy_of found in
          let nonzero : proxy_of (find s.voters ctx.self a) ≢ 0 = λ z. ground arith in
          pass_to-same (rank a) voter.proxy delta "proxy not found" next next' s agree ranked
            (subst (λ w. rank w < rank a) is (ranked a nonzero))

  pub propagate_weight_change-same :
      (n m a : ℕ) (v : VoterInfo) (s : State)
      → IsRanked ctx.self rank s
      → find s.voters ctx.self a ≡ some v
      → rank a < n
      → rank a < m
      → propagate_weight_change n ctx a v s ≡ propagate_weight_change m ctx a v s
  unfolding propagate_weight_change
  propagate_weight_change-same zero m a v s ranked found h k = absurd (omega arith)
  propagate_weight_change-same (suc n) zero a v s ranked found h k = absurd (omega arith)
  propagate_weight_change-same (suc n) (suc m) a v s ranked found h k =
      let weight = vote_weight ctx v in
      let delta = d.sub weight v.last_vote_weight in
      let moved = d.lt (of_ℕ 1) (d.fabs delta) in
      let next = propagate_weight_change n ctx in
      let next' = propagate_weight_change m ctx in
      let pass = pass_on ctx v delta next in
      let pass' = pass_on ctx v delta next' in
      let last = λ (u : Unit {0}). set_last_vote_weight ctx a weight in
      check-same (v.proxy == 0 || not v.is_proxy)
        "account registered as a proxy is not allowed to use a proxy"
        (λ u. when moved pass >>= last) (λ u. when moved pass' >>= last) s
        (bind-same (when moved pass) (when moved pass') last s (
          when-same moved pass pass' s (
            pass_on-same v a delta next next' s
              (λ b w t r f below.
                propagate_weight_change-same n m b w t r f (omega arith) (omega arith))
              ranked found)))

  -- Where the ranks are below both depths, all of a vote is the same.
  module _ (n m : ℕ) (below : (a : ℕ) → (rank a < n) × (rank a < m)) where
    agree :
        (bound : ℕ) → Agree bound (propagate_weight_change n ctx) (propagate_weight_change m ctx)
    agree bound a v s ranked found h =
        propagate_weight_change-same n m a v s ranked found (below a).0 (below a).1

    delegate_weight-same :
        (proxy : ℕ) (weight : d.F) (message : String) (s : State)
        → IsRanked ctx.self rank s
        → delegate_weight n ctx proxy weight message s
          ≡ delegate_weight m ctx proxy weight message s
    delegate_weight-same proxy weight message s ranked =
        pass_to-same (suc (rank proxy)) proxy weight message (propagate_weight_change n ctx)
          (propagate_weight_change m ctx) s (agree (suc (rank proxy))) ranked (omega arith)

    undo_votes-same :
        (v : VoterInfo) (s : State)
        → IsRanked ctx.self rank s
        → undo_votes n ctx v s ≡ undo_votes m ctx v s
    undo_votes-same v s ranked =
        let weight = d.minus v.last_vote_weight in
        let undo = λ (k : ℕ). delegate_weight k ctx v.proxy weight "old proxy not found" in
        let none_left : List (Delta d.F) = [] in
        let votes = add_deltas v.producers weight false none_left in
        let there = λ (k : ℕ). (undo k >> pure none_left) in
        if-same (d.lt (of_ℕ 0) v.last_vote_weight) (if v.proxy == 0 then pure votes else there n)
          (if v.proxy == 0 then pure votes else there m) (pure none_left) (pure none_left) s
          (λ e.
            if-same (v.proxy == 0) (pure votes) (pure votes) (there n) (there m) s (λ z. refl)
              λ z.
                bind-same (undo n) (undo m) (λ u. pure none_left) s
                  (delegate_weight-same v.proxy weight "old proxy not found" s ranked))
          (λ e. refl)

    new_votes-same :
        (proxy : ℕ) (producers : List ℕ) (voting : Bool) (weight : d.F) (deltas : List (Delta d.F))
        (s : State)
        → IsRanked ctx.self rank s
        → new_votes n ctx proxy producers voting weight deltas s
          ≡ new_votes m ctx proxy producers voting weight deltas s
    new_votes-same proxy producers voting weight deltas s ranked =
        let added =
          if d.le (of_ℕ 0) weight then add_deltas producers weight true deltas else deltas in
        let give = λ (k : ℕ).
          when (d.le (of_ℕ 0) weight)
            (delegate_weight k ctx proxy weight "invalid proxy specified") in
        let rest = λ (k : ℕ) (vp : VoterInfo).
          check (not voting || vp.is_proxy) "proxy not found" >> (give k >> pure deltas) in
        let there = λ (k : ℕ).
          (gets (λ (s : State). find s.voters ctx.self proxy) >>= λ found.
          or_fail found "invalid proxy specified" >>= rest k) in
        if-same (proxy == 0) (pure added) (pure added) (there n) (there m) s (λ e. refl)
          λ e.
            or_fail-same (find s.voters ctx.self proxy) "invalid proxy specified" (rest n) (rest m)
              s
              λ vp found.
                check-same (not voting || vp.is_proxy) "proxy not found"
                  (λ u. give n >> pure deltas) (λ u. give m >> pure deltas) s
                  (bind-same (give n) (give m) (λ u. pure deltas) s
                    (when-same (d.le (of_ℕ 0) weight) _ _ s
                      (delegate_weight-same proxy weight "invalid proxy specified" s ranked)))

    -- From the first step that depends on the depth.
    rest_of_votes : ⦃n' : Names⦄ → (k : ℕ) → VoterInfo → ℕ → List ℕ → Bool → Action State d.F
    rest_of_votes k voter proxy producers voting = do
      old ← undo_votes k ctx voter
      deltas ← new_votes k ctx proxy producers voting (vote_weight ctx voter) old
      r ← apply_deltas ctx voting deltas no_rates
      modify (settle_rates ctx r)
      pure (vote_weight ctx voter)

    rest_of_votes-same :
        ⦃n' : Names⦄ (voter : VoterInfo) (proxy : ℕ) (producers : List ℕ) (voting : Bool)
        (s : State)
        → IsRanked ctx.self rank s
        → rest_of_votes n voter proxy producers voting s
          ≡ rest_of_votes m voter proxy producers voting s
    unfolding rest_of_votes
    rest_of_votes-same voter proxy producers voting s ranked =
        let weight = vote_weight ctx voter in
        let finish = λ (deltas : List (Delta d.F)).
          (apply_deltas ctx voting deltas no_rates >>= λ r.
          modify (settle_rates ctx r) >> pure weight) in
        let tail = λ (k : ℕ) (old : List (Delta d.F)).
          (new_votes k ctx proxy producers voting weight old >>= finish) in
        bind-cong (undo_votes n ctx voter) (undo_votes m ctx voter) (tail n) (tail m) s
          (undo_votes-same voter s ranked)
          λ old t e.
            bind-same (new_votes n ctx proxy producers voting weight old)
              (new_votes m ctx proxy producers voting weight old) finish t
              (new_votes-same proxy producers voting weight old t (
                SameProxies-IsRanked ctx.self rank s t
                  (undo_votes-Keeps (same_proxies ctx.self) (proxies-Steps ctx.self) m ctx voter s t
                    old e)
                  ranked))

    cast_votes-same :
        ⦃n' : Names⦄ (voter_name proxy : ℕ) (producers : List ℕ) (voting : Bool) (s : State)
        → IsRanked ctx.self rank s
        → cast_votes n ctx voter_name proxy producers voting s
          ≡ cast_votes m ctx voter_name proxy producers voting s
    unfolding cast_votes rest_of_votes
    cast_votes-same voter_name proxy producers voting s ranked =
        let allow : String = "account registered as a proxy is not allowed to use a proxy" in
        let start = λ (voter : VoterInfo).
          modify (set_global (activate_stake ctx.current_time_point voter)) in
        let after = λ (k : ℕ) (voter : VoterInfo).
          (check (proxy == 0 || not voter.is_proxy) allow
            >> (start voter >> rest_of_votes k voter proxy producers voting)) in
        let all = λ (k : ℕ).
          (gets (λ (s : State). find s.voters ctx.self voter_name) >>= λ found.
          or_fail found "user must stake before they can vote" >>= after k) in
        bind-cong (validate_votes voter_name proxy producers)
          (validate_votes voter_name proxy producers) (λ u. all n) (λ u. all m) s refl
          λ u t e.
            let same =
              validate_votes-Keeps (same_proxies ctx.self) (proxies-Steps ctx.self) voter_name proxy
                producers s t u e in
            or_fail-same (find t.voters ctx.self voter_name) "user must stake before they can vote"
              (after n) (after m) t
              λ voter found.
                check-same (proxy == 0 || not voter.is_proxy) allow
                  (λ u. start voter >> rest_of_votes n voter proxy producers voting)
                  (λ u. start voter >> rest_of_votes m voter proxy producers voting) t
                  (let t1 = set_global (activate_stake ctx.current_time_point voter) t in
                    rest_of_votes-same voter proxy producers voting t1 (
                      SameProxies-IsRanked ctx.self rank t t1
                        ((proxies-Steps ctx.self).activation ctx.current_time_point voter t)
                        (SameProxies-IsRanked ctx.self rank s t same ranked)))

  pub update_votes-same :
      ⦃n' : Names⦄ (n m voter_name proxy : ℕ) (producers : List ℕ) (voting : Bool) (s : State)
      → IsRanked ctx.self rank s
      → ((a : ℕ) → (rank a < n) × (rank a < m))
      → update_votes n ctx voter_name proxy producers voting s
        ≡ update_votes m ctx voter_name proxy producers voting s
  unfolding update_votes
  update_votes-same n m voter_name proxy producers voting s ranked below =
      bind-same (cast_votes n ctx voter_name proxy producers voting)
        (cast_votes m ctx voter_name proxy producers voting)
        (record_votes ctx voter_name proxy producers) s
        (cast_votes-same n m below voter_name proxy producers voting s ranked)
