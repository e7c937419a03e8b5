-- ===== src/System/Steps.antt =====
-- What a relation between states takes to hold through a vote: that the single steps respect it.
use ux_contracts.Prelude.{
  ℕ, zero, suc, ◌+◌, ◌*◌, ◌≡◌, refl, arith, Bool, not, ◌&&◌, ◌||◌, Option, none, some, List, [],
  ◌∷◌, ◌==◌, if◌then◌else◌, String, length, leb, subst, sym,
}
use ux_contracts.Chain.Action.{Action, ok, modify}
use ux_contracts.Chain.Context.{Context}
use ux_contracts.Chain.Platform.{Platform}
use ux_contracts.Chain.Double.{Double, of_ℕ}
use ux_contracts.Chain.Frame.{
  Relation, Keeps, bind-Keeps, pure-Keeps, modify-Keeps, if-Keeps, check-Keeps, when-Keeps, bind-ok,
  check-then, or_fail-then,
}
use ux_contracts.System.Tables.{Names, VoterInfo, ProducerInfo, ProducerInfo2, Weights}
use ux_contracts.System.State.{State, set_global, put_voter}
use ux_contracts.System.Weights.{
  Delta, Rates, votepay, change_votes, update_producer_votepay_share, with_share, new_votepay_share,
  votepay_rates, useconds_per_day, update_total_votepay_share, update_weights, add_vote_weight,
  put_producer, put_producer2, no_rates, settle_rates, vote_weight,
}
use ux_contracts.System.Voting.{
  set_last_vote_weight, pass_to, pass_on, propagate_weight_change, validate_votes, delegate_weight,
  undo_votes, new_votes, apply_delta, apply_at, apply_deltas, cast_votes, activate_stake, is_sorted,
}

module _ ⦃p : Platform⦄ ⦃d : Double⦄ where
  open p use {find}

  -- The writes of a vote, but for the last one, of what has been voted for.
  pub record Steps (kept : Relation State) : Type 0 where
    pub producer2 :
        (payer self account : ℕ) (i : ProducerInfo2) (s : State)
        → kept.R s (put_producer2 payer self account i s)
    pub votes :
        (self account : ℕ) (i : ProducerInfo) (votes : d.F) (s : State)
        → find s.producers self account ≡ some i
        → kept.R s (put_producer 0 self account (record i { total_votes = votes }) s)
    pub weights : (f : Weights → Weights) (s : State) → kept.R s (update_weights f s)
    pub activation :
        (now : ℕ) (v : VoterInfo) (s : State) → kept.R s (set_global (activate_stake now v) s)
    pub weight :
        (self account : ℕ) (v : VoterInfo) (last proxied : d.F) (s : State)
        → find s.voters self account ≡ some v
        → kept.R s (
            put_voter 0 self account
              (record v { last_vote_weight = last; proxied_vote_weight = proxied })
              s)

module _ ⦃p : Platform⦄ ⦃d : Double⦄ (kept : Relation State) (h : Steps kept) where
  open p use {find}
  open kept use {R, join}

  update_producer_votepay_share-Keeps :
      (ctx : Context) (account : ℕ) (prod : ProducerInfo2) (rate : d.F) (reset : Bool)
      → Keeps kept (update_producer_votepay_share ctx account prod rate reset)
  unfolding update_producer_votepay_share
  update_producer_votepay_share-Keeps ctx account prod rate reset =
      bind-Keeps kept _ _
        (modify-Keeps kept _ (λ s.
          h.producer2 0 ctx.self account (with_share ctx.current_time_point rate reset prod) s))
        λ u. pure-Keeps kept (new_votepay_share ctx.current_time_point rate prod)

  votepay-Keeps :
      (ctx : Context) (account last_claim_time : ℕ) (delta votes : d.F) (r : Rates d.F)
      (prod : Option ProducerInfo2)
      → Keeps kept (votepay ctx account last_claim_time delta votes r prod)
  votepay-Keeps ctx account claimed delta votes r none = pure-Keeps kept r
  votepay-Keeps ctx account claimed delta votes r (some prod) =
      let crossed = leb (claimed + 3 * useconds_per_day) ctx.current_time_point in
      let updated = leb (claimed + 3 * useconds_per_day) prod.last_votepay_share_update in
      bind-Keeps kept _ _
        (update_producer_votepay_share-Keeps ctx account prod (if updated then of_ℕ 0 else votes)
          (crossed && not updated))
        λ share. pure-Keeps kept (votepay_rates crossed updated delta votes share r)

  change_votes-Keeps :
      (ctx : Context) (accounts : List ℕ) (delta : d.F) (r : Rates d.F)
      → Keeps kept (change_votes ctx accounts delta r)
  unfolding change_votes
  change_votes-Keeps ctx [] delta r s s' a run = pure-Keeps kept r s s' a run
  change_votes-Keeps ctx (acnt ∷ rest) delta r s s' a run =
      let (prod, found, r1) =
        or_fail-then (find s.producers ctx.self acnt) "producer not found" _ s s' a run in
      let votes = d.add prod.total_votes delta in
      let s1 = put_producer 0 ctx.self acnt (record prod { total_votes = votes }) s in
      let s2 = update_weights (add_vote_weight delta) s1 in
      join s s1 s' (h.votes ctx.self acnt prod votes s found) (
        join s1 s2 s' (h.weights (add_vote_weight delta) s1) (
          bind-Keeps kept _ _
            (votepay-Keeps ctx acnt prod.last_claim_time delta prod.total_votes r
              (find s2.producers2 ctx.self acnt))
            (λ r'. change_votes-Keeps ctx rest delta r') s2 s' a r1))

  settle_rates-Keeps : (ctx : Context) (r : Rates d.F) → Keeps kept (modify (settle_rates ctx r))
  settle_rates-Keeps ctx r = modify-Keeps kept (settle_rates ctx r) (
      h.weights (
        update_total_votepay_share ctx.current_time_point (d.minus r.total_inactive_vpay_share)
          r.delta_change_rate))

  set_last_vote_weight-Keeps :
      (ctx : Context) (account : ℕ) (weight : d.F)
      → Keeps kept (set_last_vote_weight ctx account weight)
  set_last_vote_weight-Keeps ctx account weight s s' a run =
      let (v, found, r1) =
        or_fail-then (find s.voters ctx.self account)
          "object passed to modify is not in multi_index" _ s s' a run in
      let e : s' ≡ put_voter 0 ctx.self account (record v { last_vote_weight = weight }) s =
        ground arith in
      subst (R s) (sym e) (h.weight ctx.self account v weight v.proxied_vote_weight s found)

  pass_to-Keeps :
      (ctx : Context) (proxy : ℕ) (weight : d.F) (message : String)
      (next : ℕ → VoterInfo → Action State (Unit {0}))
      → ((account : ℕ) (row : VoterInfo) → Keeps kept (next account row))
      → Keeps kept (pass_to ctx proxy weight message next)
  pass_to-Keeps ctx proxy weight message next k s s' a run =
      let (vp, found, r1) = or_fail-then (find s.voters ctx.self proxy) message _ s s' a run in
      join s _ s' (h.weight ctx.self proxy vp vp.last_vote_weight _ s found) (k proxy _ _ s' a r1)

  pass_on-Keeps :
      (ctx : Context) (voter : VoterInfo) (delta : d.F)
      (next : ℕ → VoterInfo → Action State (Unit {0}))
      → ((account : ℕ) (row : VoterInfo) → Keeps kept (next account row))
      → Keeps kept (pass_on ctx voter delta next)
  unfolding pass_on
  pass_on-Keeps ctx voter delta next k =
      if-Keeps kept (voter.proxy == 0) _ _
        (bind-Keeps kept _ _ (change_votes-Keeps ctx voter.producers delta no_rates)
          λ r. settle_rates-Keeps ctx r)
        (pass_to-Keeps ctx voter.proxy delta "proxy not found" next k)

  pub propagate_weight_change-Keeps :
      (depth : ℕ) (ctx : Context) (account : ℕ) (voter : VoterInfo)
      → Keeps kept (propagate_weight_change depth ctx account voter)
  unfolding propagate_weight_change
  propagate_weight_change-Keeps zero ctx account voter = λ s s' a run. absurd (ground arith)
  propagate_weight_change-Keeps (suc depth) ctx account voter =
      let delta = d.sub (vote_weight ctx voter) voter.last_vote_weight in
      let next = propagate_weight_change depth ctx in
      bind-Keeps kept _ _
        (check-Keeps kept (voter.proxy == 0 || not voter.is_proxy)
          "account registered as a proxy is not allowed to use a proxy")
        λ u.
          bind-Keeps kept _ _
            (when-Keeps kept (d.lt (of_ℕ 1) (d.fabs delta)) (pass_on ctx voter delta next)
              (pass_on-Keeps ctx voter delta next (propagate_weight_change-Keeps depth ctx)))
            λ v. set_last_vote_weight-Keeps ctx account (vote_weight ctx voter)

  delegate_weight-Keeps :
      (depth : ℕ) (ctx : Context) (proxy : ℕ) (weight : d.F) (message : String)
      → Keeps kept (delegate_weight depth ctx proxy weight message)
  delegate_weight-Keeps depth ctx proxy weight message =
      pass_to-Keeps ctx proxy weight message (propagate_weight_change depth ctx)
        (propagate_weight_change-Keeps depth ctx)

  pub undo_votes-Keeps :
      (depth : ℕ) (ctx : Context) (v : VoterInfo) → Keeps kept (undo_votes depth ctx v)
  undo_votes-Keeps depth ctx v =
      if-Keeps kept (d.lt (of_ℕ 0) v.last_vote_weight) _ _
        (if-Keeps kept (v.proxy == 0) _ _ (pure-Keeps kept _) (
          bind-Keeps kept _ _
            (delegate_weight-Keeps depth ctx v.proxy (d.minus v.last_vote_weight)
              "old proxy not found")
            λ u. pure-Keeps kept []))
        (pure-Keeps kept _)

  pub new_votes-Keeps :
      (depth : ℕ) (ctx : Context) (proxy : ℕ) (producers : List ℕ) (voting : Bool) (weight : d.F)
      (deltas : List (Delta d.F))
      → Keeps kept (new_votes depth ctx proxy producers voting weight deltas)
  new_votes-Keeps depth ctx proxy producers voting weight deltas =
      if-Keeps kept (proxy == 0) _ _ (pure-Keeps kept _) λ s s' a e.
        let (vp, found, r1) =
          or_fail-then (find s.voters ctx.self proxy) "invalid proxy specified" _ s s' a e in
        let (tested, r2) = check-then (not voting || vp.is_proxy) "proxy not found" _ s s' a r1 in
        bind-Keeps kept _ _
          (when-Keeps kept (d.le (of_ℕ 0) weight) _
            (delegate_weight-Keeps depth ctx proxy weight "invalid proxy specified"))
          (λ v. pure-Keeps kept deltas) s s' a r2

  apply_delta-Keeps :
      ⦃n : Names⦄ (ctx : Context) (voting : Bool) (pd : Delta d.F) (r : Rates d.F)
      (prod : Option ProducerInfo) (s s' : State) (a : Rates d.F)
      → find s.producers ctx.self pd.producer ≡ prod
      → apply_delta ctx voting pd r prod s ≡ ok (a, s')
      → R s s'
  apply_delta-Keeps ⦃n⦄ ctx voting pd r none s s' a found run =
      bind-Keeps kept _ _ (check-Keeps kept (not pd.is_new) (n.not_registered pd.producer))
        (λ u. pure-Keeps kept r) s s' a run
  apply_delta-Keeps ⦃n⦄ ctx voting pd r (some prod) s s' a found run =
      let (tested, r1) =
        check-then (not (voting && not prod.is_active && pd.is_new))
          (n.not_currently_registered prod.owner) _ s s' a run in
      let votes = d.add prod.total_votes pd.weight in
      let set = if d.lt votes (of_ℕ 0) then of_ℕ 0 else votes in
      let s1 = put_producer 0 ctx.self pd.producer (record prod { total_votes = set }) s in
      let s2 = update_weights (add_vote_weight pd.weight) s1 in
      join s s1 s' (h.votes ctx.self pd.producer prod set s found) (
        join s1 s2 s' (h.weights (add_vote_weight pd.weight) s1) (
          votepay-Keeps ctx pd.producer prod.last_claim_time pd.weight prod.total_votes r _ s2 s' a
            r1))

  apply_at-Keeps :
      ⦃n : Names⦄ (ctx : Context) (voting : Bool) (pd : Delta d.F) (r : Rates d.F)
      → Keeps kept (apply_at ctx voting pd r)
  unfolding apply_at
  apply_at-Keeps ctx voting pd r s s' a run =
      apply_delta-Keeps ctx voting pd r (find s.producers ctx.self pd.producer) s s' a refl run

  apply_deltas-Keeps :
      ⦃n : Names⦄ (ctx : Context) (voting : Bool) (deltas : List (Delta d.F)) (r : Rates d.F)
      → Keeps kept (apply_deltas ctx voting deltas r)
  unfolding apply_deltas
  apply_deltas-Keeps ctx voting [] r s s' a run = pure-Keeps kept r s s' a run
  apply_deltas-Keeps ctx voting (pd ∷ rest) r s s' a run =
      bind-Keeps kept _ _ (λ t t' b e. apply_at-Keeps ctx voting pd r t t' b e)
        (λ r'. apply_deltas-Keeps ctx voting rest r') s s' a run

  pub validate_votes-Keeps :
      (voter_name proxy : ℕ) (producers : List ℕ)
      → Keeps kept (validate_votes voter_name proxy producers)
  validate_votes-Keeps voter_name proxy producers =
      if-Keeps kept (proxy == 0) _ _
        (bind-Keeps kept _ _
          (check-Keeps kept (leb (length producers) 30) "attempt to vote for too many producers")
          λ u. check-Keeps kept (is_sorted producers) "producer votes must be unique and sorted")
        (bind-Keeps kept _ _
          (check-Keeps kept (length producers == 0)
            "cannot vote for producers and proxy at same time")
          λ u. check-Keeps kept (not (voter_name == proxy)) "cannot proxy to self")

  pub cast_votes-Keeps :
      ⦃n : Names⦄ (depth : ℕ) (ctx : Context) (voter_name proxy : ℕ) (producers : List ℕ)
      (voting : Bool)
      → Keeps kept (cast_votes depth ctx voter_name proxy producers voting)
  unfolding cast_votes
  cast_votes-Keeps depth ctx voter_name proxy producers voting s s' a run =
      let (u, s0, e0, r0) = bind-ok (validate_votes voter_name proxy producers) _ s s' a run in
      let (voter, found, r1) =
        or_fail-then (find s0.voters ctx.self voter_name) "user must stake before they can vote" _
          s0 s' a r0 in
      let (allowed, r2) =
        check-then (proxy == 0 || not voter.is_proxy)
          "account registered as a proxy is not allowed to use a proxy" _ s0 s' a r1 in
      let weight = vote_weight ctx voter in
      let s1 = set_global (activate_stake ctx.current_time_point voter) s0 in
      join s s0 s' (validate_votes-Keeps voter_name proxy producers s s0 u e0) (
        join s0 s1 s' (h.activation ctx.current_time_point voter s0) (
          bind-Keeps kept _ _ (undo_votes-Keeps depth ctx voter)
            (λ old.
              bind-Keeps kept _ _ (new_votes-Keeps depth ctx proxy producers voting weight old)
                λ deltas.
                  bind-Keeps kept _ _ (apply_deltas-Keeps ctx voting deltas no_rates)
                    λ r. bind-Keeps kept _ _ (settle_rates-Keeps ctx r) λ v. pure-Keeps kept weight)
            s1 s' a r2))
