-- ===== src/System/VoteGrants.antt =====
-- contracts/eosio.system/src/voting.cpp: votes leave the memory that is granted, and who manages it.
use ux_contracts.Prelude.{
  ℕ, ◌≡◌, refl, ap, sym, subst, ◌∙◌, Bool, true, false, not, ◌&&◌, ◌||◌, Option, none, some, List,
  ◌==◌, if◌then◌else◌, arith, ℤ, pos, ltb_ℤ, eqb_ℤ, ◌+ℤ◌, ◌-ℤ◌, int64, length, is_some, leb_ℤ,
}
use ux_contracts.Chain.Action.{ok}
use ux_contracts.Chain.Asset.{Asset}
use ux_contracts.Chain.Context.{Context}
use ux_contracts.Chain.Platform.{Platform}
use ux_contracts.Chain.Double.{Double}
use ux_contracts.Chain.Frame.{
  Keeps, pure-Keeps, when-modify-Keeps, bind-Keeps, when-Keeps, check-Keeps, check-then, bind-ok,
  or_fail-then,
}
use ux_contracts.System.Tables.{Names, VoterInfo, new_voter, RexBalance, RexPool, b1_account}
use ux_contracts.System.State.{State, put_voter, core_asset}
use ux_contracts.System.Voting.{record_votes, update_votes, voteproducer, regproxy, register_proxy}
use ux_contracts.System.Steps.{Steps, cast_votes-Keeps, propagate_weight_change-Keeps}
use ux_contracts.System.RexStake.{
  rex_stake_of, update_rex_stake, rex_stake, restake, with_stake, add_stake,
}
use ux_contracts.System.Voters.{Untouched, untouched}
use ux_contracts.System.Staking.{update_voting_power, validate_b1_vesting, staked_voter}
use ux_contracts.System.Grants.{Same, same_grants, flags_of}

module _ ⦃p : Platform⦄ ⦃d : Double⦄ where
  open p use {find, find-put}

  pub untouched-Same : (self : ℕ) (s t : State) → untouched t ≡ untouched s → Same self s t
  untouched-Same self s t e = record {
    userres = ap (λ (w : Untouched). w.userres) e;
    limits = ap (λ (w : Untouched). w.limits) e;
    flags = λ a. ap (λ (w : Untouched). flags_of (find w.voters self a)) e;
  }

  row_flags :
      (hit : Bool) (w : VoterInfo) (o : Option VoterInfo)
      → (hit ≡ true → w.flags1 ≡ flags_of o)
      → flags_of (if hit then some w else o) ≡ flags_of o
  row_flags true w o h = h refl
  row_flags false w o h = refl

  -- The row that is hit is the one that was found.
  hit-flags :
      (self scope account a : ℕ) (w : VoterInfo) (o : Option VoterInfo) (s : State)
      → find s.voters scope account ≡ o
      → w.flags1 ≡ flags_of o
      → ((scope == self) && (account == a)) ≡ true
      → w.flags1 ≡ flags_of (find s.voters self a)
  hit-flags self scope account a w o s found e hit =
      let x : scope ≡ self = ground arith in
      let y : account ≡ a = ground arith in rw (← x, ← y, found) e

  -- A row that is written with the same flags.
  put_voter-Same :
      (self payer scope account : ℕ) (w : VoterInfo) (o : Option VoterInfo) (s : State)
      → find s.voters scope account ≡ o
      → w.flags1 ≡ flags_of o
      → Same self s (put_voter payer scope account w s)
  put_voter-Same self payer scope account w o s found e = record {
    userres = refl;
    limits = refl;
    flags = λ a.
        ap flags_of (find-put s.voters payer scope account w self a)
        ∙ row_flags ((scope == self) && (account == a)) w (find s.voters self a)
            (hit-flags self scope account a w o s found e);
  }

  grants-Steps : (self : ℕ) → Steps (same_grants self)
  grants-Steps self = record {
    producer2 =
        λ payer scope account i s. record { userres = refl; limits = refl; flags = λ a. refl };
    votes = λ scope account i votes s found. record {
      userres = refl;
      limits = refl;
      flags = λ a. refl;
    };
    weights = λ f s. record { userres = refl; limits = refl; flags = λ a. refl };
    activation = λ now v s. record { userres = refl; limits = refl; flags = λ a. refl };
    weight = λ scope account v last proxied s found.
        put_voter-Same self 0 scope account
          (record v { last_vote_weight = last; proxied_vote_weight = proxied }) (some v) s found
          refl;
  }

  record_votes-Keeps :
      (ctx : Context) (voter_name proxy : ℕ) (producers : List ℕ) (weight : d.F)
      → Keeps (same_grants ctx.self) (record_votes ctx voter_name proxy producers weight)
  record_votes-Keeps ctx voter_name proxy producers weight s s' a run =
      let (v, found, r0) =
        or_fail-then (find s.voters ctx.self voter_name)
          "object passed to modify is not in multi_index" _ s s' a run in
      let w : VoterInfo = record v {
        last_vote_weight = weight;
        producers = producers;
        proxy = proxy;
      } in
      let after : s' ≡ put_voter 0 ctx.self voter_name w s = ground arith in
      subst (Same ctx.self s) (sym after)
        (put_voter-Same ctx.self 0 ctx.self voter_name w (some v) s found refl)

  update_votes-Keeps :
      ⦃n : Names⦄ (depth : ℕ) (ctx : Context) (voter_name proxy : ℕ) (producers : List ℕ)
      (voting : Bool)
      → Keeps (same_grants ctx.self) (update_votes depth ctx voter_name proxy producers voting)
  unfolding update_votes
  update_votes-Keeps depth ctx voter_name proxy producers voting =
      bind-Keeps (same_grants ctx.self) _ _
        (cast_votes-Keeps (same_grants ctx.self) (grants-Steps ctx.self) depth ctx voter_name proxy
          producers voting)
        λ weight. record_votes-Keeps ctx voter_name proxy producers weight

  add_stake-Same :
      (self voter : ℕ) (delta : ℤ) (o : Option VoterInfo) (s : State)
      → find s.voters self voter ≡ o
      → Same self s (add_stake self voter delta o s)
  add_stake-Same self voter delta none s found = (same_grants self).same s
  add_stake-Same self voter delta (some v) s found =
      put_voter-Same self 0 self voter (record v { staked = int64 (v.staked +ℤ delta) }) (some v) s
        found refl

  restake-Keeps :
      (ctx : Context) (voter : ℕ) (b : RexBalance) (pool : RexPool)
      → Keeps (same_grants ctx.self) (restake ctx voter b pool)
  restake-Keeps ctx voter b pool s s' a run =
      let stake = rex_stake b.rex_balance.amount pool in
      let delta = int64 (stake -ℤ b.vote_stake.amount) in
      let (zero_stake, s1, e1, r1) = bind-ok (core_asset (pos 0)) _ s s' a run in
      let same : s1 ≡ s = ground arith in
      let s2 = with_stake ctx.self voter stake b s1 in
      let first : Same ctx.self s s2 = untouched-Same ctx.self s s2 (ap untouched same) in
      (same_grants ctx.self).join s s2 s' first (
        when-modify-Keeps (same_grants ctx.self) (not (eqb_ℤ delta (pos 0)))
          (add_stake ctx.self voter delta (find s2.voters ctx.self voter)) s2 s' a
          (add_stake-Same ctx.self voter delta (find s2.voters ctx.self voter) s2 refl) r1)

  rex_stake_of-Keeps :
      (ctx : Context) (voter : ℕ) (b : Option RexBalance) (pool : Option RexPool)
      → Keeps (same_grants ctx.self) (rex_stake_of ctx voter b pool)
  rex_stake_of-Keeps ctx voter none pool = pure-Keeps (same_grants ctx.self) tt
  rex_stake_of-Keeps ctx voter (some b) none = pure-Keeps (same_grants ctx.self) tt
  rex_stake_of-Keeps ctx voter (some b) (some pool) =
      when-Keeps (same_grants ctx.self) (ltb_ℤ (pos 0) pool.total_rex.amount) _
        (restake-Keeps ctx voter b pool)

  pub update_rex_stake-Keeps :
      (ctx : Context) (voter : ℕ) → Keeps (same_grants ctx.self) (update_rex_stake ctx voter)
  unfolding update_rex_stake
  update_rex_stake-Keeps ctx voter s s' a run =
      rex_stake_of-Keeps ctx voter (find s.rexbalance ctx.self voter) s.rexpool s s' a run

  validate_b1_vesting-Keeps :
      (ctx : Context) (stake : ℤ) → Keeps (same_grants ctx.self) (validate_b1_vesting ctx stake)
  unfolding validate_b1_vesting
  validate_b1_vesting-Keeps ctx stake = check-Keeps (same_grants ctx.self) _ _

  staked_voter-flags :
      (voter : ℕ) (update : ℤ) (o : Option VoterInfo)
      → (staked_voter voter update o).flags1 ≡ flags_of o
  staked_voter-flags voter update none = refl
  staked_voter-flags voter update (some v) = refl

  pub update_voting_power-Keeps :
      ⦃n : Names⦄ (depth : ℕ) (ctx : Context) (voter : ℕ) (total_update : Asset)
      → Keeps (same_grants ctx.self) (update_voting_power depth ctx voter total_update)
  unfolding update_voting_power
  update_voting_power-Keeps depth ctx voter total_update s s' a run =
      let kept = same_grants ctx.self in
      let found = find s.voters ctx.self voter in
      let v = staked_voter voter total_update.amount found in
      let payer = if is_some found then 0 else voter in
      let s1 = put_voter payer ctx.self voter v s in
      let (nonneg, r1) =
        check-then (leb_ℤ (pos 0) v.staked) "stake for voting cannot be negative" _ s1 s' a run in
      kept.join s s1 s'
        (put_voter-Same ctx.self payer ctx.self voter v found s refl
          (staked_voter-flags voter total_update.amount found))
        (bind-Keeps kept _ _
          (when-Keeps kept (voter == b1_account) _ (validate_b1_vesting-Keeps ctx v.staked))
          (λ u.
            when-Keeps kept (not (length v.producers == 0) || not (v.proxy == 0)) _
              (update_votes-Keeps depth ctx voter v.proxy v.producers false))
          s1 s' a r1)

  pub voteproducer-Keeps :
      ⦃n : Names⦄ (depth : ℕ) (ctx : Context) (voter_name proxy : ℕ) (producers : List ℕ)
      → Keeps (same_grants ctx.self) (voteproducer depth ctx voter_name proxy producers)
  unfolding voteproducer
  voteproducer-Keeps depth ctx voter_name proxy producers s s' a run =
      let kept = same_grants ctx.self in
      let (signed, r0) =
        check-then (ctx.has_auth voter_name) "missing required authority" _ s s' a run in
      let (u1, s1, e1, r1) = bind-ok (update_rex_stake ctx voter_name) _ s s' a r0 in
      let (u2, s2, e2, r2) =
        bind-ok (update_votes depth ctx voter_name proxy producers true) _ s1 s' a r1 in
      let same : s' ≡ s2 = ground arith in
      subst (Same ctx.self s) (sym same) (
        kept.join s s1 s2 (update_rex_stake-Keeps ctx voter_name s s1 u1 e1)
          (update_votes-Keeps depth ctx voter_name proxy producers true s1 s2 u2 e2))

  register_proxy-Same :
      (depth : ℕ) (ctx : Context) (proxy : ℕ) (isproxy : Bool) (o : Option VoterInfo) (s t : State)
      → find s.voters ctx.self proxy ≡ o
      → register_proxy depth ctx proxy isproxy o s ≡ ok (tt, t)
      → Same ctx.self s t
  register_proxy-Same depth ctx proxy isproxy none s t found run =
      let w : VoterInfo = record (new_voter proxy) { is_proxy = isproxy } in
      let after : t ≡ put_voter proxy ctx.self proxy w s = ground arith in
      subst (Same ctx.self s) (sym after)
        (put_voter-Same ctx.self proxy ctx.self proxy w none s found refl)
  register_proxy-Same depth ctx proxy isproxy (some v) s t found run =
      let (effect, r0) =
        check-then (if isproxy then not v.is_proxy else v.is_proxy) "action has no effect" _ s t tt
          run in
      let (free, r1) =
        check-then (not isproxy || v.proxy == 0)
          "account that uses a proxy is not allowed to become a proxy" _ s t tt r0 in
      let w : VoterInfo = record v { is_proxy = isproxy } in
      let s1 = put_voter 0 ctx.self proxy w s in
      (same_grants ctx.self).join s s1 t
        (put_voter-Same ctx.self 0 ctx.self proxy w (some v) s found refl)
        (propagate_weight_change-Keeps (same_grants ctx.self) (grants-Steps ctx.self) depth ctx
          proxy w s1 t tt r1)

  pub regproxy-Same :
      (depth : ℕ) (ctx : Context) (proxy : ℕ) (isproxy : Bool) (s t : State)
      → regproxy depth ctx proxy isproxy s ≡ ok (tt, t)
      → Same ctx.self s t
  unfolding regproxy
  regproxy-Same depth ctx proxy isproxy s t run =
      let (signed, r0) =
        check-then (ctx.has_auth proxy) "missing required authority" _ s t tt run in
      register_proxy-Same depth ctx proxy isproxy (find s.voters ctx.self proxy) s t refl r0
