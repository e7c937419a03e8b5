-- ===== src/System/Chains.antt =====
-- Votes keep the chains of proxies finite: whoever has a proxy is none itself, and the accounts can be
-- ranked so that each stands above its proxy.
use ux_contracts.Prelude.{
  ℕ, suc, ◌<◌, ◌≡◌, ◌≢◌, refl, sym, ap, subst, ◌∙◌, Bool, true, false, not, ◌||◌, List, ◌==◌,
  if◌then◌else◌, arith, Bool-cases, inl, inr,
}
use ux_contracts.Chain.Action.{ok}
use ux_contracts.Chain.Context.{Context}
use ux_contracts.Chain.Platform.{Platform}
use ux_contracts.Chain.Double.{Double}
use ux_contracts.Chain.Frame.{bind-ok, else-then, check-then, or_fail-then}
use ux_contracts.System.Tables.{Names, VoterInfo}
use ux_contracts.System.State.{State, put_voter, set_global}
use ux_contracts.System.Weights.{vote_weight, Delta}
use ux_contracts.System.Voting.{
  validate_votes, new_votes, cast_votes, update_votes, undo_votes, activate_stake,
}
use ux_contracts.System.Steps.{cast_votes-Keeps, validate_votes-Keeps, undo_votes-Keeps}
use ux_contracts.System.Proxies.{
  proxy_of, is_proxy_of, SameProxies, same_proxies, proxies-Steps, IsRanked, SameProxies-IsRanked,
}

module _ ⦃p : Platform⦄ ⦃d : Double⦄ where
  open p use {find, find-put}

  pub record IsChained (self : ℕ) (s : State) : Type 0 where
    pub rank : ℕ → ℕ
    pub ranked : IsRanked self rank s
    pub proxies :
        (a : ℕ) → is_proxy_of (find s.voters self a) ≡ true → proxy_of (find s.voters self a) ≡ 0

  pub SameProxies-IsChained :
      (self : ℕ) (s t : State) → SameProxies self s t → IsChained self s → IsChained self t
  SameProxies-IsChained self s t h c = record {
    rank = c.rank;
    ranked = SameProxies-IsRanked self c.rank s t h c.ranked;
    proxies = λ a e. h.proxy a ∙ c.proxies a (sym (h.is_proxy a) ∙ e);
  }

  -- What is asked of a vote through a proxy.
  record Cast (self voter_name proxy : ℕ) (voting : Bool) (s t : State) : Type 0 where
    same : SameProxies self s t
    other : proxy ≢ 0 → (voter_name == proxy) ≡ false
    voter : proxy ≢ 0 → is_proxy_of (find s.voters self voter_name) ≡ false
    target : proxy ≢ 0 → voting ≡ true → is_proxy_of (find s.voters self proxy) ≡ true

  valid-other :
      (voter_name proxy : ℕ) (producers : List ℕ) (s t : State)
      → validate_votes voter_name proxy producers s ≡ ok (tt, t)
      → proxy ≢ 0
      → (voter_name == proxy) ≡ false
  valid-other voter_name proxy producers s t run nonzero = ground arith

  new_votes-target :
      (depth : ℕ) (ctx : Context) (proxy : ℕ) (producers : List ℕ) (voting : Bool) (weight : d.F)
      (old : List (Delta d.F)) (s t : State) (deltas : List (Delta d.F))
      → new_votes depth ctx proxy producers voting weight old s ≡ ok (deltas, t)
      → proxy ≢ 0
      → voting ≡ true
      → is_proxy_of (find s.voters ctx.self proxy) ≡ true
  new_votes-target depth ctx proxy producers voting weight old s t deltas run nonzero votes =
      let e : (proxy == 0) ≡ false = ground arith in
      let there = else-then (proxy == 0) _ _ s (ok (deltas, t)) e run in
      let (vp, found, r1) =
        or_fail-then (find s.voters ctx.self proxy) "invalid proxy specified" _ s t deltas there in
      let (tested, r2) = check-then (not voting || vp.is_proxy) "proxy not found" _ s t deltas r1 in
      ap is_proxy_of found ∙ ground arith

  cast_votes-Cast :
      ⦃n : Names⦄ (depth : ℕ) (ctx : Context) (voter_name proxy : ℕ) (producers : List ℕ)
      (voting : Bool) (s t : State) (weight : d.F)
      → cast_votes depth ctx voter_name proxy producers voting s ≡ ok (weight, t)
      → Cast ctx.self voter_name proxy voting s t
  unfolding cast_votes
  cast_votes-Cast depth ctx voter_name proxy producers voting s t weight run =
      let kept = same_proxies ctx.self in
      let steps = proxies-Steps ctx.self in
      let (u, s0, e0, r0) = bind-ok (validate_votes voter_name proxy producers) _ s t weight run in
      let (voter, found, r1) =
        or_fail-then (find s0.voters ctx.self voter_name) "user must stake before they can vote" _
          s0 t weight r0 in
      let (allowed, r2) =
        check-then (proxy == 0 || not voter.is_proxy)
          "account registered as a proxy is not allowed to use a proxy" _ s0 t weight r1 in
      let s1 = set_global (activate_stake ctx.current_time_point voter) s0 in
      let (old, s2, e2, r3) = bind-ok (undo_votes depth ctx voter) _ s1 t weight r2 in
      let (deltas, s3, e3, r4) =
        bind-ok (new_votes depth ctx proxy producers voting (vote_weight ctx voter) old) _ s2 t
          weight r3 in
      let first = validate_votes-Keeps kept steps voter_name proxy producers s s0 u e0 in
      let second = steps.activation ctx.current_time_point voter s0 in
      let third = undo_votes-Keeps kept steps depth ctx voter s1 s2 old e2 in
      record {
        same =
            cast_votes-Keeps kept steps depth ctx voter_name proxy producers voting s t weight run;
        other = valid-other voter_name proxy producers s s0 e0;
        voter = λ nonzero. sym (first.is_proxy voter_name) ∙ ap is_proxy_of found ∙ ground arith;
        target = λ nonzero votes.
            sym (first.is_proxy proxy)
            ∙ sym (second.is_proxy proxy)
            ∙ sym (third.is_proxy proxy)
            ∙ new_votes-target depth ctx proxy producers voting (vote_weight ctx voter) old s2 s3
                deltas e3 nonzero votes;
      }

  -- The proxy that is taken becomes the lowest, and all others move up.
  abbrev raised : ℕ → (ℕ → ℕ) → ℕ → ℕ
  raised proxy rank a = if a == proxy then 0 else suc (rank a)

  raised-above :
      (proxy voter_name a q : ℕ) (rank : ℕ → ℕ)
      → (voter_name == proxy) ≡ false
      → (q ≢ 0 → rank q < rank a)
      → (a ≡ proxy → q ≡ 0)
      → (if voter_name == a then proxy else q) ≢ 0
      → raised proxy rank (if voter_name == a then proxy else q) < raised proxy rank a
  raised-above proxy voter_name a q rank other below none_there nonzero =
      elim (Bool-cases (voter_name == a)) [
        | inl own ↦ let e : (a == proxy) ≡ false = ground arith in rw own (rw e (ground arith))
        | inr foreign ↦
            let nonzero' : q ≢ 0 = λ z. nonzero (rw foreign z) in
            let e : (a == proxy) ≡ false = ground arith in
            let h = below nonzero' in rw foreign (rw e (ground arith))
      ]

  proxy_at :
      (self voter_name a : ℕ) (w : VoterInfo) (t : State)
      → proxy_of (find (put_voter 0 self voter_name w t).voters self a)
        ≡ (if voter_name == a then w.proxy else proxy_of (find t.voters self a))
  proxy_at self voter_name a w t =
      ap proxy_of (find-put t.voters 0 self voter_name w self a) ∙ ground arith

  is_proxy_at :
      (self voter_name a : ℕ) (w : VoterInfo) (t : State)
      → is_proxy_of (find (put_voter 0 self voter_name w t).voters self a)
        ≡ (if voter_name == a then w.is_proxy else is_proxy_of (find t.voters self a))
  is_proxy_at self voter_name a w t =
      ap is_proxy_of (find-put t.voters 0 self voter_name w self a) ∙ ground arith

  -- The state after a vote for producers.
  pub freed-IsChained :
      (self voter_name : ℕ) (w : VoterInfo) (t : State)
      → IsChained self t
      → w.proxy ≡ 0
      → IsChained self (put_voter 0 self voter_name w t)
  freed-IsChained self voter_name w t c e = record {
    rank = c.rank;
    ranked = λ a nonzero. elim (Bool-cases (voter_name == a)) [
      | inl own ↦ absurd (nonzero (proxy_at self voter_name a w t ∙ ground arith))
      | inr foreign ↦
          let q : proxy_of (find (put_voter 0 self voter_name w t).voters self a)
              ≡ proxy_of (find t.voters self a) =
            proxy_at self voter_name a w t ∙ ground arith in
          rw q (c.ranked a (λ z. nonzero (q ∙ z)))
    ];
    proxies = λ a h. elim (Bool-cases (voter_name == a)) [
      | inl own ↦ proxy_at self voter_name a w t ∙ ground arith
      | inr foreign ↦
          let i = sym (is_proxy_at self voter_name a w t) ∙ h in
          let i' : is_proxy_of (find t.voters self a) ≡ true = ground arith in
          let none_there = c.proxies a i' in proxy_at self voter_name a w t ∙ ground arith
    ];
  }

  -- The state after an account is a proxy no more.
  pub retired-IsChained :
      (self account : ℕ) (w : VoterInfo) (t : State)
      → IsChained self t
      → w.proxy ≡ proxy_of (find t.voters self account)
      → w.is_proxy ≡ false
      → IsChained self (put_voter 0 self account w t)
  retired-IsChained self account w t c e f =
      let same : (a : ℕ)
          → proxy_of (find (put_voter 0 self account w t).voters self a)
            ≡ proxy_of (find t.voters self a) =
        λ a. proxy_at self account a w t ∙ elim (Bool-cases (account == a)) [
          | inl own ↦
              let here : account ≡ a = ground arith in
              rw own (e ∙ ap (λ x. proxy_of (find t.voters self x)) here)
          | inr foreign ↦ rw foreign refl
        ] in
      record {
        rank = c.rank;
        ranked = λ a nonzero. rw (same a) (c.ranked a (λ z. nonzero (same a ∙ z)));
        proxies = λ a h.
            let i = sym (is_proxy_at self account a w t) ∙ h in
            elim (Bool-cases (account == a)) [
              | inl own ↦ absurd (ground arith)
              | inr foreign ↦
                  let i' : is_proxy_of (find t.voters self a) ≡ true = ground arith in
                  same a ∙ c.proxies a i'
            ];
      }

  -- The state after a vote through a proxy, which has none itself.
  taken-IsChained :
      (self voter_name proxy : ℕ) (w : VoterInfo) (t : State)
      → IsChained self t
      → (voter_name == proxy) ≡ false
      → is_proxy_of (find t.voters self proxy) ≡ true
      → w.proxy ≡ proxy
      → w.is_proxy ≡ false
      → IsChained self (put_voter 0 self voter_name w t)
  taken-IsChained self voter_name proxy w t c other target e f = record {
    rank = raised proxy c.rank;
    ranked = λ a nonzero.
        let q : proxy_of (find (put_voter 0 self voter_name w t).voters self a)
            ≡ (if voter_name == a then proxy else proxy_of (find t.voters self a)) =
          proxy_at self voter_name a w t
          ∙ ap (λ x. if voter_name == a then x else proxy_of (find t.voters self a)) e in
        rw q (
          raised-above proxy voter_name a (proxy_of (find t.voters self a)) c.rank other
            (c.ranked a) (λ z. c.proxies a (rw z target)) (λ z. nonzero (q ∙ z)));
    proxies = λ a h. elim (Bool-cases (voter_name == a)) [
      | inl own ↦ let i = sym (is_proxy_at self voter_name a w t) ∙ h in absurd (ground arith)
      | inr foreign ↦
          let i = sym (is_proxy_at self voter_name a w t) ∙ h in
          let i' : is_proxy_of (find t.voters self a) ≡ true = ground arith in
          let none_there = c.proxies a i' in proxy_at self voter_name a w t ∙ ground arith
    ];
  }

  -- A vote leaves the chains finite.
  pub update_votes-IsChained :
      ⦃n : Names⦄ (depth : ℕ) (ctx : Context) (voter_name proxy : ℕ) (producers : List ℕ)
      (s t : State)
      → IsChained ctx.self s
      → update_votes depth ctx voter_name proxy producers true s ≡ ok (tt, t)
      → IsChained ctx.self t
  unfolding update_votes
  update_votes-IsChained depth ctx voter_name proxy producers s t c run =
      let (weight, s1, e1, r1) =
        bind-ok (cast_votes depth ctx voter_name proxy producers true) _ s t tt run in
      let i = cast_votes-Cast depth ctx voter_name proxy producers true s s1 weight e1 in
      let (v, found, r2) =
        or_fail-then (find s1.voters ctx.self voter_name)
          "object passed to modify is not in multi_index" _ s1 t tt r1 in
      let w : VoterInfo = record v {
        last_vote_weight = weight;
        producers = producers;
        proxy = proxy;
      } in
      let after : t ≡ put_voter 0 ctx.self voter_name w s1 = ground arith in
      let b = SameProxies-IsChained ctx.self s s1 i.same c in
      subst (IsChained ctx.self) (sym after) (elim (Bool-cases (proxy == 0)) [
        | inl freed ↦ freed-IsChained ctx.self voter_name w s1 b (ground arith)
        | inr taken ↦
            let nonzero : proxy ≢ 0 = λ z. ground arith in
            taken-IsChained ctx.self voter_name proxy w s1 b (i.other nonzero)
              (i.same.is_proxy proxy ∙ i.target nonzero refl) refl
              (sym (ap is_proxy_of found) ∙ i.same.is_proxy voter_name ∙ i.voter nonzero)
      ])
