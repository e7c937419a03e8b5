-- ===== src/Resource/Advance.antt =====
-- What ends a period: the scores of the oracles, and the tables that are cleared.
use ux_contracts.Prelude.{
  ℕ, ◌≡◌, refl, sym, ap, ◌∙◌, Bool, true, false, ◌&&◌, none, some, List, [], ◌∷◌, arith, ◌≤◌, ◌+◌,
  ◌%◌, ◌^◌, leb, ◌==◌, if◌then◌else◌, inl, inr, Bool-cases, contains,
}
use ux_contracts.Chain.Action.{ok}
use ux_contracts.Chain.Context.{Context, current_seconds}
use ux_contracts.Chain.Platform.{Platform}
use ux_contracts.Chain.Double.{Double}
use ux_contracts.Chain.Frame.{bind-ok, check-then}
use ux_contracts.Resource.{
  Source, SystemUsage, ResourceConfig, System, State, Texts, config_of, set_config, usage_at,
}
use ux_contracts.Resource.Submission.{submissions}
use ux_contracts.Resource.Declared.{submissions-usage}
use ux_contracts.Resource.Period.{
  erase_keys, erase_all, is_full, points, scored, score, modal_commit, score_modal, nextperiod,
}

module _ ⦃p : Platform⦄ where
  open p use {Table, find, drop, find-drop, keys, contains-keys}

  pub find-erase_keys :
      {R : Type 0} (t : Table R) (scope : ℕ) (ks : List ℕ) (other k : ℕ)
      → find (erase_keys t scope ks) other k
        ≡ (if (scope == other) && contains ks k then none else find t other k)
  find-erase_keys t scope [] other k = ground arith
  find-erase_keys t scope (x ∷ ks) other k =
      let rest = find-erase_keys (drop t scope x) scope ks other k in
      let one = find-drop t scope x other k in ground arith

  -- Erasing from the first row to the last leaves no row of the scope.
  pub find-erase_all :
      {R : Type 0} (t : Table R) (scope k : ℕ) → find (erase_all t scope) scope k ≡ none
  find-erase_all t scope k =
      let erased = find-erase_keys t scope (keys t scope) scope k in
      let listed = contains-keys t scope k in
      elim (Bool-cases (contains (keys t scope) k)) [
        | inl there ↦ ground arith
        | inr missing ↦ ground arith
      ]

module _ ⦃p : Platform⦄ ⦃d : Double⦄ ⦃t : Texts⦄ where
  open p use {Table, find, put}

  -- How many of the submissions are what their oracle committed to and have the modal commitment.
  abbrev pub full_count : ℕ → List SystemUsage → ℕ
  full_count modal_hash [] = 0
  full_count modal_hash (u ∷ us) =
      let rest = full_count modal_hash us in if is_full modal_hash u then rest + 1 else rest

  abbrev with_sources : State → Table Source → State
  with_sources s table = record s { sources = table }

  last_count :
      (n m : ℕ) (b : Bool) (k : ℕ)
      → m ≡ k
      → n ≡ (if b then m + 1 else m)
      → n ≡ (if b then k + 1 else k)
  last_count n m b k e f = ground arith

  score-ok :
      (scope : ℕ) (sys : System) (modal_hash : ℕ) (oracles : List ℕ) (s s' : State) (n : ℕ)
      → score scope sys modal_hash oracles s ≡ ok (n, s')
      → (n ≡ full_count modal_hash (submissions sys scope s oracles))
        × (s' ≡ with_sources s s'.sources)
  score-ok scope sys modal_hash [] s s' n run = (ground arith, ground arith)
  score-ok scope sys modal_hash (o ∷ os) s s' n run =
      let u = usage_at sys scope s o in
      let s1 =
        with_sources s
          (put s.sources scope scope o (scored (find s.sources scope o) o (points modal_hash u))) in
      let (m, t, h, e) = bind-ok (score scope sys modal_hash os) _ s1 s' n run in
      let (counted, same) = score-ok scope sys modal_hash os s1 t m h in
      let rows = submissions-usage sys scope s s1 os refl in
      let last : s' ≡ t = ground arith in
      (
        last_count n m (is_full modal_hash u) (full_count modal_hash (submissions sys scope s os))
            (counted ∙ ap (full_count modal_hash) rows) (ground arith),
        last ∙ same ∙ ap (λ w. with_sources s w) (sym (ap (λ (w : State). w.sources) last)),
      )

  abbrev pub next_start : ResourceConfig → ℕ
  next_start config = (config.period_start + config.period_seconds) % 2 ^ 32

  -- The configuration of the next period.
  abbrev pub next_config : ResourceConfig → ResourceConfig
  next_config config = record config {
    submitting_oracles = [];
    period_start = next_start config;
    inflation_transferred = false;
    account_distributions_made = [];
  }

  -- What the end of a period does.
  pub record Advanced (ctx : Context) (sys : System) (s s' : State) : Type 0 where
    pub active : (config_of s).active ≡ true
    pub elapsed : next_start (config_of s) ≤ current_seconds ctx
    pub modal_hash : ℕ
    pub agreed :
        (config_of s).oracle_consensus_threshold
        ≤ full_count modal_hash (submissions sys ctx.self s (config_of s).submitting_oracles)
    pub config : s'.config ≡ some (next_config (config_of s))
    pub no_usage : (source : ℕ) → find s'.usage ctx.self source ≡ none
    pub no_datasets : (id : ℕ) → find s'.datasets ctx.self id ≡ none
    pub usage : s'.usage ≡ erase_all s.usage ctx.self
    pub history : s'.history ≡ s.history
    pub account_pay : s'.account_pay ≡ s.account_pay
    pub producer_pay : s'.producer_pay ≡ s.producer_pay
    pub inlines : s'.inlines ≡ s.inlines

  score_modal-ok :
      (scope : ℕ) (sys : System) (config : ResourceConfig) (best : ℕ × ℕ) (s s' : State) (n : ℕ)
      → score_modal scope sys config best s ≡ ok (n, s')
      → leb config.oracle_consensus_threshold n ≡ true
      → (config.oracle_consensus_threshold
          ≤ full_count best.0 (submissions sys scope s config.submitting_oracles))
        × (s' ≡ with_sources s s'.sources)
  score_modal-ok scope sys config best s s' n run enough =
      elim (Bool-cases (leb config.oracle_consensus_threshold best.1)) [
        | inl votes ↦
            let scored_all : score scope sys best.0 config.submitting_oracles s ≡ ok (n, s') =
              rw votes at run in
            let (counted, same) =
              score-ok scope sys best.0 config.submitting_oracles s s' n scored_all in
            (ground arith, same)
        | inr few ↦ absurd (ground arith)
      ]

  abbrev cleared_state : Context → State → State
  cleared_state ctx s = record s {
    config = some (config_of s);
    datasets = erase_all s.datasets ctx.self;
  }

  abbrev ended_state : Context → State → State → State
  ended_state ctx s u = record u {
    config = some (next_config (config_of s));
    usage = erase_all u.usage ctx.self;
  }

  -- The tests that the end of a period passes.
  record Tested (ctx : Context) (sys : System) (s s' : State) : Type 0 where
    active : (config_of s).active ≡ true
    elapsed : leb (next_start (config_of s)) (current_seconds ctx) ≡ true
    best : ℕ × ℕ
    full : ℕ
    scores : State
    scored_all :
        score_modal ctx.self sys (config_of s) best (cleared_state ctx s) ≡ ok (full, scores)
    enough : leb (config_of s).oracle_consensus_threshold full ≡ true
    after : s' ≡ ended_state ctx s scores

  nextperiod-Tested :
      (ctx : Context) (sys : System) (s s' : State)
      → nextperiod ctx sys s ≡ ok (tt, s')
      → Tested ctx sys s s'
  unfolding nextperiod
  nextperiod-Tested ctx sys s s' run =
      let config = config_of s in
      let t = set_config config s in
      let (active, r1) = check-then config.active "resource model not active" _ t s' tt run in
      let (elapsed, r2) =
        check-then (leb (next_start config) (current_seconds ctx))
          "current resource period has not ended" _ t s' tt r1 in
      let best = modal_commit sys ctx.self config (cleared_state ctx s) in
      let (full, u, scored_all, r3) =
        bind-ok (score_modal ctx.self sys config best) _ (cleared_state ctx s) s' tt r2 in
      let (enough, r4) =
        check-then (leb config.oracle_consensus_threshold full) "full modal data not received" _ u
          s' tt r3 in
      record {
        active = active;
        elapsed = elapsed;
        best = best;
        full = full;
        scores = u;
        scored_all = scored_all;
        enough = enough;
        after = ground arith;
      }

  -- A part of the state that scoring and the end of the period leave alone.
  kept :
      {A : Type 0} (f : State → A) (ctx : Context) (s u s' : State)
      → u ≡ with_sources (cleared_state ctx s) u.sources
      → s' ≡ ended_state ctx s u
      → ((w : State) → f (ended_state ctx s w) ≡ f w)
      → ((table : Table Source) → f (with_sources (cleared_state ctx s) table) ≡ f s)
      → f s' ≡ f s
  kept f ctx s u s' same after g h = ap f after ∙ g u ∙ ap f same ∙ h u.sources

  -- The end of a period that goes through is of an active model, and not before the period has lasted as
  -- long as it has to. At least the threshold of the oracles that are counted have revealed what they
  -- committed to, with one and the same commitment. The next period starts where this one ends, with
  -- no submission, dataset, issue or payment on record; the history and all pay are left as they are.
  pub nextperiod-Advanced :
      (ctx : Context) (sys : System) (s s' : State)
      → nextperiod ctx sys s ≡ ok (tt, s')
      → Advanced ctx sys s s'
  nextperiod-Advanced ctx sys s s' run =
      let i = nextperiod-Tested ctx sys s s' run in
      let (agreed, same) =
        score_modal-ok ctx.self sys (config_of s) i.best (cleared_state ctx s) i.scores i.full
          i.scored_all i.enough in
      let rows =
        submissions-usage sys ctx.self s (cleared_state ctx s) (config_of s).submitting_oracles
          refl in
      let usage_after : s'.usage ≡ erase_all s.usage ctx.self =
        ap (λ (w : State). w.usage) i.after ∙ ap (λ (w : State). erase_all w.usage ctx.self) same in
      let datasets_after : s'.datasets ≡ erase_all s.datasets ctx.self =
        ap (λ (w : State). w.datasets) i.after ∙ ap (λ (w : State). w.datasets) same in
      record {
        active = i.active;
        elapsed = let e = i.elapsed in ground arith;
        modal_hash = i.best.0;
        agreed = let e = ap (full_count i.best.0) rows in ground arith;
        config = ap (λ (w : State). w.config) i.after;
        no_usage = λ k. rw usage_after (find-erase_all s.usage ctx.self k);
        no_datasets = λ k. rw datasets_after (find-erase_all s.datasets ctx.self k);
        usage = usage_after;
        history = kept (λ w. w.history) ctx s i.scores s' same i.after (λ w. refl) λ table. refl;
        account_pay =
            kept (λ w. w.account_pay) ctx s i.scores s' same i.after (λ w. refl) λ table. refl;
        producer_pay =
            kept (λ w. w.producer_pay) ctx s i.scores s' same i.after (λ w. refl) λ table. refl;
        inlines = kept (λ w. w.inlines) ctx s i.scores s' same i.after (λ w. refl) λ table. refl;
      }
