-- ===== src/Resource/Declared.antt =====
-- What `settotalusg` does: the totals of one oracle for the period, and the issue of inflation once
-- enough oracles agree.
use ux_contracts.Prelude.{
  ℕ, ◌≡◌, refl, sym, ap, ◌∙◌, Bool, true, false, not, none, some, is_some, List, [], ◌∷◌, ◌++◌,
  arith, length, ◌≤◌, leb, ◌==◌, if◌then◌else◌, mul_64, ◌⊎◌, inl, inr, Bool-cases,
}
use ux_contracts.Chain.Action.{ok}
use ux_contracts.Chain.Context.{Context}
use ux_contracts.Chain.Platform.{Platform}
use ux_contracts.Chain.Double.{Double}
use ux_contracts.Chain.Frame.{bind-ok, check-then, Keeps, bind-Keeps, gets-Keeps, when-Keeps}
use ux_contracts.Resource.{
  Metric, SystemUsage, ResourceConfig, System, State, Texts, is_oracle, config_of, dataset_at,
  set_config, put_usage, Dataset, add_dataset,
}
use ux_contracts.Resource.Text.{totals_text}
use ux_contracts.Resource.Tally.{hash_of, modal}
use ux_contracts.Resource.Modal.{votes, modal-votes}
use ux_contracts.Resource.Inflation.{per_day}
use ux_contracts.Resource.Frames.{same_submissions, set_total-Keeps, issue_inflation-Keeps}
use ux_contracts.Resource.Submission.{
  submissions, modal_totals, is_due, distribute, keep_dataset, settotalusg, value_at, cpu_us,
  net_words,
}

module _ ⦃p : Platform⦄ ⦃d : Double⦄ ⦃t : Texts⦄ where
  open p use {find, put}
  open t use {sha256}

  distribute-Keeps :
      (ctx : Context) (sys : System) (config : ResourceConfig) (period_start : ℕ)
      → Keeps same_submissions (distribute ctx sys config period_start)
  unfolding distribute
  distribute-Keeps ctx sys config period_start =
      bind-Keeps same_submissions _ _ (gets-Keeps same_submissions (is_due sys ctx.self config))
        λ due.
          bind-Keeps same_submissions _ _
            (gets-Keeps same_submissions
              (λ s. (dataset_at sys ctx.self s (modal_totals sys ctx.self config s).0).metrics))
            λ totals.
              bind-Keeps same_submissions _ _
                (when-Keeps same_submissions due _ (
                  bind-Keeps same_submissions _ _
                    (set_total-Keeps sys (value_at sys totals 0) (value_at sys totals 1)
                      period_start)
                    λ u. issue_inflation-Keeps ctx sys period_start))
                λ u. gets-Keeps same_submissions (λ s. due)

  -- Without inflation due nothing happens, and the result says whether it is due.
  distribute-is_due :
      (ctx : Context) (sys : System) (config : ResourceConfig) (period_start : ℕ) (s s' : State)
      (b : Bool)
      → distribute ctx sys config period_start s ≡ ok (b, s')
      → (b ≡ is_due sys ctx.self config s) × ((b ≡ true) ⊎ (s' ≡ s))
  unfolding distribute
  distribute-is_due ctx sys config period_start s s' b run =
      elim (Bool-cases (is_due sys ctx.self config s)) [
        | inr idle ↦ ground arith
        | inl due ↦ ground arith
      ]

  pub submissions-usage :
      (sys : System) (scope : ℕ) (s s' : State) (oracles : List ℕ)
      → s'.usage ≡ s.usage
      → submissions sys scope s' oracles ≡ submissions sys scope s oracles
  submissions-usage sys scope s s' [] e = refl
  submissions-usage sys scope s s' (o ∷ os) e =
      let rest = submissions-usage sys scope s s' os e in rw e (rw rest refl)

  -- A dataset changes the table of datasets alone.
  abbrev pub with_datasets : State → p.Table Dataset → State
  with_datasets s table = record s { datasets = table }

  pub keep_dataset-ok :
      (sys : System) (payer scope hash : ℕ) (metrics : List Metric) (s s' : State)
      → keep_dataset sys payer scope hash metrics s ≡ ok (tt, s')
      → (table : p.Table Dataset) × (s' ≡ with_datasets s table)
  unfolding keep_dataset
  keep_dataset-ok sys payer scope hash metrics s s' run =
      elim (Bool-cases (not ((dataset_at sys scope s hash).hash == hash))) [
        | inl new ↦ ((add_dataset payer scope hash metrics s).datasets, ground arith)
        | inr old ↦ (s.datasets, ground arith)
      ]

  abbrev pub declared_row : ℕ → ℕ → ℕ → ℕ → SystemUsage
  declared_row source total_cpu_us total_net_words all_data_hash = record {
    source = source;
    total_cpu_us = total_cpu_us;
    total_net_words = total_net_words;
    allocated_cpu = 0;
    submission_hash_list = sha256 (totals_text total_cpu_us total_net_words) ∷ [];
    all_data_hash = all_data_hash;
  }

  -- The configuration that counts the oracle in.
  abbrev pub with_oracle : ResourceConfig → ℕ → ResourceConfig
  with_oracle config source = record config {
    submitting_oracles = config.submitting_oracles ++ source ∷ [];
  }

  abbrev pub after_issue : ResourceConfig → Bool → ResourceConfig
  after_issue config issued = record config {
    inflation_transferred = if issued then true else config.inflation_transferred;
  }

  -- The state with the configuration created and the oracle's row in place.
  abbrev declared_state : Context → State → ℕ → SystemUsage → p.Table Dataset → State
  declared_state ctx s source row table =
      put_usage source ctx.self source row (with_datasets (set_config (config_of s) s) table)

  -- The tests that a declaration passes, and what is left of the action after them.
  record Tested (ctx : Context) (sys : System) (source cpu net commit start : ℕ) (s s' : State)
      : Type 0 where
    signed : ctx.has_auth source ≡ true
    oracle : is_oracle sys source ≡ true
    active : (config_of s).active ≡ true
    on_time : ((config_of s).period_start == start) ≡ true
    cpu_within : leb cpu (per_day sys.max_block_cpu_usage) ≡ true
    net_within : leb (mul_64 net 8) (per_day sys.max_block_net_usage) ≡ true
    first : not (is_some (find s.usage ctx.self source)) ≡ true
    table : p.Table Dataset
    issued : Bool
    last : State
    rest :
        distribute ctx sys
          (with_oracle (config_of s) source)
          start
          (declared_state ctx s source (declared_row source cpu net commit) table)
        ≡ ok (issued, last)
    after : s' ≡ set_config (after_issue (with_oracle (config_of s) source) issued) last

  settotalusg-Tested :
      (ctx : Context) (sys : System) (source cpu net commit start : ℕ) (s s' : State)
      → settotalusg ctx sys source cpu net commit start s ≡ ok (tt, s')
      → Tested ctx sys source cpu net commit start s s'
  unfolding settotalusg
  settotalusg-Tested ctx sys source cpu net commit start s s' run =
      let t = set_config (config_of s) s in
      let (signed, r1) =
        check-then (ctx.has_auth source) "missing required authority" _ s s' tt run in
      let (oracle, r2) = check-then (is_oracle sys source) "not a qualified oracle" _ s s' tt r1 in
      let (active, r3) = check-then (config_of s).active "resource model not active" _ t s' tt r2 in
      let (on_time, r4) =
        check-then ((config_of s).period_start == start)
          "period_start does not match current period_start" _ t s' tt r3 in
      let (cpu_within, r5) =
        check-then (leb cpu (per_day sys.max_block_cpu_usage))
          "measured cpu usage is greater than system total" _ t s' tt r4 in
      let (net_within, r6) =
        check-then (leb (mul_64 net 8) (per_day sys.max_block_net_usage))
          "measured net usage is greater than system total" _ t s' tt r5 in
      let (first, r7) =
        check-then (not (is_some (find s.usage ctx.self source))) "total already set" _ t s' tt
          r6 in
      let (u, v, kept, r8) =
        bind-ok
          (keep_dataset sys ctx.self ctx.self (sha256 (totals_text cpu net))
            (record { a = cpu_us; u = cpu } ∷ record { a = net_words; u = net } ∷ []))
          _ t s' tt r7 in
      let (table, same) = keep_dataset-ok sys ctx.self ctx.self _ _ t v kept in
      let (issued, last, rest, end) =
        bind-ok (distribute ctx sys (with_oracle (config_of s) source) start) _
          (put_usage source ctx.self source (declared_row source cpu net commit) v) s' tt r8 in
      record {
        signed = signed;
        oracle = oracle;
        active = active;
        on_time = on_time;
        cpu_within = cpu_within;
        net_within = net_within;
        first = first;
        table = table;
        issued = issued;
        last = last;
        rest =
            ap
              (λ w.
                distribute ctx sys (with_oracle (config_of s) source) start
                  (put_usage source ctx.self source (declared_row source cpu net commit) w))
              (sym same)
            ∙ rest;
        after = ground arith;
      }

  -- The submissions as they stand: of the oracles in the list, read from their rows.
  abbrev pub submitted : Context → System → State → List ℕ → List SystemUsage
  submitted ctx sys s oracles = submissions sys ctx.self s oracles

  -- Enough oracles agree on the hash of the totals.
  abbrev pub Agree : Context → System → State → ResourceConfig → Type 0
  Agree ctx sys s config =
      (hash : ℕ) × (config.oracle_consensus_threshold ≤ length config.submitting_oracles)
      × (config.oracle_consensus_threshold
          ≤ votes (hash_of 0) hash (submitted ctx sys s config.submitting_oracles))

  is_due-Agree :
      (ctx : Context) (sys : System) (config : ResourceConfig) (s : State)
      → is_due sys ctx.self config s ≡ true
      → (config.inflation_transferred ≡ false) × Agree ctx sys s config
  unfolding is_due modal_totals
  is_due-Agree ctx sys config s e =
      let rows = submissions sys ctx.self s config.submitting_oracles in
      let enough = modal-votes (hash_of 0) rows in
      (ground arith, ((modal (hash_of 0) rows).0, ground arith, ground arith))

  -- What a declaration of totals does.
  pub record Declared (ctx : Context) (sys : System) (source cpu net commit start : ℕ)
      (s s' : State) : Type 0 where
    pub signed : ctx.has_auth source ≡ true
    pub oracle : is_oracle sys source ≡ true
    pub active : (config_of s).active ≡ true
    pub on_time : (config_of s).period_start ≡ start
    pub cpu_within : cpu ≤ per_day sys.max_block_cpu_usage
    pub net_within : mul_64 net 8 ≤ per_day sys.max_block_net_usage
    pub first : find s.usage ctx.self source ≡ none
    pub usage : s'.usage ≡ put s.usage source ctx.self source (declared_row source cpu net commit)
    pub sources : s'.sources ≡ s.sources
    pub account_pay : s'.account_pay ≡ s.account_pay
    pub issued : Bool
    pub config : s'.config ≡ some (after_issue (with_oracle (config_of s) source) issued)
    pub agreed :
        issued ≡ true
        → ((config_of s).inflation_transferred ≡ false)
          × Agree ctx sys s' (with_oracle (config_of s) source)
    pub idle :
        issued ≡ false
        → (s'.history ≡ s.history) × (s'.inlines ≡ s.inlines) × (s'.producer_pay ≡ s.producer_pay)

  -- A declaration of totals that goes through was signed by one of the oracles, for the current
  -- period of the active model, within what the chain can use in a day (the network words times 8 as
  -- 64 bits), and is the oracle's first of the period. It adds the oracle's row and counts the oracle
  -- in, and leaves scores and accounts' pay alone. It issues inflation only where none was issued for
  -- the period and at least the threshold of the counted oracles have submitted the same hash of
  -- totals; else the history, the token calls and the producers' pay stay. Of the configuration
  -- nothing else changes, the time of the last issue included.
  pub settotalusg-Declared :
      (ctx : Context) (sys : System) (source cpu net commit start : ℕ) (s s' : State)
      → settotalusg ctx sys source cpu net commit start s ≡ ok (tt, s')
      → Declared ctx sys source cpu net commit start s s'
  settotalusg-Declared ctx sys source cpu net commit start s s' run =
      let i = settotalusg-Tested ctx sys source cpu net commit start s s' run in
      let config = with_oracle (config_of s) source in
      let mid = declared_state ctx s source (declared_row source cpu net commit) i.table in
      let kept = distribute-Keeps ctx sys config start mid i.last i.issued i.rest in
      let due = distribute-is_due ctx sys config start mid i.last i.issued i.rest in
      let usage_after : s'.usage ≡ i.last.usage = ap (λ (w : State). w.usage) i.after in
      record {
        signed = i.signed;
        oracle = i.oracle;
        active = i.active;
        on_time = let e = i.on_time in ground arith;
        cpu_within = let e = i.cpu_within in ground arith;
        net_within = let e = i.net_within in ground arith;
        first = let e = i.first in ground arith;
        usage = usage_after ∙ kept.usage;
        sources = ap (λ (w : State). w.sources) i.after ∙ kept.sources;
        account_pay = ap (λ (w : State). w.account_pay) i.after ∙ kept.account_pay;
        issued = i.issued;
        config = ap (λ (w : State). w.config) i.after;
        agreed = λ e.
            let (fresh, (hash, a, b)) = is_due-Agree ctx sys config mid (sym due.0 ∙ e) in
            (
              fresh,
              (
                hash,
                a,
                (rw
                    (submissions-usage sys ctx.self mid s' config.submitting_oracles
                      (usage_after ∙ kept.usage))
                    b),
              ),
            );
        idle = λ e. elim due.1 [
          | inl issue ↦ absurd (ground arith)
          | inr same ↦ (
            ap (λ (w : State). w.history) i.after ∙ ap (λ (w : State). w.history) same,
            ap (λ (w : State). w.inlines) i.after ∙ ap (λ (w : State). w.inlines) same,
            ap (λ (w : State). w.producer_pay) i.after ∙ ap (λ (w : State). w.producer_pay) same,
          )
        ];
      }
