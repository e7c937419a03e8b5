-- ===== src/Resource/Added.antt =====
-- What `addactusg` does: one more dataset of an oracle, and the pay for it once enough oracles agree.
use ux_contracts.Prelude.{
  ℕ, ◌≡◌, refl, sym, ap, ◌∙◌, Bool, true, false, some, List, [], ◌∷◌, ◌++◌, arith, length, ◌≤◌, ◌+◌,
  ◌<◌, ◌^◌, leb, ◌==◌, if◌then◌else◌, ◌⊎◌, inl, inr, Bool-cases, contains, All,
}
use ux_contracts.Chain.Action.{ok}
use ux_contracts.Chain.Context.{Context}
use ux_contracts.Chain.Platform.{Platform}
use ux_contracts.Chain.Double.{Double}
use ux_contracts.Chain.Frame.{
  bind-ok, check-then, or_fail-then, lift-then, Relation, Keeps, bind-Keeps, gets-Keeps, when-Keeps,
  for_each-Keeps,
}
use ux_contracts.Resource.{
  Metric, SystemUsage, SystemUsageHistory, ResourceConfig, System, State, Texts, AccountPay,
  Dataset, is_oracle, config_of, set_config, put_usage,
}
use ux_contracts.Resource.Tally.{hash_of, modal}
use ux_contracts.Resource.Modal.{votes, modal-votes}
use ux_contracts.Resource.Inflation.{latest}
use ux_contracts.Resource.Oracles.{allocate-Allocated, total_of, with_allocated}
use ux_contracts.Resource.Declared.{keep_dataset-ok, with_datasets, submitted, submissions-usage}
use ux_contracts.Resource.Submission.{
  submissions, modal_dataset, is_payable, modal_data, reward, keep_dataset, allocate, addactusg,
  pay_account, dataset_text,
}

module _ ⦃p : Platform⦄ ⦃d : Double⦄ where
  -- Each oracle's row has allocated at most its total, a number of 64 bits.
  abbrev pub IsAllocated : State → Type 0
  IsAllocated s =
      (scope source : ℕ) (row : SystemUsage)
      → p.find s.usage scope source ≡ some row
      → (row.allocated_cpu ≤ row.total_cpu_us) × (row.total_cpu_us < 2 ^ 64)

  -- Only the accounts' pay differs.
  abbrev with_pay : State → p.Table AccountPay → State
  with_pay s table = record s { account_pay = table }

  abbrev pay_alone : Relation State
  pay_alone = record {
    R = λ s s'. s' ≡ with_pay s s'.account_pay;
    same = λ s. refl;
    join = λ s t u a b. b ∙ ap (λ w. with_pay w u.account_pay) a;
  }

  module _ ⦃t : Texts⦄ where
    open p use {find, put}
    open t use {sha256}

    pay_account-Keeps :
        (scope : ℕ) (sys : System) (h : SystemUsageHistory) (period_start : ℕ) (m : Metric)
        → Keeps pay_alone (pay_account scope sys h period_start m)
    unfolding pay_account
    pay_account-Keeps scope sys h period_start m s s' u run = ground arith

    latest-Keeps : Keeps pay_alone latest
    latest-Keeps s s' h run = ground arith

    reward-Keeps :
        (ctx : Context) (sys : System) (config : ResourceConfig) (dataset_id period_start : ℕ)
        → Keeps pay_alone (reward ctx sys config dataset_id period_start)
    unfolding reward
    reward-Keeps ctx sys config dataset_id period_start =
        bind-Keeps pay_alone _ _ (gets-Keeps pay_alone (is_payable sys ctx.self config dataset_id))
          λ payable.
            bind-Keeps pay_alone _ _
              (gets-Keeps pay_alone (modal_data sys ctx.self config dataset_id))
              λ usage_data.
                bind-Keeps pay_alone _ _
                  (when-Keeps pay_alone payable _ (
                    bind-Keeps pay_alone _ _ latest-Keeps λ h.
                      for_each-Keeps pay_alone usage_data (pay_account ctx.self sys h period_start)
                        (pay_account-Keeps ctx.self sys h period_start)))
                  λ u. gets-Keeps pay_alone (λ s. payable)

    -- Without a dataset due nothing happens, and the result says whether it is due.
    reward-is_payable :
        (ctx : Context) (sys : System) (config : ResourceConfig) (dataset_id period_start : ℕ)
        (s s' : State) (b : Bool)
        → reward ctx sys config dataset_id period_start s ≡ ok (b, s')
        → (b ≡ is_payable sys ctx.self config dataset_id s) × ((b ≡ true) ⊎ (s' ≡ s))
    unfolding reward
    reward-is_payable ctx sys config dataset_id period_start s s' b run =
        elim (Bool-cases (is_payable sys ctx.self config dataset_id s)) [
          | inr idle ↦ ground arith
          | inl due ↦ ground arith
        ]

    -- The oracle's row with one more hash.
    abbrev pub with_hash : SystemUsage → List Metric → SystemUsage
    with_hash row dataset = record row {
      submission_hash_list = row.submission_hash_list ++ sha256 (dataset_text dataset) ∷ [];
    }

    abbrev pub after_pay : ResourceConfig → ℕ → Bool → ResourceConfig
    after_pay config dataset_id paid = record config {
      account_distributions_made =
          if paid
          then config.account_distributions_made ++ dataset_id ∷ []
          else config.account_distributions_made;
    }

    abbrev added_state : Context → State → ℕ → SystemUsage → p.Table Dataset → State
    added_state ctx s source row table =
        with_datasets (put_usage source ctx.self source row (set_config (config_of s) s)) table

    record Tested (ctx : Context) (sys : System) (source dataset_id : ℕ) (dataset : List Metric)
        (start : ℕ) (s s' : State) : Type 0 where
      signed : ctx.has_auth source ≡ true
      oracle : is_oracle sys source ≡ true
      active : (config_of s).active ≡ true
      small : leb (length dataset) (config_of s).dataset_batch_size ≡ true
      on_time : ((config_of s).period_start == start) ≡ true
      transferred : (config_of s).inflation_transferred ≡ true
      row : SystemUsage
      found : find s.usage ctx.self source ≡ some row
      next : (dataset_id == length row.submission_hash_list) ≡ true
      row' : SystemUsage
      allocated : allocate dataset row ≡ ok row'
      table : p.Table Dataset
      paid : Bool
      last : State
      rest :
          reward ctx sys
            (config_of s)
            dataset_id
            start
            (added_state ctx s source (with_hash row' dataset) table)
          ≡ ok (paid, last)
      after : s' ≡ set_config (after_pay (config_of s) dataset_id paid) last

    addactusg-Tested :
        (ctx : Context) (sys : System) (source dataset_id : ℕ) (dataset : List Metric) (start : ℕ)
        (s s' : State)
        → addactusg ctx sys source dataset_id dataset start s ≡ ok (tt, s')
        → Tested ctx sys source dataset_id dataset start s s'
    unfolding addactusg
    addactusg-Tested ctx sys source dataset_id dataset start s s' run =
        let t = set_config (config_of s) s in
        let (signed, r1) =
          check-then (ctx.has_auth source) "missing required authority" _ s s' tt run in
        let (oracle, r2) =
          check-then (is_oracle sys source) "not a qualified oracle" _ s s' tt r1 in
        let (active, r3) =
          check-then (config_of s).active "resource model not active" _ t s' tt r2 in
        let (small, r4) =
          check-then (leb (length dataset) (config_of s).dataset_batch_size)
            "must supply fewer dataset values" _ t s' tt r3 in
        let (on_time, r5) =
          check-then ((config_of s).period_start == start)
            "period_start does not match current period_start" _ t s' tt r4 in
        let (transferred, r6) =
          check-then (config_of s).inflation_transferred "inflation not yet transferred" _ t s' tt
            r5 in
        let (row, found, r7) =
          or_fail-then (find s.usage ctx.self source) "usage totals not set" _ t s' tt r6 in
        let (next, r8) =
          check-then (dataset_id == length row.submission_hash_list)
            "dataset_id differs from expected value" _ t s' tt r7 in
        let (row', allocated, r9) = lift-then (allocate dataset row) _ t s' tt r8 in
        let mid = put_usage source ctx.self source (with_hash row' dataset) t in
        let (u, v, kept, r10) =
          bind-ok (keep_dataset sys source ctx.self (sha256 (dataset_text dataset)) dataset) _ mid
            s' tt r9 in
        let (table, same) = keep_dataset-ok sys source ctx.self _ dataset mid v kept in
        let (paid, last, rest, end) =
          bind-ok (reward ctx sys (config_of s) dataset_id start) _ v s' tt r10 in
        record {
          signed = signed;
          oracle = oracle;
          active = active;
          small = small;
          on_time = on_time;
          transferred = transferred;
          row = row;
          found = found;
          next = next;
          row' = row';
          allocated = allocated;
          table = table;
          paid = paid;
          last = last;
          rest = ap (reward ctx sys (config_of s) dataset_id start) (sym same) ∙ rest;
          after = ground arith;
        }

    is_payable-Agree :
        (ctx : Context) (sys : System) (config : ResourceConfig) (dataset_id : ℕ) (s : State)
        → is_payable sys ctx.self config dataset_id s ≡ true
        → (contains config.account_distributions_made dataset_id ≡ false)
          × ((hash : ℕ) × (config.oracle_consensus_threshold
                ≤ votes (hash_of dataset_id) hash (submitted ctx sys s config.submitting_oracles)))
    unfolding is_payable modal_dataset
    is_payable-Agree ctx sys config dataset_id s e =
        let rows = submissions sys ctx.self s config.submitting_oracles in
        let enough = modal-votes (hash_of dataset_id) rows in
        (ground arith, ((modal (hash_of dataset_id) rows).0, ground arith))

    -- What the submission of a dataset does.
    pub record Added (ctx : Context) (sys : System) (source dataset_id : ℕ) (dataset : List Metric)
        (start : ℕ) (s s' : State) : Type 0 where
      pub signed : ctx.has_auth source ≡ true
      pub oracle : is_oracle sys source ≡ true
      pub active : (config_of s).active ≡ true
      pub small : length dataset ≤ (config_of s).dataset_batch_size
      pub on_time : (config_of s).period_start ≡ start
      pub transferred : (config_of s).inflation_transferred ≡ true
      pub row : SystemUsage
      pub found : find s.usage ctx.self source ≡ some row
      pub next : dataset_id ≡ length row.submission_hash_list
      pub positive : All (λ (m : Metric). 0 < m.u) dataset
      pub within : row.allocated_cpu + total_of dataset ≤ row.total_cpu_us
      pub usage :
          s'.usage
          ≡ put s.usage source ctx.self source
              (with_hash (with_allocated row (total_of dataset)) dataset)
      pub history : s'.history ≡ s.history
      pub sources : s'.sources ≡ s.sources
      pub inlines : s'.inlines ≡ s.inlines
      pub paid : Bool
      pub config : s'.config ≡ some (after_pay (config_of s) dataset_id paid)
      pub agreed :
          paid ≡ true
          → (contains (config_of s).account_distributions_made dataset_id ≡ false)
            × ((hash : ℕ) × ((config_of s).oracle_consensus_threshold
                  ≤ votes
                      (hash_of dataset_id)
                      hash
                      (submitted ctx sys s' (config_of s).submitting_oracles)))
      pub idle : paid ≡ false → s'.account_pay ≡ s.account_pay

    pub addactusg-Added :
        (ctx : Context) (sys : System) (source dataset_id : ℕ) (dataset : List Metric) (start : ℕ)
        (s s' : State)
        → IsAllocated s
        → addactusg ctx sys source dataset_id dataset start s ≡ ok (tt, s')
        → Added ctx sys source dataset_id dataset start s s'
    addactusg-Added ctx sys source dataset_id dataset start s s' sound run =
        let i = addactusg-Tested ctx sys source dataset_id dataset start s s' run in
        let bounds = sound ctx.self source i.row i.found in
        let a = (allocate-Allocated dataset i.row i.row' bounds.0 bounds.1).0 i.allocated in
        let mid = added_state ctx s source (with_hash i.row' dataset) i.table in
        let kept = reward-Keeps ctx sys (config_of s) dataset_id start mid i.last i.paid i.rest in
        let due =
          reward-is_payable ctx sys (config_of s) dataset_id start mid i.last i.paid i.rest in
        let usage_after : s'.usage ≡ mid.usage =
          ap (λ (w : State). w.usage) i.after ∙ ap (λ (w : State). w.usage) kept in
        record {
          signed = i.signed;
          oracle = i.oracle;
          active = i.active;
          small = let e = i.small in ground arith;
          on_time = let e = i.on_time in ground arith;
          transferred = i.transferred;
          row = i.row;
          found = i.found;
          next = let e = i.next in ground arith;
          positive = a.positive;
          within = a.within;
          usage =
              usage_after
              ∙ ap (λ w. put s.usage source ctx.self source (with_hash w dataset)) a.after;
          history = ap (λ (w : State). w.history) i.after ∙ ap (λ (w : State). w.history) kept;
          sources = ap (λ (w : State). w.sources) i.after ∙ ap (λ (w : State). w.sources) kept;
          inlines = ap (λ (w : State). w.inlines) i.after ∙ ap (λ (w : State). w.inlines) kept;
          paid = i.paid;
          config = ap (λ (w : State). w.config) i.after;
          agreed = λ e.
              let (fresh, (hash, enough)) =
                is_payable-Agree ctx sys (config_of s) dataset_id mid (sym due.0 ∙ e) in
              (
                fresh,
                (
                  hash,
                  rw
                      (submissions-usage sys ctx.self mid s' (config_of s).submitting_oracles
                        usage_after)
                      enough,
                ),
              );
          idle = λ e. elim due.1 [
            | inl pays ↦ absurd (ground arith)
            | inr same ↦
                ap (λ (w : State). w.account_pay) i.after ∙ ap (λ (w : State). w.account_pay) same
          ];
        }
