-- ===== src/Resource/Soundness.antt =====
-- What every action of the resource model keeps of the oracles and of what they allocate.
use ux_contracts.Prelude.{
  ℕ, ◌≡◌, refl, sym, ap, ◌∙◌, ◌≤◌, ◌<◌, ◌^◌, Bool, true, false, ◌&&◌, ◌||◌, some, is_some, List, [],
  ◌∷◌, ◌++◌, arith, ◌==◌, contains, IsDistinct, Bool-cases, inl, inr, ◌⊎◌,
}
use ux_contracts.Chain.Action.{ok}
use ux_contracts.Chain.Context.{Context}
use ux_contracts.Chain.Platform.{Platform}
use ux_contracts.Chain.Double.{Double}
use ux_contracts.Chain.Frame.{bind-ok, check-then}
use ux_contracts.Resource.{
  Metric, SystemUsage, ResourceConfig, System, State, Texts, SystemUsageHistory, config_of,
  set_config,
}
use ux_contracts.Resource.Submission.{settotalusg, addactusg}
use ux_contracts.Resource.Period.{
  initresource, claimdistrib, resactivate, nextperiod, erase_all, start_history,
}
use ux_contracts.Resource.Oracles.{with_allocated, total_of}
use ux_contracts.Resource.Declared.{settotalusg-Declared, declared_row}
use ux_contracts.Resource.Added.{IsAllocated, addactusg-Added, with_hash}
use ux_contracts.Resource.Advance.{find-erase_keys, nextperiod-Advanced}
use ux_contracts.Resource.Claim.{claimdistrib-Claimed}

contains-append : (xs : List ℕ) (a k : ℕ) → contains (xs ++ a ∷ []) k ≡ (contains xs k || (a == k))
contains-append [] a k = ground arith
contains-append (x ∷ xs) a k = ground (arith, contains-append xs a k)

-- No name is added twice.
append-IsDistinct :
    (xs : List ℕ) (a : ℕ) → IsDistinct xs → contains xs a ≡ false → IsDistinct (xs ++ a ∷ [])
append-IsDistinct [] a h e = (refl, tt)
append-IsDistinct (x ∷ xs) a h e =
    let added = contains-append xs a x in
    let first : contains (xs ++ a ∷ []) x ≡ false = ground (arith, h.0) in
    (first, append-IsDistinct xs a h.1 (ground arith))

module _ ⦃p : Platform⦄ ⦃d : Double⦄ ⦃t : Texts⦄ where
  open p use {find, put, find-put, keys}

  -- The oracles that are counted are distinct and have submitted, and none has allocated to accounts
  -- more than it declared.
  pub record IsSound (self : ℕ) (s : State) : Type 0 where
    pub distinct : IsDistinct (config_of s).submitting_oracles
    pub submitted :
        (o : ℕ)
        → contains (config_of s).submitting_oracles o ≡ true
        → is_some (find s.usage self o) ≡ true
    pub allocated : IsAllocated s

  IsSound-of :
      (self : ℕ) (s s' : State)
      → IsSound self s
      → s'.usage ≡ s.usage
      → (config_of s').submitting_oracles ≡ (config_of s).submitting_oracles
      → IsSound self s'
  IsSound-of self s s' h e f = record {
    distinct = rw f h.distinct;
    submitted = λ o. rw f (rw e (h.submitted o));
    allocated = λ scope source row. rw e (h.allocated scope source row);
  }

  config_is : (s : State) (c : ResourceConfig) → s.config ≡ some c → config_of s ≡ c
  config_is s c e = rw e refl

  -- One row of an oracle is written, within its bounds.
  pub put-IsAllocated :
      (payer scope source : ℕ) (row : SystemUsage) (s s' : State)
      → IsAllocated s
      → row.allocated_cpu ≤ row.total_cpu_us
      → row.total_cpu_us < 2 ^ 64
      → s'.usage ≡ put s.usage payer scope source row
      → IsAllocated s'
  put-IsAllocated payer scope source row s s' h le bound e other key r found =
      let there : find (put s.usage payer scope source row) other key ≡ some r =
        sym (ap (λ w. find w other key) e) ∙ found in
      let split = sym (find-put s.usage payer scope source row other key) ∙ there in
      elim (Bool-cases ((scope == other) && (source == key))) [
        | inl same ↦ let it : some row ≡ some r = rw same at split in (ground arith, ground arith)
        | inr apart ↦
            let old : find s.usage other key ≡ some r = rw apart at split in h other key r old
      ]

  -- And then the oracles that had submitted have still submitted, and so has this one.
  put_submitted :
      (payer scope source o : ℕ) (row : SystemUsage) (s s' : State)
      → s'.usage ≡ put s.usage payer scope source row
      → (is_some (find s.usage scope o) || (source == o)) ≡ true
      → is_some (find s'.usage scope o) ≡ true
  put_submitted payer scope source o row s s' e h =
      let written = find-put s.usage payer scope source row scope o in rw e (ground arith)

  pub settotalusg-IsSound :
      (ctx : Context) (sys : System) (source cpu net commit start : ℕ) (s s' : State)
      → IsSound ctx.self s
      → settotalusg ctx sys source cpu net commit start s ≡ ok (tt, s')
      → IsSound ctx.self s'
  settotalusg-IsSound ctx sys source cpu net commit start s s' h run =
      let i = settotalusg-Declared ctx sys source cpu net commit start s s' run in
      let old = (config_of s).submitting_oracles in
      let row = declared_row source cpu net commit in
      let oracles : (config_of s').submitting_oracles ≡ old ++ source ∷ [] =
        ap (λ (c : ResourceConfig). c.submitting_oracles) (config_is s' _ i.config) in
      let new : contains old source ≡ false = elim (Bool-cases (contains old source)) [
        | inl there ↦ absurd (ground (arith, h.submitted source there, i.first))
        | inr missing ↦ missing
      ] in
      record {
        distinct = rw oracles (append-IsDistinct old source h.distinct new);
        submitted = λ o c.
            let listed : contains (old ++ source ∷ []) o ≡ true = rw oracles at c in
            let split = contains-append old source o in
            put_submitted source ctx.self source o row s s' i.usage (ground (arith, h.submitted o));
        allocated =
            put-IsAllocated source ctx.self source row s s' h.allocated (omega arith)
              (let within = i.cpu_within in omega arith) i.usage;
      }

  pub addactusg-IsSound :
      (ctx : Context) (sys : System) (source id : ℕ) (dataset : List Metric) (start : ℕ)
      (s s' : State)
      → IsSound ctx.self s
      → addactusg ctx sys source id dataset start s ≡ ok (tt, s')
      → IsSound ctx.self s'
  addactusg-IsSound ctx sys source id dataset start s s' h run =
      let i = addactusg-Added ctx sys source id dataset start s s' h.allocated run in
      let row = with_hash (with_allocated i.row (total_of dataset)) dataset in
      let oracles : (config_of s').submitting_oracles ≡ (config_of s).submitting_oracles =
        ap (λ (c : ResourceConfig). c.submitting_oracles) (config_is s' _ i.config) in
      record {
        distinct = rw oracles h.distinct;
        submitted = λ o c.
            let listed = h.submitted o (rw oracles at c) in
            put_submitted source ctx.self source o row s s' i.usage (ground arith);
        allocated =
            put-IsAllocated source ctx.self source row s s' h.allocated i.within
              (h.allocated ctx.self source i.row i.found).1 i.usage;
      }

  pub nextperiod-IsSound :
      (ctx : Context) (sys : System) (s s' : State)
      → IsSound ctx.self s
      → nextperiod ctx sys s ≡ ok (tt, s')
      → IsSound ctx.self s'
  nextperiod-IsSound ctx sys s s' h run =
      let i = nextperiod-Advanced ctx sys s s' run in
      let oracles : (config_of s').submitting_oracles ≡ [] =
        ap (λ (c : ResourceConfig). c.submitting_oracles) (config_is s' _ i.config) in
      record {
        distinct = rw oracles tt;
        submitted =
            λ o c. let listed : contains [] o ≡ true = rw oracles at c in absurd (ground arith);
        allocated = λ other key r found.
            let left = find-erase_keys s.usage ctx.self (keys s.usage ctx.self) other key in
            let there : find (erase_all s.usage ctx.self) other key ≡ some r =
              sym (ap (λ w. find w other key) i.usage) ∙ found in
            h.allocated other key r (ground arith);
      }

  start_history_keeps :
      (start : ℕ) (config : ResourceConfig) (rows : List SystemUsageHistory) (s s' : State)
      (c : ResourceConfig)
      → start_history start config rows s ≡ ok (c, s')
      → (s'.usage ≡ s.usage)
        × ((c.submitting_oracles ≡ config.submitting_oracles) ⊎ (c.submitting_oracles ≡ []))
  start_history_keeps start config [] s s' c e = (ground arith, inr (ground arith))
  start_history_keeps start config (h ∷ rows) s s' c e = (ground arith, inl (ground arith))

  initresource_keeps :
      (ctx : Context) (size threshold start seconds : ℕ) (rate pay : d.F) (s s' : State)
      → initresource ctx size threshold start seconds rate pay s ≡ ok (tt, s')
      → (s'.usage ≡ s.usage)
        × (((config_of s').submitting_oracles ≡ (config_of s).submitting_oracles)
            ⊎ ((config_of s').submitting_oracles ≡ []))
  unfolding initresource
  initresource_keeps ctx size threshold start seconds rate pay s s' e =
      let t = set_config (config_of s) s in
      let (signed, r1) =
        check-then (ctx.has_auth ctx.self) "missing required authority" _ s s' tt e in
      let config = record (config_of s) {
        dataset_batch_size = size;
        oracle_consensus_threshold = threshold;
        period_start = start;
        period_seconds = seconds;
        initial_value_transfer_rate = rate;
        max_pay_constant = pay;
        last_period_inflation_print = 0;
        active = false;
      } in
      let (c, u, started, r2) = bind-ok (start_history start config s.history) _ t s' tt r1 in
      let (usage, oracles) = start_history_keeps start config s.history t u c started in
      let after : s' ≡ set_config c u = ground arith in
      let now : (config_of s').submitting_oracles ≡ c.submitting_oracles =
        ap (λ (w : State). (config_of w).submitting_oracles) after in
      (
        ap (λ (w : State). w.usage) after ∙ usage,
        elim oracles [ inl same ↦ inl (now ∙ same) | inr none_left ↦ inr (now ∙ none_left) ],
      )

  pub initresource-IsSound :
      (ctx : Context) (size threshold start seconds : ℕ) (rate pay : d.F) (s s' : State)
      → IsSound ctx.self s
      → initresource ctx size threshold start seconds rate pay s ≡ ok (tt, s')
      → IsSound ctx.self s'
  initresource-IsSound ctx size threshold start seconds rate pay s s' h run =
      let (usage, oracles) =
        initresource_keeps ctx size threshold start seconds rate pay s s' run in
      elim oracles [
        | inl same ↦ IsSound-of ctx.self s s' h usage same
        | inr none_left ↦ record {
          distinct = rw none_left tt;
          submitted =
              λ o c. let listed : contains [] o ≡ true = rw none_left at c in absurd (ground arith);
          allocated = λ scope source row. rw usage (h.allocated scope source row);
        }
      ]

  pub resactivate-IsSound :
      (ctx : Context) (active : Bool) (s s' : State)
      → IsSound ctx.self s
      → resactivate ctx active s ≡ ok (tt, s')
      → IsSound ctx.self s'
  unfolding resactivate
  resactivate-IsSound ctx active s s' h run = IsSound-of ctx.self s s' h (ground arith) (
      let e : s'.config ≡ some (record (config_of s) { active = active }) = ground arith in
      ap (λ (c : ResourceConfig). c.submitting_oracles) (config_is s' _ e))

  pub claimdistrib-IsSound :
      (ctx : Context) (sys : System) (account : ℕ) (s s' : State)
      → IsSound ctx.self s
      → claimdistrib ctx sys account s ≡ ok (tt, s')
      → IsSound ctx.self s'
  claimdistrib-IsSound ctx sys account s s' h run =
      let e = (claimdistrib-Claimed ctx sys account s s' run).after in
      IsSound-of ctx.self s s' h (ap (λ (w : State). w.usage) e)
        (ap (λ (w : State). (config_of w).submitting_oracles) e)
