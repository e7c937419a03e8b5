-- ===== src/Resource/Oracles.antt =====
-- Who may submit usage, and what an oracle may allocate to accounts.
use ux_contracts.Prelude.{
  ℕ, suc, zero, ◌≡◌, refl, sym, ap, ◌∙◌, ◌+◌, ◌-◌, ◌^◌, ◌<◌, ◌≤◌, true, List, [], ◌∷◌, map, arith,
  ltb, leb, contains, take, Bool-cases, inl, inr, All, ◌↔◌, add_64, sub_64,
}
use ux_contracts.Chain.Action.{ok}
use ux_contracts.Chain.Double.{Double}
use ux_contracts.Resource.{Metric, SystemUsage, Producer, System, is_oracle, is_oracle_from}
use ux_contracts.Resource.Submission.{allocate}

module _ ⦃d : Double⦄ where
  abbrev pub owners : List Producer → List ℕ
  owners ps = map (λ (q : Producer). q.owner) ps

  is_oracle_from_lem :
      (owner count n : ℕ) (ps : List Producer)
      → count + suc n ≡ 21
      → is_oracle_from owner count ps ≡ contains (take (suc n) (owners ps)) owner
  is_oracle_from_lem owner count n [] e = refl
  is_oracle_from_lem owner count zero (q ∷ ps) e = ground arith
  is_oracle_from_lem owner count (suc n) (q ∷ ps) e =
      ground (arith, is_oracle_from_lem owner (suc count) n ps)

  -- The oracles are the first 21 producers, in the order of their votes.
  pub is_oracle_lem :
      (sys : System) (owner : ℕ)
      → is_oracle sys owner ≡ contains (take 21 (owners sys.producers)) owner
  unfolding is_oracle
  is_oracle_lem sys owner = is_oracle_from_lem owner 0 20 sys.producers (omega arith)

abbrev pub total_of : List Metric → ℕ
total_of [] = 0
total_of (m ∷ ms) = m.u + total_of ms

-- The oracle's row, with `n` more allocated.
abbrev pub with_allocated : SystemUsage → ℕ → SystemUsage
with_allocated row n = record row { allocated_cpu = row.allocated_cpu + n }

-- What a dataset that is accepted allocates.
pub record Allocated (ms : List Metric) (row row' : SystemUsage) : Type 0 where
  pub after : row' ≡ with_allocated row (total_of ms)
  pub within : row.allocated_cpu + total_of ms ≤ row.total_cpu_us
  pub positive : All (λ (m : Metric). 0 < m.u) ms

abbrev set_allocated : SystemUsage → ℕ → SystemUsage
set_allocated row k = record row { allocated_cpu = k }

allocate_step :
    (m : Metric) (ms : List Metric) (row : SystemUsage)
    → 0 < m.u
    → row.allocated_cpu + m.u ≤ row.total_cpu_us
    → row.total_cpu_us < 2 ^ 64
    → allocate (m ∷ ms) row ≡ allocate ms (with_allocated row m.u)
unfolding allocate
allocate_step m ms row positive room bound =
    let least : ltb 0 m.u ≡ true = ground arith in
    let left : sub_64 row.total_cpu_us row.allocated_cpu ≡ row.total_cpu_us - row.allocated_cpu =
      omega arith in
    let fits : leb m.u (sub_64 row.total_cpu_us row.allocated_cpu) ≡ true =
      rw left (ground arith) in
    let same : add_64 row.allocated_cpu m.u ≡ row.allocated_cpu + m.u = omega arith in
    rw least (rw fits (ap (λ k. allocate ms (set_allocated row k)) same))

allocate_head :
    (m : Metric) (ms : List Metric) (row row' : SystemUsage)
    → row.allocated_cpu ≤ row.total_cpu_us
    → row.total_cpu_us < 2 ^ 64
    → allocate (m ∷ ms) row ≡ ok row'
    → (0 < m.u) × (row.allocated_cpu + m.u ≤ row.total_cpu_us)
unfolding allocate
allocate_head m ms row row' le bound run =
    let left : sub_64 row.total_cpu_us row.allocated_cpu ≡ row.total_cpu_us - row.allocated_cpu =
      omega arith in
    elim (Bool-cases (ltb 0 m.u)) [
      | inr zero_u ↦ absurd (ground arith)
      | inl least ↦ elim (Bool-cases (leb m.u (sub_64 row.total_cpu_us row.allocated_cpu))) [
        | inr over ↦ absurd (ground arith)
        | inl fits ↦ (ground arith, ground arith)
      ]
    ]

allocate_forth :
    (ms : List Metric) (row row' : SystemUsage)
    → row.allocated_cpu ≤ row.total_cpu_us
    → row.total_cpu_us < 2 ^ 64
    → allocate ms row ≡ ok row'
    → Allocated ms row row'
unfolding allocate
allocate_forth [] row row' le bound run = record {
  after = ground arith;
  within = omega arith;
  positive = tt;
}
allocate_forth (m ∷ ms) row row' le bound run =
    let (least, room) = allocate_head m ms row row' le bound run in
    let i =
      allocate_forth ms (with_allocated row m.u) row' room bound
        (sym (allocate_step m ms row least room bound) ∙ run) in
    record {
      after = i.after ∙ ap (set_allocated row) (omega arith);
      within = let w = i.within in omega arith;
      positive = (least, i.positive);
    }

allocate_back :
    (ms : List Metric) (row row' : SystemUsage)
    → row.total_cpu_us < 2 ^ 64
    → Allocated ms row row'
    → allocate ms row ≡ ok row'
unfolding allocate
allocate_back [] row row' bound a = ground (arith, a.after)
allocate_back (m ∷ ms) row row' bound a =
    let w = a.within in
    allocate_step m ms row a.positive.0 (omega arith) bound
    ∙ allocate_back ms (with_allocated row m.u) row' bound (record {
      after = a.after ∙ ap (set_allocated row) (omega arith);
      within = omega arith;
      positive = a.positive.1;
    })

-- From a row that has allocated no more than its total, the loop accepts a dataset exactly if every
-- usage in it is positive and together they fit into what is left; and it adds them up.
pub allocate-Allocated :
    (ms : List Metric) (row row' : SystemUsage)
    → row.allocated_cpu ≤ row.total_cpu_us
    → row.total_cpu_us < 2 ^ 64
    → (allocate ms row ≡ ok row') ↔ Allocated ms row row'
allocate-Allocated ms row row' le bound =
    (allocate_forth ms row row' le bound, allocate_back ms row row' bound)
