-- ===== src/Resource/Modal.antt =====
-- The loop over the counts finds the hash with the most votes, and the smallest of these.
use ux_contracts.Prelude.{
  ℕ, suc, ◌≡◌, refl, ◌+◌, ◌-◌, ◌^◌, ◌<◌, ◌≤◌, Bool, false, Option, none, some, List, [], ◌∷◌, arith,
  ltb, ◌==◌, if◌then◌else◌, length, Bool-cases, inl, inr, ◌⊎◌, ◌%◌,
}
use ux_contracts.Resource.{SystemUsage}
use ux_contracts.Resource.Tally.{Counts, bump, count_one, count_from, modal_from, modal}

abbrev picks : Option ℕ → ℕ → Bool
picks none h = false
picks (some k) h = k == h

-- How many of the submissions vote for the hash.
abbrev pub votes : (SystemUsage → Option ℕ) → ℕ → List SystemUsage → ℕ
votes pick h [] = 0
votes pick h (u ∷ us) = let rest = votes pick h us in if picks (pick u) h then suc rest else rest

abbrev lookup : Counts → ℕ → ℕ
lookup [] h = 0
lookup ((k, n) ∷ c) h = let rest = lookup c h in if h == k then n else if ltb h k then 0 else rest

abbrev IsSortedFrom : ℕ → Counts → Type 0
IsSortedFrom lo [] = Unit
IsSortedFrom lo ((k, n) ∷ c) = (lo ≤ k) × IsSortedFrom (suc k) c

lookup-bump :
    (h : ℕ) (c : Counts) (j : ℕ)
    → lookup (bump h c) j ≡ (if h == j then (lookup c j + 1) % 2 ^ 8 else lookup c j)
lookup-bump h [] j = ground arith
lookup-bump h ((k, n) ∷ c) j =
    let ih = lookup-bump h c j in
    elim (Bool-cases (h == k)) [
      | inl same ↦ rw same (ground arith)
      | inr other ↦ rw other (elim (Bool-cases (ltb h k)) [
        | inl under ↦ rw under (ground arith)
        | inr over ↦ rw over (ground (arith, ih))
      ])
    ]

bump-IsSortedFrom :
    (h lo : ℕ) (c : Counts) → IsSortedFrom lo c → lo ≤ h → IsSortedFrom lo (bump h c)
bump-IsSortedFrom h lo [] s le = (le, tt)
bump-IsSortedFrom h lo ((k, n) ∷ c) s le = ground (arith, bump-IsSortedFrom h (suc k) c s.1)

count_one-IsSortedFrom :
    (o : Option ℕ) (c : Counts) → IsSortedFrom 0 c → IsSortedFrom 0 (count_one o c)
count_one-IsSortedFrom none c s = s
count_one-IsSortedFrom (some h) c s = bump-IsSortedFrom h 0 c s (omega arith)

count_from-IsSortedFrom :
    (pick : SystemUsage → Option ℕ) (c : Counts) (us : List SystemUsage)
    → IsSortedFrom 0 c
    → IsSortedFrom 0 (count_from pick c us)
count_from-IsSortedFrom pick c [] s = s
count_from-IsSortedFrom pick c (u ∷ us) s =
    count_from-IsSortedFrom pick (count_one (pick u) c) us (count_one-IsSortedFrom (pick u) c s)

lookup-count_one :
    (o : Option ℕ) (c : Counts) (j : ℕ)
    → lookup c j < 2 ^ 8 - 1
    → lookup (count_one o c) j ≡ (if picks o j then suc (lookup c j) else lookup c j)
lookup-count_one none c j b = refl
lookup-count_one (some h) c j b = ground (arith, lookup-bump h c j)

lookup-count_from :
    (pick : SystemUsage → Option ℕ) (c : Counts) (us : List SystemUsage) (j : ℕ)
    → lookup c j + length us < 2 ^ 8
    → lookup (count_from pick c us) j ≡ lookup c j + votes pick j us
lookup-count_from pick c [] j b = omega arith
lookup-count_from pick c (u ∷ us) j b = ground (
  arith,
  lookup-count_one (pick u) c j (omega arith),
  lookup-count_from pick (count_one (pick u) c) us j,
)

lookup-count_one_le :
    (o : Option ℕ) (c : Counts) (j : ℕ)
    → lookup (count_one o c) j ≤ (if picks o j then suc (lookup c j) else lookup c j)
lookup-count_one_le none c j = omega arith
lookup-count_one_le (some h) c j = ground (arith, lookup-bump h c j)

lookup-count_from_le :
    (pick : SystemUsage → Option ℕ) (c : Counts) (us : List SystemUsage) (j : ℕ)
    → lookup (count_from pick c us) j ≤ lookup c j + votes pick j us
lookup-count_from_le pick c [] j = omega arith
lookup-count_from_le pick c (u ∷ us) j =
    ground (
      arith,
      lookup-count_one_le (pick u) c j,
      lookup-count_from_le pick (count_one (pick u) c) us j,
    )

-- What the loop over the counts gives, from a hash and a count.
record Best (lo hash count : ℕ) (c : Counts) (r : ℕ × ℕ) : Type 0 where
  more : count ≤ r.1
  most : (h : ℕ) → lookup c h ≤ r.1
  attained : ((r.0 ≡ hash) × (r.1 ≡ count)) ⊎ ((lookup c r.0 ≡ r.1) × (lo ≤ r.0) × (count < r.1))
  first : (h : ℕ) → lookup c h ≡ r.1 → count < r.1 → r.0 ≤ h

modal_from-Best :
    (lo hash count : ℕ) (c : Counts)
    → IsSortedFrom lo c
    → Best lo hash count c (modal_from hash count c)
modal_from-Best lo hash count [] s = record {
  more = omega arith;
  most = λ h. omega arith;
  attained = inl (refl, refl);
  first = λ h e l. omega arith;
}
modal_from-Best lo hash count ((k, n) ∷ c) s =
    let b =
      modal_from-Best (suc k) (if ltb count n then k else hash) (if ltb count n then n else count) c
        s.1 in
    record {
      more = ground (arith, b.more);
      most = λ h. ground (arith, b.most h, b.more);
      attained = ground (arith, b.attained, s.0);
      first = λ h e l. ground (arith, b.first h, b.attained, b.more);
    }

-- The hash has the votes that are counted for it, no hash has more, and of those with as many it is
-- the smallest.
pub record IsModal (pick : SystemUsage → Option ℕ) (us : List SystemUsage) (best : ℕ × ℕ)
    : Type 0 where
  pub counted : best.1 ≡ votes pick best.0 us
  pub most : (h : ℕ) → votes pick h us ≤ best.1
  pub first : (h : ℕ) → votes pick h us ≡ best.1 → 0 < best.1 → best.0 ≤ h

-- For fewer than 256 submissions the loops find the hash with the most votes, with the number of its
-- votes; where several have as many, the smallest of them.
pub modal-IsModal :
    (pick : SystemUsage → Option ℕ) (us : List SystemUsage)
    → length us < 2 ^ 8
    → IsModal pick us (modal pick us)
unfolding modal
modal-IsModal pick us bound =
    let c = count_from pick [] us in
    let b = modal_from-Best 0 0 0 c (count_from-IsSortedFrom pick [] us tt) in
    let same : (j : ℕ) → lookup c j ≡ votes pick j us =
      λ j. let counted = lookup-count_from pick [] us j (omega arith) in omega arith in
    record {
      counted = ground (arith, b.attained, same 0, same (modal_from 0 0 c).0, b.most 0);
      most = λ h. ground (arith, b.most h, same h);
      first = λ h e l. ground (arith, b.first h, same h);
    }

-- However many submissions there are, the modal hash has at least the votes of its count.
pub modal-votes :
    (pick : SystemUsage → Option ℕ) (us : List SystemUsage)
    → (modal pick us).1 ≤ votes pick (modal pick us).0 us
unfolding modal
modal-votes pick us =
    let c = count_from pick [] us in
    let b = modal_from-Best 0 0 0 c (count_from-IsSortedFrom pick [] us tt) in
    let fewer = lookup-count_from_le pick [] us (modal_from 0 0 c).0 in ground (arith, b.attained)
