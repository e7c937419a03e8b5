-- ===== src/Resource/Tally.antt =====
-- contracts/eosio.system/src/resource.cpp: the count of the submitted hashes, a `std::map` from hashes
-- to `uint8_t`, and the loop that finds the modal hash.
use ux_contracts.Prelude.{
  ℕ, ◌+◌, ◌%◌, ◌^◌, Option, none, some, List, [], ◌∷◌, ltb, ◌==◌, if◌then◌else◌, get_elem?,
}
use ux_contracts.Resource.{SystemUsage}

-- The entries in the order of their keys.
abbrev pub Counts : Type 0
Counts = List (ℕ × ℕ)

-- `hash_count[ h ]++`
abbrev pub bump : ℕ → Counts → Counts
bump h [] = (h, 1) ∷ []
bump h ((k, n) ∷ c) =
    let rest = bump h c in
    if h == k
    then (k, (n + 1) % 2 ^ 8) ∷ c
    else if ltb h k
    then (h, 1) ∷ (k, n) ∷ c
    else (k, n) ∷ rest

abbrev pub count_one : Option ℕ → Counts → Counts
count_one none c = c
count_one (some h) c = bump h c

-- The loop over the submissions, of which `pick` reads a hash where there is one.
abbrev pub count_from : (SystemUsage → Option ℕ) → Counts → List SystemUsage → Counts
count_from pick c [] = c
count_from pick c (u ∷ us) = count_from pick (count_one (pick u) c) us

-- The loop over the counts, from the best hash so far and its count.
abbrev pub modal_from : ℕ → ℕ → Counts → ℕ × ℕ
modal_from hash count [] = (hash, count)
modal_from hash count ((k, n) ∷ c) =
    modal_from (if ltb count n then k else hash) (if ltb count n then n else count) c

-- The modal hash and its count: a default hash, of zeros, where there is none.
unfoldable pub modal : (SystemUsage → Option ℕ) → List SystemUsage → ℕ × ℕ
modal pick us = modal_from 0 0 (count_from pick [] us)

-- `submission_hash_list[ i ]`, where there is one
abbrev pub hash_of : ℕ → SystemUsage → Option ℕ
hash_of i u = get_elem? u.submission_hash_list i
