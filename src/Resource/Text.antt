-- ===== src/Resource/Text.antt =====
-- contracts/eosio.system/src/resource.cpp: the texts that are hashed, as lists of their bytes. Native
-- numbers print as `std::to_string` prints them.
use ux_contracts.Prelude.{
  ℕ, zero, suc, ◌≡◌, refl, sym, ap, ◌∙◌, ◌+◌, ◌-◌, ◌*◌, ◌/◌, ◌%◌, ◌^◌, ◌<◌, List, [], ◌∷◌, ◌++◌,
  arith, Bool-cases, inl, inr, leb, ◌&&◌, ltb, if◌then◌else◌,
}

-- The digits of `n` in front of `text`; `fuel` bounds their number.
abbrev pub digits : ℕ → ℕ → List ℕ → List ℕ
digits zero n text = text
digits (suc fuel) n text =
    let rest = digits fuel (n / 10) ((48 + n % 10) ∷ text) in
    if ltb n 10 then (48 + n % 10) ∷ text else rest

-- A `uint64_t` has at most 20 digits.
unfoldable pub to_string : ℕ → List ℕ
to_string n = digits 20 n []

-- `"0123456789abcdef"[ i ]`
abbrev hex_digit : ℕ → ℕ
hex_digit i = if ltb i 10 then 48 + i else 87 + i

-- `to_hex( d, s )` of `s` bytes that make up the number `n`, the most significant first
abbrev pub to_hex : ℕ → ℕ → List ℕ
to_hex zero n = []
to_hex (suc s) n = to_hex s (n / 256) ++ hex_digit (n % 256 / 16) ∷ hex_digit (n % 16) ∷ []

-- The text of the totals: "cpu-net".
abbrev pub totals_text : ℕ → ℕ → List ℕ
unfolding to_string
totals_text total_cpu_us total_net_words = to_string total_cpu_us ++ 45 ∷ to_string total_net_words

-- The text of the hashes of an oracle: in hexadecimal, "-" between them.
abbrev pub hashes_text : List ℕ → List ℕ
hashes_text [] = []
hashes_text (h ∷ []) = to_hex 32 h
hashes_text (h ∷ hs) = to_hex 32 h ++ 45 ∷ hashes_text hs

-- The number that decimal digits stand for, read from the left after `n`, up to a byte that is none.
abbrev pub read_from : ℕ → List ℕ → ℕ
read_from n [] = n
read_from n (b ∷ bs) =
    let rest = read_from (n * 10 + (b - 48)) bs in if leb 48 b && leb b 57 then rest else n

abbrev pub skip_digits : List ℕ → List ℕ
skip_digits [] = []
skip_digits (b ∷ bs) = let rest = skip_digits bs in if leb 48 b && leb b 57 then rest else b ∷ bs

pub digits-append :
    (fuel n : ℕ) (text more : List ℕ) → digits fuel n (text ++ more) ≡ digits fuel n text ++ more
digits-append zero n text more = refl
digits-append (suc fuel) n text more =
    ground (arith, digits-append fuel (n / 10) ((48 + n % 10) ∷ text) more)

read_digit :
    (m k : ℕ) (text : List ℕ) → k < 10 → read_from m ((48 + k) ∷ text) ≡ read_from (m * 10 + k) text
read_digit m k text b = ground (arith, (let same : 48 + k - 48 ≡ k = omega arith in same))

-- Reading the digits back gives the number, where the fuel is enough for them.
read_from-digits :
    (fuel n : ℕ) (text : List ℕ)
    → n < 10 ^ fuel
    → read_from 0 (digits fuel n text) ≡ read_from n text
read_from-digits zero n text b = let none_left : n ≡ 0 = omega arith in rw none_left refl
read_from-digits (suc fuel) n text b = elim (Bool-cases (ltb n 10)) [
  | inl last ↦ rw last (
      read_digit 0 (n % 10) text (omega arith)
      ∙ ap (λ k. read_from k text) (let same : 0 * 10 + n % 10 ≡ n = ground arith in same))
  | inr more ↦ rw more (
      read_from-digits fuel (n / 10) ((48 + n % 10) ∷ text) (omega arith)
      ∙ read_digit (n / 10) (n % 10) text (omega arith)
      ∙ ap (λ k. read_from k text) (let same : n / 10 * 10 + n % 10 ≡ n = omega arith in same))
]

skip_digits-digits :
    (fuel n : ℕ) (text : List ℕ) → skip_digits (digits fuel n text) ≡ skip_digits text
skip_digits-digits zero n text = refl
skip_digits-digits (suc fuel) n text =
    ground (arith, skip_digits-digits fuel (n / 10) ((48 + n % 10) ∷ text))

-- What the two numbers of a text "cpu-net" are.
abbrev rest_of : List ℕ → List ℕ
rest_of [] = []
rest_of (b ∷ bs) = bs

abbrev pub read_totals : List ℕ → ℕ × ℕ
read_totals bs = (read_from 0 bs, read_from 0 (rest_of (skip_digits bs)))

-- For totals of 64 bits, the text of the totals can be read back to them.
pub read_totals-totals_text :
    (total_cpu_us total_net_words : ℕ)
    → total_cpu_us < 2 ^ 64
    → total_net_words < 2 ^ 64
    → read_totals (totals_text total_cpu_us total_net_words) ≡ (total_cpu_us, total_net_words)
unfolding to_string
read_totals-totals_text cpu net b c =
    let tail = 45 ∷ to_string net in
    let joined : totals_text cpu net ≡ digits 20 cpu tail = sym (digits-append 20 cpu [] tail) in
    let left : read_from 0 (digits 20 cpu tail) ≡ cpu =
      read_from-digits 20 cpu tail (omega arith) in
    let skipped : skip_digits (digits 20 cpu tail) ≡ tail = skip_digits-digits 20 cpu tail in
    let right : read_from 0 (to_string net) ≡ net = read_from-digits 20 net [] (omega arith) in
    rw joined (rw left (rw skipped (rw right refl)))
