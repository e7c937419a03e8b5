-- ===== src/Token/Supply.antt =====
-- The supply of a token against the balances of its holders, as functions from accounts.
use ux_contracts.Prelude.{
  ℕ, ◌≡◌, refl, true, false, List, [], ◌∷◌, ◌==◌, if◌then◌else◌, arith, ℤ, pos, ◌+ℤ◌, ◌-ℤ◌, ◌≤ℤ◌,
  int_laws, contains, IsDistinct, ◌≢◌, ap, subst, sym, fun_ext, pos_part, neg_part, ==_iff,
  Bool-cases, inl, inr,
}

-- The sum of the balances of some accounts.
abbrev pub total : (ℕ → ℤ) → List ℕ → ℤ
total f [] = pos 0
total f (o ∷ os) = f o +ℤ total f os

total-same :
    (f g : ℕ → ℤ) (owner : ℕ) (os : List ℕ)
    → ((o : ℕ) → (owner == o) ≡ false → g o ≡ f o)
    → contains os owner ≡ false
    → total g os ≡ total f os
total-same f g owner [] h out = refl
total-same f g owner (o ∷ os) h out = ground (arith, h o, total-same f g owner os h)

total-update :
    (f g : ℕ → ℤ) (owner : ℕ) (os : List ℕ)
    → ((o : ℕ) → (owner == o) ≡ false → g o ≡ f o)
    → IsDistinct os
    → contains os owner ≡ true
    → total g os +ℤ f owner ≡ total f os +ℤ g owner
total-update f g owner [] h d mem = ground arith
total-update f g owner (o ∷ os) h d mem = elim (Bool-cases (o == owner)) [
  | inl here ↦
      let e : o ≡ owner = (==_iff o owner).0 here in
      let out : contains os owner ≡ false = rw e at d.0 in
      rw (e, total-same f g owner os h out) (omega int_laws)
  | inr there ↦
      let e : g o ≡ f o = h o (ground arith) in
      let ih = total-update f g owner os h d.1 (ground arith) in
      rw e (omega (int_laws, ap pos_part ih, ap neg_part ih))
]

-- A list of distinct accounts has all that is not zero, and it adds up to the supply.
pub record IsBacked (f : ℕ → ℤ) (supply : ℤ) : Type 0 where
  pub holders : List ℕ
  pub distinct : IsDistinct holders
  pub outside : (o : ℕ) → contains holders o ≡ false → f o ≡ pos 0
  pub adds_up : total f holders ≡ supply

contains_ne :
    (os : List ℕ) (a b : ℕ) → contains os a ≡ true → contains os b ≡ false → (a == b) ≡ false
contains_ne [] a b h k = cc
contains_ne (o ∷ os) a b h k = ground (arith, contains_ne os a b)

balance_sums :
    (after old supply new : ℤ) → after +ℤ old ≡ supply +ℤ new → after ≡ supply -ℤ old +ℤ new
balance_sums after old supply new e = omega (int_laws, ap pos_part e, ap neg_part e)

-- Changing one balance changes the supply that the balances back by the same difference.
pub IsBacked-update :
    (f g : ℕ → ℤ) (owner : ℕ) (supply amount : ℤ)
    → ((o : ℕ) → g o ≡ (if owner == o then amount else f o))
    → IsBacked f supply
    → IsBacked g (supply -ℤ f owner +ℤ amount)
IsBacked-update f g owner supply amount h b = elim (Bool-cases (contains b.holders owner)) [
  | inl held ↦ record {
    holders = b.holders;
    distinct = b.distinct;
    outside =
        λ o out. let ne = contains_ne b.holders owner o held out in rw (h o, ne) (b.outside o out);
    adds_up =
        let sums = total-update f g owner b.holders (λ o ne. rw (h o, ne)) b.distinct held in
        let at = h owner in
        let same : (owner == owner) ≡ true = (==_iff owner owner).1 refl in
        let new : g owner ≡ amount = rw (at, same) in
        balance_sums (total g b.holders) (f owner) supply amount
          (subst (λ t. total g b.holders +ℤ f owner ≡ t +ℤ amount) b.adds_up (rw new at sums));
  }
  | inr fresh ↦ record {
    holders = owner ∷ b.holders;
    distinct = (fresh, b.distinct);
    outside = λ o out. ground (arith, h o, b.outside o);
    adds_up =
        let same : (owner == owner) ≡ true = (==_iff owner owner).1 refl in
        let new : g owner ≡ amount = rw (h owner, same) in
        let old : f owner ≡ pos 0 = b.outside owner fresh in
        let rest = total-same f g owner b.holders (λ o ne. rw (h o, ne)) fresh in
        rw (new, old, rest, b.adds_up) (omega int_laws);
  }
]

total_nonneg : (f : ℕ → ℤ) (os : List ℕ) → ((o : ℕ) → pos 0 ≤ℤ f o) → pos 0 ≤ℤ total f os
total_nonneg f [] h = omega arith
total_nonneg f (o ∷ os) h = omega (int_laws, h o, total_nonneg f os h)

le-total :
    (f : ℕ → ℤ) (owner : ℕ) (os : List ℕ)
    → ((o : ℕ) → pos 0 ≤ℤ f o)
    → contains os owner ≡ true
    → f owner ≤ℤ total f os
le-total f owner [] h mem = cc
le-total f owner (o ∷ os) h mem = elim (Bool-cases (o == owner)) [
  | inl here ↦ rw (← (==_iff o owner).0 here) (omega (int_laws, total_nonneg f os h))
  | inr there ↦ omega (int_laws, h o, le-total f owner os h (ground arith))
]

-- No balance is more than the supply that the balances back.
pub balance-le-supply :
    (f : ℕ → ℤ) (supply : ℤ) (owner : ℕ)
    → ((o : ℕ) → pos 0 ≤ℤ f o)
    → IsBacked f supply
    → f owner ≤ℤ supply
balance-le-supply f supply owner h b = elim (Bool-cases (contains b.holders owner)) [
  | inl held ↦ subst (λ t. f owner ≤ℤ t) b.adds_up (le-total f owner b.holders h held)
  | inr out ↦ rw (b.outside owner out, ← b.adds_up) (total_nonneg f b.holders h)
]

-- Two functions with the same values back the same supply.
pub IsBacked-same :
    (f g : ℕ → ℤ) (supply : ℤ) → ((o : ℕ) → g o ≡ f o) → IsBacked f supply → IsBacked g supply
IsBacked-same f g supply same b = subst (λ h. IsBacked h supply) (sym (fun_ext same)) b

-- Nobody holds anything, and nothing was supplied.
pub IsBacked-zero : (f : ℕ → ℤ) → ((o : ℕ) → f o ≡ pos 0) → IsBacked f (pos 0)
IsBacked-zero f zero = record {
  holders = [];
  distinct = tt;
  outside = λ o out. zero o;
  adds_up = refl;
}

-- Two different accounts together hold no more than the supply.
pub pair-le-supply :
    (f : ℕ → ℤ) (supply : ℤ) (a b : ℕ)
    → a ≢ b
    → ((o : ℕ) → pos 0 ≤ℤ f o)
    → IsBacked f supply
    → f a +ℤ f b ≤ℤ supply
pair-le-supply f supply a b ne h backed =
    let emptied : ℕ → ℤ = λ o. if a == o then pos 0 else f o in
    let rest =
      balance-le-supply emptied (supply -ℤ f a +ℤ pos 0) b (λ o. ground (arith, h o))
        (IsBacked-update f emptied a supply (pos 0) (λ o. refl) backed) in
    let same : emptied b ≡ f b = ground (arith, ne) in omega (int_laws, rw same at rest)
