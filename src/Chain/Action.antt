-- ===== src/Chain/Action.antt =====
-- What every action of a contract is: a computation on the contract's state that either goes
-- through or fails with the text of a `check`, in which case the chain drops all that it wrote.
use ux_contracts.Prelude.{
  ◌≡◌, refl, ◌⊎◌, inl, inr, Bool, true, false, Option, none, some, String, List, [], ◌∷◌,
}

pub data Result {ℓ} (A : Type ℓ) : Type ℓ where
  ok : A → Result A
  err : String → Result A

abbrev pub Action : Type 0 → Type 0 → Type 0
Action S A = S → Result (A × S)

module _ {S : Type 0} where
  abbrev pub pure : {A : Type 0} → A → Action S A
  pure a s = ok (a, s)

  abbrev pub fail : {A : Type 0} → String → Action S A
  fail e s = err e

  infixl 5 ◌>>=◌ ◌>>◌
  abbrev pub ◌>>=◌ : {A B : Type 0} → Action S A → (A → Action S B) → Action S B
  ◌>>=◌ m f s = elim (m s) [ ok (a, s') ↦ f a s' | err e ↦ err e ]

  abbrev pub ◌>>◌ : {B : Type 0} → Action S (Unit {0}) → Action S B → Action S B
  m >> k = m >>= λ _. k

  -- `check( condition, message )`
  abbrev pub check : Bool → String → Action S (Unit {0})
  check true e s = ok (tt, s)
  check false e s = err e

  -- `table.get( key, message )`
  abbrev pub or_fail : {A : Type 0} → Option A → String → Action S A
  or_fail none e s = err e
  or_fail (some a) e s = ok (a, s)

  abbrev pub gets : {A : Type 0} → (S → A) → Action S A
  gets f s = ok (f s, s)

  abbrev pub modify : (S → S) → Action S (Unit {0})
  modify f s = ok (tt, f s)

  -- `if( condition ) { m }`
  abbrev pub when : Bool → Action S (Unit {0}) → Action S (Unit {0})
  when true m s = m s
  when false m s = ok (tt, s)

  -- The result of a library call that may fail.
  abbrev pub lift : {A : Type 0} → Result A → Action S A
  lift (ok a) s = ok (a, s)
  lift (err e) s = err e

-- `for( const auto& x : xs ) { f( x ) }`
abbrev pub for_each : {S A : Type 0} → List A → (A → Action S (Unit {0})) → Action S (Unit {0})
for_each [] f s = ok (tt, s)
for_each (x ∷ xs) f s = let rest = for_each xs f in (f x >> rest) s

-- To split on how a call of another action ended.
pub Result-cases :
    {S : Type 0} (r : Result (Unit {0} × S))
    → ((e : String) × (r ≡ err e)) ⊎ ((s : S) × (r ≡ ok (tt, s)))
Result-cases (ok (tt, s)) = inr (s, refl)
Result-cases (err e) = inl (e, refl)
