-- ===== src/Chain/Frame.antt =====
-- What an action leaves alone: a relation between the states before and after, which each step of the
-- action respects. And what it takes for a sequence to go through.
use ux_contracts.Prelude.{
  ◌≡◌, refl, sym, ap, subst, ◌∙◌, Bool, true, false, Option, none, some, List, [], ◌∷◌, String,
  arith, if◌then◌else◌,
}
use ux_contracts.Chain.Action.{
  Result, ok, err, Action, ◌>>=◌, check, or_fail, gets, modify, pure, when, lift, for_each,
}

module _ {S : Type 0} where
  -- A sequence that goes through has gone through a state in the middle.
  bind_split :
      {A B : Type 0} (r : Result (A × S)) (f : A → Action S B) (s' : S) (b : B)
      → (elim r [ ok (a, t) ↦ f a t | err e ↦ err e ]) ≡ ok (b, s')
      → (a : A) × (t : S) × (r ≡ ok (a, t)) × (f a t ≡ ok (b, s'))
  bind_split (ok (a, t)) f s' b h = (a, t, refl, h)
  bind_split (err e) f s' b h = absurd (ground arith)

  pub bind-ok :
      {A B : Type 0} (m : Action S A) (f : A → Action S B) (s s' : S) (b : B)
      → (m >>= f) s ≡ ok (b, s')
      → (a : A) × (t : S) × (m s ≡ ok (a, t)) × (f a t ≡ ok (b, s'))
  bind-ok m f s s' b h = bind_split (m s) f s' b h

  pub check-ok :
      (b : Bool) (e : String) (s s' : S) → check b e s ≡ ok (tt, s') → (b ≡ true) × (s' ≡ s)
  check-ok true e s s' h = (refl, ground arith)
  check-ok false e s s' h = absurd (ground arith)

  -- A sequence that starts with a test, and with a lookup that has to succeed.
  pub check-then :
      {B : Type 0} (b : Bool) (e : String) (f : Unit {0} → Action S B) (s s' : S) (r : B)
      → (check b e >>= f) s ≡ ok (r, s')
      → (b ≡ true) × (f tt s ≡ ok (r, s'))
  check-then true e f s s' r h = (refl, h)
  check-then false e f s s' r h = absurd (ground arith)

  pub or_fail-then :
      {A B : Type 0} (o : Option A) (e : String) (f : A → Action S B) (s s' : S) (r : B)
      → (or_fail o e >>= f) s ≡ ok (r, s')
      → (a : A) × (o ≡ some a) × (f a s ≡ ok (r, s'))
  or_fail-then none e f s s' r h = absurd (ground arith)
  or_fail-then (some a) e f s s' r h = (a, refl, h)

  pub lift-then :
      {A B : Type 0} (o : Result A) (f : A → Action S B) (s s' : S) (r : B)
      → (lift o >>= f) s ≡ ok (r, s')
      → (a : A) × (o ≡ ok a) × (f a s ≡ ok (r, s'))
  lift-then (ok a) f s s' r h = (a, refl, h)
  lift-then (err e) f s s' r h = absurd (ground arith)

  pub when-then :
      (b : Bool) (m : Action S (Unit {0})) (s : S) (r : Result (Unit {0} × S))
      → b ≡ true
      → when b m s ≡ r
      → m s ≡ r
  when-then true m s r e h = h
  when-then false m s r e h = absurd (ground arith)

  pub else-then :
      {A : Type 0} (b : Bool) (m n : Action S A) (s : S) (r : Result (A × S))
      → b ≡ false
      → (if b then m else n) s ≡ r
      → n s ≡ r
  else-then true m n s r e h = absurd (ground arith)
  else-then false m n s r e h = h

  -- Sequences with equal parts are equal.
  pub bind-same :
      {A B : Type 0} (m m' : Action S A) (f : A → Action S B) (s : S)
      → m s ≡ m' s
      → (m >>= f) s ≡ (m' >>= f) s
  bind-same m m' f s e = ap (λ r. elim r [ ok (a, t) ↦ f a t | err x ↦ err x ]) e

  same_split :
      {A B : Type 0} (r : Result (A × S)) (f g : A → Action S B)
      → ((a : A) (t : S) → r ≡ ok (a, t) → f a t ≡ g a t)
      → (elim r [ ok (a, t) ↦ f a t | err e ↦ err e ])
        ≡ (elim r [ ok (a, t) ↦ g a t | err e ↦ err e ])
  same_split (ok (a, t)) f g h = h a t refl
  same_split (err e) f g h = refl

  pub bind-cong :
      {A B : Type 0} (m m' : Action S A) (f g : A → Action S B) (s : S)
      → m s ≡ m' s
      → ((a : A) (t : S) → m' s ≡ ok (a, t) → f a t ≡ g a t)
      → (m >>= f) s ≡ (m' >>= g) s
  bind-cong m m' f g s e h = bind-same m m' f s e ∙ same_split (m' s) f g h

  pub check-same :
      {B : Type 0} (b : Bool) (e : String) (f g : Unit {0} → Action S B) (s : S)
      → f tt s ≡ g tt s
      → (check b e >>= f) s ≡ (check b e >>= g) s
  check-same true e f g s h = h
  check-same false e f g s h = refl

  pub when-same :
      (b : Bool) (m m' : Action S (Unit {0})) (s : S) → m s ≡ m' s → when b m s ≡ when b m' s
  when-same true m m' s h = h
  when-same false m m' s h = refl

  pub if-same :
      {A : Type 0} (b : Bool) (m m' n n' : Action S A) (s : S)
      → (b ≡ true → m s ≡ m' s)
      → (b ≡ false → n s ≡ n' s)
      → (if b then m else n) s ≡ (if b then m' else n') s
  if-same true m m' n n' s h k = h refl
  if-same false m m' n n' s h k = k refl

  pub or_fail-same :
      {A B : Type 0} (o : Option A) (e : String) (f g : A → Action S B) (s : S)
      → ((a : A) → o ≡ some a → f a s ≡ g a s)
      → (or_fail o e >>= f) s ≡ (or_fail o e >>= g) s
  or_fail-same none e f g s h = refl
  or_fail-same (some a) e f g s h = h a refl

  pub or_fail-ok :
      {A : Type 0} (o : Option A) (e : String) (s s' : S) (a : A)
      → or_fail o e s ≡ ok (a, s')
      → (o ≡ some a) × (s' ≡ s)
  or_fail-ok none e s s' a h = absurd (ground arith)
  or_fail-ok (some x) e s s' a h = (ground arith, ground arith)

  pub lift-ok :
      {A : Type 0} (r : Result A) (s s' : S) (a : A) → lift r s ≡ ok (a, s') → (r ≡ ok a) × (s' ≡ s)
  lift-ok (ok x) s s' a h = (ground arith, ground arith)
  lift-ok (err e) s s' a h = absurd (ground arith)

-- A relation between states that does not change and that goes through a state in the middle.
pub record Relation (S : Type 0) : Type 1 where
  pub R : S → S → Type 0
  pub same : (s : S) → R s s
  pub join : (s t u : S) → R s t → R t u → R s u

module _ {S : Type 0} (r : Relation S) where
  open r use {R, same, join}

  -- Wherever the action goes through, the relation holds of the states before and after.
  abbrev pub Keeps : {A : Type 0} → Action S A → Type 0
  Keeps {A} m = (s s' : S) (a : A) → m s ≡ ok (a, s') → R s s'

  stays : (s s' : S) → s' ≡ s → R s s'
  stays s s' e = subst (R s) (sym e) (same s)

  pub bind-Keeps :
      {A B : Type 0} (m : Action S A) (f : A → Action S B)
      → Keeps m
      → ((a : A) → Keeps (f a))
      → Keeps (m >>= f)
  bind-Keeps m f h k s s' b e =
      let (a, t, e0, e1) = bind-ok m f s s' b e in join s t s' (h s t a e0) (k a t s' b e1)

  pub check-Keeps : (b : Bool) (e : String) → Keeps (check b e)
  check-Keeps b e s s' a h = stays s s' (check-ok b e s s' h).1

  pub or_fail-Keeps : {A : Type 0} (o : Option A) (e : String) → Keeps (or_fail o e)
  or_fail-Keeps o e s s' a h = stays s s' (or_fail-ok o e s s' a h).1

  pub lift-Keeps : {A : Type 0} (o : Result A) → Keeps (lift o)
  lift-Keeps o s s' a h = stays s s' (lift-ok o s s' a h).1

  pub pure-Keeps : {A : Type 0} (x : A) → Keeps (pure x)
  pure-Keeps x s s' a h = stays s s' (ground arith)

  pub gets-Keeps : {A : Type 0} (f : S → A) → Keeps (gets f)
  gets-Keeps f s s' a h = stays s s' (ground arith)

  pub modify-Keeps : (f : S → S) → ((s : S) → R s (f s)) → Keeps (modify f)
  modify-Keeps f k s s' a h = let e : s' ≡ f s = ground arith in subst (R s) (sym e) (k s)

  pub when-Keeps : (b : Bool) (m : Action S (Unit {0})) → Keeps m → Keeps (when b m)
  when-Keeps true m h s s' a e = h s s' a e
  when-Keeps false m h s s' a e = stays s s' (ground arith)

  -- It is enough that the step respects the relation where it is taken.
  pub when-modify-Keeps :
      (b : Bool) (f : S → S) (s s' : S) (a : Unit {0})
      → R s (f s)
      → when b (modify f) s ≡ ok (a, s')
      → R s s'
  when-modify-Keeps true f s s' a h e =
      let after : s' ≡ f s = ground arith in subst (R s) (sym after) h
  when-modify-Keeps false f s s' a h e = stays s s' (ground arith)

  pub if-Keeps :
      {A : Type 0} (b : Bool) (m n : Action S A) → Keeps m → Keeps n → Keeps (if b then m else n)
  if-Keeps true m n h k = h
  if-Keeps false m n h k = k

  pub for_each-Keeps :
      {A : Type 0} (xs : List A) (f : A → Action S (Unit {0}))
      → ((x : A) → Keeps (f x))
      → Keeps (for_each xs f)
  for_each-Keeps [] f h s s' a e = stays s s' (ground arith)
  for_each-Keeps (x ∷ xs) f h s s' a e =
      bind-Keeps (f x) (λ u. for_each xs f) (h x) (λ u. for_each-Keeps xs f h) s s' a e
