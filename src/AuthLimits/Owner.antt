-- ===== src/AuthLimits/Owner.antt =====
-- The limits that an account sets are kept, and never shut its owner out.
use ux_contracts.Prelude.{
  ℕ, ◌≡◌, ◌≢◌, refl, sym, subst, ◌∙◌, Bool, true, false, not, ◌&&◌, ◌||◌, Option, none, some, List,
  [], ◌∷◌, ◌==◌, contains, arith, if◌then◌else◌, Bool-cases, Option-cases, inl, inr,
}
use ux_contracts.Chain.Action.{ok}
use ux_contracts.Chain.Context.{Context}
use ux_contracts.Chain.Platform.{Platform}
use ux_contracts.Chain.Frame.{check-then}
use ux_contracts.AuthLimits.{
  LimitAuthChange, State, owner, is_empty, write_limits, limitauthchg, check_auth_change,
  authorizer,
}

-- The row lets the owner permission through.
abbrev pub AdmitsOwner : LimitAuthChange → Type 0
AdmitsOwner row =
    ((is_empty row.allow_perms || contains row.allow_perms owner) ≡ true)
    × (contains row.disallow_perms owner ≡ false)

module _ ⦃p : Platform⦄ where
  open p use {find, put, drop, find-put, find-drop}

  abbrev pub IsOpen : State → Type 0
  IsOpen s =
      (self account : ℕ) (row : LimitAuthChange)
      → find s.limits self account ≡ some row
      → AdmitsOwner row

  abbrev pub row_of : ℕ → List ℕ → List ℕ → LimitAuthChange
  row_of account allow disallow = record {
    account = account;
    allow_perms = allow;
    disallow_perms = disallow;
  }

  write_limits_lem :
      (ctx : Context) (account : ℕ) (allow disallow : List ℕ) (b : Bool) (s s' : State)
      → write_limits ctx account allow disallow b s ≡ ok (tt, s')
      → (self other : ℕ)
      → find s'.limits self other ≡ (
          if (ctx.self == self) && (account == other)
          then if b then some (row_of account allow disallow) else none
          else find s.limits self other)
  write_limits_lem ctx account allow disallow true s s' run self other =
      let e : s'.limits ≡ put s.limits account ctx.self account (row_of account allow disallow) =
        ground arith in
      rw e (find-put s.limits account ctx.self account (row_of account allow disallow) self other)
  write_limits_lem ctx account allow disallow false s s' run self other =
      elim (Option-cases (find s.limits ctx.self account)) [
        | inl missing ↦
            let e : s'.limits ≡ s.limits = ground arith in
            rw e (elim (Bool-cases ((ctx.self == self) && (account == other))) [
              | inl same ↦ let m : find s.limits self other ≡ none = ground arith in rw same m
              | inr apart ↦ rw apart refl
            ])
        | inr (row, there) ↦
            let e : s'.limits ≡ drop s.limits ctx.self account = ground arith in
            rw e (find-drop s.limits ctx.self account self other)
      ]

  not_among :
      (xs : List ℕ) → (is_empty xs || not (contains xs owner)) ≡ true → contains xs owner ≡ false
  not_among [] h = refl
  not_among (x ∷ xs) h = elim (Bool-cases (contains (x ∷ xs) owner)) [
    | inl there ↦ absurd (ground arith)
    | inr missing ↦ missing
  ]

  -- What a change of the limits does.
  pub record Limited (ctx : Context) (account : ℕ) (allow disallow : List ℕ) (s s' : State)
      : Type 0 where
    pub signed : ctx.has_auth account ≡ true
    pub one : (is_empty allow || is_empty disallow) ≡ true
    pub admits : AdmitsOwner (row_of account allow disallow)
    pub rows :
        (self other : ℕ)
        → find s'.limits self other ≡ (
            if (ctx.self == self) && (account == other)
            then if not (is_empty allow) || not (is_empty disallow)
              then some (row_of account allow disallow)
              else none
            else find s.limits self other)

  -- A change of an account's limits that goes through was signed by the account, gives at most one of
  -- the two lists, and lets the owner permission through. The account's row holds the two lists, or
  -- is gone if both are empty; no other account's row changes.
  pub limitauthchg-Limited :
      (ctx : Context) (account : ℕ) (allow disallow : List ℕ) (s s' : State)
      → limitauthchg ctx account allow disallow s ≡ ok (tt, s')
      → Limited ctx account allow disallow s s'
  unfolding limitauthchg
  limitauthchg-Limited ctx account allow disallow s s' run =
      let (signed, r1) =
        check-then (ctx.has_auth account) "missing required authority" _ s s' tt run in
      let (one, r2) =
        check-then (is_empty allow || is_empty disallow)
          "either allow_perms or disallow_perms must be empty" _ s s' tt r1 in
      let (a, r3) =
        check-then (is_empty allow || contains allow owner) "allow_perms does not contain owner" _ s
          s' tt r2 in
      let (b, r4) =
        check-then (is_empty disallow || not (contains disallow owner))
          "disallow_perms contains owner" _ s s' tt r3 in
      record {
        signed = signed;
        one = one;
        admits = (a, not_among disallow b);
        rows =
            write_limits_lem ctx account allow disallow
              (not (is_empty allow) || not (is_empty disallow)) s s' r4;
      }

  -- Whatever limits are set, every row lets the owner permission through.
  limitauthchg-IsOpen :
      (ctx : Context) (account : ℕ) (allow disallow : List ℕ) (s s' : State)
      → IsOpen s
      → limitauthchg ctx account allow disallow s ≡ ok (tt, s')
      → IsOpen s'
  limitauthchg-IsOpen ctx account allow disallow s s' h run self other row found =
      let i = limitauthchg-Limited ctx account allow disallow s s' run in
      let e = sym (i.rows self other) ∙ found in
      elim (Bool-cases ((ctx.self == self) && (account == other))) [
        | inr apart ↦ h self other row (rw apart at e)
        | inl same ↦
            let f = rw same at e in
            elim (Bool-cases (not (is_empty allow) || not (is_empty disallow))) [
              | inl set ↦
                  let g : some (row_of account allow disallow) ≡ some row = rw set at f in
                  let k : row_of account allow disallow ≡ row = ground arith in
                  subst AdmitsOwner k i.admits
              | inr unset ↦ let g : none ≡ some row = rw unset at f in absurd (ground arith)
            ]
      ]

  -- The states that any changes of limits lead to, from a contract without limits.
  pub data Reach : State → Type 0 where
    fresh : {s : State} → ((self account : ℕ) → find s.limits self account ≡ none) → Reach s
    change :
        {s s' : State} (ctx : Context) (account : ℕ) (allow disallow : List ℕ)
        → Reach s
        → limitauthchg ctx account allow disallow s ≡ ok (tt, s')
        → Reach s'

  Reach-IsOpen : {s : State} → Reach s → IsOpen s
  Reach-IsOpen (fresh none_yet) self account row found = absurd (cc (found, none_yet self account))
  Reach-IsOpen (change ctx account allow disallow r e) self other row found =
      limitauthchg-IsOpen ctx account allow disallow _ _ (Reach-IsOpen r) e self other row found

  -- In every state that changes of limits lead to, an account's owner permission that has signed may
  -- authorise a change of the account's authorities: no limits shut it out.
  pub owner_admitted :
      (ctx : Context) (account : ℕ) (s : State)
      → Reach s
      → ctx.has_auth_level account owner ≡ true
      → check_auth_change ctx account (some owner) s ≡ ok (tt, s)
  unfolding check_auth_change
  owner_admitted ctx account s r signed = elim (Option-cases (find s.limits ctx.self account)) [
    | inl free ↦ ground arith
    | inr (row, found) ↦
        let a = Reach-IsOpen r ctx.self account row found in
        let listed = a.0 in
        let missing = a.1 in
        elim (Bool-cases (is_empty row.allow_perms)) [
          | inl none_listed ↦ ground arith
          | inr some_listed ↦ ground arith
        ]
  ]

  -- What the limits of an account ask of the permission that authorises a change.
  abbrev pub Respects : LimitAuthChange → ℕ → Type 0
  Respects row by =
      (by ≢ 0)
      × (is_empty row.allow_perms ≡ false → contains row.allow_perms by ≡ true)
      × (is_empty row.allow_perms ≡ true → contains row.disallow_perms by ≡ false)

  -- Once an account has set limits, a change of its authorities that passes the check, in the state that
  -- they leave, is authorised by a named permission that has signed and that the limits allow.
  pub limits_hold :
      (ctx ctx' : Context) (account : ℕ) (allow disallow : List ℕ) (authorized_by : Option ℕ)
      (s s' t : State)
      → ctx'.self ≡ ctx.self
      → (not (is_empty allow) || not (is_empty disallow)) ≡ true
      → limitauthchg ctx account allow disallow s ≡ ok (tt, s')
      → check_auth_change ctx' account authorized_by s' ≡ ok (tt, t)
      → (ctx'.has_auth_level account (authorizer authorized_by) ≡ true)
        × Respects (row_of account allow disallow) (authorizer authorized_by)
  unfolding check_auth_change
  limits_hold ctx ctx' account allow disallow authorized_by s s' t here given run checked =
      let rows =
        (limitauthchg-Limited ctx account allow disallow s s' run).rows ctx'.self account in
      let by = authorizer authorized_by in
      let found : find s'.limits ctx'.self account ≡ some (row_of account allow disallow) =
        ground arith in
      let named : (by == 0) ≡ false = elim (Bool-cases (by == 0)) [
        | inl unnamed ↦ absurd (ground arith)
        | inr e ↦ e
      ] in
      (ground arith, (λ e. absurd (ground arith), λ e. ground arith, λ e. ground arith))
