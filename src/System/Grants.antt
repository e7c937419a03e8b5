-- ===== src/System/Grants.antt =====
-- contracts/eosio.system/src/delegate_bandwidth.cpp and eosio.system.cpp: the memory that an account has
-- bought is memory that it may use, unless its limit is managed.
use ux_contracts.Prelude.{
  ℕ, ◌≡◌, ◌⊎◌, refl, sym, ap, subst, ◌∙◌, Bool, true, false, ◌&&◌, ◌||◌, Option, none, some, ◌==◌,
  if◌then◌else◌, arith, ℤ, pos, negsuc, ltb_ℤ, leb_ℤ, Bool-cases, inl, inr,
}
use ux_contracts.Chain.Platform.{Platform}
use ux_contracts.Chain.Double.{Double}
use ux_contracts.Chain.Frame.{Relation}
use ux_contracts.System.Tables.{
  UserResources, Limits, VoterInfo, has_field, ram_managed, net_managed, cpu_managed,
  is_empty_resources,
}
use ux_contracts.System.State.{State}
use ux_contracts.System.Ram.{is_managed, update_ram_limit, put_resources}
use ux_contracts.System.Bandwidth.{update_limits, store_totals, max_ℤ}
use ux_contracts.System.Limits.{own}
use ux_contracts.Chain.Sums.{find-store}

-- A limit lets an account use so much memory, where a limit below zero is no limit.
abbrev pub covers : (limit bytes : ℤ) → Bool
covers limit bytes = ltb_ℤ limit (pos 0) || leb_ℤ bytes limit

covers_zero : (limit : ℤ) → covers limit (pos 0) ≡ true
covers_zero (pos k) = ground arith
covers_zero (negsuc k) = ground arith

pub covers_self : (x : ℤ) → covers x x ≡ true
covers_self x = ground arith

covers_max : (limit x : ℤ) → covers (max_ℤ x limit) x ≡ true
covers_max limit x = ground arith

both_same : {A : Type 0} (b : Bool) (x y : A) → (if b && b then x else y) ≡ (if b then x else y)
both_same true x y = refl
both_same false x y = refl

module _ ⦃p : Platform⦄ ⦃d : Double⦄ where
  open p use {find, find-put}

  -- The row of an account names it, and the account may use the memory in it, unless its memory is
  -- managed.
  abbrev pub IsGranted : (self : ℕ) → State → Type 0
  IsGranted self s =
      (a : ℕ) (row : UserResources)
      → find s.userres a a ≡ some row
      → (row.owner ≡ a)
        × (is_managed ram_managed (find s.voters self a) ≡ false
            → covers (s.limits a).ram row.ram_bytes ≡ true)

  abbrev pub flags_of : Option VoterInfo → ℕ
  flags_of none = 0
  flags_of (some v) = v.flags1

  managed_of :
      (o : Option VoterInfo) → is_managed ram_managed o ≡ has_field (flags_of o) ram_managed
  managed_of none = refl
  managed_of (some v) = refl

  -- What an operation leaves as it is, as far as memory is granted.
  pub record Same (self : ℕ) (s t : State) : Type 0 where
    pub userres : t.userres ≡ s.userres
    pub limits : t.limits ≡ s.limits
    pub flags : (a : ℕ) → flags_of (find t.voters self a) ≡ flags_of (find s.voters self a)

  abbrev pub same_grants : ℕ → Relation State
  same_grants self = record {
    R = Same self;
    same = λ s. record { userres = refl; limits = refl; flags = λ a. refl };
    join = λ s t u h k. record {
      userres = k.userres ∙ h.userres;
      limits = k.limits ∙ h.limits;
      flags = λ a. k.flags a ∙ h.flags a;
    };
  }

  pub Same-IsGranted :
      (self : ℕ) (s t : State) → Same self s t → IsGranted self s → IsGranted self t
  Same-IsGranted self s t e h a row f =
      let (own, granted) = h a row (ap (λ w. find w a a) (sym e.userres) ∙ f) in
      (
        own,
        λ free.
            subst (λ (l : ℕ → Limits). covers (l a).ram row.ram_bytes ≡ true) (sym e.limits)
              (granted (
                managed_of (find s.voters self a)
                ∙ ap (λ n. has_field n ram_managed) (sym (e.flags a))
                ∙ sym (managed_of (find t.voters self a))
                ∙ free)),
      )

  erased :
      (gone : Bool) (res : UserResources)
      → ((if gone then none else some res) ≡ none) ⊎ ((if gone then none else some res) ≡ some res)
  erased true res = inl refl
  erased false res = inr refl

  -- One row is written or erased, and its limit is not below it.
  pub written-IsGranted :
      (self receiver : ℕ) (res : UserResources) (o : Option UserResources) (s t : State)
      → res.owner ≡ receiver
      → (o ≡ none) ⊎ (o ≡ some res)
      → t.voters ≡ s.voters
      → ((a : ℕ) → find t.userres a a ≡ (if receiver == a then o else find s.userres a a))
      → ((a : ℕ) → (receiver == a) ≡ false → t.limits a ≡ s.limits a)
      → (is_managed ram_managed (find s.voters self receiver) ≡ false
          → covers (t.limits receiver).ram res.ram_bytes ≡ true)
      → IsGranted self s
      → IsGranted self t
  written-IsGranted self receiver res o s t own written voters rows others fits h a row f =
      elim (Bool-cases (receiver == a)) [
        | inl here ↦
            let same : receiver ≡ a = ground arith in
            let found : o ≡ some row = ground (arith, rows a, here, f) in
            let is : res ≡ row = elim written [
              | inl gone ↦ absurd (ground (arith, gone, found))
              | inr kept ↦ ground (arith, kept, found)
            ] in
            (
              ap (λ (r : UserResources). r.owner) (sym is) ∙ own ∙ same,
              λ free.
                  subst (λ (r : UserResources). covers (t.limits a).ram r.ram_bytes ≡ true) is
                    (subst (λ b. covers (t.limits b).ram res.ram_bytes ≡ true) same
                      (fits (
                        ap (λ b. is_managed ram_managed (find s.voters self b)) same
                        ∙ ap (λ w. is_managed ram_managed (find w self a)) (sym voters)
                        ∙ free))),
            )
        | inr there ↦
            let before : find s.userres a a ≡ some row = ground (arith, rows a, there, f) in
            let (kept, granted) = h a row before in
            (
              kept,
              λ free.
                  subst (λ (l : Limits). covers l.ram row.ram_bytes ≡ true) (sym (others a there))
                    (granted
                      (ap (λ w. is_managed ram_managed (find w self a)) (sym voters) ∙ free)),
            )
      ]

  -- A row is written, and the limit of the memory follows it.
  pub bought-IsGranted :
      (self payer receiver : ℕ) (res : UserResources) (s : State)
      → res.owner ≡ receiver
      → IsGranted self s
      → IsGranted self (update_ram_limit self res (put_resources payer receiver res s))
  bought-IsGranted self payer receiver res s own h =
      written-IsGranted self receiver res (some res) s
        (update_ram_limit self res (put_resources payer receiver res s)) own (inr refl)
        (ground arith) (λ a. ground (arith, find-put s.userres payer receiver receiver res a a))
        (λ a e. ground (arith, own)) (λ free. ground (arith, own)) h

  -- The limit of the memory before covers the row, if it is found, or none.
  prior :
      (self receiver : ℕ) (res : UserResources) (o : Option UserResources) (s : State)
      → find s.userres receiver receiver ≡ o
      → res.ram_bytes ≡ own (λ r. r.ram_bytes) o
      → IsGranted self s
      → is_managed ram_managed (find s.voters self receiver) ≡ false
      → covers (s.limits receiver).ram res.ram_bytes ≡ true
  prior self receiver res none s found bytes h free =
      ap (covers (s.limits receiver).ram) bytes ∙ covers_zero (s.limits receiver).ram
  prior self receiver res (some r) s found bytes h free =
      ap (covers (s.limits receiver).ram) bytes ∙ (h receiver r found).1 free

  followed :
      (self receiver : ℕ) (res : UserResources) (s : State)
      → is_managed ram_managed (find s.voters self receiver) ≡ false
      → covers (s.limits receiver).ram res.ram_bytes ≡ true
      → covers ((update_limits self receiver res s).limits receiver).ram res.ram_bytes ≡ true
  followed self receiver res s free before =
      elim (Bool-cases (
        is_managed net_managed (find s.voters self receiver)
        && is_managed cpu_managed (find s.voters self receiver))) [
          | inl both ↦ ground (arith, both)
          | inr one ↦ ground (arith, one, free, covers_max (s.limits receiver).ram res.ram_bytes)
        ]

  -- The totals are written, or erased if they are zero, and the limit of the memory does not fall
  -- below them.
  pub totalled-IsGranted :
      (self payer receiver : ℕ) (res : UserResources) (s : State)
      → res.owner ≡ receiver
      → res.ram_bytes ≡ own (λ r. r.ram_bytes) (find s.userres receiver receiver)
      → IsGranted self s
      → IsGranted self (store_totals payer receiver res (update_limits self receiver res s))
  totalled-IsGranted self payer receiver res s named bytes h =
      written-IsGranted self receiver res (if is_empty_resources res then none else some res) s
        (store_totals payer receiver res (update_limits self receiver res s)) named
        (erased (is_empty_resources res) res) (ground arith)
        (λ a.
          ap (λ w. find w a a) (ground arith)
          ∙ find-store (is_empty_resources res) s.userres payer receiver receiver res a a
          ∙ both_same (receiver == a) _ _)
        (λ a e. ground arith)
        (λ free. followed self receiver res s free (prior self receiver res _ s refl bytes h free))
        h
