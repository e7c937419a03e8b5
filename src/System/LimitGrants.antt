-- ===== src/System/LimitGrants.antt =====
-- contracts/eosio.system/src/eosio.system.cpp: limits that are set by hand, and the memory that is granted.
use ux_contracts.Prelude.{
  ℕ, ◌≡◌, refl, sym, ap, subst, ◌∙◌, Bool, true, false, not, Option, none, some, String, ◌==◌,
  if◌then◌else◌, arith, ℤ, pos, leb_ℤ, is_some, Bool-cases, inl, inr,
}
use ux_contracts.Chain.Action.{ok}
use ux_contracts.Chain.Context.{Context}
use ux_contracts.Chain.Platform.{Platform}
use ux_contracts.Chain.Double.{Double}
use ux_contracts.Chain.Frame.{bind-ok, check-then, or_fail-then}
use ux_contracts.System.Tables.{
  UserResources, VoterInfo, has_field, set_field, ram_managed, net_managed, cpu_managed,
}
use ux_contracts.System.State.{State, set_resource_limits, put_voter}
use ux_contracts.System.Ram.{is_managed}
use ux_contracts.System.Limits.{
  setalimits, setacctram, setacctnet, setacctcpu, manage_row, unmanage, own,
}
use ux_contracts.System.Grants.{IsGranted, covers, covers_self}

set_field_self : (flags : ℕ) → has_field (set_field flags ram_managed true) ram_managed ≡ true
set_field_self flags = ground arith

-- The bits of the other two limits are not the bit of the memory.
set_field-net :
    (flags : ℕ) (value : Bool)
    → has_field (set_field flags net_managed value) ram_managed ≡ has_field flags ram_managed
set_field-net flags value = ground arith

set_field-cpu :
    (flags : ℕ) (value : Bool)
    → has_field (set_field flags cpu_managed value) ram_managed ≡ has_field flags ram_managed
set_field-cpu flags value = ground arith

module _ ⦃p : Platform⦄ ⦃d : Double⦄ where
  open p use {find, find-put}

  -- The limit of an account is set: the row of the account, if it has one, is covered by it, or the
  -- flag that is written with it says that it is managed.
  reflagged-IsGranted :
      (self payer account : ℕ) (w : VoterInfo) (ram net cpu : ℤ) (s : State)
      → ((row : UserResources)
          → find s.userres account account ≡ some row
          → has_field w.flags1 ram_managed ≡ false
          → covers ram row.ram_bytes ≡ true)
      → IsGranted self s
      → IsGranted self (set_resource_limits account ram net cpu (put_voter payer self account w s))
  reflagged-IsGranted self payer account w ram net cpu s fits h a row f =
      let voters = find-put s.voters payer self account w self a in
      elim (Bool-cases (account == a)) [
        | inl here ↦
            let same : account ≡ a = ground arith in
            (
              (h a row f).0,
              λ free.
                  ground (arith, here, fits row (rw same f) (ground (arith, here, voters, free))),
            )
        | inr there ↦ (
          (h a row f).0,
          λ free. ground (arith, there, (h a row f).1 (ground (arith, there, voters, free))),
        )
      ]

  -- An account without a row has any limit.
  pub setalimits-IsGranted :
      (ctx : Context) (account : ℕ) (ram net cpu : ℤ) (s t : State)
      → IsGranted ctx.self s
      → setalimits ctx account ram net cpu s ≡ ok (tt, t)
      → IsGranted ctx.self t
  unfolding setalimits
  setalimits-IsGranted ctx account ram net cpu s t h run =
      let (signed, r0) =
        check-then (ctx.has_auth ctx.self) "missing required authority" _ s t tt run in
      let (unknown, r1) =
        check-then (not (is_some (find s.userres account account)))
          "only supports unlimited accounts" _ s t tt r0 in
      let after : t ≡ set_resource_limits account ram net cpu s = ground arith in
      subst (IsGranted ctx.self) (sym after) (λ a row f. elim (Bool-cases (account == a)) [
        | inl here ↦
            let same : account ≡ a = ground arith in
            absurd
              (let f' : find s.userres account account ≡ some row = rw same f in ground (arith, f'))
        | inr there ↦ ((h a row f).0, λ free. ground (arith, there, (h a row f).1 free))
      ])

  unmanage-ok :
      (ctx : Context) (account field : ℕ) (message : String) (s t : State)
      → unmanage ctx account field message s ≡ ok (tt, t)
      → (v : VoterInfo) × (find s.voters ctx.self account ≡ some v)
        × (t
            ≡ put_voter 0 ctx.self account (record v { flags1 = set_field v.flags1 field false }) s)
  unmanage-ok ctx account field message s t run =
      let o = find s.voters ctx.self account in
      let (managed, r0) = check-then (is_managed field o) message _ s t tt run in
      let (v, found, r1) = or_fail-then o "cannot pass end iterator to modify" _ s t tt r0 in
      (v, found, ground arith)

  own-covers :
      (o : Option UserResources) (row : UserResources)
      → o ≡ some row
      → covers (own (λ r. r.ram_bytes) o) row.ram_bytes ≡ true
  own-covers o row f = rw f (covers_self row.ram_bytes)

  pub setacctram-IsGranted :
      (ctx : Context) (account : ℕ) (ram_bytes : Option ℤ) (s t : State)
      → IsGranted ctx.self s
      → setacctram ctx account ram_bytes s ≡ ok (tt, t)
      → IsGranted ctx.self t
  unfolding setacctram
  setacctram-IsGranted ctx account none s t h run =
      let (signed, r0) =
        check-then (ctx.has_auth ctx.self) "missing required authority" _ s t tt run in
      let l = s.limits account in
      let (u1, s1, e1, r1) =
        bind-ok (unmanage ctx account ram_managed "RAM of account is already unmanaged") _ s t tt
          r0 in
      let (v, found, same) =
        unmanage-ok ctx account ram_managed "RAM of account is already unmanaged" s s1 e1 in
      let w : VoterInfo = record v { flags1 = set_field v.flags1 ram_managed false } in
      let o = find s.userres account account in
      let limited : State → State = λ x.
        set_resource_limits account (own (λ r. r.ram_bytes) (find x.userres account account)) l.net
          l.cpu x in
      let after : t ≡ limited s1 = ground arith in
      subst (IsGranted ctx.self) (sym (after ∙ ap limited same)) (
        reflagged-IsGranted ctx.self 0 account w (own (λ r. r.ram_bytes) o) l.net l.cpu s
          (λ row f free. own-covers o row f) h)
  setacctram-IsGranted ctx account (some ram_bytes) s t h run =
      let (signed, r0) =
        check-then (ctx.has_auth ctx.self) "missing required authority" _ s t tt run in
      let l = s.limits account in
      let (nonneg, r1) =
        check-then (leb_ℤ (pos 0) ram_bytes) "not allowed to set RAM limit to unlimited" _ s t tt
          r0 in
      let o = find s.voters ctx.self account in
      let v = manage_row account o in
      let w : VoterInfo = record v { flags1 = set_field v.flags1 ram_managed true } in
      let payer = if is_some o then 0 else account in
      let after : t
          ≡ set_resource_limits account ram_bytes l.net l.cpu
              (put_voter payer ctx.self account w s) =
        ground arith in
      subst (IsGranted ctx.self) (sym after) (
        reflagged-IsGranted ctx.self payer account w ram_bytes l.net l.cpu s
          (λ row f free. absurd (ground (arith, set_field_self v.flags1, free))) h)

  -- Another limit is set: that of the memory is left, and so is its flag.
  other-IsGranted :
      (self payer account field : ℕ) (value : Bool) (v : VoterInfo) (net cpu : ℤ) (s : State)
      → has_field (set_field v.flags1 field value) ram_managed ≡ has_field v.flags1 ram_managed
      → has_field v.flags1 ram_managed ≡ is_managed ram_managed (find s.voters self account)
      → IsGranted self s
      → IsGranted self (
          set_resource_limits account
            (s.limits account).ram
            net
            cpu
            (put_voter payer self account (record v { flags1 = set_field v.flags1 field value }) s))
  other-IsGranted self payer account field value v net cpu s bit is h =
      reflagged-IsGranted self payer account (record v { flags1 = set_field v.flags1 field value })
        (s.limits account).ram net cpu s
        (λ row f free. (h account row f).1 (sym is ∙ sym bit ∙ free)) h

  found-flag :
      (o : Option VoterInfo) (v : VoterInfo)
      → o ≡ some v
      → has_field v.flags1 ram_managed ≡ is_managed ram_managed o
  found-flag o v f = rw f refl

  manage_row-flag :
      (account : ℕ) (o : Option VoterInfo)
      → has_field (manage_row account o).flags1 ram_managed ≡ is_managed ram_managed o
  manage_row-flag account none = refl
  manage_row-flag account (some v) = refl

  pub setacctnet-IsGranted :
      (ctx : Context) (account : ℕ) (net_weight : Option ℤ) (s t : State)
      → IsGranted ctx.self s
      → setacctnet ctx account net_weight s ≡ ok (tt, t)
      → IsGranted ctx.self t
  unfolding setacctnet
  setacctnet-IsGranted ctx account none s t h run =
      let (signed, r0) =
        check-then (ctx.has_auth ctx.self) "missing required authority" _ s t tt run in
      let l = s.limits account in
      let message : String = "Network bandwidth of account is already unmanaged" in
      let (u1, s1, e1, r1) = bind-ok (unmanage ctx account net_managed message) _ s t tt r0 in
      let (v, found, same) = unmanage-ok ctx account net_managed message s s1 e1 in
      let limited : State → State = λ x.
        set_resource_limits account l.ram
          (own (λ r. r.net_weight.amount) (find x.userres account account)) l.cpu x in
      let after : t ≡ limited s1 = ground arith in
      subst (IsGranted ctx.self) (sym (after ∙ ap limited same)) (
        other-IsGranted ctx.self 0 account net_managed false v
          (own (λ r. r.net_weight.amount) (find s.userres account account)) l.cpu s
          (set_field-net v.flags1 false) (found-flag _ v found) h)
  setacctnet-IsGranted ctx account (some net_weight) s t h run =
      let o = find s.voters ctx.self account in
      let l = s.limits account in
      let v = manage_row account o in
      let payer = if is_some o then 0 else account in
      let after : t
          ≡ set_resource_limits account l.ram net_weight l.cpu (
              put_voter payer ctx.self account
                (record v { flags1 = set_field v.flags1 net_managed true }) s) =
        ground arith in
      subst (IsGranted ctx.self) (sym after) (
        other-IsGranted ctx.self payer account net_managed true v net_weight l.cpu s
          (set_field-net v.flags1 true) (manage_row-flag account o) h)

  pub setacctcpu-IsGranted :
      (ctx : Context) (account : ℕ) (cpu_weight : Option ℤ) (s t : State)
      → IsGranted ctx.self s
      → setacctcpu ctx account cpu_weight s ≡ ok (tt, t)
      → IsGranted ctx.self t
  unfolding setacctcpu
  setacctcpu-IsGranted ctx account none s t h run =
      let (signed, r0) =
        check-then (ctx.has_auth ctx.self) "missing required authority" _ s t tt run in
      let l = s.limits account in
      let message : String = "CPU bandwidth of account is already unmanaged" in
      let (u1, s1, e1, r1) = bind-ok (unmanage ctx account cpu_managed message) _ s t tt r0 in
      let (v, found, same) = unmanage-ok ctx account cpu_managed message s s1 e1 in
      let limited : State → State = λ x.
        set_resource_limits account l.ram l.net
          (own (λ r. r.cpu_weight.amount) (find x.userres account account)) x in
      let after : t ≡ limited s1 = ground arith in
      subst (IsGranted ctx.self) (sym (after ∙ ap limited same)) (
        other-IsGranted ctx.self 0 account cpu_managed false v l.net
          (own (λ r. r.cpu_weight.amount) (find s.userres account account)) s
          (set_field-cpu v.flags1 false) (found-flag _ v found) h)
  setacctcpu-IsGranted ctx account (some cpu_weight) s t h run =
      let o = find s.voters ctx.self account in
      let l = s.limits account in
      let v = manage_row account o in
      let payer = if is_some o then 0 else account in
      let after : t
          ≡ set_resource_limits account l.ram l.net cpu_weight (
              put_voter payer ctx.self account
                (record v { flags1 = set_field v.flags1 cpu_managed true }) s) =
        ground arith in
      subst (IsGranted ctx.self) (sym after) (
        other-IsGranted ctx.self payer account cpu_managed true v l.net cpu_weight s
          (set_field-cpu v.flags1 true) (manage_row-flag account o) h)
