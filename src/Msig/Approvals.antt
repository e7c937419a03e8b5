-- ===== src/Msig/Approvals.antt =====
-- What approving and withdrawing an approval do to the two lists of a proposal, in either table.
use ux_contracts.Prelude.{
  ℕ, ◌≡◌, refl, true, false, ◌&&◌, ◌+◌, Option, none, some, List, [], ◌∷◌, ◌++◌, ◌==◌, arith,
  Option-cases, inl, inr, ◌⊎◌,
}
use ux_contracts.Chain.Action.{ok}
use ux_contracts.Chain.Context.{Context}
use ux_contracts.Chain.Platform.{Platform}
use ux_contracts.Msig.{
  PermissionLevel, OldApprovalsInfo, ApprovalsInfo, erase_approval, has_level, erase_level,
  Transactions, State, approve, unapprove,
}
use ux_contracts.Msig.Levels.{
  count, count-append, count-erase_level, has_level-levels, levels, levels-append,
  levels-erase_approval,
}

module _ ⦃p : Platform⦄ ⦃x : Transactions⦄ where
  open p use {find, put, find-put}
  open x use {Hash}

  abbrev view_requested : Option ApprovalsInfo → Option OldApprovalsInfo → List PermissionLevel
  view_requested (some a) o = levels a.requested_approvals
  view_requested none (some o) = o.requested_approvals
  view_requested none none = []

  abbrev view_provided : Option ApprovalsInfo → Option OldApprovalsInfo → List PermissionLevel
  view_provided (some a) o = levels a.provided_approvals
  view_provided none (some o) = o.provided_approvals
  view_provided none none = []

  -- The levels that a proposal still waits for and those that it has, in whichever table they stand.
  abbrev pub requested : State → ℕ → ℕ → List PermissionLevel
  requested s proposer name =
      view_requested (find s.approvals proposer name) (find s.old_approvals proposer name)

  abbrev pub provided : State → ℕ → ℕ → List PermissionLevel
  provided s proposer name =
      view_provided (find s.approvals proposer name) (find s.old_approvals proposer name)

  -- The lists of one proposal are now these; everything else is as it was.
  pub record Rewritten (s s' : State) (proposer name : ℕ) (waiting given : List PermissionLevel)
      : Type 0 where
    pub now_requested : requested s' proposer name ≡ waiting
    pub now_provided : provided s' proposer name ≡ given
    pub other_requested :
        (q n : ℕ) → ((proposer == q) && (name == n)) ≡ false → requested s' q n ≡ requested s q n
    pub other_provided :
        (q n : ℕ) → ((proposer == q) && (name == n)) ≡ false → provided s' q n ≡ provided s q n
    pub proposals : s'.proposals ≡ s.proposals
    pub invals : s'.invals ≡ s.invals
    pub deferred : s'.deferred ≡ s.deferred

  module _ (s : State) (proposer name : ℕ) where
    new-Rewritten :
        (row : ApprovalsInfo)
        → Rewritten s
            (record s { approvals = put s.approvals proposer proposer name row })
            proposer
            name
            (levels row.requested_approvals)
            (levels row.provided_approvals)
    new-Rewritten row = record {
      now_requested = ground (arith, find-put s.approvals proposer proposer name row proposer name);
      now_provided = ground (arith, find-put s.approvals proposer proposer name row proposer name);
      other_requested =
          λ q n ne. ground (arith, find-put s.approvals proposer proposer name row q n);
      other_provided =
          λ q n ne. ground (arith, find-put s.approvals proposer proposer name row q n);
      proposals = refl;
      invals = refl;
      deferred = refl;
    }

    old-Rewritten :
        (row : OldApprovalsInfo)
        → find s.approvals proposer name ≡ none
        → Rewritten s
            (record s { old_approvals = put s.old_approvals proposer proposer name row })
            proposer
            name
            row.requested_approvals
            row.provided_approvals
    old-Rewritten row absent = record {
      now_requested =
          ground (arith, find-put s.old_approvals proposer proposer name row proposer name);
      now_provided =
          ground (arith, find-put s.old_approvals proposer proposer name row proposer name);
      other_requested =
          λ q n ne. ground (arith, find-put s.old_approvals proposer proposer name row q n);
      other_provided =
          λ q n ne. ground (arith, find-put s.old_approvals proposer proposer name row q n);
      proposals = refl;
      invals = refl;
      deferred = refl;
    }

  -- An approval that goes through was signed by its level, which the proposal waited for: the first
  -- such entry moves to the end of what is provided.
  pub record Approved (ctx : Context) (proposer name : ℕ) (level : PermissionLevel) (s s' : State)
      : Type 0 where
    pub signed : ctx.has_auth_level level.actor level.permission ≡ true
    pub awaited : has_level level (requested s proposer name) ≡ true
    pub rewritten :
        Rewritten s s' proposer name
          (erase_level level (requested s proposer name))
          (provided s proposer name ++ level ∷ [])

  -- A withdrawal that goes through was signed by its level, which had approved: the first such entry
  -- moves to the end of what is requested.
  pub record Unapproved (ctx : Context) (proposer name : ℕ) (level : PermissionLevel) (s s' : State)
      : Type 0 where
    pub signed : ctx.has_auth_level level.actor level.permission ≡ true
    pub granted : has_level level (provided s proposer name) ≡ true
    pub rewritten :
        Rewritten s s' proposer name
          (requested s proposer name ++ level ∷ [])
          (erase_level level (provided s proposer name))

  module _ (ctx : Context) (proposer name : ℕ) (level : PermissionLevel) (s s' : State) where
    approve_new :
        (hash : Option Hash) (a : ApprovalsInfo)
        → find s.approvals proposer name ≡ some a
        → approve ctx proposer name level hash s ≡ ok (tt, s')
        → Approved ctx proposer name level s s'
    unfolding approve
    approve_new hash a f run =
        let row : ApprovalsInfo = record {
          requested_approvals = erase_approval level a.requested_approvals;
          provided_approvals =
              a.provided_approvals ++ record { level = level; time = ctx.current_time_point } ∷ [];
        } in
        let e : s' ≡ record s { approvals = put s.approvals proposer proposer name row } =
          ground arith in
        let w = new-Rewritten s proposer name row in
        let req : requested s proposer name ≡ levels a.requested_approvals = ground arith in
        let prov : provided s proposer name ≡ levels a.provided_approvals = ground arith in
        record {
          signed = ground arith;
          awaited = rw (req, has_level-levels) (ground arith);
          rewritten =
              rw
                (
                  e,
                  req,
                  prov,
                  ← levels-erase_approval level a.requested_approvals,
                  ← levels-append a.provided_approvals
                      (record { level = level; time = ctx.current_time_point } ∷ []),
                )
                w;
        }

    approve_old :
        (hash : Option Hash)
        → find s.approvals proposer name ≡ none
        → approve ctx proposer name level hash s ≡ ok (tt, s')
        → Approved ctx proposer name level s s'
    unfolding approve
    approve_old hash absent run = elim (Option-cases (find s.old_approvals proposer name)) [
      | inl missing ↦ absurd (ground arith)
      | inr (o, f) ↦
          let row : OldApprovalsInfo = record {
            requested_approvals = erase_level level o.requested_approvals;
            provided_approvals = o.provided_approvals ++ level ∷ [];
          } in
          let e : s' ≡ record s { old_approvals = put s.old_approvals proposer proposer name row } =
            ground arith in
          let req : requested s proposer name ≡ o.requested_approvals = ground arith in
          let prov : provided s proposer name ≡ o.provided_approvals = ground arith in
          record {
            signed = ground arith;
            awaited = rw req (ground arith);
            rewritten = rw (e, req, prov) (old-Rewritten s proposer name row absent);
          }
    ]

    pub approve-Approved :
        (hash : Option Hash)
        → approve ctx proposer name level hash s ≡ ok (tt, s')
        → Approved ctx proposer name level s s'
    approve-Approved hash run = elim (Option-cases (find s.approvals proposer name)) [
      | inl absent ↦ approve_old hash absent run
      | inr (a, f) ↦ approve_new hash a f run
    ]

    unapprove_new :
        (a : ApprovalsInfo)
        → find s.approvals proposer name ≡ some a
        → unapprove ctx proposer name level s ≡ ok (tt, s')
        → Unapproved ctx proposer name level s s'
    unfolding unapprove
    unapprove_new a f run =
        let row : ApprovalsInfo = record {
          requested_approvals =
              a.requested_approvals ++ record { level = level; time = ctx.current_time_point } ∷ [];
          provided_approvals = erase_approval level a.provided_approvals;
        } in
        let e : s' ≡ record s { approvals = put s.approvals proposer proposer name row } =
          ground arith in
        let w = new-Rewritten s proposer name row in
        let req : requested s proposer name ≡ levels a.requested_approvals = ground arith in
        let prov : provided s proposer name ≡ levels a.provided_approvals = ground arith in
        record {
          signed = ground arith;
          granted = rw (prov, has_level-levels) (ground arith);
          rewritten =
              rw
                (
                  e,
                  req,
                  prov,
                  ← levels-erase_approval level a.provided_approvals,
                  ← levels-append a.requested_approvals
                      (record { level = level; time = ctx.current_time_point } ∷ []),
                )
                w;
        }

    unapprove_old :
        find s.approvals proposer name ≡ none
        → unapprove ctx proposer name level s ≡ ok (tt, s')
        → Unapproved ctx proposer name level s s'
    unfolding unapprove
    unapprove_old absent run = elim (Option-cases (find s.old_approvals proposer name)) [
      | inl missing ↦ absurd (ground arith)
      | inr (o, f) ↦
          let row : OldApprovalsInfo = record {
            requested_approvals = o.requested_approvals ++ level ∷ [];
            provided_approvals = erase_level level o.provided_approvals;
          } in
          let e : s' ≡ record s { old_approvals = put s.old_approvals proposer proposer name row } =
            ground arith in
          let req : requested s proposer name ≡ o.requested_approvals = ground arith in
          let prov : provided s proposer name ≡ o.provided_approvals = ground arith in
          record {
            signed = ground arith;
            granted = rw prov (ground arith);
            rewritten = rw (e, req, prov) (old-Rewritten s proposer name row absent);
          }
    ]

    pub unapprove-Unapproved :
        unapprove ctx proposer name level s ≡ ok (tt, s') → Unapproved ctx proposer name level s s'
    unapprove-Unapproved run = elim (Option-cases (find s.approvals proposer name)) [
      | inl absent ↦ unapprove_old absent run
      | inr (a, f) ↦ unapprove_new a f run
    ]

    -- Approving and withdrawing lose no level and invent none: of each level the requested and the
    -- provided approvals of the proposal are together as many as before.
    pub approvals_conserved :
        (hash : Option Hash)
        → (approve ctx proposer name level hash s ≡ ok (tt, s'))
          ⊎ (unapprove ctx proposer name level s ≡ ok (tt, s'))
        → (l : PermissionLevel)
        → count l (requested s' proposer name) + count l (provided s' proposer name)
          ≡ count l (requested s proposer name) + count l (provided s proposer name)
    approvals_conserved hash (inl run) l =
        let a = approve-Approved hash run in
        rw (a.rewritten.now_requested, a.rewritten.now_provided)
          (ground (
            arith,
            count-append l (provided s proposer name) (level ∷ []),
            count-erase_level level l (requested s proposer name) a.awaited,
          ))
    approvals_conserved hash (inr run) l =
        let a = unapprove-Unapproved run in
        rw (a.rewritten.now_requested, a.rewritten.now_provided)
          (ground (
            arith,
            count-append l (requested s proposer name) (level ∷ []),
            count-erase_level level l (provided s proposer name) a.granted,
          ))
