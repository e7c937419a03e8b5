-- ===== src/Msig/History.antt =====
-- Histories of the multisig contract: which approvals its tables can hold, and what can be executed.
use ux_contracts.Prelude.{
  ℕ, ◌≡◌, refl, Bool, true, false, ◌&&◌, Option, none, some, is_some, List, [], ◌∷◌, ◌++◌, ◌==◌,
  arith, Option-cases, Bool-cases, inl, inr, ◌⊎◌, subst, All, All-append, All-map, map,
}
use ux_contracts.Chain.Action.{ok, Action}
use ux_contracts.Chain.Context.{Context}
use ux_contracts.Chain.Platform.{Platform}
use ux_contracts.Msig.{
  PermissionLevel, Approval, ApprovalsInfo, Transactions, State, propose, approve, unapprove,
  cancel, exec, invalidate, erase_approval, Proposal, Deferred, request, deferred_id,
}
use ux_contracts.Msig.Exec.{without_proposal, exec-Executed, cancel-Cancelled}

module _ ⦃p : Platform⦄ ⦃x : Transactions⦄ where
  open p use {find, put, drop, find-put, find-drop}
  open x use {Trx, Hash}

  pub data Call : Type 0 where
    propose_call : ℕ → ℕ → List PermissionLevel → Trx → Call
    approve_call : ℕ → ℕ → PermissionLevel → Option Hash → Call
    unapprove_call : ℕ → ℕ → PermissionLevel → Call
    cancel_call : ℕ → ℕ → ℕ → Call
    exec_call : ℕ → ℕ → ℕ → Call
    invalidate_call : ℕ → Call

  unfoldable pub perform : Context → Call → Action State (Unit {0})
  perform ctx (propose_call q n requested trx) = propose ctx q n requested trx
  perform ctx (approve_call q n level hash) = approve ctx q n level hash
  perform ctx (unapprove_call q n level) = unapprove ctx q n level
  perform ctx (cancel_call q n canceler) = cancel ctx q n canceler
  perform ctx (exec_call q n executer) = exec ctx q n executer
  perform ctx (invalidate_call account) = invalidate ctx account

  abbrev pub History : Type 0
  History = List (Context × Call)

  -- A contract with no rows, and the states that successful calls lead to, the latest call first.
  pub record IsFresh (s : State) : Type 0 where
    pub no_proposals : (q n : ℕ) → find s.proposals q n ≡ none
    pub no_approvals : (q n : ℕ) → find s.approvals q n ≡ none
    pub no_old : (q n : ℕ) → find s.old_approvals q n ≡ none

  pub data Reach : History → State → Type 0 where
    fresh : {s : State} → IsFresh s → Reach [] s
    step :
        {h : History} {s s' : State} (ctx : Context) (call : Call)
        → Reach h s
        → perform ctx call s ≡ ok (tt, s')
        → Reach ((ctx, call) ∷ h) s'

  -- The call approved the proposal by this level at this time, and the level signed it.
  abbrev pub Approves : Context → Call → ℕ → ℕ → Approval → Type 0
  Approves ctx (approve_call q n level hash) proposer name a =
      (q ≡ proposer)
      × (n ≡ name)
      × (level ≡ a.level)
      × (ctx.current_time_point ≡ a.time)
      × (ctx.has_auth_level level.actor level.permission ≡ true)
  Approves ctx _ proposer name a = ⊥

  abbrev pub proposes : Call → ℕ → ℕ → Bool
  proposes (propose_call q n requested trx) proposer name = (q == proposer) && (n == name)
  proposes _ proposer name = false

  -- Such a call was made since the proposal was last made.
  abbrev pub Granted : History → ℕ → ℕ → Approval → Type 0
  Granted [] proposer name a = ⊥
  Granted ((ctx, call) ∷ h) proposer name a =
      Approves ctx call proposer name a
      ⊎ (proposes call proposer name ≡ false) × Granted h proposer name a

  pub record IsAuthentic (h : History) (s : State) : Type 0 where
    pub old_empty : (q n : ℕ) → find s.old_approvals q n ≡ none
    pub paired : (q n : ℕ) → is_some (find s.proposals q n) ≡ is_some (find s.approvals q n)
    pub granted :
        (q n : ℕ) (a : ApprovalsInfo)
        → find s.approvals q n ≡ some a
        → All (Granted h q n) a.provided_approvals

  All-erase :
      (P : Approval → Type 0) (level : PermissionLevel) (given : List Approval)
      → All P given
      → All P (erase_approval level given)
  All-erase P level [] h = tt
  All-erase P level (a ∷ rest) h = ground (arith, All-erase P level rest)

  module _ (h : History) (s : State) (i : IsAuthentic h s) (ctx : Context) (call : Call) where
    -- Writing one row of approvals keeps every row granted.
    Granted-put :
        (proposer name : ℕ) (row : ApprovalsInfo)
        → All (Granted ((ctx, call) ∷ h) proposer name) row.provided_approvals
        → ((q n : ℕ) → ((proposer == q) && (name == n)) ≡ false → proposes call q n ≡ false)
        → (q n : ℕ) (a : ApprovalsInfo)
        → find (put s.approvals proposer proposer name row) q n ≡ some a
        → All (Granted ((ctx, call) ∷ h) q n) a.provided_approvals
    Granted-put proposer name row good other q n a f =
        elim (Bool-cases ((proposer == q) && (name == n))) [
          | inl here ↦
              let e : row ≡ a =
                ground (arith, find-put s.approvals proposer proposer name row q n) in
              let kq : proposer ≡ q = ground arith in
              let kn : name ≡ n = ground arith in rw (← e, ← kq, ← kn) good
          | inr there ↦
              All-map a.provided_approvals (λ b g. inr (other q n there, g))
                (i.granted q n a
                  (ground (arith, find-put s.approvals proposer proposer name row q n)))
        ]

    -- So does removing one.
    Granted-drop :
        (proposer name : ℕ)
        → ((q n : ℕ) → proposes call q n ≡ false)
        → (q n : ℕ) (a : ApprovalsInfo) → find (drop s.approvals proposer name) q n ≡ some a
        → All (Granted ((ctx, call) ∷ h) q n) a.provided_approvals
    Granted-drop proposer name other q n a f =
        All-map a.provided_approvals (λ b g. inr (other q n, g))
          (i.granted q n a (ground (arith, find-drop s.approvals proposer name q n)))

  propose-IsAuthentic :
      (h : History) (ctx : Context) (proposer name : ℕ) (requested : List PermissionLevel)
      (trx : Trx) (s s' : State)
      → IsAuthentic h s
      → propose ctx proposer name requested trx s ≡ ok (tt, s')
      → IsAuthentic ((ctx, propose_call proposer name requested trx) ∷ h) s'
  unfolding propose
  propose-IsAuthentic h ctx proposer name requested trx s s' i run =
      let row : ApprovalsInfo = record {
        requested_approvals = map request requested;
        provided_approvals = [];
      } in
      let prop : Proposal = record { packed_transaction = trx } in
      let e : s' ≡ record s {
        proposals = put s.proposals proposer proposer name prop;
        approvals = put s.approvals proposer proposer name row;
      } =
        ground arith in
      rw e (record {
        old_empty = i.old_empty;
        paired = λ q n. ground (
          arith,
          find-put s.proposals proposer proposer name prop q n,
          find-put s.approvals proposer proposer name row q n,
          i.paired q n,
        );
        granted =
            Granted-put h s i ctx (propose_call proposer name requested trx) proposer name row tt
              (λ q n ne. ne);
      })

  approve-IsAuthentic :
      (h : History) (ctx : Context) (proposer name : ℕ) (level : PermissionLevel)
      (hash : Option Hash) (s s' : State)
      → IsAuthentic h s
      → approve ctx proposer name level hash s ≡ ok (tt, s')
      → IsAuthentic ((ctx, approve_call proposer name level hash) ∷ h) s'
  unfolding approve
  approve-IsAuthentic h ctx proposer name level hash s s' i run =
      elim (Option-cases (find s.approvals proposer name)) [
        | inl missing ↦ absurd (ground (arith, i.old_empty proposer name))
        | inr (a, f) ↦
            let given : Approval = record { level = level; time = ctx.current_time_point } in
            let row : ApprovalsInfo = record {
              requested_approvals = erase_approval level a.requested_approvals;
              provided_approvals = a.provided_approvals ++ given ∷ [];
            } in
            let call = approve_call proposer name level hash in
            let e : s' ≡ record s { approvals = put s.approvals proposer proposer name row } =
              ground arith in
            let signed : ctx.has_auth_level level.actor level.permission ≡ true = ground arith in
            rw e (record {
              old_empty = i.old_empty;
              paired = λ q n.
                  ground (arith, find-put s.approvals proposer proposer name row q n, i.paired q n);
              granted =
                  Granted-put h s i ctx call proposer name row
                    (All-append (Granted ((ctx, call) ∷ h) proposer name) a.provided_approvals
                      (given ∷ [])
                      (All-map a.provided_approvals (λ b g. inr (refl, g))
                        (i.granted proposer name a f))
                      (inl (refl, refl, refl, refl, signed), tt))
                    (λ q n ne. refl);
            })
      ]

  unapprove-IsAuthentic :
      (h : History) (ctx : Context) (proposer name : ℕ) (level : PermissionLevel) (s s' : State)
      → IsAuthentic h s
      → unapprove ctx proposer name level s ≡ ok (tt, s')
      → IsAuthentic ((ctx, unapprove_call proposer name level) ∷ h) s'
  unfolding unapprove
  unapprove-IsAuthentic h ctx proposer name level s s' i run =
      elim (Option-cases (find s.approvals proposer name)) [
        | inl missing ↦ absurd (ground (arith, i.old_empty proposer name))
        | inr (a, f) ↦
            let row : ApprovalsInfo = record {
              requested_approvals =
                  a.requested_approvals
                  ++ record { level = level; time = ctx.current_time_point } ∷ [];
              provided_approvals = erase_approval level a.provided_approvals;
            } in
            let call = unapprove_call proposer name level in
            let e : s' ≡ record s { approvals = put s.approvals proposer proposer name row } =
              ground arith in
            rw e (record {
              old_empty = i.old_empty;
              paired = λ q n.
                  ground (arith, find-put s.approvals proposer proposer name row q n, i.paired q n);
              granted =
                  Granted-put h s i ctx call proposer name row
                    (All-map (erase_approval level a.provided_approvals) (λ b g. inr (refl, g))
                      (All-erase (Granted h proposer name) level a.provided_approvals
                        (i.granted proposer name a f)))
                    (λ q n ne. refl);
            })
      ]

  -- A removed proposal leaves neither table with a row for it.
  without-IsAuthentic :
      (h : History) (s : State) (ctx : Context) (call : Call) (proposer name : ℕ)
      (sent : List Deferred)
      → IsAuthentic h s
      → is_some (find s.proposals proposer name) ≡ true
      → ((q n : ℕ) → proposes call q n ≡ false)
      → IsAuthentic
          ((ctx, call) ∷ h)
          (record (without_proposal s proposer name (find s.approvals proposer name)) {
            deferred = sent;
          })
  without-IsAuthentic h s ctx call proposer name sent i there other =
      elim (Option-cases (find s.approvals proposer name)) [
        | inl missing ↦ absurd (ground (arith, i.paired proposer name))
        | inr (a, f) ↦ rw f (record {
          old_empty = i.old_empty;
          paired = λ q n. ground (
            arith,
            find-drop s.proposals proposer name q n,
            find-drop s.approvals proposer name q n,
            i.paired q n,
          );
          granted = Granted-drop h s i ctx call proposer name other;
        })
      ]

  invalidate-IsAuthentic :
      (h : History) (ctx : Context) (account : ℕ) (s s' : State)
      → IsAuthentic h s
      → invalidate ctx account s ≡ ok (tt, s')
      → IsAuthentic ((ctx, invalidate_call account) ∷ h) s'
  unfolding invalidate
  invalidate-IsAuthentic h ctx account s s' i run =
      let same : s'.approvals ≡ s.approvals = ground arith in
      record {
        old_empty = λ q n. ground (arith, i.old_empty q n);
        paired = λ q n. ground (arith, i.paired q n);
        granted = λ q n a f.
            All-map a.provided_approvals (λ b g. inr (refl, g))
              (i.granted q n a (subst (λ t. find t q n ≡ some a) same f));
      }

  perform-IsAuthentic :
      (h : History) (ctx : Context) (call : Call) (s s' : State)
      → IsAuthentic h s
      → perform ctx call s ≡ ok (tt, s')
      → IsAuthentic ((ctx, call) ∷ h) s'
  unfolding perform
  perform-IsAuthentic h ctx (propose_call q n requested trx) s s' i run =
      propose-IsAuthentic h ctx q n requested trx s s' i run
  perform-IsAuthentic h ctx (approve_call q n level hash) s s' i run =
      approve-IsAuthentic h ctx q n level hash s s' i run
  perform-IsAuthentic h ctx (unapprove_call q n level) s s' i run =
      unapprove-IsAuthentic h ctx q n level s s' i run
  perform-IsAuthentic h ctx (cancel_call q n canceler) s s' i run =
      let c = cancel-Cancelled ctx q n canceler s s' run in
      rw c.after (
        without-IsAuthentic h s ctx (cancel_call q n canceler) q n
          (without_proposal s q n (find s.approvals q n)).deferred i (ground (arith, c.found))
          (λ a b. refl))
  perform-IsAuthentic h ctx (exec_call q n executer) s s' i run =
      let e = exec-Executed ctx q n executer s s' run in
      rw e.after (
        without-IsAuthentic h s ctx (exec_call q n executer) q n
          (record { id = deferred_id q n; sender = executer; trx = e.prop.packed_transaction }
            ∷ s.deferred)
          i (ground (arith, e.found)) (λ a b. refl))
  perform-IsAuthentic h ctx (invalidate_call account) s s' i run =
      invalidate-IsAuthentic h ctx account s s' i run

  -- In every state that the contract can reach, each provided approval was given by a call that its
  -- level signed, since the proposal was last made; proposals and approvals come in pairs.
  pub Reach-IsAuthentic : {h : History} {s : State} → Reach h s → IsAuthentic h s
  Reach-IsAuthentic (fresh f) = record {
    old_empty = f.no_old;
    paired = λ q n. ground (arith, f.no_proposals q n, f.no_approvals q n);
    granted = λ q n a e. absurd (cc (e, f.no_approvals q n));
  }
  Reach-IsAuthentic (step {h} {s} {s'} ctx call r run) =
      perform-IsAuthentic h ctx call s s' (Reach-IsAuthentic r) run
