-- ===== src/Msig/Authority.antt =====
-- Which approvals can execute a proposal: only such as their levels have signed since it was made,
-- and have not invalidated since; and a proposal is executed or cancelled once.
use ux_contracts.Prelude.{
  ℕ, ◌≡◌, ◌≢◌, refl, true, ◌<◌, ◌≤◌, Option, none, some, List, [], ◌∷◌, arith, Option-cases,
  Bool-cases, inl, inr, ap, pos, ◌<ℤ◌, All, ◌↔◌, ◌∙◌,
}
use ux_contracts.Chain.Action.{ok}
use ux_contracts.Chain.Context.{Context, current_seconds}
use ux_contracts.Chain.Platform.{Platform}
use ux_contracts.Msig.{
  PermissionLevel, Approval, ApprovalsInfo, Transactions, State, Proposal, exec, cancel, is_live,
  live_levels, deferred_id, Invalidation, invalidate,
}
use ux_contracts.Msig.Exec.{without_proposal, exec-Executed, cancel-Cancelled}
use ux_contracts.Msig.History.{History, Granted, Reach, Reach-IsAuthentic}

module _ ⦃p : Platform⦄ ⦃x : Transactions⦄ where
  open p use {find, drop, find-drop, find-put}
  open x use {Trx, expiration, check_authorization}

  -- The levels come from these approvals, each granted, and not invalidated at its time or later.
  abbrev pub IsBackedBy :
      History → (ℕ → Option Invalidation) → ℕ → ℕ → List Approval → List PermissionLevel → Type 0
  IsBackedBy h invalidated proposer name [] [] = Unit
  IsBackedBy h invalidated proposer name [] (l ∷ ls) = ⊥
  IsBackedBy h invalidated proposer name (a ∷ given) [] = ⊥
  IsBackedBy h invalidated proposer name (a ∷ given) (l ∷ ls) =
      (a.level ≡ l)
      × Granted h proposer name a
      × (is_live (invalidated l.actor) a.time ≡ true)
      × IsBackedBy h invalidated proposer name given ls

  live_levels-IsBackedBy :
      (h : History) (invalidated : ℕ → Option Invalidation) (proposer name : ℕ)
      (given : List Approval)
      → All (Granted h proposer name) given
      → (used : List Approval) × IsBackedBy h invalidated proposer name used
          (live_levels invalidated given)
  live_levels-IsBackedBy h invalidated proposer name [] g = ([], tt)
  live_levels-IsBackedBy h invalidated proposer name (a ∷ given) g =
      let (used, rest) = live_levels-IsBackedBy h invalidated proposer name given g.1 in
      elim (Bool-cases (is_live (invalidated a.level.actor) a.time)) [
        | inl alive ↦ (a ∷ used, rw alive (refl, g.0, alive, rest))
        | inr dead ↦ (used, rw dead rest)
      ]

  -- What an execution rests on.
  pub record Authorized (h : History) (ctx : Context) (proposer name executer : ℕ) (s s' : State)
      : Type 0 where
    pub prop : Proposal
    pub found : find s.proposals proposer name ≡ some prop
    pub in_time : current_seconds ctx ≤ expiration prop.packed_transaction
    pub used : List Approval
    pub levels : List PermissionLevel
    pub backed : IsBackedBy h (find s.invals ctx.self) proposer name used levels
    pub authorized : pos 0 <ℤ check_authorization prop.packed_transaction levels
    pub sent :
        s'.deferred
        ≡ record {
          id = deferred_id proposer name;
          sender = executer;
          trx = prop.packed_transaction;
        }
          ∷ s.deferred

  -- From a reachable state, an execution that goes through is within the transaction's time, and the
  -- chain authorised the transaction for levels each of which approved the proposal by a call that
  -- it signed, made since the proposal was last made and after the actor's last invalidation; and it
  -- sends the proposed transaction, once.
  pub exec-Authorized :
      (h : History) (ctx : Context) (proposer name executer : ℕ) (s s' : State)
      → Reach h s
      → exec ctx proposer name executer s ≡ ok (tt, s')
      → Authorized h ctx proposer name executer s s'
  exec-Authorized h ctx proposer name executer s s' r run =
      let i = Reach-IsAuthentic r in
      let e = exec-Executed ctx proposer name executer s s' run in
      elim (Option-cases (find s.approvals proposer name)) [
        | inl missing ↦ absurd (ground (arith, i.paired proposer name, e.found))
        | inr (a, f) ↦
            let (used, backed) =
              live_levels-IsBackedBy h (find s.invals ctx.self) proposer name a.provided_approvals
                (i.granted proposer name a f) in
            record {
              prop = e.prop;
              found = e.found;
              in_time = e.in_time;
              used = used;
              levels = live_levels (find s.invals ctx.self) a.provided_approvals;
              backed = backed;
              authorized = ground (arith, e.authorized);
              sent = ap (λ (t : State). t.deferred) e.after;
            }
      ]

  proposals-without :
      (s : State) (proposer name : ℕ) (o : Option ApprovalsInfo)
      → (without_proposal s proposer name o).proposals ≡ drop s.proposals proposer name
  proposals-without s proposer name none = refl
  proposals-without s proposer name (some a) = refl

  -- In the state that an execution leaves, the proposal can be neither executed again nor cancelled,
  -- by anyone.
  pub exec_once :
      (ctx ctx' : Context) (proposer name executer other : ℕ) (s s' t : State)
      → exec ctx proposer name executer s ≡ ok (tt, s')
      → (exec ctx' proposer name other s' ≢ ok (tt, t))
        × (cancel ctx' proposer name other s' ≢ ok (tt, t))
  exec_once ctx ctx' proposer name executer other s s' t run =
      let e = exec-Executed ctx proposer name executer s s' run in
      let left : s'.proposals ≡ drop s.proposals proposer name =
        ap (λ (u : State). u.proposals) e.after
        ∙ proposals-without s proposer name (find s.approvals proposer name) in
      let gone : find s'.proposals proposer name ≡ none =
        rw left (ground (arith, find-drop s.proposals proposer name proposer name)) in
      (
        λ again.
            let f = (exec-Executed ctx' proposer name other s' t again).found in
            absurd (cc (f, gone)),
        λ again.
            let f = (cancel-Cancelled ctx' proposer name other s' t again).found in
            absurd (cc (f, gone)),
      )

  -- After an invalidation, no approval of that account given until then counts any more.
  pub invalidate_cancels :
      (ctx : Context) (account : ℕ) (s s' : State) (a : Approval)
      → invalidate ctx account s ≡ ok (tt, s')
      → a.level.actor ≡ account
      → (is_live (find s'.invals ctx.self account) a.time ≡ true)
        ↔ (ctx.current_time_point < a.time)
  unfolding invalidate
  invalidate_cancels ctx account s s' a run same =
      let row : Invalidation = record {
        account = account;
        last_invalidation_time = ctx.current_time_point;
      } in
      ground (arith, find-put s.invals account ctx.self account row ctx.self account)
