-- ===== src/Msig/Exec.antt =====
-- What executing and cancelling a proposal do, for proposals in the new table of approvals.
use ux_contracts.Prelude.{
  ℕ, ◌≡◌, true, ◌≤◌, ◌<◌, Option, none, some, List, [], ◌∷◌, arith, Option-cases, inl, inr, ◌⊎◌,
  pos, ◌<ℤ◌,
}
use ux_contracts.Chain.Action.{ok}
use ux_contracts.Chain.Context.{Context, current_seconds}
use ux_contracts.Chain.Platform.{Platform}
use ux_contracts.Msig.{
  PermissionLevel, OldApprovalsInfo, ApprovalsInfo, Transactions, State, Proposal, exec, cancel,
  live_levels, live_old, deferred_id, Invalidation,
}

module _ ⦃p : Platform⦄ ⦃x : Transactions⦄ where
  open p use {find, drop, find-drop}
  open x use {Trx, expiration, check_authorization}

  -- The levels whose approvals count, in whichever table they stand.
  abbrev live_in :
      (ℕ → Option Invalidation)
      → Option ApprovalsInfo
      → Option OldApprovalsInfo
      → List PermissionLevel
  live_in invalidated (some a) o = live_levels invalidated a.provided_approvals
  live_in invalidated none (some o) = live_old invalidated o.provided_approvals
  live_in invalidated none none = []

  abbrev pub live : State → ℕ → ℕ → ℕ → List PermissionLevel
  live s self proposer name =
      live_in (find s.invals self) (find s.approvals proposer name)
        (find s.old_approvals proposer name)

  -- The tables without the proposal: its row of approvals is dropped from the table that had one.
  abbrev pub without_proposal : State → ℕ → ℕ → Option ApprovalsInfo → State
  without_proposal s proposer name (some a) = record s {
    proposals = drop s.proposals proposer name;
    approvals = drop s.approvals proposer name;
  }
  without_proposal s proposer name none = record s {
    proposals = drop s.proposals proposer name;
    old_approvals = drop s.old_approvals proposer name;
  }

  -- The transaction was sent, once, under the proposal's id.
  pub record Executed (ctx : Context) (proposer name executer : ℕ) (s s' : State) : Type 0 where
    pub prop : Proposal
    pub found : find s.proposals proposer name ≡ some prop
    pub signed : ctx.has_auth executer ≡ true
    pub in_time : current_seconds ctx ≤ expiration prop.packed_transaction
    pub authorized :
        pos 0 <ℤ check_authorization prop.packed_transaction (live s ctx.self proposer name)
    pub after : s' ≡ record (without_proposal s proposer name (find s.approvals proposer name)) {
      deferred =
          record {
            id = deferred_id proposer name;
            sender = executer;
            trx = prop.packed_transaction;
          }
          ∷ s.deferred;
    }

  module _ (ctx : Context) (proposer name executer : ℕ) (s s' : State) where
    -- An execution that goes through was signed by the executer, before the transaction expired, and
    -- the chain authorised the transaction for exactly the approvals that no later invalidation has
    -- cancelled; it sends that transaction and removes the proposal and its approvals.
    pub exec-Executed :
        exec ctx proposer name executer s ≡ ok (tt, s') → Executed ctx proposer name executer s s'
    unfolding exec
    exec-Executed run = elim (Option-cases (find s.proposals proposer name)) [
      | inl missing ↦ absurd (ground arith)
      | inr (prop, found) ↦ elim (Option-cases (find s.approvals proposer name)) [
        | inl absent ↦ elim (Option-cases (find s.old_approvals proposer name)) [
          | inl none_old ↦ absurd (ground arith)
          | inr (o, old) ↦ record {
            prop = prop;
            found = found;
            signed = ground arith;
            in_time = ground arith;
            authorized = ground arith;
            after = ground arith;
          }
        ]
        | inr (a, new) ↦ record {
          prop = prop;
          found = found;
          signed = ground arith;
          in_time = ground arith;
          authorized = ground arith;
          after = ground arith;
        }
      ]
    ]

  module _ (ctx : Context) (proposer name canceler : ℕ) (s s' : State) where
    pub record Cancelled : Type 0 where
      pub prop : Proposal
      pub found : find s.proposals proposer name ≡ some prop
      pub signed : ctx.has_auth canceler ≡ true
      pub allowed :
          (canceler ≡ proposer) ⊎ (expiration prop.packed_transaction < current_seconds ctx)
      pub after : s' ≡ without_proposal s proposer name (find s.approvals proposer name)

    -- A cancellation that goes through was signed by the canceler, who is the proposer unless the
    -- transaction has expired; it removes the proposal and its approvals and sends nothing.
    pub cancel-Cancelled : cancel ctx proposer name canceler s ≡ ok (tt, s') → Cancelled
    unfolding cancel
    cancel-Cancelled run = elim (Option-cases (find s.proposals proposer name)) [
      | inl missing ↦ absurd (ground arith)
      | inr (prop, found) ↦ elim (Option-cases (find s.approvals proposer name)) [
        | inl absent ↦ elim (Option-cases (find s.old_approvals proposer name)) [
          | inl none_old ↦ absurd (ground arith)
          | inr (o, old) ↦ record {
            prop = prop;
            found = found;
            signed = ground arith;
            allowed = ground arith;
            after = ground arith;
          }
        ]
        | inr (a, new) ↦ record {
          prop = prop;
          found = found;
          signed = ground arith;
          allowed = ground arith;
          after = ground arith;
        }
      ]
    ]
