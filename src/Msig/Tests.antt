-- ===== src/Msig/Tests.antt =====
-- Tests of the multisig contract, and its theorems at concrete inputs.
use ux_contracts.Prelude.{
  ℕ, ◌≡◌, ◌≢◌, ◌+◌, ◌*◌, ◌<◌, ◌↔◌, refl, [], ◌∷◌, true, some, none, pos, leb, ◌==◌, length,
  if◌then◌else◌, inr,
}
use ux_contracts.Chain.Action.{ok, err}
use ux_contracts.Chain.Context.{Context}
use ux_contracts.Chain.Memory.{memory, find}
use ux_contracts.Msig.{
  PermissionLevel, Approval, Transactions, State, propose, approve, unapprove, cancel, exec,
  invalidate, is_live,
}
use ux_contracts.Msig.Levels.{count}
use ux_contracts.Msig.Approvals.{
  Approved, Unapproved, approve-Approved, unapprove-Unapproved, approvals_conserved, requested,
  provided,
}
use ux_contracts.Msig.Exec.{Cancelled, cancel-Cancelled}
use ux_contracts.Msig.History.{
  History, Reach, fresh, step, propose_call, approve_call, perform, IsFresh, IsAuthentic,
  Reach-IsAuthentic,
}
use ux_contracts.Msig.Authority.{Authorized, exec-Authorized, exec_once, invalidate_cancels}

-- A transaction is its expiration and the number of levels that it needs; a hash is a number.
instance abbrev counted : Transactions
counted = record {
  Trx = ℕ × ℕ;
  Hash = ℕ;
  expiration = λ t. t.0;
  check_authorization = λ t ls. if leb t.1 (length ls) then pos 1 else pos 0;
  has_sha256 = λ t h. t.0 == h;
}

abbrev at : ℕ → Context
at seconds = record {
  self = 1;
  has_auth = λ a. true;
  has_auth_level = λ a b. true;
  is_account = λ a. true;
  current_time_point = seconds * 1_000_000;
}

abbrev level : ℕ → PermissionLevel
level actor = record { actor = actor; permission = 5 }

abbrev empty : State
empty = record { proposals = []; old_approvals = []; approvals = []; invals = []; deferred = [] }

abbrev trx : ℕ × ℕ
trx = (10, 1)

abbrev asked : Approval
asked = record { level = level 7; time = 0 }

abbrev proposed : State
proposed = record {
  proposals = (2, 20, record { packed_transaction = trx }) ∷ [];
  old_approvals = [];
  approvals = (2, 20, record { requested_approvals = asked ∷ []; provided_approvals = [] }) ∷ [];
  invals = [];
  deferred = [];
}

abbrev agreed : State
agreed = record {
  proposals = (2, 20, record { packed_transaction = trx }) ∷ [];
  old_approvals = [];
  approvals =
      (
        2,
        20,
        record {
          requested_approvals = [];
          provided_approvals = record { level = level 7; time = 3_000_000 } ∷ [];
        },
      )
      ∷ [];
  invals = [];
  deferred = [];
}

abbrev done : State
done = record {
  proposals = [];
  old_approvals = [];
  approvals = [];
  invals = [];
  deferred = record { id = 36893488147419103252; sender = 9; trx = trx } ∷ [];
}

-- The proposal needs one level, so it cannot be made for none.
propose_unauthorized : propose (at 0) 2 20 [] trx empty ≡ err "transaction authorization failed"
unfolding propose
propose_unauthorized = refl

proposes : propose (at 0) 2 20 (level 7 ∷ []) trx empty ≡ ok (tt, proposed)
unfolding propose
proposes = refl

approves : approve (at 3) 2 20 (level 7) (some 10) proposed ≡ ok (tt, agreed)
unfolding approve
approves = refl

withdraws :
    unapprove (at 4) 2 20 (level 7) agreed
    ≡ ok (
      tt,
      record agreed {
        approvals =
            (
              2,
              20,
              record {
                requested_approvals = record { level = level 7; time = 4_000_000 } ∷ [];
                provided_approvals = [];
              },
            )
            ∷ [];
      },
    )
unfolding unapprove
withdraws = refl

executes : exec (at 4) 2 20 9 agreed ≡ ok (tt, done)
unfolding exec
executes = refl

-- An invalidation at the time of the approval cancels it.
invalidated_exec :
    exec (at 4) 2 20 9 (record agreed {
      invals = (1, 7, record { account = 7; last_invalidation_time = 3_000_000 }) ∷ [];
    })
    ≡ err "transaction authorization failed"
unfolding exec
invalidated_exec = refl

empty-IsFresh : IsFresh empty
empty-IsFresh = record {
  no_proposals = λ q n. refl;
  no_approvals = λ q n. refl;
  no_old = λ q n. refl;
}

abbrev history : History
history =
    (at 3, approve_call 2 20 (level 7) (some 10))
    ∷ (at 0, propose_call 2 20 (level 7 ∷ []) trx)
    ∷ []

agreed-Reach : Reach history agreed
unfolding perform
agreed-Reach =
    step (at 3) (approve_call 2 20 (level 7) (some 10))
      (step (at 0) (propose_call 2 20 (level 7 ∷ []) trx) (fresh empty-IsFresh) proposes) approves

approve-Approved_example : Approved (at 3) 2 20 (level 7) proposed agreed
approve-Approved_example = approve-Approved (at 3) 2 20 (level 7) proposed agreed (some 10) approves

abbrev withdrawn : State
withdrawn = record agreed {
  approvals =
      (
        2,
        20,
        record {
          requested_approvals = record { level = level 7; time = 4_000_000 } ∷ [];
          provided_approvals = [];
        },
      )
      ∷ [];
}

unapprove-Unapproved_example : Unapproved (at 4) 2 20 (level 7) agreed withdrawn
unapprove-Unapproved_example = unapprove-Unapproved (at 4) 2 20 (level 7) agreed withdrawn withdraws

approvals_conserved_example :
    count (level 7) (requested withdrawn 2 20) + count (level 7) (provided withdrawn 2 20)
    ≡ count (level 7) (requested agreed 2 20) + count (level 7) (provided agreed 2 20)
approvals_conserved_example =
    approvals_conserved (at 4) 2 20 (level 7) agreed withdrawn none (inr withdraws) (level 7)

exec-Authorized_example : Authorized history (at 4) 2 20 9 agreed done
exec-Authorized_example = exec-Authorized history (at 4) 2 20 9 agreed done agreed-Reach executes

Reach-IsAuthentic_example : IsAuthentic history agreed
Reach-IsAuthentic_example = Reach-IsAuthentic agreed-Reach

exec_once_example :
    (exec (at 5) 2 20 8 done ≢ ok (tt, done)) × (cancel (at 5) 2 20 8 done ≢ ok (tt, done))
exec_once_example = exec_once (at 4) (at 5) 2 20 9 8 agreed done done executes

abbrev dropped : State
dropped = record done { deferred = [] }

cancels : cancel (at 4) 2 20 2 agreed ≡ ok (tt, dropped)
unfolding cancel
cancels = refl

-- Another account has to wait until the transaction has expired.
cancels_early : cancel (at 4) 2 20 3 agreed ≡ err "cannot cancel until expiration"
unfolding cancel
cancels_early = refl

cancel-Cancelled_example : Cancelled (at 4) 2 20 2 agreed dropped
cancel-Cancelled_example = cancel-Cancelled (at 4) 2 20 2 agreed dropped cancels

abbrev withheld : State
withheld = record agreed {
  invals = (1, 7, record { account = 7; last_invalidation_time = 3_000_000 }) ∷ [];
}

invalidates : invalidate (at 3) 7 agreed ≡ ok (tt, withheld)
unfolding invalidate
invalidates = refl

invalidate_cancels_example :
    (is_live (find withheld.invals 1 7) 3_000_000 ≡ true) ↔ (3_000_000 < 3_000_000)
invalidate_cancels_example =
    invalidate_cancels (at 3) 7 agreed withheld (record { level = level 7; time = 3_000_000 })
      invalidates refl
