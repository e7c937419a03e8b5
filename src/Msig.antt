-- ===== src/Msig.antt =====
-- contracts/eosio.msig: proposals of transactions, the approvals they wait for, and their execution.
pub mod Levels
pub mod Approvals
pub mod Exec
pub mod History
pub mod Authority
mod Tests
use ux_contracts.Prelude.{
  ℕ, Bool, true, false, not, ◌&&◌, ◌+◌, ◌*◌, ◌^◌, Option, none, some, is_some, List, [], ◌∷◌, ◌++◌,
  map, ◌==◌, leb, ltb, if◌then◌else◌, ℤ, pos, ltb_ℤ,
}
use ux_contracts.Chain.Action.{Action, ◌>>=◌, ◌>>◌, check, or_fail, gets, modify, when}
use ux_contracts.Chain.Context.{Context, require_auth, require_auth_level, current_seconds}
use ux_contracts.Chain.Platform.{Platform}

pub record PermissionLevel : Type 0 where
  pub actor : ℕ
  pub permission : ℕ

abbrev pub level_eq : PermissionLevel → PermissionLevel → Bool
level_eq a b = (a.actor == b.actor) && (a.permission == b.permission)

pub record Approval : Type 0 where
  pub level : PermissionLevel
  pub time : ℕ

pub record OldApprovalsInfo : Type 0 where
  pub requested_approvals : List PermissionLevel
  pub provided_approvals : List PermissionLevel

pub record ApprovalsInfo : Type 0 where
  pub requested_approvals : List Approval
  pub provided_approvals : List Approval

pub record Invalidation : Type 0 where
  pub account : ℕ
  pub last_invalidation_time : ℕ

-- `std::find_if( …, [&](a) { return a.level == level; } ) != end()`
abbrev pub has_approval : PermissionLevel → List Approval → Bool
has_approval level [] = false
has_approval level (a ∷ rest) = if level_eq a.level level then true else has_approval level rest

-- `erase( itr )` at the first such approval
abbrev pub erase_approval : PermissionLevel → List Approval → List Approval
erase_approval level [] = []
erase_approval level (a ∷ rest) =
    if level_eq a.level level then rest else a ∷ erase_approval level rest

-- the same for the old table, which holds levels alone
abbrev pub has_level : PermissionLevel → List PermissionLevel → Bool
has_level level [] = false
has_level level (l ∷ ls) = if level_eq l level then true else has_level level ls

abbrev pub erase_level : PermissionLevel → List PermissionLevel → List PermissionLevel
erase_level level [] = []
erase_level level (l ∷ ls) = if level_eq l level then ls else l ∷ erase_level level ls

-- An approval counts where its actor has not invalidated since.
abbrev pub is_live : Option Invalidation → ℕ → Bool
is_live none time = true
is_live (some it) time = ltb it.last_invalidation_time time

abbrev pub live_levels : (ℕ → Option Invalidation) → List Approval → List PermissionLevel
live_levels invalidated [] = []
live_levels invalidated (a ∷ given) =
    let rest = live_levels invalidated given in
    if is_live (invalidated a.level.actor) a.time then a.level ∷ rest else rest

-- In the old table an approval has no time: any invalidation of its actor cancels it.
abbrev pub live_old : (ℕ → Option Invalidation) → List PermissionLevel → List PermissionLevel
live_old invalidated [] = []
live_old invalidated (l ∷ ls) =
    let rest = live_old invalidated ls in if is_some (invalidated l.actor) then rest else l ∷ rest

-- What the contract takes from the chain about a packed transaction: the expiration in its header,
-- the result of `check_transaction_authorization` for the levels that are provided, and whether it
-- has a given hash.
pub record Transactions : Type 1 where
  pub Trx : Type 0
  pub Hash : Type 0
  pub expiration : Trx → ℕ
  pub check_authorization : Trx → List PermissionLevel → ℤ
  pub has_sha256 : Trx → Hash → Bool

module _ ⦃p : Platform⦄ ⦃x : Transactions⦄ where
  open p use {Table, find, put, drop}
  open x use {Trx, Hash, expiration, check_authorization, has_sha256}

  pub record Proposal : Type 0 where
    pub packed_transaction : Trx

  -- A deferred transaction that was sent: its id, its payer and its bytes.
  pub record Deferred : Type 0 where
    pub id : ℕ
    pub sender : ℕ
    pub trx : Trx

  pub record State : Type 0 where
    pub proposals : Table Proposal
    pub old_approvals : Table OldApprovalsInfo
    pub approvals : Table ApprovalsInfo
    pub invals : Table Invalidation
    pub deferred : List Deferred

  abbrev pub request : PermissionLevel → Approval
  request level = record { level = level; time = 0 }

  abbrev put_approvals : ℕ → ℕ → ℕ → ApprovalsInfo → State → State
  put_approvals payer proposer name a s = record s {
    approvals = put s.approvals payer proposer name a;
  }

  abbrev put_old : ℕ → ℕ → ℕ → OldApprovalsInfo → State → State
  put_old payer proposer name a s = record s {
    old_approvals = put s.old_approvals payer proposer name a;
  }

  -- `emplace` fails on the chain where the table has a row of that key.
  pub propose : Context → ℕ → ℕ → List PermissionLevel → Trx → Action State (Unit {0})
  propose ctx proposer proposal_name requested trx = do
    require_auth ctx proposer
    check (leb (current_seconds ctx) (expiration trx)) "transaction expired"
    existing ← gets (λ s. find s.proposals proposer proposal_name)
    check (not (is_some existing)) "proposal with the same name exists"
    check (ltb_ℤ (pos 0) (check_authorization trx requested)) "transaction authorization failed"
    modify (λ s. record s {
      proposals =
          put s.proposals proposer proposer proposal_name (record { packed_transaction = trx });
    })
    apps ← gets (λ s. find s.approvals proposer proposal_name)
    check (not (is_some apps))
        "could not insert object, most likely a uniqueness constraint was violated"
    modify (
        put_approvals proposer proposer proposal_name
          (record { requested_approvals = map request requested; provided_approvals = [] }))

  abbrev check_hash : ℕ → ℕ → Option Hash → Action State (Unit {0})
  check_hash proposer proposal_name none = modify (λ s. s)
  check_hash proposer proposal_name (some hash) = do
    found ← gets (λ s. find s.proposals proposer proposal_name)
    prop ← or_fail found "proposal not found"
    check (has_sha256 prop.packed_transaction hash) "hash mismatch"

  -- `apps_it != apptable.end()`, or else the old table
  abbrev approve_in :
      Context → ℕ → ℕ → PermissionLevel → Option ApprovalsInfo → Action State (Unit {0})
  approve_in ctx proposer proposal_name level (some apps) = do
    check (has_approval level apps.requested_approvals)
        "approval is not on the list of requested approvals"
    modify (
        put_approvals proposer proposer proposal_name (record {
          requested_approvals = erase_approval level apps.requested_approvals;
          provided_approvals =
              apps.provided_approvals
              ++ record { level = level; time = ctx.current_time_point } ∷ [];
        }))
  approve_in ctx proposer proposal_name level none = do
    found ← gets (λ s. find s.old_approvals proposer proposal_name)
    apps ← or_fail found "proposal not found"
    check (has_level level apps.requested_approvals)
        "approval is not on the list of requested approvals"
    modify (
        put_old proposer proposer proposal_name (record {
          requested_approvals = erase_level level apps.requested_approvals;
          provided_approvals = apps.provided_approvals ++ level ∷ [];
        }))

  pub approve : Context → ℕ → ℕ → PermissionLevel → Option Hash → Action State (Unit {0})
  approve ctx proposer proposal_name level proposal_hash = do
    require_auth_level ctx level.actor level.permission
    check_hash proposer proposal_name proposal_hash
    apps ← gets (λ s. find s.approvals proposer proposal_name)
    approve_in ctx proposer proposal_name level apps

  abbrev unapprove_in :
      Context → ℕ → ℕ → PermissionLevel → Option ApprovalsInfo → Action State (Unit {0})
  unapprove_in ctx proposer proposal_name level (some apps) = do
    check (has_approval level apps.provided_approvals) "no approval previously granted"
    modify (
        put_approvals proposer proposer proposal_name (record {
          requested_approvals =
              apps.requested_approvals
              ++ record { level = level; time = ctx.current_time_point } ∷ [];
          provided_approvals = erase_approval level apps.provided_approvals;
        }))
  unapprove_in ctx proposer proposal_name level none = do
    found ← gets (λ s. find s.old_approvals proposer proposal_name)
    apps ← or_fail found "proposal not found"
    check (has_level level apps.provided_approvals) "no approval previously granted"
    modify (
        put_old proposer proposer proposal_name (record {
          requested_approvals = apps.requested_approvals ++ level ∷ [];
          provided_approvals = erase_level level apps.provided_approvals;
        }))

  pub unapprove : Context → ℕ → ℕ → PermissionLevel → Action State (Unit {0})
  unapprove ctx proposer proposal_name level = do
    require_auth_level ctx level.actor level.permission
    apps ← gets (λ s. find s.approvals proposer proposal_name)
    unapprove_in ctx proposer proposal_name level apps

  abbrev remove_approvals : ℕ → ℕ → Option ApprovalsInfo → Action State (Unit {0})
  remove_approvals proposer proposal_name (some apps) =
      modify (λ s. record s { approvals = drop s.approvals proposer proposal_name })
  remove_approvals proposer proposal_name none = do
    found ← gets (λ s. find s.old_approvals proposer proposal_name)
    check (is_some found) "proposal not found"
    modify (λ s. record s { old_approvals = drop s.old_approvals proposer proposal_name })

  pub cancel : Context → ℕ → ℕ → ℕ → Action State (Unit {0})
  cancel ctx proposer proposal_name canceler = do
    require_auth ctx canceler
    found ← gets (λ s. find s.proposals proposer proposal_name)
    prop ← or_fail found "proposal not found"
    when (not (canceler == proposer)) (
        check (ltb (expiration prop.packed_transaction) (current_seconds ctx))
          "cannot cancel until expiration")
    modify (λ s. record s { proposals = drop s.proposals proposer proposal_name })
    apps ← gets (λ s. find s.approvals proposer proposal_name)
    remove_approvals proposer proposal_name apps

  -- The levels that count, and the row that is used up.
  abbrev collect : Context → ℕ → ℕ → Option ApprovalsInfo → Action State (List PermissionLevel)
  collect ctx proposer proposal_name (some apps) = do
    levels ← gets (λ s. live_levels (find s.invals ctx.self) apps.provided_approvals)
    modify (λ s. record s { approvals = drop s.approvals proposer proposal_name })
    gets (λ s. levels)
  collect ctx proposer proposal_name none = do
    found ← gets (λ s. find s.old_approvals proposer proposal_name)
    apps ← or_fail found "proposal not found"
    levels ← gets (λ s. live_old (find s.invals ctx.self) apps.provided_approvals)
    modify (λ s. record s { old_approvals = drop s.old_approvals proposer proposal_name })
    gets (λ s. levels)

  -- `uint128_t(proposer) << 64 | proposal_name`, of two 64-bit names
  abbrev pub deferred_id : ℕ → ℕ → ℕ
  deferred_id proposer proposal_name = proposer * 2 ^ 64 + proposal_name

  pub exec : Context → ℕ → ℕ → ℕ → Action State (Unit {0})
  exec ctx proposer proposal_name executer = do
    require_auth ctx executer
    found ← gets (λ s. find s.proposals proposer proposal_name)
    prop ← or_fail found "proposal not found"
    check (leb (current_seconds ctx) (expiration prop.packed_transaction)) "transaction expired"
    apps ← gets (λ s. find s.approvals proposer proposal_name)
    approvals ← collect ctx proposer proposal_name apps
    check (ltb_ℤ (pos 0) (check_authorization prop.packed_transaction approvals))
        "transaction authorization failed"
    modify (λ s. record s {
      deferred =
          record {
            id = deferred_id proposer proposal_name;
            sender = executer;
            trx = prop.packed_transaction;
          }
          ∷ s.deferred;
    })
    modify (λ s. record s { proposals = drop s.proposals proposer proposal_name })

  pub invalidate : Context → ℕ → Action State (Unit {0})
  invalidate ctx account = do
    require_auth ctx account
    modify (λ s. record s {
      invals =
          put s.invals account ctx.self account
            (record { account = account; last_invalidation_time = ctx.current_time_point });
    })
