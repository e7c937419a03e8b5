-- ===== src/AuthLimits.antt =====
-- contracts/eosio.system/src/limit_auth_changes.cpp: which of an account's permissions may authorise a
-- change of its authorities.
pub mod Owner
mod Tests
use ux_contracts.Prelude.{
  ℕ, Bool, true, false, not, ◌||◌, Option, none, some, is_some, List, [], ◌∷◌, ◌==◌, contains,
}
use ux_contracts.Chain.Action.{Action, ◌>>=◌, ◌>>◌, check, gets, modify, when}
use ux_contracts.Chain.Context.{Context, require_auth, require_auth_level}
use ux_contracts.Chain.Platform.{Platform}

pub record LimitAuthChange : Type 0 where
  pub account : ℕ
  pub allow_perms : List ℕ
  pub disallow_perms : List ℕ

-- `"owner"_n`
abbrev pub owner : ℕ
owner = 12044502819693133824

abbrev pub is_empty : List ℕ → Bool
is_empty [] = true
is_empty (x ∷ xs) = false

-- `name by( authorized_by.has_value() ? authorized_by.value().value : 0 )`
abbrev pub authorizer : Option ℕ → ℕ
authorizer none = 0
authorizer (some b) = b

module _ ⦃p : Platform⦄ where
  open p use {Table, find, put, drop}

  pub record State : Type 0 where
    pub limits : Table LimitAuthChange

  abbrev pub put_limits : Context → ℕ → List ℕ → List ℕ → State → State
  put_limits ctx account allow_perms disallow_perms s = record s {
    limits =
        put s.limits account ctx.self account (record {
          account = account;
          allow_perms = allow_perms;
          disallow_perms = disallow_perms;
        });
  }

  -- `!allow_perms.empty() || !disallow_perms.empty()`: the row is written, or else erased if it is there.
  abbrev pub write_limits : Context → ℕ → List ℕ → List ℕ → Bool → Action State (Unit {0})
  write_limits ctx account allow_perms disallow_perms true =
      modify (put_limits ctx account allow_perms disallow_perms)
  write_limits ctx account allow_perms disallow_perms false = do
    it ← gets (λ s. find s.limits ctx.self account)
    when (is_some it) (modify (λ s. record s { limits = drop s.limits ctx.self account }))

  pub limitauthchg : Context → ℕ → List ℕ → List ℕ → Action State (Unit {0})
  limitauthchg ctx account allow_perms disallow_perms = do
    require_auth ctx account
    check (is_empty allow_perms || is_empty disallow_perms)
        "either allow_perms or disallow_perms must be empty"
    check (is_empty allow_perms || contains allow_perms owner) "allow_perms does not contain owner"
    check (is_empty disallow_perms || not (contains disallow_perms owner))
        "disallow_perms contains owner"
    write_limits ctx account allow_perms disallow_perms
        (not (is_empty allow_perms) || not (is_empty disallow_perms))

  -- What the row asks of the permission.
  abbrev pub check_limits : ℕ → LimitAuthChange → Bool → Action State (Unit {0})
  check_limits by it true =
      check (not (contains it.disallow_perms by)) "authorized_by appears in disallow_perms"
  check_limits by it false =
      check (contains it.allow_perms by) "authorized_by does not appear in allow_perms"

  abbrev pub check_row : ℕ → Option LimitAuthChange → Action State (Unit {0})
  check_row by none = modify (λ s. s)
  check_row by (some it) = do
    check (not (by == 0)) "authorized_by is required for this account"
    check_limits by it (is_empty it.allow_perms)

  pub check_auth_change : Context → ℕ → Option ℕ → Action State (Unit {0})
  check_auth_change ctx account authorized_by = do
    let by = authorizer authorized_by
    when (not (by == 0)) (require_auth_level ctx account by)
    it ← gets (λ s. find s.limits ctx.self account)
    check_row by it
