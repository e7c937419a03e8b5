-- ===== src/Chain/Context.antt =====
-- What an action may ask the chain: who is running, who has authorised it, which accounts exist,
-- and the time in microseconds.
use ux_contracts.Prelude.{ℕ, ◌/◌, ◌%◌, ◌^◌, Bool}
use ux_contracts.Chain.Action.{Action, check}

pub record Context : Type 0 where
  -- `get_self()`
  pub self : ℕ
  pub has_auth : ℕ → Bool
  -- an authorisation by an account and one of its permissions
  pub has_auth_level : ℕ → ℕ → Bool
  pub is_account : ℕ → Bool
  pub current_time_point : ℕ

module _ {S : Type 0} (ctx : Context) where
  abbrev pub require_auth : ℕ → Action S (Unit {0})
  require_auth account = check (ctx.has_auth account) "missing required authority"

  abbrev pub require_auth_level : ℕ → ℕ → Action S (Unit {0})
  require_auth_level actor permission =
      check (ctx.has_auth_level actor permission) "missing required authority"

-- `time_point_sec( current_time_point() )`: whole seconds, as a `uint32_t`.
abbrev pub current_seconds : Context → ℕ
current_seconds ctx = ctx.current_time_point / 1_000_000 % 2 ^ 32
