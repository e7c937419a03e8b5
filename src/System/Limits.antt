-- ===== src/System/Limits.antt =====
-- contracts/eosio.system/src/eosio.system.cpp: the resource limits that the system sets by hand.
use ux_contracts.Prelude.{
  ℕ, true, false, not, ◌||◌, Option, none, some, String, ℤ, pos, negsuc, leb_ℤ, is_some,
  if◌then◌else◌,
}
use ux_contracts.Chain.Action.{Action, ◌>>=◌, ◌>>◌, check, or_fail, gets, modify}
use ux_contracts.Chain.Context.{Context, require_auth}
use ux_contracts.Chain.Platform.{Platform}
use ux_contracts.Chain.Double.{Double}
use ux_contracts.System.Tables.{
  UserResources, VoterInfo, new_voter, set_field, ram_managed, net_managed, cpu_managed,
}
use ux_contracts.System.State.{State, set_resource_limits, put_voter}
use ux_contracts.System.Ram.{is_managed}

module _ ⦃p : Platform⦄ ⦃d : Double⦄ where
  open p use {find, put}

  unfoldable pub setalimits : Context → ℕ → (ram net cpu : ℤ) → Action State (Unit {0})
  setalimits ctx account ram net cpu = do
    require_auth ctx ctx.self
    ritr ← gets (λ s. find s.userres account account)
    check (not (is_some ritr)) "only supports unlimited accounts"
    vitr ← gets (λ s. find s.voters ctx.self account)
    check
        (not (
          is_managed ram_managed vitr
          || is_managed net_managed vitr
          || is_managed cpu_managed vitr))
        "cannot use setalimits on an account with managed resources"
    modify (set_resource_limits account ram net cpu)

  -- The limit is given back to the system: the row of the voter has the flag, which is cleared.
  abbrev pub unmanage : Context → ℕ → ℕ → String → Action State (Unit {0})
  unmanage ctx account field message = do
    vitr ← gets (λ s. find s.voters ctx.self account)
    check (is_managed field vitr) message
    v ← or_fail vitr "cannot pass end iterator to modify"
    modify (put_voter 0 ctx.self account (record v { flags1 = set_field v.flags1 field false }))

  -- The limit is managed: the flag is set in the row of the voter, or in a new one.
  abbrev pub manage_row : ℕ → Option VoterInfo → VoterInfo
  manage_row account none = new_voter account
  manage_row account (some v) = v

  abbrev pub manage : Context → ℕ → ℕ → Action State (Unit {0})
  manage ctx account field = do
    vitr ← gets (λ s. find s.voters ctx.self account)
    modify (
        put_voter (if is_some vitr then 0 else account) ctx.self account
          (let v = manage_row account vitr in record v { flags1 = set_field v.flags1 field true }))

  -- What the account's row has, zero where there is none.
  abbrev pub own : (UserResources → ℤ) → Option UserResources → ℤ
  own f none = pos 0
  own f (some r) = f r

  unfoldable pub setacctram : Context → ℕ → Option ℤ → Action State (Unit {0})
  setacctram ctx account none = do
    require_auth ctx ctx.self
    l ← gets (λ s. s.limits account)
    unmanage ctx account ram_managed "RAM of account is already unmanaged"
    ritr ← gets (λ s. find s.userres account account)
    modify (set_resource_limits account (own (λ r. r.ram_bytes) ritr) l.net l.cpu)
  setacctram ctx account (some ram_bytes) = do
    require_auth ctx ctx.self
    l ← gets (λ s. s.limits account)
    check (leb_ℤ (pos 0) ram_bytes) "not allowed to set RAM limit to unlimited"
    manage ctx account ram_managed
    modify (set_resource_limits account ram_bytes l.net l.cpu)

  unfoldable pub setacctnet : Context → ℕ → Option ℤ → Action State (Unit {0})
  setacctnet ctx account none = do
    require_auth ctx ctx.self
    l ← gets (λ s. s.limits account)
    unmanage ctx account net_managed "Network bandwidth of account is already unmanaged"
    ritr ← gets (λ s. find s.userres account account)
    modify (set_resource_limits account l.ram (own (λ r. r.net_weight.amount) ritr) l.cpu)
  setacctnet ctx account (some net_weight) = do
    require_auth ctx ctx.self
    l ← gets (λ s. s.limits account)
    check (leb_ℤ (negsuc 0) net_weight) "invalid value for net_weight"
    manage ctx account net_managed
    modify (set_resource_limits account l.ram net_weight l.cpu)

  unfoldable pub setacctcpu : Context → ℕ → Option ℤ → Action State (Unit {0})
  setacctcpu ctx account none = do
    require_auth ctx ctx.self
    l ← gets (λ s. s.limits account)
    unmanage ctx account cpu_managed "CPU bandwidth of account is already unmanaged"
    ritr ← gets (λ s. find s.userres account account)
    modify (set_resource_limits account l.ram l.net (own (λ r. r.cpu_weight.amount) ritr))
  setacctcpu ctx account (some cpu_weight) = do
    require_auth ctx ctx.self
    l ← gets (λ s. s.limits account)
    check (leb_ℤ (negsuc 0) cpu_weight) "invalid value for cpu_weight"
    manage ctx account cpu_managed
    modify (set_resource_limits account l.ram l.net cpu_weight)
