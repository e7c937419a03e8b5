-- ===== src/Info/Guards.antt =====
-- Who can change what in the contract's tables.
use ux_contracts.Prelude.{ℕ, ◌≡◌, Bool, true, is_some, String, arith, ◌⊎◌, inl, inr}
use ux_contracts.Chain.Action.{Action, ok}
use ux_contracts.Chain.Context.{Context}
use ux_contracts.Chain.Platform.{Platform}
use ux_contracts.Info.{
  State, eosio, addkycacc, delkycacc, addkeytype, updkeytype, adduserver, deluserver, setuserkey,
  deluserkey,
}

-- The eight actions with their arguments.
pub data Request : Type 0 where
  add_account : ℕ → Request
  delete_account : ℕ → Request
  add_type : ℕ → String → Bool → Request
  update_type : ℕ → String → Bool → Request
  add_verification : ℕ → ℕ → ℕ → Request
  delete_verification : ℕ → ℕ → ℕ → Request
  set_key : ℕ → ℕ → String → Request
  delete_key : ℕ → ℕ → Request

module _ ⦃p : Platform⦄ where
  open p use {find}

  unfoldable pub perform : Context → Request → Action State (Unit {0})
  perform ctx (add_account a) = addkycacc ctx a
  perform ctx (delete_account a) = delkycacc ctx a
  perform ctx (add_type k d u) = addkeytype ctx k d u
  perform ctx (update_type k d u) = updkeytype ctx k d u
  perform ctx (add_verification a u k) = adduserver ctx a u k
  perform ctx (delete_verification a u k) = deluserver ctx a u k
  perform ctx (set_key u k m) = setuserkey ctx u k m
  perform ctx (delete_key u k) = deluserkey ctx u k

  -- What stays, or who has signed.
  pub record Guarded (ctx : Context) (s s' : State) : Type 0 where
    pub registry :
        ((s'.kycaccounts ≡ s.kycaccounts) × (s'.keytypes ≡ s.keytypes))
        ⊎ (ctx.has_auth eosio ≡ true)
    pub verifications :
        (s'.userverifs ≡ s.userverifs)
        ⊎ ((provider : ℕ) × (ctx.has_auth provider ≡ true)
            × (is_some (find s.kycaccounts ctx.self provider) ≡ true))
    pub user_keys :
        (s'.userkeys ≡ s.userkeys)
        ⊎ ((user : ℕ) × (ctx.has_auth user ≡ true) × (ctx.is_account user ≡ true))

  -- An action that goes through changes the registry of providers and key types only if the system
  -- account has signed, verifications only if a registered provider has signed, and users' keys only
  -- if a user has signed whose account exists.
  pub perform-Guarded :
      (ctx : Context) (request : Request) (s s' : State)
      → perform ctx request s ≡ ok (tt, s')
      → Guarded ctx s s'
  unfolding perform addkycacc delkycacc addkeytype updkeytype adduserver deluserver setuserkey
      deluserkey
  perform-Guarded ctx (add_account a) s s' run = record {
    registry = inr (ground arith);
    verifications = inl (ground arith);
    user_keys = inl (ground arith);
  }
  perform-Guarded ctx (delete_account a) s s' run = record {
    registry = inr (ground arith);
    verifications = inl (ground arith);
    user_keys = inl (ground arith);
  }
  perform-Guarded ctx (add_type k d u) s s' run = record {
    registry = inr (ground arith);
    verifications = inl (ground arith);
    user_keys = inl (ground arith);
  }
  perform-Guarded ctx (update_type k d u) s s' run = record {
    registry = inr (ground arith);
    verifications = inl (ground arith);
    user_keys = inl (ground arith);
  }
  perform-Guarded ctx (add_verification a u k) s s' run = record {
    registry = inl (ground arith, ground arith);
    verifications = inr (a, ground arith, ground arith);
    user_keys = inl (ground arith);
  }
  perform-Guarded ctx (delete_verification a u k) s s' run = record {
    registry = inl (ground arith, ground arith);
    verifications = inr (a, ground arith, ground arith);
    user_keys = inl (ground arith);
  }
  perform-Guarded ctx (set_key u k m) s s' run = record {
    registry = inl (ground arith, ground arith);
    verifications = inl (ground arith);
    user_keys = inr (u, ground arith, ground arith);
  }
  perform-Guarded ctx (delete_key u k) s s' run = record {
    registry = inl (ground arith, ground arith);
    verifications = inl (ground arith);
    user_keys = inr (u, ground arith, ground arith);
  }
