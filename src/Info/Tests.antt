-- ===== src/Info/Tests.antt =====
-- Runs of the registry, and its theorem at a concrete input.
use ux_contracts.Prelude.{◌≡◌, refl, [], ◌∷◌, true, false}
use ux_contracts.Chain.Action.{ok, err}
use ux_contracts.Chain.Context.{Context}
use ux_contracts.Chain.Memory.{memory}
use ux_contracts.Info.{State, verif_of, adduserver}
use ux_contracts.Info.Guards.{add_verification, perform, Guarded, perform-Guarded}

abbrev chain : Context
chain = record {
  self = 1;
  has_auth = λ a. true;
  has_auth_level = λ a b. true;
  is_account = λ a. true;
  current_time_point = 3;
}

abbrev registered : State
registered = record {
  kycaccounts = (1, 7, record { account = 7 }) ∷ [];
  keytypes = (1, 20, record { key = 20; definition = "identity"; user = false }) ∷ [];
  userverifs = [];
  userkeys = [];
}

abbrev verified : State
verified = record registered {
  userverifs = (7, 0, record { id = 0; user = 8; verification_key = 20; timestamp = 3 }) ∷ [];
}

verifies : perform chain (add_verification 7 8 20) registered ≡ ok (tt, verified)
unfolding perform adduserver verif_of
verifies = refl

verifies_again :
    perform chain (add_verification 7 8 20) verified ≡ err "user verification already present"
unfolding perform adduserver verif_of
verifies_again = refl

perform-Guarded_example : Guarded chain registered verified
perform-Guarded_example =
    perform-Guarded chain (add_verification 7 8 20) registered verified verifies
