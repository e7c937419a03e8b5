-- ===== src/AuthLimits/Tests.antt =====
-- Runs of the limits on authority changes, and their theorems at concrete inputs.
use ux_contracts.Prelude.{◌≡◌, refl, [], ◌∷◌, true, some}
use ux_contracts.Chain.Action.{ok, err}
use ux_contracts.Chain.Context.{Context}
use ux_contracts.Chain.Memory.{memory}
use ux_contracts.AuthLimits.{State, owner, limitauthchg, check_auth_change}
use ux_contracts.AuthLimits.Owner.{
  Limited, limitauthchg-Limited, Reach, fresh, change, owner_admitted, limits_hold, Respects,
  row_of,
}

abbrev chain : Context
chain = record {
  self = 1;
  has_auth = λ a. true;
  has_auth_level = λ a b. true;
  is_account = λ a. true;
  current_time_point = 0;
}

abbrev empty : State
empty = record { limits = [] }

abbrev limited : State
limited = record {
  limits = (1, 7, record { account = 7; allow_perms = owner ∷ 5 ∷ []; disallow_perms = [] }) ∷ [];
}

limits_set : limitauthchg chain 7 (owner ∷ 5 ∷ []) [] empty ≡ ok (tt, limited)
unfolding limitauthchg
limits_set = refl

limits_without_owner :
    limitauthchg chain 7 (5 ∷ []) [] empty ≡ err "allow_perms does not contain owner"
unfolding limitauthchg
limits_without_owner = refl

allowed : check_auth_change chain 7 (some 5) limited ≡ ok (tt, limited)
unfolding check_auth_change
allowed = refl

not_allowed :
    check_auth_change chain 7 (some 6) limited ≡ err "authorized_by does not appear in allow_perms"
unfolding check_auth_change
not_allowed = refl

limitauthchg-Limited_example : Limited chain 7 (owner ∷ 5 ∷ []) [] empty limited
limitauthchg-Limited_example =
    limitauthchg-Limited chain 7 (owner ∷ 5 ∷ []) [] empty limited limits_set

limited-Reach : Reach limited
limited-Reach = change chain 7 (owner ∷ 5 ∷ []) [] (fresh (λ self account. refl)) limits_set

owner_admitted_example : check_auth_change chain 7 (some owner) limited ≡ ok (tt, limited)
owner_admitted_example = owner_admitted chain 7 limited limited-Reach refl

limits_hold_example : (true ≡ true) × Respects (row_of 7 (owner ∷ 5 ∷ []) []) 5
limits_hold_example =
    limits_hold chain chain 7 (owner ∷ 5 ∷ []) [] (some 5) empty limited limited refl refl
      limits_set allowed
