-- ===== src/Info.antt =====
-- contracts/eosio.info: what the providers of verifications and the users themselves state of users.
pub mod Guards
mod Tests
use Prim.Native.String.{len}
use ux_contracts.Prelude.{
  ℕ, Bool, true, false, not, ◌&&◌, Option, none, some, is_some, List, [], ◌∷◌, ◌==◌, if◌then◌else◌,
  String, leb,
}
use ux_contracts.Chain.Action.{Action, ◌>>=◌, ◌>>◌, check, or_fail, gets, modify}
use ux_contracts.Chain.Context.{Context, require_auth}
use ux_contracts.Chain.Platform.{Platform}

pub record KycAccount : Type 0 where
  pub account : ℕ

pub record KeyType : Type 0 where
  pub key : ℕ
  pub definition : String
  pub user : Bool

pub record UserVerif : Type 0 where
  pub id : ℕ
  pub user : ℕ
  pub verification_key : ℕ
  pub timestamp : ℕ

pub record UserKey : Type 0 where
  pub id : ℕ
  pub user : ℕ
  pub key : ℕ
  pub memo : String

-- `"eosio"_n`
abbrev pub eosio : ℕ
eosio = 6138663577826885632

module _ ⦃p : Platform⦄ where
  open p use {Table, find, put, drop, keys, available_primary_key}

  -- `userverifs` has a scope for each provider.
  pub record State : Type 0 where
    pub kycaccounts : Table KycAccount
    pub keytypes : Table KeyType
    pub userverifs : Table UserVerif
    pub userkeys : Table UserKey

  -- The index `ckey`: the first of the rows, in the order of their ids, with the user and the key.
  abbrev find_verif : Table UserVerif → ℕ → ℕ → ℕ → List ℕ → Option ℕ
  find_verif t scope user key [] = none
  find_verif t scope user key (k ∷ ks) =
      let rest = find_verif t scope user key ks in
      elim (find t scope k) [
        | none ↦ rest
        | some r ↦ if (r.user == user) && (r.verification_key == key) then some k else rest
      ]

  abbrev find_key : Table UserKey → ℕ → ℕ → ℕ → List ℕ → Option ℕ
  find_key t scope user key [] = none
  find_key t scope user key (k ∷ ks) =
      let rest = find_key t scope user key ks in
      elim (find t scope k) [
        | none ↦ rest
        | some r ↦ if (r.user == user) && (r.key == key) then some k else rest
      ]

  unfoldable pub verif_of : State → ℕ → ℕ → ℕ → Option ℕ
  verif_of s scope user key = find_verif s.userverifs scope user key (keys s.userverifs scope)

  unfoldable pub key_of : State → ℕ → ℕ → ℕ → Option ℕ
  key_of s scope user key = find_key s.userkeys scope user key (keys s.userkeys scope)

  pub addkycacc : Context → ℕ → Action State (Unit {0})
  addkycacc ctx account = do
    require_auth ctx eosio
    itr ← gets (λ s. find s.kycaccounts ctx.self account)
    check (not (is_some itr)) "account already exists"
    modify (λ s. record s {
      kycaccounts = put s.kycaccounts ctx.self ctx.self account (record { account = account });
    })

  pub delkycacc : Context → ℕ → Action State (Unit {0})
  delkycacc ctx account = do
    require_auth ctx eosio
    itr ← gets (λ s. find s.kycaccounts ctx.self account)
    check (is_some itr) "kyc account not present"
    modify (λ s. record s { kycaccounts = drop s.kycaccounts ctx.self account })

  abbrev put_keytype : Context → ℕ → String → Bool → State → State
  put_keytype ctx key definition user s = record s {
    keytypes =
        put s.keytypes ctx.self ctx.self key
          (record { key = key; definition = definition; user = user });
  }

  pub addkeytype : Context → ℕ → String → Bool → Action State (Unit {0})
  addkeytype ctx key definition user = do
    require_auth ctx eosio
    itr ← gets (λ s. find s.keytypes ctx.self key)
    check (not (is_some itr)) "key already exists"
    modify (put_keytype ctx key definition user)

  pub updkeytype : Context → ℕ → String → Bool → Action State (Unit {0})
  updkeytype ctx key definition user = do
    require_auth ctx eosio
    itr ← gets (λ s. find s.keytypes ctx.self key)
    check (is_some itr) "key not present"
    modify (put_keytype ctx key definition user)

  -- The tests that both actions of a provider start with.
  abbrev check_verification : Context → ℕ → ℕ → ℕ → Action State (Unit {0})
  check_verification ctx kyc_account user verification_key = do
    require_auth ctx kyc_account
    ka_itr ← gets (λ s. find s.kycaccounts ctx.self kyc_account)
    check (is_some ka_itr) "kyc account not present"
    check (ctx.is_account user) "no account for specified user"
    found ← gets (λ s. find s.keytypes ctx.self verification_key)
    kt_itr ← or_fail found "verification_key not recognized"
    check (not kt_itr.user) "verification_key is a user key"

  pub adduserver : Context → ℕ → ℕ → ℕ → Action State (Unit {0})
  adduserver ctx kyc_account user verification_key = do
    check_verification ctx kyc_account user verification_key
    itr ← gets (λ s. verif_of s kyc_account user verification_key)
    check (not (is_some itr)) "user verification already present"
    modify (λ s. record s {
      userverifs =
          let id = available_primary_key s.userverifs kyc_account in
          put s.userverifs kyc_account kyc_account id (record {
            id = id;
            user = user;
            verification_key = verification_key;
            timestamp = ctx.current_time_point;
          });
    })

  pub deluserver : Context → ℕ → ℕ → ℕ → Action State (Unit {0})
  deluserver ctx kyc_account user verification_key = do
    check_verification ctx kyc_account user verification_key
    found ← gets (λ s. verif_of s kyc_account user verification_key)
    itr ← or_fail found "user verification not present"
    modify (λ s. record s { userverifs = drop s.userverifs kyc_account itr })

  abbrev write_key : Context → ℕ → ℕ → String → Option ℕ → Action State (Unit {0})
  write_key ctx user key memo none = modify (λ s. record s {
    userkeys =
        let id = available_primary_key s.userkeys ctx.self in
        put s.userkeys user ctx.self id (record { id = id; user = user; key = key; memo = memo });
  })
  write_key ctx user key memo (some id) = modify (λ s. record s {
    userkeys =
        put s.userkeys user ctx.self id (record { id = id; user = user; key = key; memo = memo });
  })

  pub setuserkey : Context → ℕ → ℕ → String → Action State (Unit {0})
  setuserkey ctx user key memo = do
    require_auth ctx user
    check (ctx.is_account user) "no account for specified user"
    check (leb (len memo) 1024) "memo exceeds permitted length of 1024 chars"
    kt_itr ← gets (λ s. find s.keytypes ctx.self key)
    check (is_some kt_itr) "key not recognised"
    itr ← gets (λ s. key_of s ctx.self user key)
    write_key ctx user key memo itr

  pub deluserkey : Context → ℕ → ℕ → Action State (Unit {0})
  deluserkey ctx user key = do
    require_auth ctx user
    check (ctx.is_account user) "no account for specified user"
    found ← gets (λ s. key_of s ctx.self user key)
    itr ← or_fail found "user key not present"
    modify (λ s. record s { userkeys = drop s.userkeys ctx.self itr })
