-- ===== src/System/Proxies.antt =====
-- The chains of proxies: who votes through whom, and that the chains end.
use ux_contracts.Prelude.{
  ℕ, ◌<◌, ◌≡◌, ◌≢◌, refl, sym, ap, ◌∙◌, Bool, true, false, ◌&&◌, Option, none, some, ◌==◌,
  if◌then◌else◌, arith,
}
use ux_contracts.Chain.Platform.{Platform}
use ux_contracts.Chain.Double.{Double}
use ux_contracts.Chain.Frame.{Relation}
use ux_contracts.System.Tables.{VoterInfo}
use ux_contracts.System.State.{State, put_voter}
use ux_contracts.System.Steps.{Steps}

module _ ⦃p : Platform⦄ ⦃d : Double⦄ where
  open p use {find, put, find-put}

  -- The proxy of an account, zero if it has none, and whether it is a proxy itself.
  abbrev pub proxy_of : Option VoterInfo → ℕ
  proxy_of none = 0
  proxy_of (some v) = v.proxy

  abbrev pub is_proxy_of : Option VoterInfo → Bool
  is_proxy_of none = false
  is_proxy_of (some v) = v.is_proxy

  -- Two states in which everyone has the same proxy, and the same accounts are proxies.
  pub record SameProxies (self : ℕ) (s t : State) : Type 0 where
    pub proxy : (a : ℕ) → proxy_of (find t.voters self a) ≡ proxy_of (find s.voters self a)
    pub is_proxy : (a : ℕ) → is_proxy_of (find t.voters self a) ≡ is_proxy_of (find s.voters self a)

  abbrev pub same_proxies : ℕ → Relation State
  same_proxies self = record {
    R = SameProxies self;
    same = λ s. record { proxy = λ a. refl; is_proxy = λ a. refl };
    join = λ s t u h k. record {
      proxy = λ a. k.proxy a ∙ h.proxy a;
      is_proxy = λ a. k.is_proxy a ∙ h.is_proxy a;
    };
  }

  row_proxy :
      (hit : Bool) (w : VoterInfo) (o : Option VoterInfo)
      → (hit ≡ true → w.proxy ≡ proxy_of o)
      → proxy_of (if hit then some w else o) ≡ proxy_of o
  row_proxy true w o h = h refl
  row_proxy false w o h = refl

  row_is_proxy :
      (hit : Bool) (w : VoterInfo) (o : Option VoterInfo)
      → (hit ≡ true → w.is_proxy ≡ is_proxy_of o)
      → is_proxy_of (if hit then some w else o) ≡ is_proxy_of o
  row_is_proxy true w o h = h refl
  row_is_proxy false w o h = refl

  -- The row that is hit is the one that was found.
  hit-found :
      (self scope account a : ℕ) (s : State) (o : Option VoterInfo)
      → ((scope == self) && (account == a)) ≡ true
      → find s.voters scope account ≡ o
      → find s.voters self a ≡ o
  hit-found self scope account a s o e found =
      let x : scope ≡ self = ground arith in
      let y : account ≡ a = ground arith in rw (← x, ← y) found

  -- A row that is written with the same proxy.
  pub put_voter-SameProxies :
      (self payer scope account : ℕ) (w : VoterInfo) (o : Option VoterInfo) (s : State)
      → find s.voters scope account ≡ o
      → w.proxy ≡ proxy_of o
      → w.is_proxy ≡ is_proxy_of o
      → SameProxies self s (put_voter payer scope account w s)
  put_voter-SameProxies self payer scope account w o s found e f =
      let at = find-put s.voters payer scope account w self in
      record {
        proxy = λ a.
            ap proxy_of (at a)
            ∙ row_proxy ((scope == self) && (account == a)) w (find s.voters self a)
                (λ h. e ∙ ap proxy_of (sym (hit-found self scope account a s o h found)));
        is_proxy = λ a.
            ap is_proxy_of (at a)
            ∙ row_is_proxy ((scope == self) && (account == a)) w (find s.voters self a)
                (λ h. f ∙ ap is_proxy_of (sym (hit-found self scope account a s o h found)));
      }

  pub proxies-Steps : (self : ℕ) → Steps (same_proxies self)
  proxies-Steps self = record {
    producer2 = λ payer scope account i s. record { proxy = λ a. refl; is_proxy = λ a. refl };
    votes = λ scope account i votes s found. record { proxy = λ a. refl; is_proxy = λ a. refl };
    weights = λ f s. record { proxy = λ a. refl; is_proxy = λ a. refl };
    activation = λ now v s. record { proxy = λ a. refl; is_proxy = λ a. refl };
    weight = λ scope account v last proxied s found.
        put_voter-SameProxies self 0 scope account
          (record v { last_vote_weight = last; proxied_vote_weight = proxied }) (some v) s found
          refl refl;
  }

  -- Each account stands above its proxy.
  abbrev pub IsRanked : ℕ → (ℕ → ℕ) → State → Type 0
  IsRanked self rank s =
      (a : ℕ)
      → proxy_of (find s.voters self a) ≢ 0
      → rank (proxy_of (find s.voters self a)) < rank a

  pub SameProxies-IsRanked :
      (self : ℕ) (rank : ℕ → ℕ) (s t : State)
      → SameProxies self s t
      → IsRanked self rank s
      → IsRanked self rank t
  SameProxies-IsRanked self rank s t h ranked a nonzero =
      rw (h.proxy a) (ranked a (λ e. nonzero (h.proxy a ∙ e)))
