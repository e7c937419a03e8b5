-- ===== src/Resource/History.antt =====
-- Any history of the resource model: calls in sequence, the failed ones dropped by the chain.
use ux_contracts.Prelude.{ℕ, ◌≡◌, refl, Bool, true, none, List, [], ◌∷◌, arith, contains}
use ux_contracts.Chain.Action.{Action, Result, ok, err}
use ux_contracts.Chain.Context.{Context}
use ux_contracts.Chain.Platform.{Platform}
use ux_contracts.Chain.Double.{Double}
use ux_contracts.Resource.{Metric, System, State, Texts, config_of}
use ux_contracts.Resource.Submission.{settotalusg, addactusg}
use ux_contracts.Resource.Period.{initresource, claimdistrib, resactivate, nextperiod}
use ux_contracts.Resource.Soundness.{
  IsSound, addactusg-IsSound, claimdistrib-IsSound, initresource-IsSound, nextperiod-IsSound,
  resactivate-IsSound, settotalusg-IsSound,
}

module _ ⦃p : Platform⦄ ⦃d : Double⦄ ⦃t : Texts⦄ where
  open p use {find, put, find-put, keys}

  -- The actions of the resource model with their arguments, and what each reads of the system.
  pub data Request : Type 0 where
    init_request : ℕ → ℕ → ℕ → ℕ → d.F → d.F → Request
    total_request : System → ℕ → ℕ → ℕ → ℕ → ℕ → Request
    dataset_request : System → ℕ → ℕ → List Metric → ℕ → Request
    period_request : System → Request
    claim_request : System → ℕ → Request
    activate_request : Bool → Request

  unfoldable pub perform : Context → Request → Action State (Unit {0})
  perform ctx (init_request size threshold start seconds rate pay) =
      initresource ctx size threshold start seconds rate pay
  perform ctx (total_request sys source cpu net commit start) =
      settotalusg ctx sys source cpu net commit start
  perform ctx (dataset_request sys source id dataset start) =
      addactusg ctx sys source id dataset start
  perform ctx (period_request sys) = nextperiod ctx sys
  perform ctx (claim_request sys account) = claimdistrib ctx sys account
  perform ctx (activate_request active) = resactivate ctx active

  abbrev settle : Result (Unit {0} × State) → State → State
  settle (ok (u, s')) s = s'
  settle (err e) s = s

  -- The contract stays at its account `self`; all else of the contexts is free.
  unfoldable pub run : ℕ → List (Context × Request) → State → State
  run self [] s = s
  run self ((ctx, request) ∷ rest) s =
      run self rest (settle (perform (record ctx { self = self }) request s) s)

  perform-IsSound :
      (ctx : Context) (request : Request) (s s' : State)
      → IsSound ctx.self s
      → perform ctx request s ≡ ok (tt, s')
      → IsSound ctx.self s'
  unfolding perform
  perform-IsSound ctx (init_request z h b n r y) s s' i e =
      initresource-IsSound ctx z h b n r y s s' i e
  perform-IsSound ctx (total_request sys o c n h b) s s' i e =
      settotalusg-IsSound ctx sys o c n h b s s' i e
  perform-IsSound ctx (dataset_request sys o k ms b) s s' i e =
      addactusg-IsSound ctx sys o k ms b s s' i e
  perform-IsSound ctx (period_request sys) s s' i e = nextperiod-IsSound ctx sys s s' i e
  perform-IsSound ctx (claim_request sys a) s s' i e = claimdistrib-IsSound ctx sys a s s' i e
  perform-IsSound ctx (activate_request b) s s' i e = resactivate-IsSound ctx b s s' i e

  settle-IsSound :
      (self : ℕ) (r : Result (Unit {0} × State)) (s : State)
      → IsSound self s
      → ((s' : State) → r ≡ ok (tt, s') → IsSound self s')
      → IsSound self (settle r s)
  settle-IsSound self (ok (tt, s')) s h k = k s' refl
  settle-IsSound self (err e) s h k = h

  run_from :
      (self : ℕ) (requests : List (Context × Request)) (s : State)
      → IsSound self s
      → IsSound self (run self requests s)
  unfolding run
  run_from self [] s h = h
  run_from self ((ctx, request) ∷ rest) s h =
      let here = record ctx { self = self } in
      run_from self rest (settle (perform here request s) s) (
        settle-IsSound self (perform here request s) s h
          (λ s' e. perform-IsSound here request s s' h e))

  -- No configuration and no oracle's row yet.
  pub record IsFresh (s : State) : Type 0 where
    pub no_config : s.config ≡ none
    pub no_usage : (scope source : ℕ) → find s.usage scope source ≡ none

  -- From a contract without configuration or oracles' rows, after any calls by anyone (failed ones
  -- dropped), whatever the rest of the system is at each call: the oracles that are counted for the
  -- period are distinct and each has submitted its totals, and no oracle has allocated to accounts
  -- more than it declared.
  pub run-IsSound :
      (self : ℕ) (requests : List (Context × Request)) (s : State)
      → IsFresh s
      → IsSound self (run self requests s)
  run-IsSound self requests s f =
      let oracles : (config_of s).submitting_oracles ≡ [] = rw f.no_config refl in
      run_from self requests s (record {
        distinct = rw oracles tt;
        submitted =
            λ o c. let listed : contains [] o ≡ true = rw oracles at c in absurd (ground arith);
        allocated = λ scope source row e. absurd (cc (e, f.no_usage scope source));
      })
