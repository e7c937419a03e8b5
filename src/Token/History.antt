-- ===== src/Token/History.antt =====
-- Any history of the token contract: calls in sequence, the failed ones dropped by the chain.
use ux_contracts.Prelude.{ℕ, ◌≡◌, refl, none, some, List, [], ◌∷◌, ◌≤ℤ◌, pos, String}
use ux_contracts.Chain.Action.{Result, ok, err, Action}
use ux_contracts.Chain.Asset.{Asset, Symbol}
use ux_contracts.Chain.Context.{Context}
use ux_contracts.Chain.Platform.{Platform}
use ux_contracts.Token.{
  CurrencyStats, State, find_account, find_stat, create, issue, retire, transfer, open_account,
  close,
}
use ux_contracts.Token.Balances.{balance}
use ux_contracts.Token.Supply.{IsBacked}
use ux_contracts.Token.Conservation.{
  IsConserved, transfer-IsConserved, issue-IsConserved, retire-IsConserved,
}
use ux_contracts.Token.Rows.{create-IsConserved, open_account-IsConserved, close-IsConserved}

-- The six actions with their arguments; each comes with the context in which it runs.
pub data Call : Type 0 where
  create_call : ℕ → Asset → Call
  issue_call : ℕ → Asset → String → Call
  retire_call : Asset → String → Call
  transfer_call : ℕ → ℕ → Asset → String → Call
  open_call : ℕ → Symbol → ℕ → Call
  close_call : ℕ → Symbol → Call

-- An inline action to the token contract, and the accounts whose active permission it carries.
pub record Inline : Type 0 where
  pub authorization : List ℕ
  pub call : Call

module _ ⦃p : Platform⦄ where
  unfoldable pub perform : Context → Call → Action State (Unit {0})
  perform ctx (create_call issuer maximum_supply) = create ctx issuer maximum_supply
  perform ctx (issue_call to quantity memo) = issue ctx to quantity memo
  perform ctx (retire_call quantity memo) = retire ctx quantity memo
  perform ctx (transfer_call from to quantity memo) = transfer ctx from to quantity memo
  perform ctx (open_call owner symbol ram_payer) = open_account ctx owner symbol ram_payer
  perform ctx (close_call owner symbol) = close ctx owner symbol

  abbrev pub settle : Result (Unit {0} × State) → State → State
  settle (ok (u, s')) s = s'
  settle (err e) s = s

  unfoldable pub run : List (Context × Call) → State → State
  run [] s = s
  run ((ctx, call) ∷ calls) s = run calls (settle (perform ctx call s) s)

  pub perform-IsConserved :
      (ctx : Context) (call : Call) (s s' : State)
      → IsConserved s
      → perform ctx call s ≡ ok (tt, s')
      → IsConserved s'
  unfolding perform
  perform-IsConserved ctx (create_call i m) s s' h e = create-IsConserved ctx i m s s' h e
  perform-IsConserved ctx (issue_call to q m) s s' h e = issue-IsConserved ctx to q m s s' h e
  perform-IsConserved ctx (retire_call q m) s s' h e = retire-IsConserved ctx q m s s' h e
  perform-IsConserved ctx (transfer_call f t q m) s s' h e =
      transfer-IsConserved ctx f t q m s s' h e
  perform-IsConserved ctx (open_call o y r) s s' h e = open_account-IsConserved ctx o y r s s' h e
  perform-IsConserved ctx (close_call o y) s s' h e = close-IsConserved ctx o y s s' h e

  pub settle-IsConserved :
      (r : Result (Unit {0} × State)) (s : State)
      → IsConserved s
      → ((s' : State) → r ≡ ok (tt, s') → IsConserved s')
      → IsConserved (settle r s)
  settle-IsConserved (ok (tt, s')) s h k = k s' refl
  settle-IsConserved (err e) s h k = h

  -- Whatever calls are made, by anyone, every supply stays between zero and its maximum and stays
  -- the sum of the balances.
  pub run-IsConserved :
      (calls : List (Context × Call)) (s : State) → IsConserved s → IsConserved (run calls s)
  unfolding run
  run-IsConserved [] s h = h
  run-IsConserved ((ctx, call) ∷ calls) s h =
      run-IsConserved calls (settle (perform ctx call s) s) (
        settle-IsConserved (perform ctx call s) s h (λ s' e. perform-IsConserved ctx call s s' h e))

  -- A contract with no rows.
  pub record IsFresh (s : State) : Type 0 where
    pub no_accounts : (owner code : ℕ) → find_account s owner code ≡ none
    pub no_stats : (code : ℕ) → find_stat s code ≡ none

  pub fresh-IsConserved : (s : State) → IsFresh s → IsConserved s
  fresh-IsConserved s f = record {
    sound = record {
      stats = λ c st e. absurd (cc (e, f.no_stats c));
      rows = λ o c a e. absurd (cc (e, f.no_accounts o c));
    };
    backed = λ c st e. absurd (cc (e, f.no_stats c));
  }

  -- From a contract with no rows, after any calls by anyone: the supply of each token is between
  -- zero and its maximum, and there are distinct accounts outside of which every balance is zero and
  -- whose balances add up to the supply.
  pub supply-IsBacked :
      (calls : List (Context × Call)) (s : State)
      → IsFresh s
      → (code : ℕ) (st : CurrencyStats) → find_stat (run calls s) code ≡ some st
      → (pos 0 ≤ℤ st.supply.amount)
        × (st.supply.amount ≤ℤ st.max_supply.amount)
        × IsBacked (λ o. balance (run calls s) o code) st.supply.amount
  supply-IsBacked calls s f code st e =
      let h = run-IsConserved calls s (fresh-IsConserved s f) in
      let v = h.sound.stats code st e in (v.supply_nonneg, v.supply_le_max, h.backed code st e)
