-- ===== src/Token/Refinement.antt =====
-- The token contract does what the ledger says: every call that goes through is one that the ledger
-- allows, with the same outcome.
use ux_contracts.Prelude.{
  ℕ, ◌≡◌, ◌⊎◌, refl, sym, ap, subst, ◌∙◌, Bool, true, none, some, List, [], ◌∷◌, arith, ℤ, pos,
  ◌+ℤ◌, ◌-ℤ◌, ◌≤ℤ◌, String, Option-cases, inl, inr, int_laws,
}
use ux_contracts.Chain.Action.{Result, ok, err}
use ux_contracts.Chain.Asset.{Symbol, Asset, symbol_eq, symbol_eq_iff}
use ux_contracts.Chain.Context.{Context}
use ux_contracts.Chain.Platform.{Platform}
use ux_contracts.Token.{
  CurrencyStats, State, find_account, find_stat, create, issue, retire, transfer, open_account,
  close,
}
use ux_contracts.Token.Balances.{balance, balance_some, with_balance}
use ux_contracts.Token.Invariant.{balance_nonneg}
use ux_contracts.Token.Stats.{find-with_stat}
use ux_contracts.Token.Transfer.{Moved, transfer-Moved, transfer-Passed}
use ux_contracts.Token.Issuance.{issue-Supplied}
use ux_contracts.Token.Conservation.{IsConserved, retire_effect}
use ux_contracts.Token.Rows.{create-Created, close-Closed}
use ux_contracts.Token.History.{
  Call, create_call, issue_call, retire_call, transfer_call, open_call, close_call, perform, run,
  perform-IsConserved, settle, settle-IsConserved,
}
use ux_contracts.Token.Ledger.{
  Ledger, ledger_eq, set_held, allow, is_of, created, specified, replay, replay-cons,
}

allow-true : (test : Bool) (l m : Ledger) → test ≡ true → l ≡ m → allow test l ≡ some m
allow-true test l m h e = rw h (ap some e)

is_of-true :
    (q : Asset) (st : CurrencyStats)
    → pos 1 ≤ℤ q.amount
    → q.symbol ≡ st.supply.symbol
    → is_of q st ≡ true
is_of-true q st positive same = ground (arith, symbol_eq_iff q.symbol st.supply.symbol)

left-covered : (a b : ℤ) → pos 0 ≤ℤ b -ℤ a → a ≤ℤ b
left-covered a b h = omega (int_laws, h)

module _ ⦃p : Platform⦄ where
  open p use {find, drop, find-drop, find-put}

  -- What the rows say, with no row as a balance of zero.
  abbrev pub ledger_of : State → Ledger
  ledger_of s = record { held = λ o c. balance s o c; token = λ c. find_stat s c }

  create_refines :
      (ctx : Context) (issuer : ℕ) (max : Asset) (s s' : State)
      → create ctx issuer max s ≡ ok (tt, s')
      → specified ctx (create_call issuer max) (ledger_of s) ≡ some (ledger_of s')
  unfolding specified
  create_refines ctx issuer max s s' run =
      let c = create-Created ctx issuer max s s' run in
      rw c.fresh (
        allow-true _ _ (ledger_of s') (ground (arith, c.signed, c.positive)) (
          ledger_eq _ _ (λ o n. rw c.written refl)
            (λ n.
              rw c.written
                (sym (find-with_stat s ctx.self max.symbol.code (created issuer max) n)))))

  moved_balance :
      (ctx : Context) (from to : ℕ) (q : Asset) (memo : String) (s s' : State)
      → Moved ctx from to q memo s s'
      → (o c : ℕ)
      → set_held to q.symbol.code
          (balance s to q.symbol.code +ℤ q.amount)
          (set_held from q.symbol.code
            (balance s from q.symbol.code -ℤ q.amount)
            (λ o c. balance s o c))
          o
          c
        ≡ balance s' o c
  moved_balance ctx from to q memo s s' m o c =
      ground (arith, m.distinct, m.receiver, m.sender, m.others o c)

  transfer_refines :
      (ctx : Context) (from to : ℕ) (q : Asset) (memo : String) (s s' : State)
      → IsConserved s
      → transfer ctx from to q memo s ≡ ok (tt, s')
      → specified ctx (transfer_call from to q memo) (ledger_of s) ≡ some (ledger_of s')
  unfolding specified
  transfer_refines ctx from to q memo s s' h run =
      let t = transfer-Passed ctx from to q memo s s' run in
      let m = transfer-Moved ctx from to q memo s s' h.sound run in
      let code = q.symbol.code in
      rw t.found (
        allow-true _ _ (ledger_of s')
          (ground (
            arith,
            t.distinct,
            t.signed,
            t.receiver_exists,
            is_of-true q t.st t.positive t.same_symbol,
            m.covered,
          ))
          (ledger_eq _ _ (λ o c. moved_balance ctx from to q memo s s' m o c)
            (λ c. ap (λ w. find w c c) (sym m.same_stat))))

  issue_refines :
      (ctx : Context) (to : ℕ) (q : Asset) (memo : String) (s s' : State) (st : CurrencyStats)
      → IsConserved s
      → find_stat s q.symbol.code ≡ some st
      → issue ctx to q memo s ≡ ok (tt, s')
      → specified ctx (issue_call to q memo) (ledger_of s) ≡ some (ledger_of s')
  unfolding specified
  issue_refines ctx to q memo s s' st h found run =
      let (i, own) = issue-Supplied ctx q memo s s' st to h.sound found run in
      rw (found, own)
        (allow-true _ _ (ledger_of s')
          (ground (arith, i.signed, is_of-true q st i.positive i.same_symbol, i.in_bounds))
          (ledger_eq _ _ (λ o c. sym (i.balances o c)) (λ c. sym (i.stats c))))

  retire_refines :
      (ctx : Context) (q : Asset) (memo : String) (s s' : State) (st : CurrencyStats)
      → IsConserved s
      → find_stat s q.symbol.code ≡ some st
      → retire ctx q memo s ≡ ok (tt, s')
      → specified ctx (retire_call q memo) (ledger_of s) ≡ some (ledger_of s')
  unfolding specified
  retire_refines ctx q memo s s' st h found run =
      let i = retire_effect ctx q memo s s' st h found run in
      let covered : q.amount ≤ℤ balance s st.issuer q.symbol.code =
        left-covered q.amount (balance s st.issuer q.symbol.code) (
          subst (λ w. pos 0 ≤ℤ w) (i.balances st.issuer q.symbol.code ∙ ground arith)
            (balance_nonneg s' i.sound st.issuer q.symbol.code)) in
      rw found (
        allow-true _ _ (ledger_of s')
          (ground (arith, i.signed, is_of-true q st i.positive i.same_symbol, covered))
          (ledger_eq _ _ (λ o c. sym (i.balances o c)) (λ c. sym (i.stats c))))

  -- Nothing is written, or a row of zero where there was none.
  abbrev Opens : ℕ → Symbol → ℕ → State → State → Type 0
  Opens owner symbol ram_payer s s' =
      (s' ≡ s)
      ⊎ ((find_account s owner symbol.code ≡ none)
          × (s'
              ≡ with_balance s ram_payer owner symbol.code
                  (record { amount = pos 0; symbol = symbol })))

  open_account-Opened :
      (ctx : Context) (owner : ℕ) (symbol : Symbol) (ram_payer : ℕ) (s s' : State)
      (st : CurrencyStats)
      → find_stat s symbol.code ≡ some st
      → open_account ctx owner symbol ram_payer s ≡ ok (tt, s')
      → (ctx.has_auth ram_payer ≡ true)
        × (ctx.is_account owner ≡ true)
        × (symbol_eq st.supply.symbol symbol ≡ true)
        × Opens owner symbol ram_payer s s'
  unfolding open_account
  open_account-Opened ctx owner symbol ram_payer s s' st f run =
      elim (Option-cases (find_account s owner symbol.code)) [
        | inl missing ↦ (ground arith, ground arith, ground arith, inr (missing, ground arith))
        | inr (a, there) ↦ (ground arith, ground arith, ground arith, inl (ground arith))
      ]

  opened_balance :
      (owner : ℕ) (symbol : Symbol) (ram_payer : ℕ) (s s' : State)
      → Opens owner symbol ram_payer s s'
      → (o c : ℕ) → balance s o c ≡ balance s' o c
  opened_balance owner symbol ram_payer s s' (inl same) o c = rw same refl
  opened_balance owner symbol ram_payer s s' (inr (missing, after)) o c = rw after (
      ground (
        arith,
        missing,
        find-put s.accounts ram_payer owner symbol.code
            (record { balance = record { amount = pos 0; symbol = symbol } }) o c,
      ))

  opened_stat :
      (owner : ℕ) (symbol : Symbol) (ram_payer : ℕ) (s s' : State)
      → Opens owner symbol ram_payer s s'
      → s'.stat ≡ s.stat
  opened_stat owner symbol ram_payer s s' (inl same) = ap (λ (w : State). w.stat) same
  opened_stat owner symbol ram_payer s s' (inr (missing, after)) = ap (λ (w : State). w.stat) after

  open_refines :
      (ctx : Context) (owner : ℕ) (symbol : Symbol) (ram_payer : ℕ) (s s' : State)
      → open_account ctx owner symbol ram_payer s ≡ ok (tt, s')
      → specified ctx (open_call owner symbol ram_payer) (ledger_of s) ≡ some (ledger_of s')
  unfolding specified open_account
  open_refines ctx owner symbol ram_payer s s' run = elim (Option-cases (find_stat s symbol.code)) [
    | inl unknown ↦ absurd (ground arith)
    | inr (st, f) ↦
        let (signed, exists, same, after) =
          open_account-Opened ctx owner symbol ram_payer s s' st f run in
        rw f (
          allow-true _ _ (ledger_of s') (ground (arith, signed, exists, same)) (
            ledger_eq _ _ (λ o c. opened_balance owner symbol ram_payer s s' after o c)
              (λ c. ap (λ w. find w c c) (sym (opened_stat owner symbol ram_payer s s' after)))))
  ]

  close_refines :
      (ctx : Context) (owner : ℕ) (symbol : Symbol) (s s' : State)
      → close ctx owner symbol s ≡ ok (tt, s')
      → specified ctx (close_call owner symbol) (ledger_of s) ≡ some (ledger_of s')
  unfolding specified
  close_refines ctx owner symbol s s' run =
      let c = close-Closed ctx owner symbol s s' run in
      let empty : balance s owner symbol.code ≡ pos 0 =
        balance_some s owner symbol.code c.row c.found ∙ c.empty in
      allow-true _ _ (ledger_of s') (ground (arith, c.signed, empty)) (
        ledger_eq _ _
          (λ o n. rw c.written (ground (arith, find-drop s.accounts owner symbol.code o n, empty)))
          (λ n. rw c.written refl))

  perform_refines :
      (ctx : Context) (call : Call) (s s' : State)
      → IsConserved s
      → perform ctx call s ≡ ok (tt, s')
      → specified ctx call (ledger_of s) ≡ some (ledger_of s')
  unfolding perform issue retire
  perform_refines ctx (create_call i m) s s' h e = create_refines ctx i m s s' e
  perform_refines ctx (issue_call to q m) s s' h e =
      elim (Option-cases (find_stat s q.symbol.code)) [
        | inl missing ↦ absurd (ground arith)
        | inr (st, f) ↦ issue_refines ctx to q m s s' st h f e
      ]
  perform_refines ctx (retire_call q m) s s' h e = elim (Option-cases (find_stat s q.symbol.code)) [
    | inl missing ↦ absurd (ground arith)
    | inr (st, f) ↦ retire_refines ctx q m s s' st h f e
  ]
  perform_refines ctx (transfer_call f t q m) s s' h e = transfer_refines ctx f t q m s s' h e
  perform_refines ctx (open_call o y r) s s' h e = open_refines ctx o y r s s' e
  perform_refines ctx (close_call o y) s s' h e = close_refines ctx o y s s' e

  -- The calls of a history that went through.
  unfoldable pub accepted : List (Context × Call) → State → List (Context × Call)
  accepted [] s = []
  accepted ((ctx, call) ∷ calls) s =
      let rest = accepted calls (settle (perform ctx call s) s) in
      elim (perform ctx call s) [ ok r ↦ (ctx, call) ∷ rest | err e ↦ rest ]

  settled_refines :
      (ctx : Context) (call : Call) (r : Result (Unit {0} × State)) (rest : List (Context × Call))
      (s : State) (m : Ledger)
      → ((s' : State) → r ≡ ok (tt, s') → specified ctx call (ledger_of s) ≡ some (ledger_of s'))
      → replay rest (ledger_of (settle r s)) ≡ some m
      → replay (elim r [ ok r ↦ (ctx, call) ∷ rest | err e ↦ rest ]) (ledger_of s) ≡ some m
  settled_refines ctx call (ok (u, s')) rest s m step later =
      replay-cons ctx call rest (ledger_of s) (ledger_of s') (step s' refl) ∙ later
  settled_refines ctx call (err e) rest s m step later = later

  -- Where the rows are sound and each supply is the sum of the balances, after any calls by anyone:
  -- the ledger allows the calls that went through, one after the other, and ends with the balances
  -- and the tokens that the contract has.
  pub run_refines :
      (calls : List (Context × Call)) (s : State)
      → IsConserved s
      → replay (accepted calls s) (ledger_of s) ≡ some (ledger_of (run calls s))
  unfolding run accepted replay
  run_refines [] s h = refl
  run_refines ((ctx, call) ∷ calls) s h =
      let next = settle (perform ctx call s) s in
      settled_refines ctx call (perform ctx call s) (accepted calls next) s
        (ledger_of (run calls next)) (λ s' e. perform_refines ctx call s s' h e)
        (run_refines calls next (
          settle-IsConserved (perform ctx call s) s h
            (λ s' e. perform-IsConserved ctx call s s' h e)))
