-- ===== src/Token/Tests.antt =====
-- Tests of the token contract, and its theorems at concrete inputs.
use ux_contracts.Prelude.{
  ℕ, ◌≡◌, refl, List, [], ◌∷◌, true, false, some, pos, ◌-ℤ◌, ◌+ℤ◌, ◌≤ℤ◌, int64, if◌then◌else◌, ◌==◌,
  arith, subst, sym,
}
use ux_contracts.Chain.Action.{ok, err}
use ux_contracts.Chain.Asset.{Symbol, Asset}
use ux_contracts.Chain.Context.{Context}
use ux_contracts.Chain.Platform.{checked_add, checked_sub}
use ux_contracts.Chain.Memory.{memory}
use ux_contracts.Token.{
  State, CurrencyStats, create, issue, retire, transfer, open_account, close, sub_balance,
  add_balance, find_stat,
}
use ux_contracts.Token.Balances.{balance}
use ux_contracts.Token.Supply.{IsBacked}
use ux_contracts.Token.Conservation.{IsConserved, retire_effect}
use ux_contracts.Token.Transfer.{Moved, transfer-Moved}
use ux_contracts.Token.Issuance.{Supplied, issue-Supplied}
use ux_contracts.Token.Coverage.{transfer-succeeds}
use ux_contracts.Token.History.{
  Call, create_call, issue_call, retire_call, transfer_call, open_call, close_call, perform, run,
  IsFresh, supply-IsBacked, run-IsConserved, fresh-IsConserved,
}
use ux_contracts.Token.Ledger.{replay}
use ux_contracts.Token.Refinement.{ledger_of, accepted, run_refines}

abbrev utx : Symbol
utx = record { code = 77; precision = 4 }

abbrev amount_of : ℕ → Asset
amount_of n = record { amount = pos n; symbol = utx }

abbrev start : State
start = record { accounts = []; stat = []; notified = [] }

-- Account 1 runs the contract, 2 issues the token, 3 and 4 hold it. Everybody but 9 has signed.
abbrev ctx : Context
ctx = record {
  self = 1;
  has_auth = λ a. if a == 9 then false else true;
  has_auth_level = λ a b. true;
  is_account = λ a. true;
  current_time_point = 0;
}

-- The second and the fifth call fail: too much is issued, and account 4 holds too little.
abbrev calls : List (Context × Call)
calls =
    (ctx, create_call 2 (amount_of 1000))
    ∷ (ctx, issue_call 2 (amount_of 1001) "too much")
    ∷ (ctx, issue_call 2 (amount_of 500) "memo")
    ∷ (ctx, transfer_call 2 3 (amount_of 200) "")
    ∷ (ctx, transfer_call 4 3 (amount_of 1) "")
    ∷ (ctx, retire_call (amount_of 100) "")
    ∷ (ctx, open_call 5 utx 5)
    ∷ (ctx, close_call 5 utx)
    ∷ []

abbrev stats : CurrencyStats
stats = record { supply = amount_of 400; max_supply = amount_of 1000; issuer = 2 }

abbrev held : State
held = record {
  accounts =
      (2, 77, record { balance = amount_of 200 })
      ∷ (3, 77, record { balance = amount_of 200 })
      ∷ [];
  stat = (77, 77, stats) ∷ [];
  notified = 3 ∷ 2 ∷ [];
}

run-calls : run calls start ≡ held
unfolding run perform create issue retire transfer open_account close sub_balance add_balance
    checked_add checked_sub int64 ◌+ℤ◌ ◌-ℤ◌
run-calls = refl

start-IsFresh : IsFresh start
start-IsFresh = record { no_accounts = λ o c. refl; no_stats = λ c. refl }

held-IsConserved : IsConserved held
held-IsConserved =
    subst IsConserved run-calls
      (run-IsConserved calls start (fresh-IsConserved start start-IsFresh))

stats-found : find_stat (run calls start) 77 ≡ some stats
stats-found = subst (λ s. find_stat s 77 ≡ some stats) (sym run-calls) refl

supply-IsBacked_example :
    (pos 0 ≤ℤ pos 400)
    × (pos 400 ≤ℤ pos 1000)
    × IsBacked (λ o. balance (run calls start) o 77) (pos 400)
supply-IsBacked_example = supply-IsBacked calls start start-IsFresh 77 stats stats-found

run_refines_example : replay (accepted calls start) (ledger_of start) ≡ some (ledger_of held)
run_refines_example =
    subst (λ t. replay (accepted calls start) (ledger_of start) ≡ some (ledger_of t)) run-calls
      (run_refines calls start (fresh-IsConserved start start-IsFresh))

abbrev moved : State
moved = record {
  accounts =
      (4, 77, record { balance = amount_of 150 })
      ∷ (2, 77, record { balance = amount_of 50 })
      ∷ (3, 77, record { balance = amount_of 200 })
      ∷ [];
  stat = (77, 77, stats) ∷ [];
  notified = 4 ∷ 2 ∷ 3 ∷ 2 ∷ [];
}

transfer-Moved_example : Moved ctx 2 4 (amount_of 150) "" held moved
unfolding transfer sub_balance add_balance checked_add checked_sub int64 ◌+ℤ◌ ◌-ℤ◌
transfer-Moved_example =
    transfer-Moved ctx 2 4 (amount_of 150) "" held moved held-IsConserved.sound refl

transfer-succeeds_example :
    (s' : State) × (transfer ctx 3 2 (amount_of 200) "all" held ≡ ok (tt, s'))
transfer-succeeds_example =
    transfer-succeeds ctx 3 2 (amount_of 200) "all" held stats held-IsConserved refl refl refl
      (omega arith) (omega arith) (omega arith) refl refl (omega arith)

abbrev issued : State
issued = record {
  accounts =
      (2, 77, record { balance = amount_of 800 })
      ∷ (3, 77, record { balance = amount_of 200 })
      ∷ [];
  stat = (77, 77, record { supply = amount_of 1000; max_supply = amount_of 1000; issuer = 2 }) ∷ [];
  notified = 3 ∷ 2 ∷ [];
}

issue-Supplied_example :
    Supplied ctx
      (amount_of 600)
      held
      issued
      stats
      (pos 400 +ℤ pos 600)
      (balance held 2 77 +ℤ pos 600)
    × (2 ≡ stats.issuer)
unfolding issue add_balance checked_add int64 ◌+ℤ◌ ◌-ℤ◌
issue-Supplied_example =
    issue-Supplied ctx (amount_of 600) "" held issued stats 2 held-IsConserved.sound refl refl

abbrev retired : State
retired = record {
  accounts =
      (2, 77, record { balance = amount_of 0 }) ∷ (3, 77, record { balance = amount_of 200 }) ∷ [];
  stat = (77, 77, record { supply = amount_of 200; max_supply = amount_of 1000; issuer = 2 }) ∷ [];
  notified = 3 ∷ 2 ∷ [];
}

retire_effect_example :
    Supplied ctx
      (amount_of 200)
      held
      retired
      stats
      (pos 400 -ℤ pos 200)
      (balance held 2 77 -ℤ pos 200)
unfolding retire sub_balance checked_sub int64 ◌+ℤ◌ ◌-ℤ◌
retire_effect_example =
    retire_effect ctx (amount_of 200) "" held retired stats held-IsConserved refl refl

unsigned : transfer ctx 9 3 (amount_of 1) "" held ≡ err "missing required authority"
unfolding transfer
unsigned = refl
