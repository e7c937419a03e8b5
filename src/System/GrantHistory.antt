-- ===== src/System/GrantHistory.antt =====
-- contracts/eosio.system: any history of accounts, of stakes, of votes, of memory and of limits.
use ux_contracts.Prelude.{ℕ, ◌≡◌, refl, sym, subst, false, Option, List, [], ◌∷◌, ℤ}
use ux_contracts.Chain.Action.{Result, Action, ok, err}
use ux_contracts.Chain.Context.{Context}
use ux_contracts.Chain.Platform.{Platform}
use ux_contracts.Chain.Double.{Double}
use ux_contracts.System.Tables.{Names}
use ux_contracts.System.State.{State}
use ux_contracts.System.Limits.{setalimits, setacctram, setacctnet, setacctcpu}
use ux_contracts.System.Core.{newaccount}
use ux_contracts.System.StakeSteps.{delegatebw-changes, undelegatebw-changes}
use ux_contracts.System.VoteHistory.{
  Call, voteproducer_call, regproxy_call, delegatebw_call, undelegatebw_call, perform, settle,
}
use ux_contracts.System.PriceHistory.{
  RamCall, buyram_call, buyrambytes_call, sellram_call, setram_call, setramrate_call, perform_ram,
}
use ux_contracts.System.Grants.{IsGranted, Same-IsGranted}
use ux_contracts.System.VoteGrants.{voteproducer-Keeps, regproxy-Same}
use ux_contracts.System.Granting.{changebw-IsGranted}
use ux_contracts.System.LimitGrants.{
  setalimits-IsGranted, setacctram-IsGranted, setacctnet-IsGranted, setacctcpu-IsGranted,
}
use ux_contracts.System.RamGrants.{
  buyram-IsGranted, buyrambytes-IsGranted, sellram-IsGranted, setram-IsGranted,
  setramrate-IsGranted, newaccount-IsGranted,
}

-- The actions on accounts, their stakes, votes and memory, and their limits.
pub data AccountCall : Type 0 where
  newaccount_call : (creator newact : ℕ) → AccountCall
  vote_call : Call → AccountCall
  ram_call : RamCall → AccountCall
  setalimits_call : ℕ → (ram net cpu : ℤ) → AccountCall
  setacctram_call : ℕ → Option ℤ → AccountCall
  setacctnet_call : ℕ → Option ℤ → AccountCall
  setacctcpu_call : ℕ → Option ℤ → AccountCall

module _ ⦃p : Platform⦄ ⦃d : Double⦄ ⦃n : Names⦄ (depth : ℕ) where
  unfoldable pub perform_account : Context → AccountCall → Action State (Unit {0})
  perform_account ctx (newaccount_call creator newact) = newaccount ctx creator newact
  perform_account ctx (vote_call call) = perform depth ctx call
  perform_account ctx (ram_call call) = perform_ram ctx call
  perform_account ctx (setalimits_call account ram net cpu) = setalimits ctx account ram net cpu
  perform_account ctx (setacctram_call account ram_bytes) = setacctram ctx account ram_bytes
  perform_account ctx (setacctnet_call account net_weight) = setacctnet ctx account net_weight
  perform_account ctx (setacctcpu_call account cpu_weight) = setacctcpu ctx account cpu_weight

  unfoldable pub run_accounts : List (Context × AccountCall) → State → State
  run_accounts [] s = s
  run_accounts ((ctx, call) ∷ calls) s =
      run_accounts calls (settle depth (perform_account ctx call s) s)

  perform-IsGranted :
      (ctx : Context) (call : Call) (s t : State)
      → IsGranted ctx.self s
      → perform depth ctx call s ≡ ok (tt, t)
      → IsGranted ctx.self t
  unfolding perform
  perform-IsGranted ctx (voteproducer_call voter_name proxy producers) s t h run =
      Same-IsGranted ctx.self s t
        (voteproducer-Keeps depth ctx voter_name proxy producers s t tt run) h
  perform-IsGranted ctx (regproxy_call proxy isproxy) s t h run =
      Same-IsGranted ctx.self s t (regproxy-Same depth ctx proxy isproxy s t run) h
  perform-IsGranted ctx (delegatebw_call from receiver net cpu transfer) s t h run =
      changebw-IsGranted depth ctx from receiver net cpu transfer s t h
        (delegatebw-changes depth ctx from receiver net cpu transfer s t run)
  perform-IsGranted ctx (undelegatebw_call from receiver net cpu) s t h run =
      changebw-IsGranted depth ctx from receiver (p.asset_neg net) (p.asset_neg cpu) false s t h
        (undelegatebw-changes depth ctx from receiver net cpu s t run)

  perform_ram-IsGranted :
      (ctx : Context) (call : RamCall) (s t : State)
      → IsGranted ctx.self s
      → perform_ram ctx call s ≡ ok (tt, t)
      → IsGranted ctx.self t
  unfolding perform_ram
  perform_ram-IsGranted ctx (buyram_call cbt payer receiver quant) s t h run =
      buyram-IsGranted ctx cbt payer receiver quant s t h run
  perform_ram-IsGranted ctx (buyrambytes_call cbt payer receiver bytes) s t h run =
      buyrambytes-IsGranted ctx cbt payer receiver bytes s t h run
  perform_ram-IsGranted ctx (sellram_call cbt account bytes) s t h run =
      sellram-IsGranted ctx cbt account bytes s t h run
  perform_ram-IsGranted ctx (setram_call max_ram_size) s t h run =
      setram-IsGranted ctx max_ram_size s t h run
  perform_ram-IsGranted ctx (setramrate_call cbt bytes_per_block) s t h run =
      setramrate-IsGranted ctx cbt bytes_per_block s t h run

  perform_account-IsGranted :
      (ctx : Context) (call : AccountCall) (s t : State)
      → IsGranted ctx.self s
      → perform_account ctx call s ≡ ok (tt, t)
      → IsGranted ctx.self t
  unfolding perform_account
  perform_account-IsGranted ctx (newaccount_call creator newact) s t h run =
      newaccount-IsGranted ctx creator newact s t h run
  perform_account-IsGranted ctx (vote_call call) s t h run = perform-IsGranted ctx call s t h run
  perform_account-IsGranted ctx (ram_call call) s t h run = perform_ram-IsGranted ctx call s t h run
  perform_account-IsGranted ctx (setalimits_call account ram net cpu) s t h run =
      setalimits-IsGranted ctx account ram net cpu s t h run
  perform_account-IsGranted ctx (setacctram_call account ram_bytes) s t h run =
      setacctram-IsGranted ctx account ram_bytes s t h run
  perform_account-IsGranted ctx (setacctnet_call account net_weight) s t h run =
      setacctnet-IsGranted ctx account net_weight s t h run
  perform_account-IsGranted ctx (setacctcpu_call account cpu_weight) s t h run =
      setacctcpu-IsGranted ctx account cpu_weight s t h run

  settle-IsGranted :
      (self : ℕ) (r : Result (Unit {0} × State)) (s : State)
      → IsGranted self s
      → ((t : State) → r ≡ ok (tt, t) → IsGranted self t)
      → IsGranted self (settle depth r s)
  settle-IsGranted self (ok (tt, t)) s c h = h t refl
  settle-IsGranted self (err e) s c h = c

  -- All calls are to the contract of one account.
  abbrev pub AreCallsTo : ℕ → List (Context × AccountCall) → Type 0
  AreCallsTo self [] = Unit
  AreCallsTo self ((ctx, call) ∷ calls) = (ctx.self ≡ self) × AreCallsTo self calls

  -- Whatever is called of newaccount, delegatebw, undelegatebw, voteproducer, regproxy, buyram,
  -- buyrambytes, sellram, setram, setramrate, setalimits, setacctram, setacctnet and setacctcpu, by
  -- anyone and any number of times, failed calls dropped: from a state in which the row of resources
  -- of each account names that account, and the account may use the memory in it unless its memory
  -- is managed (its limit is negative or not below the bytes of the row), only such states are
  -- reached.
  pub run_accounts-IsGranted :
      (self : ℕ) (calls : List (Context × AccountCall)) (s : State)
      → AreCallsTo self calls
      → IsGranted self s
      → IsGranted self (run_accounts calls s)
  unfolding run_accounts
  run_accounts-IsGranted self [] s here h = h
  run_accounts-IsGranted self ((ctx, call) ∷ calls) s (here, rest) h =
      run_accounts-IsGranted self calls (settle depth (perform_account ctx call s) s) rest (
        settle-IsGranted self (perform_account ctx call s) s h (λ t e.
          subst (λ w. IsGranted w t) here
            (perform_account-IsGranted ctx call s t (subst (λ w. IsGranted w s) (sym here) h) e)))
