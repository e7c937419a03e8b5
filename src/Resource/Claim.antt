-- ===== src/Resource/Claim.antt =====
-- Who is paid out, and that it happens once.
use ux_contracts.Prelude.{
  ℕ, ◌≡◌, ◌≢◌, ap, true, not, none, some, [], ◌∷◌, ◌++◌, arith, ◌==◌, if◌then◌else◌, pos, eqb_ℤ,
  pos_part, neg_part,
}
use ux_contracts.Chain.Action.{ok}
use ux_contracts.Chain.Context.{Context}
use ux_contracts.Chain.Platform.{Platform}
use ux_contracts.Chain.Double.{Double}
use ux_contracts.Chain.Asset.{symbol_eq}
use ux_contracts.Chain.Frame.{check-then, or_fail-then}
use ux_contracts.Token.History.{transfer_call}
use ux_contracts.Resource.{AccountPay, System, State}
use ux_contracts.Resource.Inflation.{upay_account}
use ux_contracts.Resource.Period.{claimdistrib}

module _ ⦃p : Platform⦄ ⦃d : Double⦄ where
  open p use {find, drop, find-drop}

  -- What a claim does.
  pub record Claimed (ctx : Context) (account : ℕ) (s s' : State) : Type 0 where
    pub signed : ctx.has_auth account ≡ true
    pub row : AccountPay
    pub found : find s.account_pay ctx.self account ≡ some row
    pub positive : row.balance.amount ≢ pos 0
    pub sent :
        s'.inlines
        ≡ s.inlines
          ++ record {
            authorization = upay_account ∷ account ∷ [];
            call = transfer_call upay_account account row.balance "utility reward";
          }
            ∷ []
    pub after :
        s' ≡ record s { inlines = s'.inlines; account_pay = drop s.account_pay ctx.self account }
    pub others :
        (other : ℕ)
        → find s'.account_pay ctx.self other
          ≡ (if account == other then none else find s.account_pay ctx.self other)

  -- A claim that goes through was signed by the account, which has a balance that is not zero: exactly
  -- that is sent to it from the pay account, and its row goes. No other account's pay changes.
  pub claimdistrib-Claimed :
      (ctx : Context) (sys : System) (account : ℕ) (s s' : State)
      → claimdistrib ctx sys account s ≡ ok (tt, s')
      → Claimed ctx account s s'
  unfolding claimdistrib
  claimdistrib-Claimed ctx sys account s s' run =
      let (signed, r1) =
        check-then (ctx.has_auth account) "missing required authority" _ s s' tt run in
      let (row, found, r2) =
        or_fail-then (find s.account_pay ctx.self account) "account balance not found" _ s s' tt
          r1 in
      let (alike, r3) =
        check-then (symbol_eq row.balance.symbol sys.core_symbol)
          "comparison of assets with different symbols is not allowed" _ s s' tt r2 in
      let (some_pay, r4) =
        check-then (not (eqb_ℤ row.balance.amount (pos 0))) "no balance to claim" _ s s' tt r3 in
      let left = drop s.account_pay ctx.self account in
      record {
        signed = signed;
        row = row;
        found = found;
        positive = λ e. absurd (ground (arith, ap pos_part e, ap neg_part e));
        sent = ground arith;
        after = ground arith;
        others = λ other.
            let row_of = find-drop s.account_pay ctx.self account ctx.self other in
            let e : s'.account_pay ≡ left = ground arith in rw e (ground arith);
      }

  -- What a claim has paid out cannot be claimed again, in the state that the claim leaves.
  pub claim_once :
      (ctx ctx' : Context) (sys sys' : System) (account : ℕ) (s s' t : State)
      → ctx'.self ≡ ctx.self
      → claimdistrib ctx sys account s ≡ ok (tt, s')
      → claimdistrib ctx' sys' account s' ≢ ok (tt, t)
  claim_once ctx ctx' sys sys' account s s' t same run again =
      let gone = (claimdistrib-Claimed ctx sys account s s' run).others account in
      let there = (claimdistrib-Claimed ctx' sys' account s' t again).found in absurd (ground arith)
