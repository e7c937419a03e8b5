-- ===== src/System/Rewards.antt =====
-- The claim of a producer's rewards: all of the balance, once.
use ux_contracts.Prelude.{
  ℕ, ◌≡◌, refl, ap, ◌∙◌, true, false, ◌==◌, some, [], ◌∷◌, ◌++◌, arith, ℤ, pos, ◌<ℤ◌, ltb_ℤ, ◌-ℤ◌,
}
use ux_contracts.Chain.Action.{ok, err}
use ux_contracts.Chain.Asset.{Asset, IsInRange}
use ux_contracts.Chain.Context.{Context, current_seconds}
use ux_contracts.Chain.Platform.{Platform}
use ux_contracts.Chain.Sums.{asset_sub-exact}
use ux_contracts.Chain.Double.{Double}
use ux_contracts.Chain.Frame.{check-then, or_fail-then, lift-then}
use ux_contracts.Token.History.{Inline, transfer_call}
use ux_contracts.Resource.{ProducerPay}
use ux_contracts.System.Tables.{bpay_account}
use ux_contracts.System.State.{State}
use ux_contracts.System.Pay.{claimrewards}

difference_self : (a : ℤ) → a -ℤ a ≡ pos 0
unfolding ◌-ℤ◌
difference_self a = ground arith

module _ ⦃p : Platform⦄ ⦃d : Double⦄ where
  open p use {find, put, find-put}

  -- What a claim does.
  pub record Claimed (ctx : Context) (owner : ℕ) (s t : State) : Type 0 where
    pub signed : ctx.has_auth owner ≡ true
    pub pay : ProducerPay
    pub found : find s.producer_pay ctx.self owner ≡ some pay
    pub positive : pos 0 <ℤ pay.balance.amount
    pub sent :
        t.inlines
        ≡ s.inlines
          ++ record {
            authorization = bpay_account ∷ owner ∷ [];
            call = transfer_call bpay_account owner pay.balance "producer reward";
          }
            ∷ []
    pub left : ProducerPay
    pub left_lem : find t.producer_pay ctx.self owner ≡ some left
    pub nothing_left : left.balance.amount ≡ pos 0
    pub others :
        (a : ℕ)
        → (owner == a) ≡ false
        → find t.producer_pay ctx.self a ≡ find s.producer_pay ctx.self a
    pub again :
        (later : Context)
        → later.self ≡ ctx.self
        → later.has_auth owner ≡ true
        → claimrewards later owner t ≡ err "no balance to claim"

  -- Without a balance there is nothing to claim.
  claimrewards-fails :
      (ctx : Context) (owner : ℕ) (s : State) (pay : ProducerPay)
      → ctx.has_auth owner ≡ true
      → find s.producer_pay ctx.self owner ≡ some pay
      → pay.balance.amount ≡ pos 0
      → claimrewards ctx owner s ≡ err "no balance to claim"
  unfolding claimrewards
  claimrewards-fails ctx owner s pay signed found zero = rw signed (rw found (rw zero refl))

  -- The row with what is left, after the transfer.
  abbrev paid : Context → (owner : ℕ) → ProducerPay → Asset → State → State
  paid ctx owner pay rest s = record s {
    inlines =
        s.inlines
        ++ record {
          authorization = bpay_account ∷ owner ∷ [];
          call = transfer_call bpay_account owner pay.balance "producer reward";
        }
          ∷ [];
    producer_pay =
        put s.producer_pay 0 ctx.self owner
          (record pay { balance = rest; last_claim_time = current_seconds ctx });
  }

  claimed :
      (ctx : Context) (owner : ℕ) (s t : State) (pay : ProducerPay) (rest : Asset)
      → ctx.has_auth owner ≡ true
      → find s.producer_pay ctx.self owner ≡ some pay
      → pos 0 <ℤ pay.balance.amount
      → rest.amount ≡ pos 0
      → t ≡ paid ctx owner pay rest s
      → Claimed ctx owner s t
  claimed ctx owner s t pay rest signed found positive nothing after =
      let row : ProducerPay = record pay {
        balance = rest;
        last_claim_time = current_seconds ctx;
      } in
      let rows : t.producer_pay ≡ put s.producer_pay 0 ctx.self owner row =
        ap (λ (w : State). w.producer_pay) after in
      let here : find t.producer_pay ctx.self owner ≡ some row =
        ap (λ w. find w ctx.self owner) rows
        ∙ find-put s.producer_pay 0 ctx.self owner row ctx.self owner
        ∙ ground arith in
      record {
        signed = signed;
        pay = pay;
        found = found;
        positive = positive;
        sent = ap (λ (w : State). w.inlines) after;
        left = row;
        left_lem = here;
        nothing_left = nothing;
        others = λ a e.
            ap (λ w. find w ctx.self a) rows
            ∙ find-put s.producer_pay 0 ctx.self owner row ctx.self a
            ∙ ground arith;
        again = λ later same authorized.
            claimrewards-fails later owner t row authorized
              (ap (λ w. find t.producer_pay w owner) same ∙ here) nothing;
      }

  -- Where the balance is in range: a claim that goes through was signed by the owner, whose balance is
  -- positive. The pay account sends the owner all of it, in one transfer; nothing is left of it, no
  -- other owner's row changes, and another claim of the owner fails, since there is no balance.
  pub claimrewards-Claimed :
      (ctx : Context) (owner : ℕ) (s t : State)
      → ((pay : ProducerPay)
          → find s.producer_pay ctx.self owner ≡ some pay
          → IsInRange pay.balance.amount)
      → claimrewards ctx owner s ≡ ok (tt, t)
      → Claimed ctx owner s t
  unfolding claimrewards
  claimrewards-Claimed ctx owner s t ranges run =
      let (signed, r0) =
        check-then (ctx.has_auth owner) "missing required authority" _ s t tt run in
      let (pay, found, r1) =
        or_fail-then (find s.producer_pay ctx.self owner) "owner balance not found" _ s t tt r0 in
      let (positive, r2) =
        check-then (ltb_ℤ (pos 0) pay.balance.amount) "no balance to claim" _ s t tt r1 in
      let call : Inline = record {
        authorization = bpay_account ∷ owner ∷ [];
        call = transfer_call bpay_account owner pay.balance "producer reward";
      } in
      let s1 : State = record s { inlines = s.inlines ++ call ∷ [] } in
      let (rest, e3, r3) = lift-then (p.asset_sub pay.balance pay.balance) _ s1 t tt r2 in
      let h = ranges pay found in
      let (amount, symbol, within) = asset_sub-exact pay.balance pay.balance rest h h e3 in
      claimed ctx owner s t pay rest signed found (ground arith) (amount ∙ difference_self _)
        (ground arith)
