-- ===== src/System/Refunding.antt =====
-- The refund of what has been taken back: it is paid once, in full, and not before its time.
use ux_contracts.Prelude.{
  ℕ, ◌≡◌, ◌+◌, ◌*◌, ◌≤◌, refl, sym, ap, ◌∙◌, true, false, some, none, [], ◌∷◌, ◌++◌, ◌==◌, arith,
  pos, ◌+ℤ◌, leb,
}
use ux_contracts.Chain.Action.{ok}
use ux_contracts.Chain.Asset.{Asset}
use ux_contracts.Chain.Context.{Context}
use ux_contracts.Chain.Platform.{Platform}
use ux_contracts.Chain.Sums.{asset_add-exact}
use ux_contracts.Chain.Double.{Double}
use ux_contracts.Chain.Frame.{check-then, or_fail-then, lift-then}
use ux_contracts.Token.History.{Inline, transfer_call}
use ux_contracts.System.Tables.{RefundRequest, stake_account, refund_delay_sec}
use ux_contracts.System.State.{State}
use ux_contracts.System.Stakes.{amount-IsInRange}
use ux_contracts.System.Staking.{refund}
use ux_contracts.System.RefundParts.{AreRefunds, net_refund, cpu_refund}
use ux_contracts.System.Transfers.{refund_of}

module _ ⦃p : Platform⦄ ⦃d : Double⦄ where
  open p use {find, drop, find-drop}

  -- What a refund does.
  pub record Refunded (ctx : Context) (owner : ℕ) (s s' : State) : Type 0 where
    pub signed : ctx.has_auth owner ≡ true
    pub request : RefundRequest
    pub found : find s.refunds owner owner ≡ some request
    pub due : (request.request_time + refund_delay_sec) * 1_000_000 ≤ ctx.current_time_point
    pub paid : Asset
    pub paid_lem : paid.amount ≡ refund_of s owner
    pub sent :
        s'.inlines
        ≡ s.inlines
          ++ record {
            authorization = stake_account ∷ request.owner ∷ [];
            call = transfer_call stake_account request.owner paid "unstake";
          }
            ∷ []
    pub gone : find s'.refunds owner owner ≡ none
    pub nothing_left : refund_of s' owner ≡ pos 0
    pub others : (a : ℕ) → (owner == a) ≡ false → find s'.refunds a a ≡ find s.refunds a a
    pub rest : s' ≡ record s { refunds = s'.refunds; inlines = s'.inlines }

  -- Where every refund is between zero and the maximum of an asset: a refund that goes through was
  -- signed by the owner, and comes no sooner than the delay after the time of the request. The stake
  -- account sends the request's owner, in one transfer, all that waited for the refund; the request
  -- is gone and nothing waits any more, no other account's request changes, and nothing else of the
  -- state but the actions sent.
  pub refund-Refunded :
      (ctx : Context) (owner : ℕ) (s s' : State)
      → AreRefunds s
      → refund ctx owner s ≡ ok (tt, s')
      → Refunded ctx owner s s'
  unfolding refund ◌+ℤ◌
  refund-Refunded ctx owner s s' refunds run =
      let (signed, r0) =
        check-then (ctx.has_auth owner) "missing required authority" _ s s' tt run in
      let (req, found, r1) =
        or_fail-then (find s.refunds owner owner) "refund request not found" _ s s' tt r0 in
      let (due, r2) =
        check-then (leb ((req.request_time + refund_delay_sec) * 1_000_000) ctx.current_time_point)
          "refund is not available yet" _ s s' tt r1 in
      let (total, e3, r3) = lift-then (p.asset_add req.net_amount req.cpu_amount) _ s s' tt r2 in
      let (held_net, held_cpu) = refunds owner owner req found in
      let (amount, symbol, within) =
        asset_add-exact req.net_amount req.cpu_amount total (amount-IsInRange _ held_net)
          (amount-IsInRange _ held_cpu) e3 in
      let call : Inline = record {
        authorization = stake_account ∷ req.owner ∷ [];
        call = transfer_call stake_account req.owner total "unstake";
      } in
      let after : s'
          ≡ record s { inlines = s.inlines ++ call ∷ []; refunds = drop s.refunds owner owner } =
        ground arith in
      let refunds_are : s'.refunds ≡ drop s.refunds owner owner =
        ap (λ (w : State). w.refunds) after in
      let gone : find s'.refunds owner owner ≡ none =
        ap (λ w. find w owner owner) refunds_are
        ∙ find-drop s.refunds owner owner owner owner
        ∙ ground arith in
      record {
        signed = signed;
        request = req;
        found = found;
        due = ground arith;
        paid = total;
        paid_lem = amount ∙ ap (λ o. net_refund o +ℤ cpu_refund o) (sym found);
        sent = ap (λ (w : State). w.inlines) after;
        gone = gone;
        nothing_left = ap (λ o. net_refund o +ℤ cpu_refund o) gone;
        others = λ a e.
            ap (λ w. find w a a) refunds_are ∙ find-drop s.refunds owner owner a a ∙ ground arith;
        rest = rw after refl;
      }
