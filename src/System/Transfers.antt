-- ===== src/System/Transfers.antt =====
-- The transfer that a change of bandwidth makes: what it adds to a stake and no waiting refund covers.
use ux_contracts.Prelude.{
  [], ◌∷◌, ◌++◌, pos_part, neg_part, int64_id, ℕ, ◌≡◌, refl, sym, ap, ◌∙◌, Bool, true, false, ◌&&◌,
  ◌==◌, if◌then◌else◌, arith, ℤ, pos, ◌≤ℤ◌, ltb_ℤ, ◌+ℤ◌, +ℤ_parts, eq_of_parts,
}
use ux_contracts.Chain.Action.{ok, pure}
use ux_contracts.Chain.Asset.{Asset, IsInRange}
use ux_contracts.Chain.Context.{Context}
use ux_contracts.Chain.Platform.{Platform}
use ux_contracts.Chain.Sums.{sum-IsInt64, asset_add-exact}
use ux_contracts.Chain.Double.{Double}
use ux_contracts.Chain.Frame.{bind-ok, lift-then}
use ux_contracts.System.Tables.{stake_account}
use ux_contracts.System.State.{State}
use ux_contracts.Token.History.{Inline, transfer_call}
use ux_contracts.System.RefundParts.{net_refund, cpu_refund, AreRefunds}
use ux_contracts.System.Refunds.{Refunding, move_refund-Refunding}
use ux_contracts.System.Bandwidth.{Moved, move_refund, defer_refund, is_refunding, change_refund}

sum_of_parts :
    (l1 n h1 m1 l2 c h2 m2 : ℤ)
    → l1 +ℤ n ≡ h1 +ℤ m1
    → l2 +ℤ c ≡ h2 +ℤ m2
    → (l1 +ℤ l2) +ℤ (n +ℤ c) ≡ (h1 +ℤ h2) +ℤ (m1 +ℤ m2)
sum_of_parts l1 n h1 m1 l2 c h2 m2 e f =
    let a1 = +ℤ_parts l1 n in
    let a2 = +ℤ_parts h1 m1 in
    let a3 = +ℤ_parts l2 c in
    let a4 = +ℤ_parts h2 m2 in
    let b1 = +ℤ_parts l1 l2 in
    let b2 = +ℤ_parts n c in
    let b3 = +ℤ_parts h1 h2 in
    let b4 = +ℤ_parts m1 m2 in
    let c1 = +ℤ_parts (l1 +ℤ l2) (n +ℤ c) in
    let c2 = +ℤ_parts (h1 +ℤ h2) (m1 +ℤ m2) in
    let e0 = ap pos_part e in
    let e1 = ap neg_part e in
    let f0 = ap pos_part f in let f1 = ap neg_part f in eq_of_parts _ _ (omega arith)

module _ ⦃p : Platform⦄ ⦃d : Double⦄ where
  open p use {find}

  -- All that is to be refunded to an account.
  abbrev pub refund_of : State → ℕ → ℤ
  refund_of s owner =
      net_refund (find s.refunds owner owner) +ℤ cpu_refund (find s.refunds owner owner)

  record Chosen (from : ℕ) (net cpu : Asset) (moved : Moved) (s s' : State) : Type 0 where
    conserved :
        refund_of s' from +ℤ (net.amount +ℤ cpu.amount)
        ≡ refund_of s from +ℤ (moved.net_balance.amount +ℤ moved.cpu_balance.amount)
    net_in : IsInRange moved.net_balance.amount
    cpu_in : IsInRange moved.cpu_balance.amount
    nonneg : pos 0 ≤ℤ (moved.net_balance.amount +ℤ moved.cpu_balance.amount)
    others :
        (a b : ℕ) → ((from == a) && (from == b)) ≡ false → find s'.refunds a b ≡ find s.refunds a b
    refunds : AreRefunds s'
    rest : s' ≡ record s { refunds = s'.refunds }

  Refunding-Chosen :
      (from : ℕ) (net cpu : Asset) (moved : Moved) (s s' : State)
      → Refunding from net cpu moved s s'
      → Chosen from net cpu moved s s'
  Refunding-Chosen from net cpu moved s s' i =
      let m = moved.net_balance.amount in
      let n = moved.cpu_balance.amount in
      let q = +ℤ_parts m n in
      let (m0, m1) = i.net_lem.more_IsAmount in
      let (n0, n1) = i.cpu_lem.more_IsAmount in
      record {
        conserved =
            rw (i.net_at, i.cpu_at)
              (sum_of_parts i.new_net net.amount _ m i.new_cpu cpu.amount _ n i.net_lem.left_lem
                i.cpu_lem.left_lem);
        net_in = ground arith;
        cpu_in = ground arith;
        nonneg = omega arith;
        others = i.others;
        refunds = i.refunds;
        rest = i.rest;
      }

  chosen_lem :
      (ctx : Context) (from : ℕ) (net cpu : Asset) (b : Bool) (s s' : State) (moved : Moved)
      → IsInRange net.amount
      → IsInRange cpu.amount
      → AreRefunds s
      → (b ≡ false → pos 0 ≤ℤ (net.amount +ℤ cpu.amount))
      → (if b
            then move_refund ctx from net cpu (find s.refunds from from)
            else pure (record { net_balance = net; cpu_balance = cpu; need_deferred_trx = false }))
          s
        ≡ ok (moved, s')
      → Chosen from net cpu moved s s'
  chosen_lem ctx from net cpu true s s' moved h k refunds more run =
      Refunding-Chosen from net cpu moved s s'
        (move_refund-Refunding ctx from net cpu s s' moved h k refunds run)
  chosen_lem ctx from net cpu false s s' moved h k refunds more run =
      let same : s' ≡ s = ground arith in
      let net_moved : moved.net_balance ≡ net = ground arith in
      let cpu_moved : moved.cpu_balance ≡ cpu = ground arith in
      record {
        conserved = rw (same, net_moved, cpu_moved) refl;
        net_in = rw net_moved h;
        cpu_in = rw cpu_moved k;
        nonneg = rw (net_moved, cpu_moved) (more refl);
        others = λ a c e. rw same refl;
        refunds = λ a c x found. refunds a c x (rw same at found);
        rest = rw same refl;
      }

  -- What a change of bandwidth does for the refund of an account, and what it transfers.
  pub record Paid (source from receiver : ℕ) (net cpu : Asset) (s s' : State) : Type 0 where
    pub transferred : Asset
    pub nonneg : pos 0 ≤ℤ transferred.amount
    pub conserved :
        refund_of s' from +ℤ (net.amount +ℤ cpu.amount) ≡ refund_of s from +ℤ transferred.amount
    pub others :
        (a b : ℕ) → ((from == a) && (from == b)) ≡ false → find s'.refunds a b ≡ find s.refunds a b
    pub refunds : AreRefunds s'
    pub sent : s'.inlines ≡ (
        if ltb_ℤ (pos 0) transferred.amount
        then s.inlines
          ++ record {
            authorization = source ∷ [];
            call = transfer_call source stake_account transferred "stake bandwidth";
          }
            ∷ []
        else s.inlines)
    pub rest : s' ≡ record s { refunds = s'.refunds; inlines = s'.inlines; deferred = s'.deferred }

  pub change_refund-Paid :
      (ctx : Context) (source from receiver : ℕ) (net cpu : Asset) (transfer : Bool) (s s' : State)
      → IsInRange net.amount
      → IsInRange cpu.amount
      → AreRefunds s
      → change_refund ctx source from receiver net cpu transfer s ≡ ok (tt, s')
      → Paid source from receiver net cpu s s'
  unfolding change_refund
  change_refund-Paid ctx source from receiver net cpu transfer s s' h k refunds run =
      let b = is_refunding from receiver net cpu transfer in
      let exact = int64_id (net.amount +ℤ cpu.amount) (sum-IsInt64 net.amount cpu.amount h k) in
      let (moved, s1, e1, r1) =
        bind-ok
          (if b
            then move_refund ctx from net cpu (find s.refunds from from)
            else pure (record { net_balance = net; cpu_balance = cpu; need_deferred_trx = false }))
          _ s s' tt run in
      let i =
        chosen_lem ctx from net cpu b s s1 moved h k refunds (λ e. ground (arith, exact)) e1 in
      let s2 = defer_refund from moved.need_deferred_trx s1 in
      let (total, e2, r2) =
        lift-then (p.asset_add moved.net_balance moved.cpu_balance) _ s2 s' tt r1 in
      let (amount, symbol, within) =
        asset_add-exact moved.net_balance moved.cpu_balance total i.net_in i.cpu_in e2 in
      let after : s' ≡ (
          if ltb_ℤ (pos 0) total.amount
          then record s2 {
            inlines =
                s2.inlines
                ++ record {
                  authorization = source ∷ [];
                  call = transfer_call source stake_account total "stake bandwidth";
                }
                  ∷ [];
          }
          else s2) =
        ground arith in
      let refunds_same : s'.refunds ≡ s1.refunds =
        ap (λ (w : State). w.refunds) after ∙ ground arith in
      let sent_first : s1.inlines ≡ s.inlines = ap (λ (w : State). w.inlines) i.rest in
      let call : Inline = record {
        authorization = source ∷ [];
        call = transfer_call source stake_account total "stake bandwidth";
      } in
      let sent_lem : s'.inlines
          ≡ (if ltb_ℤ (pos 0) total.amount then s1.inlines ++ call ∷ [] else s1.inlines) =
        ap (λ (w : State). w.inlines) after ∙ ground arith in
      let rest1 : s'
          ≡ record s1 { refunds = s'.refunds; inlines = s'.inlines; deferred = s'.deferred } =
        ground arith in
      record {
        transferred = total;
        nonneg = rw amount i.nonneg;
        conserved =
            ap
              (λ w.
                (net_refund (find w from from) +ℤ cpu_refund (find w from from))
                +ℤ (net.amount +ℤ cpu.amount))
              refunds_same
            ∙ i.conserved
            ∙ ap (λ w. refund_of s from +ℤ w) (sym amount);
        others = λ a b e. ap (λ w. find w a b) refunds_same ∙ i.others a b e;
        refunds = λ a b x found. i.refunds a b x (sym (ap (λ w. find w a b) refunds_same) ∙ found);
        sent =
            sent_lem
            ∙ ap (λ w. if ltb_ℤ (pos 0) total.amount then w ++ call ∷ [] else w) sent_first;
        rest =
            rest1
            ∙ ap
                (λ (w : State). record w {
                  refunds = s'.refunds;
                  inlines = s'.inlines;
                  deferred = s'.deferred;
                })
                i.rest;
      }
