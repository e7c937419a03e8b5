-- ===== src/System/Refunds.antt =====
-- What is to be refunded to an account, through a change of bandwidth: what the change takes back waits
-- for its refund, and what it adds is taken from a waiting refund first.
use ux_contracts.Prelude.{
  ℕ, ◌≡◌, Bool-cases, refl, sym, ap, ◌∙◌, false, ◌&&◌, ◌||◌, none, some, ◌==◌, if◌then◌else◌, arith,
  ℤ, pos, leb_ℤ, ltb_ℤ, Option-cases, inl, inr,
}
use ux_contracts.Chain.Action.{ok}
use ux_contracts.Chain.Asset.{Asset, IsInRange}
use ux_contracts.Chain.Context.{Context, current_seconds}
use ux_contracts.Chain.Platform.{Platform}
use ux_contracts.Chain.Sums.{find-store}
use ux_contracts.Chain.Double.{Double}
use ux_contracts.Chain.Frame.{bind-ok, check-then}
use ux_contracts.System.Tables.{RefundRequest, is_empty_refund}
use ux_contracts.System.State.{State}
use ux_contracts.System.Stakes.{stored_lem}
use ux_contracts.System.Bandwidth.{
  Moved, settle_part, new_part, store_refund, create_refund, move_refund,
}
use ux_contracts.System.RefundParts.{
  net_refund, cpu_refund, IsRefund, Settled, Settled-none, AreRefunds, settle_part-Settled,
  new_part-Settled,
}

module _ ⦃p : Platform⦄ ⦃d : Double⦄ where
  open p use {find, find-put}

  -- What becomes of the refund of an account: the two parts after the change, and what of it is to be
  -- transferred.
  pub record Refunding (from : ℕ) (net cpu : Asset) (moved : Moved) (s s' : State) : Type 0 where
    pub new_net : ℤ
    pub new_cpu : ℤ
    pub net_lem :
        Settled (net_refund (find s.refunds from from)) net.amount new_net moved.net_balance.amount
    pub cpu_lem :
        Settled (cpu_refund (find s.refunds from from)) cpu.amount new_cpu moved.cpu_balance.amount
    pub net_at : net_refund (find s'.refunds from from) ≡ new_net
    pub cpu_at : cpu_refund (find s'.refunds from from) ≡ new_cpu
    pub others :
        (a b : ℕ) → ((from == a) && (from == b)) ≡ false → find s'.refunds a b ≡ find s.refunds a b
    pub refunds : AreRefunds s'
    pub rest : s' ≡ record s { refunds = s'.refunds }

  net_stored :
      (row : RefundRequest)
      → net_refund (if is_empty_refund row then none else some row) ≡ row.net_amount.amount
  net_stored row = ground arith

  cpu_stored :
      (row : RefundRequest)
      → cpu_refund (if is_empty_refund row then none else some row) ≡ row.cpu_amount.amount
  cpu_stored row = ground arith

  created_lem :
      (ctx : Context) (from : ℕ) (net cpu : Asset) (s s' : State) (moved : Moved)
      → IsInRange net.amount
      → IsInRange cpu.amount
      → AreRefunds s
      → find s.refunds from from ≡ none
      → create_refund ctx from net cpu s ≡ ok (moved, s')
      → Refunding from net cpu moved s s'
  unfolding create_refund
  created_lem ctx from net cpu s s' moved h k refunds gone run =
      let (n, s1, e1, r1) = bind-ok (new_part net) _ s s' moved run in
      let (c, s2, e2, r2) = bind-ok (new_part cpu) _ s1 s' moved r1 in
      let (net_lem, same1) = new_part-Settled net s s1 n h e1 in
      let (cpu_lem, same2) = new_part-Settled cpu s1 s2 c k e2 in
      let row : RefundRequest = record {
        owner = from;
        request_time = current_seconds ctx;
        net_amount = n.0;
        cpu_amount = c.0;
      } in
      let after2 : s' ≡ record s2 { refunds = p.put s2.refunds from from from row } =
        ground arith in
      let after : s' ≡ record s { refunds = p.put s.refunds from from from row } =
        cc (after2, same1, same2) in
      let net_moved : moved.net_balance ≡ n.1 = ground arith in
      let cpu_moved : moved.cpu_balance ≡ c.1 = ground arith in
      let at : (a b : ℕ)
          → find s'.refunds a b
            ≡ (if (from == a) && (from == b) then some row else find s.refunds a b) =
        λ a b.
          ap (λ (w : State). find w.refunds a b) after
          ∙ find-put s.refunds from from from row a b in
      let here : find s'.refunds from from ≡ some row = at from from ∙ ground arith in
      record {
        new_net = n.0.amount;
        new_cpu = c.0.amount;
        net_lem = rw (gone, net_moved) net_lem;
        cpu_lem = rw (gone, cpu_moved) cpu_lem;
        net_at = ap net_refund here;
        cpu_at = ap cpu_refund here;
        others = λ a b e. at a b ∙ ground arith;
        refunds = λ a b x found.
            stored_lem IsRefund row x false ((from == a) && (from == b)) _
              (net_lem.left_IsAmount, cpu_lem.left_IsAmount) (refunds a b x) (sym (at a b) ∙ found);
        rest = rw after refl;
      }

  moved_none :
      (ctx : Context) (from : ℕ) (net cpu : Asset) (s s' : State) (moved : Moved)
      → IsInRange net.amount
      → IsInRange cpu.amount
      → AreRefunds s
      → find s.refunds from from ≡ none
      → move_refund ctx from net cpu none s ≡ ok (moved, s')
      → Refunding from net cpu moved s s'
  unfolding move_refund
  moved_none ctx from net cpu s s' moved h k refunds gone run =
      elim (Bool-cases (ltb_ℤ net.amount (pos 0) || ltb_ℤ cpu.amount (pos 0))) [
        | inl less ↦
            let created : create_refund ctx from net cpu s ≡ ok (moved, s') = rw less at run in
            created_lem ctx from net cpu s s' moved h k refunds gone created
        | inr more ↦
            let same : s' ≡ s = ground arith in
            let net_moved : moved.net_balance ≡ net = ground arith in
            let cpu_moved : moved.cpu_balance ≡ cpu = ground arith in
            let net_more : ltb_ℤ net.amount (pos 0) ≡ false = ground arith in
            let cpu_more : ltb_ℤ cpu.amount (pos 0) ≡ false = ground arith in
            record {
              new_net = pos 0;
              new_cpu = pos 0;
              net_lem = rw (gone, net_moved) (Settled-none net.amount h net_more);
              cpu_lem = rw (gone, cpu_moved) (Settled-none cpu.amount k cpu_more);
              net_at = rw (same, gone) refl;
              cpu_at = rw (same, gone) refl;
              others = λ a b e. rw same refl;
              refunds = λ a b x found. refunds a b x (rw same at found);
              rest = rw same refl;
            }
      ]

  moved_some :
      (ctx : Context) (from : ℕ) (net cpu : Asset) (r : RefundRequest) (s s' : State)
      (moved : Moved)
      → IsInRange net.amount
      → IsInRange cpu.amount
      → AreRefunds s
      → find s.refunds from from ≡ some r
      → move_refund ctx from net cpu (some r) s ≡ ok (moved, s')
      → Refunding from net cpu moved s s'
  unfolding move_refund
  moved_some ctx from net cpu r s s' moved h k refunds there run =
      let (held_net, held_cpu) = refunds from from r there in
      let (n, s1, e1, r1) = bind-ok (settle_part r.net_amount net) _ s s' moved run in
      let (c, s2, e2, r2) = bind-ok (settle_part r.cpu_amount cpu) _ s1 s' moved r1 in
      let (net_lem, same1) = settle_part-Settled r.net_amount net s s1 n held_net h e1 in
      let (cpu_lem, same2) = settle_part-Settled r.cpu_amount cpu s1 s2 c held_cpu k e2 in
      let (net_nonneg, r3) =
        check-then (leb_ℤ (pos 0) n.0.amount) "negative net refund amount" _ s2 s' moved r2 in
      let (cpu_nonneg, r4) =
        check-then (leb_ℤ (pos 0) c.0.amount) "negative cpu refund amount" _ s2 s' moved r3 in
      let row : RefundRequest = record r {
        request_time =
            if ltb_ℤ net.amount (pos 0) || ltb_ℤ cpu.amount (pos 0)
            then current_seconds ctx
            else r.request_time;
        net_amount = n.0;
        cpu_amount = c.0;
      } in
      let after2 : s' ≡ store_refund 0 from row s2 = ground arith in
      let after : s' ≡ store_refund 0 from row s = cc (after2, same1, same2) in
      let net_moved : moved.net_balance ≡ n.1 = ground arith in
      let cpu_moved : moved.cpu_balance ≡ c.1 = ground arith in
      let at : (a b : ℕ)
          → find s'.refunds a b ≡ (
              if (from == a) && (from == b)
              then if is_empty_refund row then none else some row
              else find s.refunds a b) =
        λ a b.
          ap (λ (w : State). find w.refunds a b) after
          ∙ find-store (is_empty_refund row) s.refunds 0 from from row a b in
      let here : find s'.refunds from from ≡ (if is_empty_refund row then none else some row) =
        at from from ∙ ground arith in
      record {
        new_net = n.0.amount;
        new_cpu = c.0.amount;
        net_lem = rw (there, net_moved) net_lem;
        cpu_lem = rw (there, cpu_moved) cpu_lem;
        net_at = ap net_refund here ∙ net_stored row;
        cpu_at = ap cpu_refund here ∙ cpu_stored row;
        others = λ a b e. at a b ∙ ground arith;
        refunds = λ a b x found.
            stored_lem IsRefund row x (is_empty_refund row) ((from == a) && (from == b)) _
              (net_lem.left_IsAmount, cpu_lem.left_IsAmount) (refunds a b x) (sym (at a b) ∙ found);
        rest = rw after refl;
      }

  pub move_refund-Refunding :
      (ctx : Context) (from : ℕ) (net cpu : Asset) (s s' : State) (moved : Moved)
      → IsInRange net.amount
      → IsInRange cpu.amount
      → AreRefunds s
      → move_refund ctx from net cpu (find s.refunds from from) s ≡ ok (moved, s')
      → Refunding from net cpu moved s s'
  move_refund-Refunding ctx from net cpu s s' moved h k refunds run =
      elim (Option-cases (find s.refunds from from)) [
        | inl gone ↦ moved_none ctx from net cpu s s' moved h k refunds gone (rw gone at run)
        | inr (r, there) ↦
            moved_some ctx from net cpu r s s' moved h k refunds there (rw there at run)
      ]
