-- ===== src/System/Held.antt =====
-- What an account has in the stake account, staked or waiting for its refund, and that a change of the stake
-- before the votes keeps account of it.
use ux_contracts.Prelude.{
  ℕ, ◌≡◌, refl, sym, ap, ◌∙◌, Bool, true, false, ◌&&◌, if◌then◌else◌, ◌==◌, arith, [], ◌∷◌, ◌++◌, ℤ,
  pos, pos_part, neg_part, ◌≤ℤ◌, ltb_ℤ, ◌+ℤ◌, +ℤ_parts, eq_of_parts,
}
use ux_contracts.Chain.Action.{ok}
use ux_contracts.Chain.Asset.{Asset, IsInRange}
use ux_contracts.Chain.Context.{Context}
use ux_contracts.Chain.Platform.{Platform}
use ux_contracts.Chain.Double.{Double}
use ux_contracts.Token.History.{transfer_call}
use ux_contracts.System.Tables.{RefundRequest, stake_account, net_managed, cpu_managed}
use ux_contracts.System.State.{State}
use ux_contracts.System.Ram.{is_managed}
use ux_contracts.System.Bandwidth.{change_delegated, change_totals, change_refund}
use ux_contracts.System.Frames.{Stakes, stakes}
use ux_contracts.System.Stakes.{
  net_staked, cpu_staked, IsStaked, Delegated, change_delegated-Delegated,
}
use ux_contracts.System.Totals.{net_total, cpu_total, AreTotals, Totalled, change_totals-Totalled}
use ux_contracts.System.RefundParts.{AreRefunds, net_refund, cpu_refund}
use ux_contracts.System.Transfers.{refund_of, Paid, change_refund-Paid}

held_sum :
    (n c n0 c0 dn dc r r0 t : ℤ)
    → n ≡ n0 +ℤ dn
    → c ≡ c0 +ℤ dc
    → r +ℤ (dn +ℤ dc) ≡ r0 +ℤ t
    → (n +ℤ c) +ℤ r ≡ ((n0 +ℤ c0) +ℤ r0) +ℤ t
held_sum n c n0 c0 dn dc r r0 t e f g =
    let a1 = +ℤ_parts n0 dn in
    let a2 = +ℤ_parts c0 dc in
    let a3 = +ℤ_parts dn dc in
    let a4 = +ℤ_parts r (dn +ℤ dc) in
    let a5 = +ℤ_parts r0 t in
    let a6 = +ℤ_parts n c in
    let a7 = +ℤ_parts (n +ℤ c) r in
    let a8 = +ℤ_parts n0 c0 in
    let a9 = +ℤ_parts (n0 +ℤ c0) r0 in
    let b0 = +ℤ_parts ((n0 +ℤ c0) +ℤ r0) t in
    let e0 = ap pos_part e in
    let e1 = ap neg_part e in
    let f0 = ap pos_part f in
    let f1 = ap neg_part f in
    let g0 = ap pos_part g in let g1 = ap neg_part g in eq_of_parts _ _ (omega arith)

-- What stands at a row that was written, and at the others.
hit : (x y : Bool) (v new old : ℤ) → (x && y) ≡ true → v ≡ (if x && y then new else old) → v ≡ new
hit x y v new old e h = ground arith

miss : (b : Bool) (v new old : ℤ) → b ≡ false → v ≡ (if b then new else old) → v ≡ old
miss b v new old e h = ground arith

sum_lem : (a a' b b' : ℤ) → a ≡ a' → b ≡ b' → a +ℤ b ≡ a' +ℤ b'
sum_lem a a' b b' e f = cc (e, f)

limit_lem :
    (b b' : Bool) (l l' new new' : ℤ)
    → b ≡ b'
    → l ≡ l'
    → new ≡ new'
    → (if b then l else new) ≡ (if b' then l' else new')
limit_lem b b' l l' new new' e f g = rw (e, f, g) refl

module _ ⦃p : Platform⦄ ⦃d : Double⦄ where
  open p use {find}

  abbrev refund_in : p.Table RefundRequest → ℕ → ℤ
  refund_in w owner = net_refund (find w owner owner) +ℤ cpu_refund (find w owner owner)

  -- What one account has staked to another.
  abbrev pub staked_to : State → (from to : ℕ) → ℤ
  staked_to s from to = net_staked (find s.delband from to) +ℤ cpu_staked (find s.delband from to)

  -- Every stake, total and refund is between zero and the maximum of an asset.
  abbrev pub IsSound : State → Type 0
  IsSound s = IsStaked s × AreTotals s × AreRefunds s

  -- What a change of bandwidth does, where `owner` is the account that has the stake.
  pub record Staked (ctx : Context) (from owner receiver : ℕ) (net cpu : Asset) (s s' : State)
      : Type 0 where
    pub signed : ctx.has_auth from ≡ true
    pub transferred : Asset
    pub transferred_nonneg : pos 0 ≤ℤ transferred.amount
    pub sent : s'.inlines ≡ (
        if ltb_ℤ (pos 0) transferred.amount
        then s.inlines
          ++ record {
            authorization = from ∷ [];
            call = transfer_call from stake_account transferred "stake bandwidth";
          }
            ∷ []
        else s.inlines)
    pub conserved :
        staked_to s' owner receiver +ℤ refund_of s' owner
        ≡ (staked_to s owner receiver +ℤ refund_of s owner) +ℤ transferred.amount
    pub net_staked_lem :
        net_staked (find s'.delband owner receiver)
        ≡ net_staked (find s.delband owner receiver) +ℤ net.amount
    pub cpu_staked_lem :
        cpu_staked (find s'.delband owner receiver)
        ≡ cpu_staked (find s.delband owner receiver) +ℤ cpu.amount
    pub net_total_lem :
        net_total (find s'.userres receiver receiver)
        ≡ net_total (find s.userres receiver receiver) +ℤ net.amount
    pub cpu_total_lem :
        cpu_total (find s'.userres receiver receiver)
        ≡ cpu_total (find s.userres receiver receiver) +ℤ cpu.amount
    pub net_limit : (s'.limits receiver).net ≡ (
        if is_managed net_managed (find s.voters ctx.self receiver)
        then (s.limits receiver).net
        else net_total (find s'.userres receiver receiver))
    pub cpu_limit : (s'.limits receiver).cpu ≡ (
        if is_managed cpu_managed (find s.voters ctx.self receiver)
        then (s.limits receiver).cpu
        else cpu_total (find s'.userres receiver receiver))
    pub other_stakes :
        (a b : ℕ) → ((owner == a) && (receiver == b)) ≡ false → staked_to s' a b ≡ staked_to s a b
    pub other_refunds : (a : ℕ) → (owner == a) ≡ false → refund_of s' a ≡ refund_of s a
    pub sound : IsSound s'

  -- The part before the votes.
  pub record Stored (ctx : Context) (from owner receiver : ℕ) (net cpu : Asset) (s s' : State)
      : Type 0 where
    s1 : State
    s2 : State
    delegated : Delegated owner receiver net cpu s s1
    totalled : Totalled ctx.self receiver net cpu s1 s2
    paid : Paid from owner receiver net cpu s2 s'

  pub Stored-Staked :
      (ctx : Context) (from owner receiver : ℕ) (net cpu : Asset) (s s3 s' : State)
      → ctx.has_auth from ≡ true
      → Stored ctx from owner receiver net cpu s s3
      → stakes s' ≡ stakes s3
      → Staked ctx from owner receiver net cpu s s'
  Stored-Staked ctx from owner receiver net cpu s s3 s' signed i same =
      let a = i.delegated in
      let b = i.totalled in
      let c = i.paid in
      let delband : s'.delband ≡ i.s1.delband =
        ap (λ (w : Stakes). w.delband) same
        ∙ ap (λ (w : State). w.delband) c.rest
        ∙ ap (λ (w : State). w.delband) b.rest in
      let userres : s'.userres ≡ i.s2.userres =
        ap (λ (w : Stakes). w.userres) same ∙ ap (λ (w : State). w.userres) c.rest in
      let limits : s'.limits ≡ i.s2.limits =
        ap (λ (w : Stakes). w.limits) same ∙ ap (λ (w : State). w.limits) c.rest in
      let refunds : s'.refunds ≡ s3.refunds = ap (λ (w : Stakes). w.refunds) same in
      let before : i.s2.refunds ≡ s.refunds =
        ap (λ (w : State). w.refunds) b.rest ∙ ap (λ (w : State). w.refunds) a.rest in
      let inlines : i.s2.inlines ≡ s.inlines =
        ap (λ (w : State). w.inlines) b.rest ∙ ap (λ (w : State). w.inlines) a.rest in
      let userres_first : i.s1.userres ≡ s.userres = ap (λ (w : State). w.userres) a.rest in
      let limits_first : i.s1.limits ≡ s.limits = ap (λ (w : State). w.limits) a.rest in
      let voters_first : i.s1.voters ≡ s.voters = ap (λ (w : State). w.voters) a.rest in
      let net_lem =
        ap (λ w. net_staked (find w owner receiver)) delband
        ∙ hit (owner == owner) (receiver == receiver) _ _ _ (ground arith) (a.net_at owner receiver)
        ∙ a.net_lem in
      let cpu_lem =
        ap (λ w. cpu_staked (find w owner receiver)) delband
        ∙ hit (owner == owner) (receiver == receiver) _ _ _ (ground arith) (a.cpu_at owner receiver)
        ∙ a.cpu_lem in
      let net_same = ap (λ w. net_total (find w receiver receiver)) userres ∙ b.net_at in
      let cpu_same = ap (λ w. cpu_total (find w receiver receiver)) userres ∙ b.cpu_at in
      let t = c.transferred.amount in
      record {
        signed = signed;
        transferred = c.transferred;
        transferred_nonneg = c.nonneg;
        sent =
            ap (λ (w : Stakes). w.inlines) same
            ∙ c.sent
            ∙ ap
                (λ w.
                  if ltb_ℤ (pos 0) t
                  then w
                    ++ record {
                      authorization = from ∷ [];
                      call = transfer_call from stake_account c.transferred "stake bandwidth";
                    }
                      ∷ []
                  else w)
                inlines;
        conserved =
            held_sum _ _ _ _ net.amount cpu.amount (refund_of s' owner) (refund_of s owner) t
              net_lem cpu_lem
              (ap (λ w. refund_in w owner +ℤ (net.amount +ℤ cpu.amount)) refunds
                ∙ c.conserved
                ∙ ap (λ w. refund_in w owner +ℤ t) before);
        net_staked_lem = net_lem;
        cpu_staked_lem = cpu_lem;
        net_total_lem =
            net_same
            ∙ b.net_lem
            ∙ ap (λ w. net_total (find w receiver receiver) +ℤ net.amount) userres_first;
        cpu_total_lem =
            cpu_same
            ∙ b.cpu_lem
            ∙ ap (λ w. cpu_total (find w receiver receiver) +ℤ cpu.amount) userres_first;
        net_limit =
            ap (λ w. (w receiver).net) limits
            ∙ b.net_limit
            ∙ limit_lem _ _ _ _ _ _
                (ap (λ w. is_managed net_managed (find w ctx.self receiver)) voters_first)
                (ap (λ w. (w receiver).net) limits_first) (sym net_same);
        cpu_limit =
            ap (λ w. (w receiver).cpu) limits
            ∙ b.cpu_limit
            ∙ limit_lem _ _ _ _ _ _
                (ap (λ w. is_managed cpu_managed (find w ctx.self receiver)) voters_first)
                (ap (λ w. (w receiver).cpu) limits_first) (sym cpu_same);
        other_stakes = λ x y e.
            sum_lem _ _ _ _
              (ap (λ w. net_staked (find w x y)) delband ∙ miss _ _ _ _ e (a.net_at x y))
              (ap (λ w. cpu_staked (find w x y)) delband ∙ miss _ _ _ _ e (a.cpu_at x y));
        other_refunds = λ x e.
            ap (λ w. refund_in w x) refunds
            ∙ (let gone = c.others x x (ground arith) in
                sum_lem _ _ _ _ (ap net_refund gone) (ap cpu_refund gone))
            ∙ ap (λ w. refund_in w x) before;
        sound = (
          λ x y r found. a.staked x y r (sym (ap (λ w. find w x y) delband) ∙ found),
          λ x y r found. b.total x y r (sym (ap (λ w. find w x y) userres) ∙ found),
          λ x y r found. c.refunds x y r (sym (ap (λ w. find w x y) refunds) ∙ found),
        );
      }

  pub stored_lem :
      (ctx : Context) (from owner receiver : ℕ) (net cpu : Asset) (transfer : Bool)
      (s s1 s2 s3 : State)
      → IsInRange net.amount
      → IsInRange cpu.amount
      → IsSound s
      → change_delegated owner receiver net cpu s ≡ ok (tt, s1)
      → change_totals ctx owner receiver net cpu s1 ≡ ok (tt, s2)
      → change_refund ctx from owner receiver net cpu transfer s2 ≡ ok (tt, s3)
      → Stored ctx from owner receiver net cpu s s3
  stored_lem ctx from owner receiver net cpu transfer s s1 s2 s3 h k (staked, totals, refunds) e1 e2
        e3 =
      let a = change_delegated-Delegated owner receiver net cpu s s1 h k staked e1 in
      let userres : s1.userres ≡ s.userres = ap (λ (w : State). w.userres) a.rest in
      let b =
        change_totals-Totalled ctx owner receiver net cpu s1 s2 h k
          (λ x y r found. totals x y r (sym (ap (λ w. find w x y) userres) ∙ found)) e2 in
      let refunds_same : s2.refunds ≡ s.refunds =
        ap (λ (w : State). w.refunds) b.rest ∙ ap (λ (w : State). w.refunds) a.rest in
      let c =
        change_refund-Paid ctx from owner receiver net cpu transfer s2 s3 h k
          (λ x y r found. refunds x y r (sym (ap (λ w. find w x y) refunds_same) ∙ found)) e3 in
      record { s1 = s1; s2 = s2; delegated = a; totalled = b; paid = c }
