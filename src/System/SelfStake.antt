-- ===== src/System/SelfStake.antt =====
-- The stake that a producer keeps to itself.
use ux_contracts.Prelude.{
  ℕ, ◌+◌, ◌<◌, ◌^◌, ◌≡◌, ◌≢◌, ◌≤◌, refl, sym, ap, subst, ◌∙◌, true, false, not, Option, some, none,
  ◌==◌, arith, ℤ, pos, pos_part, neg_part, ◌≤ℤ◌, ◌+ℤ◌, neg, ltb_ℤ, int64, uint64, sub_64,
  Bool-cases, Option-cases, inl, inr, +ℤ_parts, neg_parts,
}
use ux_contracts.Chain.Action.{ok, when}
use ux_contracts.Chain.Asset.{Asset, IsInRange}
use ux_contracts.Chain.Context.{Context}
use ux_contracts.Chain.Platform.{Platform}
use ux_contracts.Chain.Sums.{asset_neg-exact, neg-IsInRange}
use ux_contracts.Chain.Double.{Double}
use ux_contracts.Chain.Frame.{bind-ok, check-then, when-then}
use ux_contracts.System.Tables.{Names, DelegatedBandwidth, stake_account}
use ux_contracts.System.State.{State, core_asset}
use ux_contracts.System.Stakes.{net_staked, cpu_staked, IsStaked, IsStake, IsAmount_of}
use ux_contracts.Token.Balances.{IsAmount}
use ux_contracts.System.Staking.{
  self_stake, undelegatebw, keeps_stake, is_active_producer, check_at_least, changebw,
}
use ux_contracts.System.Held.{IsSound, Staked, staked_to}
use ux_contracts.System.Delegation.{changebw-Staked}

-- Where the difference of two words is not below zero, it does not wrap.
no_wrap : (x y : ℕ) → y ≤ x → x < 2 ^ 64 → self_stake ≤ sub_64 x y → self_stake + y ≤ x
no_wrap x y h k e = omega arith

word-sum :
    (a b : ℤ)
    → IsAmount a
    → IsAmount b
    → (uint64 (a +ℤ b) ≡ pos_part (a +ℤ b)) × (pos_part (a +ℤ b) < 2 ^ 64) × (neg_part (a +ℤ b) ≡ 0)
unfolding uint64 ◌+ℤ◌
word-sum a b h k = (ground arith, ground arith, ground arith)

-- What is left of a stake, where the test on the words has passed.
stake_left :
    (n c dn dc mn mc n' c' : ℤ)
    → IsAmount n
    → IsAmount c
    → IsAmount dn
    → IsAmount dc
    → mn ≡ neg dn
    → mc ≡ neg dc
    → n' ≡ n +ℤ mn
    → c' ≡ c +ℤ mc
    → pos 0 ≤ℤ n'
    → pos 0 ≤ℤ c'
    → self_stake ≤ sub_64 (uint64 (n +ℤ c)) (uint64 (dn +ℤ dc))
    → pos self_stake ≤ℤ n' +ℤ c'
stake_left n c dn dc mn mc n' c' hn hc hdn hdc en ec fn fc pn pc asked =
    let (x0, x1, x2) = word-sum n c hn hc in
    let (y0, y1, y2) = word-sum dn dc hdn hdc in
    let a1 = +ℤ_parts n c in
    let a2 = +ℤ_parts dn dc in
    let a3 = +ℤ_parts n mn in
    let a4 = +ℤ_parts c mc in
    let a5 = +ℤ_parts n' c' in
    let b1 = neg_parts dn in
    let b2 = neg_parts dc in
    let q0 = ap pos_part fn in
    let q1 = ap neg_part fn in
    let q2 = ap pos_part fc in
    let q3 = ap neg_part fc in
    let q4 = ap pos_part en in
    let q5 = ap neg_part en in
    let q6 = ap pos_part ec in
    let q7 = ap neg_part ec in
    let asked' : self_stake ≤ sub_64 (pos_part (n +ℤ c)) (pos_part (dn +ℤ dc)) =
      rw (x0, y0) at asked in
    let less : pos_part (dn +ℤ dc) ≤ pos_part (n +ℤ c) = omega arith in
    let w = no_wrap (pos_part (n +ℤ c)) (pos_part (dn +ℤ dc)) less x1 asked' in omega arith

module _ ⦃p : Platform⦄ ⦃d : Double⦄ where
  open p use {find}

  -- What is asked of an active producer that takes back a stake.
  abbrev Asked : (net cpu : Asset) → DelegatedBandwidth → Type 0
  Asked net cpu own =
      self_stake
      ≤ sub_64 (uint64 (own.net_weight.amount +ℤ own.cpu_weight.amount))
          (uint64 (net.amount +ℤ cpu.amount))

  asked-then :
      (net cpu : Asset) (o : Option DelegatedBandwidth) (s t : State)
      → keeps_stake net cpu o s ≡ ok (tt, t)
      → (t ≡ s) × (own : DelegatedBandwidth) × (o ≡ some own) × Asked net cpu own
  asked-then net cpu none s t run = absurd (ground arith)
  asked-then net cpu (some own) s t run = (ground arith, own, refl, ground arith)

  -- An undelegation that goes through, as a change of bandwidth.
  record Undelegated (depth : ℕ) (ctx : Context) ⦃n : Names⦄ (from receiver : ℕ) (net cpu : Asset)
      (s t : State) : Type 0 where
    own : DelegatedBandwidth
    found : find s.delband from from ≡ some own
    asked : Asked net cpu own
    net_nonneg : pos 0 ≤ℤ net.amount
    cpu_nonneg : pos 0 ≤ℤ cpu.amount
    changed :
        changebw depth ctx from receiver (p.asset_neg net) (p.asset_neg cpu) false s ≡ ok (tt, t)

  undelegatebw-Undelegated :
      ⦃n : Names⦄ (depth : ℕ) (ctx : Context) (from receiver : ℕ) (net cpu : Asset) (s t : State)
      → is_active_producer (find s.producers ctx.self from) ≡ true
      → undelegatebw depth ctx from receiver net cpu s ≡ ok (tt, t)
      → Undelegated depth ctx from receiver net cpu s t
  unfolding undelegatebw
  undelegatebw-Undelegated depth ctx from receiver net cpu s t active run =
      let (zero_asset, s1, e1, r1) = bind-ok (core_asset (pos 0)) _ s t tt run in
      let first : s1 ≡ s = ground arith in
      let zero_is : zero_asset.amount ≡ pos 0 = ground arith in
      let active1 : is_active_producer (find s1.producers ctx.self from) ≡ true =
        ap (λ (w : State). is_active_producer (find w.producers ctx.self from)) first ∙ active in
      let stake = keeps_stake net cpu (find s1.delband from from) in
      let (u2, s2, e2, r2) =
        bind-ok (when (is_active_producer (find s1.producers ctx.self from)) stake) _ s1 t tt r1 in
      let (second, own, found, asked) = asked-then net cpu (find s1.delband from from) s1 s2 (
        when-then (is_active_producer (find s1.producers ctx.self from)) stake s1 (ok (u2, s2))
          active1 e2) in
      let (u3, s3, e3, r3) =
        bind-ok (check_at_least cpu zero_asset "must unstake a positive amount") _ s2 t tt r2 in
      let (u4, s4, e4, r4) =
        bind-ok (check_at_least net zero_asset "must unstake a positive amount") _ s3 t tt r3 in
      let (positive, r5) =
        check-then (ltb_ℤ (pos 0) (int64 (cpu.amount +ℤ net.amount)))
          "must unstake a positive amount" _ s4 t tt r4 in
      let (active_chain, r6) =
        check-then (not (s4.global.thresh_activated_stake_time == 0))
          "cannot undelegate bandwidth until the chain is activated (at least 15% of all tokens participate in voting)"
          _ s4 t tt r5 in
      let third : s4 ≡ s2 = ground arith in
      let same : s4 ≡ s = cc (third, second, first) in
      record {
        own = own;
        found = sym (ap (λ (w : State). find w.delband from from) first) ∙ found;
        asked = asked;
        net_nonneg = ground arith;
        cpu_nonneg = ground arith;
        changed = rw same at r6;
      }

  net_nonneg : (from : ℕ) (t : State) → IsStaked t → pos 0 ≤ℤ net_staked (find t.delband from from)
  net_nonneg from t staked = elim (Option-cases (find t.delband from from)) [
    | inl gone ↦ rw gone (omega arith)
    | inr (b, there) ↦ rw there (staked from from b there).0.0
  ]

  cpu_nonneg : (from : ℕ) (t : State) → IsStaked t → pos 0 ≤ℤ cpu_staked (find t.delband from from)
  cpu_nonneg from t staked = elim (Option-cases (find t.delband from from)) [
    | inl gone ↦ rw gone (omega arith)
    | inr (b, there) ↦ rw there (staked from from b there).1.0
  ]

  own_left :
      (from : ℕ) (net cpu : Asset) (own : DelegatedBandwidth) (s t : State)
      → IsInRange net.amount
      → IsInRange cpu.amount
      → IsStake own
      → find s.delband from from ≡ some own
      → pos 0 ≤ℤ net.amount
      → pos 0 ≤ℤ cpu.amount
      → (p.asset_neg net).amount ≡ neg net.amount
      → (p.asset_neg cpu).amount ≡ neg cpu.amount
      → net_staked (find t.delband from from)
        ≡ net_staked (find s.delband from from) +ℤ (p.asset_neg net).amount
      → cpu_staked (find t.delband from from)
        ≡ cpu_staked (find s.delband from from) +ℤ (p.asset_neg cpu).amount
      → pos 0 ≤ℤ net_staked (find t.delband from from)
      → pos 0 ≤ℤ cpu_staked (find t.delband from from)
      → Asked net cpu own
      → pos self_stake ≤ℤ staked_to t from from
  own_left from net cpu own s t h k stake found hn hc en ec fn fc pn pc asked =
      stake_left own.net_weight.amount own.cpu_weight.amount net.amount cpu.amount
        (p.asset_neg net).amount (p.asset_neg cpu).amount (net_staked (find t.delband from from))
        (cpu_staked (find t.delband from from)) stake.0 stake.1 (IsAmount_of net.amount h hn)
        (IsAmount_of cpu.amount k hc) en ec
        (fn ∙ ap (λ o. net_staked o +ℤ (p.asset_neg net).amount) found)
        (fc ∙ ap (λ o. cpu_staked o +ℤ (p.asset_neg cpu).amount) found) pn pc asked

  -- Where the amounts are in range and every stake, total and refund is between zero and the maximum
  -- of an asset: an account other than the stake account that is an active producer and has at least
  -- the self stake staked to itself still has it after an undelegatebw that goes through, whoever
  -- the stake is taken back from.
  pub undelegatebw-keeps :
      ⦃n : Names⦄ (depth : ℕ) (ctx : Context) (from receiver : ℕ) (net cpu : Asset) (s t : State)
      → IsInRange net.amount
      → IsInRange cpu.amount
      → IsSound s
      → from ≢ stake_account
      → is_active_producer (find s.producers ctx.self from) ≡ true
      → pos self_stake ≤ℤ staked_to s from from
      → undelegatebw depth ctx from receiver net cpu s ≡ ok (tt, t)
      → pos self_stake ≤ℤ staked_to t from from
  undelegatebw-keeps depth ctx from receiver net cpu s t h k sound other active enough run =
      let i = undelegatebw-Undelegated depth ctx from receiver net cpu s t active run in
      let (net_is, net_symbol) = asset_neg-exact net h in
      let (cpu_is, cpu_symbol) = asset_neg-exact cpu k in
      let h' : IsInRange (p.asset_neg net).amount =
        subst IsInRange (sym net_is) (neg-IsInRange net.amount h) in
      let k' : IsInRange (p.asset_neg cpu).amount =
        subst IsInRange (sym cpu_is) (neg-IsInRange cpu.amount k) in
      let st =
        changebw-Staked depth ctx from receiver (p.asset_neg net) (p.asset_neg cpu) false s t h' k'
          sound other i.changed in
      elim (Bool-cases (receiver == from)) [
        | inl own ↦
            let e : receiver ≡ from = ground arith in
            let st' =
              subst (λ r. Staked ctx from from r (p.asset_neg net) (p.asset_neg cpu) s t) e st in
            own_left from net cpu i.own s t h k (sound.0 from from i.own i.found) i.found
              i.net_nonneg i.cpu_nonneg net_is cpu_is st'.net_staked_lem st'.cpu_staked_lem
              (net_nonneg from t st'.sound.0) (cpu_nonneg from t st'.sound.0) i.asked
        | inr foreign ↦
            let same = st.other_stakes from from (ground arith) in
            subst (λ w. pos self_stake ≤ℤ w) (sym same) enough
      ]
