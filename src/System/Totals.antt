-- ===== src/System/Totals.antt =====
-- The totals of an account that receives bandwidth, and its limits, through a change of bandwidth.
use ux_contracts.Prelude.{
  ℕ, ◌≡◌, refl, sym, ap, subst, ◌∙◌, false, ◌&&◌, Option, none, some, ◌==◌, if◌then◌else◌, arith, ℤ,
  pos, ◌≤ℤ◌, leb_ℤ, ◌+ℤ◌, is_some,
}
use ux_contracts.Chain.Action.{ok}
use ux_contracts.Chain.Asset.{Asset, IsInRange}
use ux_contracts.Chain.Context.{Context}
use ux_contracts.Chain.Platform.{Platform}
use ux_contracts.Chain.Sums.{asset_add-exact, find-store}
use ux_contracts.Chain.Double.{Double}
use ux_contracts.Chain.Frame.{bind-ok, check-then, lift-then}
use ux_contracts.Token.Balances.{IsAmount}
use ux_contracts.System.Ram.{is_managed}
use ux_contracts.System.Tables.{net_managed, cpu_managed, Limits, UserResources, is_empty_resources}
use ux_contracts.System.State.{State}
use ux_contracts.System.Stakes.{amount-IsInRange, zero-add, stored_lem}
use ux_contracts.System.Bandwidth.{totals_row, store_totals, update_limits, change_totals}

abbrev pub net_total : Option UserResources → ℤ
net_total none = pos 0
net_total (some r) = r.net_weight.amount

abbrev pub cpu_total : Option UserResources → ℤ
cpu_total none = pos 0
cpu_total (some r) = r.cpu_weight.amount

abbrev pub ram_total : Option UserResources → ℤ
ram_total none = pos 0
ram_total (some r) = r.ram_bytes

abbrev pub IsTotal : UserResources → Type 0
IsTotal r = IsAmount r.net_weight.amount × IsAmount r.cpu_weight.amount

module _ ⦃p : Platform⦄ ⦃d : Double⦄ where
  open p use {find}

  abbrev pub AreTotals : State → Type 0
  AreTotals s =
      (scope account : ℕ) (r : UserResources) → find s.userres scope account ≡ some r → IsTotal r

  totals_row-exact :
      (receiver : ℕ) (net cpu : Asset) (found : Option UserResources) (s s' : State)
      (row : UserResources)
      → IsInRange net.amount
      → IsInRange cpu.amount
      → ((r : UserResources) → found ≡ some r → IsTotal r)
      → totals_row receiver net cpu found s ≡ ok (row, s')
      → (row.net_weight.amount ≡ net_total found +ℤ net.amount)
        × (row.cpu_weight.amount ≡ cpu_total found +ℤ cpu.amount)
        × (row.ram_bytes ≡ ram_total found)
        × IsInRange row.net_weight.amount
        × IsInRange row.cpu_weight.amount
        × (s' ≡ s)
  unfolding totals_row
  totals_row-exact receiver net cpu none s s' row h k total run =
      let e = zero-add net.amount in let f = zero-add cpu.amount in ground arith
  totals_row-exact receiver net cpu (some r) s s' row h k total run =
      let (held_net, held_cpu) = total r refl in
      let (n, e1, r1) = lift-then (p.asset_add r.net_weight net) _ s s' row run in
      let (c, e2, r2) = lift-then (p.asset_add r.cpu_weight cpu) _ s s' row r1 in
      let x = asset_add-exact r.net_weight net n (amount-IsInRange _ held_net) h e1 in
      let y = asset_add-exact r.cpu_weight cpu c (amount-IsInRange _ held_cpu) k e2 in ground arith

  -- What a change of the totals does: the limits follow them, but for those that are managed, and the
  -- memory is not made less.
  pub record Totalled (self receiver : ℕ) (net cpu : Asset) (s s' : State) : Type 0 where
    pub new_net : ℤ
    pub new_cpu : ℤ
    pub net_lem : new_net ≡ net_total (find s.userres receiver receiver) +ℤ net.amount
    pub cpu_lem : new_cpu ≡ cpu_total (find s.userres receiver receiver) +ℤ cpu.amount
    pub net_nonneg : pos 0 ≤ℤ new_net
    pub cpu_nonneg : pos 0 ≤ℤ new_cpu
    pub net_at : net_total (find s'.userres receiver receiver) ≡ new_net
    pub cpu_at : cpu_total (find s'.userres receiver receiver) ≡ new_cpu
    pub ram_at :
        ram_total (find s'.userres receiver receiver) ≡ ram_total (find s.userres receiver receiver)
    pub others :
        (a b : ℕ)
        → ((receiver == a) && (receiver == b)) ≡ false
        → find s'.userres a b ≡ find s.userres a b
    pub net_limit : (s'.limits receiver).net ≡ (
        if is_managed net_managed (find s.voters self receiver)
        then (s.limits receiver).net
        else new_net)
    pub cpu_limit : (s'.limits receiver).cpu ≡ (
        if is_managed cpu_managed (find s.voters self receiver)
        then (s.limits receiver).cpu
        else new_cpu)
    pub other_limits : (a : ℕ) → (receiver == a) ≡ false → s'.limits a ≡ s.limits a
    pub total : AreTotals s'
    pub rest : s' ≡ record s { userres = s'.userres; limits = s'.limits }

  net_stored :
      (row : UserResources)
      → net_total (if is_empty_resources row then none else some row) ≡ row.net_weight.amount
  net_stored row = ground arith

  cpu_stored :
      (row : UserResources)
      → cpu_total (if is_empty_resources row then none else some row) ≡ row.cpu_weight.amount
  cpu_stored row = ground arith

  ram_stored :
      (row : UserResources)
      → ram_total (if is_empty_resources row then none else some row) ≡ row.ram_bytes
  ram_stored row = ground arith

  net_limited :
      (self receiver : ℕ) (row : UserResources) (s : State)
      → ((update_limits self receiver row s).limits receiver).net ≡ (
          if is_managed net_managed (find s.voters self receiver)
          then (s.limits receiver).net
          else row.net_weight.amount)
  net_limited self receiver row s = ground arith

  cpu_limited :
      (self receiver : ℕ) (row : UserResources) (s : State)
      → ((update_limits self receiver row s).limits receiver).cpu ≡ (
          if is_managed cpu_managed (find s.voters self receiver)
          then (s.limits receiver).cpu
          else row.cpu_weight.amount)
  cpu_limited self receiver row s = ground arith

  others_limited :
      (self receiver : ℕ) (row : UserResources) (s : State) (a : ℕ)
      → (receiver == a) ≡ false
      → (update_limits self receiver row s).limits a ≡ s.limits a
  others_limited self receiver row s a h = ground arith

  only_limits :
      (self receiver : ℕ) (row : UserResources) (s : State)
      → update_limits self receiver row s
        ≡ record s { limits = (update_limits self receiver row s).limits }
  only_limits self receiver row s = ground arith

  stored_rest :
      (payer self receiver : ℕ) (row : UserResources) (s : State)
      → store_totals payer receiver row (update_limits self receiver row s) ≡ record s {
        userres = (store_totals payer receiver row (update_limits self receiver row s)).userres;
        limits = (update_limits self receiver row s).limits;
      }
  stored_rest payer self receiver row s = ground arith

  pub change_totals-Totalled :
      (ctx : Context) (from receiver : ℕ) (net cpu : Asset) (s s' : State)
      → IsInRange net.amount
      → IsInRange cpu.amount
      → AreTotals s
      → change_totals ctx from receiver net cpu s ≡ ok (tt, s')
      → Totalled ctx.self receiver net cpu s s'
  unfolding change_totals
  change_totals-Totalled ctx from receiver net cpu s s' h k total run =
      let found = find s.userres receiver receiver in
      let (row, s1, e1, r1) = bind-ok (totals_row receiver net cpu found) _ s s' tt run in
      let (net_sum, cpu_sum, ram_same, net_in, cpu_in, same) =
        totals_row-exact receiver net cpu found s s1 row h k (total receiver receiver) e1 in
      let (net_nonneg, r2) =
        check-then (leb_ℤ (pos 0) row.net_weight.amount) "insufficient staked total net bandwidth" _
          s1 s' tt r1 in
      let (cpu_nonneg, r3) =
        check-then (leb_ℤ (pos 0) row.cpu_weight.amount) "insufficient staked total cpu bandwidth" _
          s1 s' tt r2 in
      let payer = if is_some found then if from == receiver then from else 0 else from in
      let m = update_limits ctx.self receiver row s in
      let after : s' ≡ store_totals payer receiver row m = cc (r3, same) in
      let m_is = only_limits ctx.self receiver row s in
      let at : (a b : ℕ)
          → find s'.userres a b ≡ (
              if (receiver == a) && (receiver == b)
              then if is_empty_resources row then none else some row
              else find s.userres a b) =
        λ a b.
          ap (λ (w : State). find w.userres a b) after
          ∙ find-store (is_empty_resources row) m.userres payer receiver receiver row a b
          ∙ ap
              (λ (w : State).
                if (receiver == a) && (receiver == b)
                then if is_empty_resources row then none else some row
                else find w.userres a b)
              m_is in
      let here : find s'.userres receiver receiver
          ≡ (if is_empty_resources row then none else some row) =
        at receiver receiver ∙ ground arith in
      let limits_at = λ (a : ℕ). ap (λ (w : State). w.limits a) after in
      record {
        new_net = row.net_weight.amount;
        new_cpu = row.cpu_weight.amount;
        net_lem = net_sum;
        cpu_lem = cpu_sum;
        net_nonneg = ground arith;
        cpu_nonneg = ground arith;
        net_at = ap net_total here ∙ net_stored row;
        cpu_at = ap cpu_total here ∙ cpu_stored row;
        ram_at = ap ram_total here ∙ ram_stored row ∙ ram_same;
        others = λ a b e. at a b ∙ ground arith;
        net_limit =
            ap (λ (l : Limits). l.net) (limits_at receiver) ∙ net_limited ctx.self receiver row s;
        cpu_limit =
            ap (λ (l : Limits). l.cpu) (limits_at receiver) ∙ cpu_limited ctx.self receiver row s;
        other_limits = λ a e. limits_at a ∙ others_limited ctx.self receiver row s a e;
        total = λ a b x there.
            stored_lem IsTotal row x (is_empty_resources row) ((receiver == a) && (receiver == b)) _
              (ground arith) (total a b x) (sym (at a b) ∙ there);
        rest =
            subst (λ (w : State). w ≡ record s { userres = w.userres; limits = w.limits })
              (sym after) (stored_rest payer ctx.self receiver row s);
      }
