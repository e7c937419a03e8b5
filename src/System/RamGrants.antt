-- ===== src/System/RamGrants.antt =====
-- contracts/eosio.system/src/delegate_bandwidth.cpp and eosio.system.cpp: memory that is bought and sold,
-- and accounts that are new, and the memory that is granted.
use ux_contracts.Prelude.{
  ℕ, ◌≡◌, ◌/◌, refl, sym, ap, subst, ◌∙◌, Bool, not, ◌&&◌, Option, none, some, ◌==◌, arith, ℤ, pos,
  ◌-ℤ◌, int64, is_some, inr,
}
use ux_contracts.Chain.Action.{ok, when, check, gets, modify, ◌>>=◌, ◌>>◌}
use ux_contracts.Chain.Asset.{Asset}
use ux_contracts.Chain.Context.{Context}
use ux_contracts.Chain.Platform.{Platform}
use ux_contracts.Chain.Double.{Double}
use ux_contracts.Chain.Frame.{bind-ok, check-then}
use ux_contracts.System.Tables.{Names, UserResources}
use ux_contracts.System.State.{State, set_global, core_asset, set_resource_limits}
use ux_contracts.System.Core.{newaccount, check_name, has_dot, new_resources}
use ux_contracts.System.Ram.{
  update_ram_supply, bytes_for, reserve, more_ram, buyram, buyrambytes, sellram, setram, setramrate,
  update_ram_limit, put_resources,
}
use ux_contracts.System.RamSteps.{buyram-steps, sellram-steps, buyrambytes-buys}
use ux_contracts.System.Grants.{
  IsGranted, Same-IsGranted, written-IsGranted, covers_self, bought-IsGranted,
}
use ux_contracts.System.Voters.{untouched}
use ux_contracts.System.VoteGrants.{untouched-Same}

module _ ⦃p : Platform⦄ ⦃d : Double⦄ where
  open p use {find, find-put}

  untouched-IsGranted :
      (self : ℕ) (s t : State) → untouched t ≡ untouched s → IsGranted self s → IsGranted self t
  untouched-IsGranted self s t e = Same-IsGranted self s t (untouched-Same self s t e)

  update_ram_supply-untouched :
      (cbt : ℕ) (s t : State) → update_ram_supply cbt s ≡ ok (tt, t) → untouched t ≡ untouched s
  unfolding update_ram_supply
  update_ram_supply-untouched cbt s t run = ground arith

  more_ram-owner :
      (receiver : ℕ) (bytes : ℤ) (o : Option UserResources) (s t : State) (res : UserResources)
      → ((r : UserResources) → o ≡ some r → r.owner ≡ receiver)
      → more_ram receiver bytes o s ≡ ok (res, t)
      → res.owner ≡ receiver
  more_ram-owner receiver bytes none s t res owners run = ground arith
  more_ram-owner receiver bytes (some r) s t res owners run = ground (arith, owners r refl)

  pub buyram-IsGranted :
      (ctx : Context) (cbt payer receiver : ℕ) (quant : Asset) (s t : State)
      → IsGranted ctx.self s
      → buyram ctx cbt payer receiver quant s ≡ ok (tt, t)
      → IsGranted ctx.self t
  buyram-IsGranted ctx cbt payer receiver quant s t h run =
      let steps = buyram-steps ctx cbt payer receiver quant s t run in
      let s1 = steps.s1 in
      let s3 : State = set_global (reserve (bytes_for quant.amount) quant.amount) steps.s2 in
      let h1 =
        untouched-IsGranted ctx.self s s1 (update_ram_supply-untouched cbt s s1 steps.supplied) h in
      let h3 = untouched-IsGranted ctx.self s1 s3 (ap untouched steps.paid) h1 in
      let named =
        more_ram-owner receiver (bytes_for quant.amount) (find s1.userres receiver receiver) s3 s3
          steps.res (λ r f. (h1 receiver r f).0) steps.row in
      subst (IsGranted ctx.self) (sym steps.after)
        (bought-IsGranted ctx.self receiver receiver steps.res s3 named h3)

  pub buyrambytes-IsGranted :
      (ctx : Context) (cbt payer receiver bytes : ℕ) (s t : State)
      → IsGranted ctx.self s
      → buyrambytes ctx cbt payer receiver bytes s ≡ ok (tt, t)
      → IsGranted ctx.self t
  buyrambytes-IsGranted ctx cbt payer receiver bytes s t h run =
      let (quant, bought) = buyrambytes-buys ctx cbt payer receiver bytes s t run in
      buyram-IsGranted ctx cbt payer receiver quant s t h bought

  pub sellram-IsGranted :
      (ctx : Context) (cbt account : ℕ) (bytes : ℤ) (s t : State)
      → IsGranted ctx.self s
      → sellram ctx cbt account bytes s ≡ ok (tt, t)
      → IsGranted ctx.self t
  sellram-IsGranted ctx cbt account bytes s t h run =
      let steps = sellram-steps ctx cbt account bytes s t run in
      let s1 = steps.s1 in
      let rest : UserResources = record steps.res {
        ram_bytes = int64 (steps.res.ram_bytes -ℤ bytes);
      } in
      let h1 =
        untouched-IsGranted ctx.self s s1 (update_ram_supply-untouched cbt s s1 steps.supplied) h in
      let h2 = untouched-IsGranted ctx.self s1 steps.s2 (ap untouched steps.released) h1 in
      untouched-IsGranted ctx.self
        (update_ram_limit ctx.self rest (put_resources account account rest steps.s2)) t
        (ap untouched steps.after)
        (bought-IsGranted ctx.self account account rest steps.s2
          (h1 account steps.res steps.known).0 h2)

  pub setram-IsGranted :
      (ctx : Context) (max_ram_size : ℕ) (s t : State)
      → IsGranted ctx.self s
      → setram ctx max_ram_size s ≡ ok (tt, t)
      → IsGranted ctx.self t
  unfolding setram
  setram-IsGranted ctx max_ram_size s t h run = untouched-IsGranted ctx.self s t (ground arith) h

  pub setramrate-IsGranted :
      (ctx : Context) (cbt bytes_per_block : ℕ) (s t : State)
      → IsGranted ctx.self s
      → setramrate ctx cbt bytes_per_block s ≡ ok (tt, t)
      → IsGranted ctx.self t
  unfolding setramrate
  setramrate-IsGranted ctx cbt bytes_per_block s t h run =
      let (signed, r0) =
        check-then (ctx.has_auth ctx.self) "missing required authority" _ s t tt run in
      let (u1, s1, e1, r1) = bind-ok (update_ram_supply cbt) _ s t tt r0 in
      let last : untouched t ≡ untouched s1 = ground arith in
      untouched-IsGranted ctx.self s t (last ∙ update_ram_supply-untouched cbt s s1 e1) h

  check_name-untouched :
      ⦃n : Names⦄ (ctx : Context) (creator newact : ℕ) (b : Bool) (s t : State)
      → when b (check_name ctx creator newact) s ≡ ok (tt, t)
      → untouched t ≡ untouched s
  check_name-untouched ctx creator newact b s t run = ground arith

  -- What the creation of an account does last.
  new_row-after :
      (newact : ℕ) (net cpu : Asset) (s t : State)
      → (do
        found ← gets (λ (s : State). find s.userres newact newact)
        check
            (not (is_some found))
            "could not insert object, most likely a uniqueness constraint was violated"
        modify (put_resources newact newact (new_resources newact net cpu))
        modify (set_resource_limits newact (pos 0) (pos 0) (pos 0)))
          s
        ≡ ok (tt, t)
      → t
        ≡ set_resource_limits newact
            (pos 0)
            (pos 0)
            (pos 0)
            (put_resources newact newact (new_resources newact net cpu) s)
  new_row-after newact net cpu s t run = ground arith

  new_row-IsGranted :
      (self newact : ℕ) (net cpu : Asset) (s : State)
      → IsGranted self s
      → IsGranted self (
          set_resource_limits newact
            (pos 0)
            (pos 0)
            (pos 0)
            (put_resources newact newact (new_resources newact net cpu) s))
  new_row-IsGranted self newact net cpu s h =
      let res = new_resources newact net cpu in
      let t : State =
        set_resource_limits newact (pos 0) (pos 0) (pos 0) (put_resources newact newact res s) in
      written-IsGranted self newact res (some res) s t refl (inr refl) refl
        (λ a. ground (arith, find-put s.userres newact newact newact res a a)) (λ a e. ground arith)
        (λ free. ground (arith, covers_self (pos 0))) h

  pub newaccount-IsGranted :
      ⦃n : Names⦄ (ctx : Context) (creator newact : ℕ) (s t : State)
      → IsGranted ctx.self s
      → newaccount ctx creator newact s ≡ ok (tt, t)
      → IsGranted ctx.self t
  unfolding newaccount
  newaccount-IsGranted ctx creator newact s t h run =
      let named = not (creator == ctx.self) && has_dot 12 (newact / 16) in
      let (u1, s1, e1, r1) = bind-ok (when named (check_name ctx creator newact)) _ s t tt run in
      let (net, s2, e2, r2) = bind-ok (core_asset (pos 0)) _ s1 t tt r1 in
      let (cpu, s3, e3, r3) = bind-ok (core_asset (pos 0)) _ s2 t tt r2 in
      let same : untouched s3 ≡ untouched s1 = ground arith in
      let h3 =
        untouched-IsGranted ctx.self s s3
          (same ∙ check_name-untouched ctx creator newact named s s1 e1) h in
      subst (IsGranted ctx.self) (sym (new_row-after newact net cpu s3 t r3))
        (new_row-IsGranted ctx.self newact net cpu s3 h3)
