-- ===== src/System/RamSteps.antt =====
-- contracts/eosio.system/src/delegate_bandwidth.cpp: the steps of a purchase and of a sale of memory that
-- go through.
use ux_contracts.Prelude.{
  ℕ, ◌≡◌, ◌*◌, ◌/◌, ◌%◌, ◌^◌, refl, sym, subst, ltb, ◌==◌, ◌∙◌, ap, true, none, some, List, [], ◌∷◌,
  ◌++◌, arith, ℤ, pos, ltb_ℤ, leb_ℤ, ◌-ℤ◌, int64, Option,
}
use ux_contracts.Chain.Action.{ok, modify, ◌>>◌}
use ux_contracts.Chain.Asset.{Asset, Symbol, symbol_eq}
use ux_contracts.Chain.Context.{Context}
use ux_contracts.Chain.Platform.{Platform, make_asset}
use ux_contracts.Chain.Double.{Double}
use ux_contracts.Chain.Frame.{bind-ok, check-then, or_fail-then}
use ux_contracts.Token.History.{Call, transfer_call}
use ux_contracts.System.Tables.{UserResources, ram_account, ramcore_symbol}
use ux_contracts.System.State.{State, set_global, send}
use ux_contracts.System.Ram.{
  divides, update_ram_supply, bytes_for, tokens_for, reserve, release, more_ram, buyram,
  buyrambytes, sellram, update_ram_limit, put_resources,
}

module _ ⦃p : Platform⦄ ⦃d : Double⦄ where
  open p use {find}

  more_ram-same :
      (a : ℕ) (b : ℤ) (o : Option UserResources) (s t : State) (res : UserResources)
      → more_ram a b o s ≡ ok (res, t)
      → t ≡ s
  more_ram-same a b none s t res run = ground arith
  more_ram-same a b (some r) s t res run = ground arith

  -- What a purchase and a sale do last.
  bought-after :
      (self receiver : ℕ) (res : UserResources) (s t : State)
      → (do modify (put_resources receiver receiver res); modify (update_ram_limit self res)) s
        ≡ ok (tt, t)
      → t ≡ update_ram_limit self res (put_resources receiver receiver res s)
  bought-after self receiver res s t run = ground arith

  -- The row of a seller is written, and the payment sent.
  abbrev pub Sold : (self account : ℕ) → UserResources → State → State → Type 0
  Sold self account res s t =
      t ≡ record (update_ram_limit self res (put_resources account account res s)) {
        inlines = t.inlines;
      }

  payment-Sold :
      (self account : ℕ) (res : UserResources) (authorization : List ℕ) (call : Call) (s t : State)
      → (do
        modify (put_resources account account res)
        modify (update_ram_limit self res)
        send authorization call)
          s
        ≡ ok (tt, t)
      → Sold self account res s t
  payment-Sold self account res authorization call s t run =
      let sent : State = update_ram_limit self res (put_resources account account res s) in
      let e : t ≡ record sent {
        inlines = sent.inlines ++ record { authorization = authorization; call = call } ∷ [];
      } =
        ground arith in
      e ∙ ap (λ (x : State). record sent { inlines = x.inlines }) (sym e)

  -- The states that a purchase goes through: the supply grows, the payment is sent and the memory
  -- reserved, and the row of the receiver is written.
  pub record BuySteps (ctx : Context) (cbt receiver : ℕ) (quant : Asset) (s t : State)
      : Type 0 where
    pub s1 : State
    pub supplied : update_ram_supply cbt s ≡ ok (tt, s1)
    pub whole : divides 10000 quant.amount ≡ true
    pub positive : ltb_ℤ (pos 0) quant.amount ≡ true
    pub s2 : State
    pub paid : s2 ≡ record s1 { inlines = s2.inlines }
    pub res : UserResources
    pub row :
        more_ram receiver
          (bytes_for quant.amount)
          (find s1.userres receiver receiver)
          (set_global (reserve (bytes_for quant.amount) quant.amount) s2)
        ≡ ok (res, set_global (reserve (bytes_for quant.amount) quant.amount) s2)
    pub after :
        t
        ≡ update_ram_limit ctx.self res (
            put_resources receiver receiver res
              (set_global (reserve (bytes_for quant.amount) quant.amount) s2))

  pub buyram-steps :
      (ctx : Context) (cbt payer receiver : ℕ) (quant : Asset) (s t : State)
      → buyram ctx cbt payer receiver quant s ≡ ok (tt, t)
      → BuySteps ctx cbt receiver quant s t
  unfolding buyram
  buyram-steps ctx cbt payer receiver quant s t run =
      let (signed, r0) =
        check-then (ctx.has_auth payer) "missing required authority" _ s t tt run in
      let (u1, s1, supplied, r1) = bind-ok (update_ram_supply cbt) _ s t tt r0 in
      let (whole, r2) =
        check-then (divides 10000 quant.amount) "can only buy in exact increments of 1.0000 UTXRAM"
          _ s1 t tt r1 in
      let (known, r3) =
        check-then (symbol_eq quant.symbol ramcore_symbol) "must buy ram with ramcore token" _ s1 t
          tt r2 in
      let (positive, r4) =
        check-then (ltb_ℤ (pos 0) quant.amount) "must purchase a positive amount" _ s1 t tt r3 in
      let s2 : State = record s1 {
        inlines =
            s1.inlines
            ++ record {
              authorization = payer ∷ ram_account ∷ [];
              call = transfer_call payer ram_account quant "buy ram";
            }
              ∷ [];
      } in
      let (market, found, r5) =
        or_fail-then s1.rammarket "ram market does not exist" _ s2 t tt r4 in
      let (some_bytes, r6) =
        check-then (ltb_ℤ (pos 0) (bytes_for quant.amount)) "must reserve a positive amount" _ s2 t
          tt r5 in
      let s3 : State = set_global (reserve (bytes_for quant.amount) quant.amount) s2 in
      let (res, s4, row, r7) =
        bind-ok (more_ram receiver (bytes_for quant.amount) (find s1.userres receiver receiver)) _
          s3 t tt r6 in
      let same : s4 ≡ s3 = more_ram-same _ _ _ s3 s4 res row in
      let bought : State → State =
        λ x. update_ram_limit ctx.self res (put_resources receiver receiver res x) in
      let last : t ≡ bought s4 = bought-after ctx.self receiver res s4 t r7 in
      record {
        s1 = s1;
        supplied = supplied;
        whole = whole;
        positive = positive;
        s2 = s2;
        paid = refl;
        res = res;
        row = row ∙ ap (λ x. ok (res, x)) same;
        after = last ∙ ap bought same;
      }

  make_asset-ok :
      (symbol : Symbol) (amount : ℤ) (s t : State) (x : Asset)
      → make_asset symbol amount s ≡ ok (x, t)
      → (x ≡ record { amount = amount; symbol = symbol }) × (t ≡ s)
  make_asset-ok symbol amount s t x run = (ground arith, ground arith)

  -- The states that a sale goes through: the supply grows, the memory is released, the row of the
  -- account is written, and the payment is sent.
  pub record SellSteps (ctx : Context) (cbt account : ℕ) (bytes : ℤ) (s t : State) : Type 0 where
    pub s1 : State
    pub supplied : update_ram_supply cbt s ≡ ok (tt, s1)
    pub positive : ltb_ℤ (pos 0) bytes ≡ true
    pub whole : divides 1024 bytes ≡ true
    pub res : UserResources
    pub known : find s1.userres account account ≡ some res
    pub s2 : State
    pub released : s2 ≡ set_global (release bytes (tokens_for bytes)) s1
    pub after :
        Sold ctx.self account (record res { ram_bytes = int64 (res.ram_bytes -ℤ bytes) }) s2 t

  pub sellram-steps :
      (ctx : Context) (cbt account : ℕ) (bytes : ℤ) (s t : State)
      → sellram ctx cbt account bytes s ≡ ok (tt, t)
      → SellSteps ctx cbt account bytes s t
  unfolding sellram
  sellram-steps ctx cbt account bytes s t run =
      let (signed, r0) =
        check-then (ctx.has_auth account) "missing required authority" _ s t tt run in
      let (u1, s1, supplied, r1) = bind-ok (update_ram_supply cbt) _ s t tt r0 in
      let (positive, r2) =
        check-then (ltb_ℤ (pos 0) bytes) "cannot sell negative byte" _ s1 t tt r1 in
      let (whole, r3) =
        check-then (divides 1024 bytes)
          "can only sell in exact increments of one kilobyte (1024 bytes)" _ s1 t tt r2 in
      let (res, known, r4) =
        or_fail-then (find s1.userres account account) "no resource row" _ s1 t tt r3 in
      let (covered, r5) =
        check-then (leb_ℤ bytes res.ram_bytes) "insufficient quota" _ s1 t tt r4 in
      let (market, found, r6) =
        or_fail-then s1.rammarket "cannot pass end iterator to modify" _ s1 t tt r5 in
      let (tokens_out, s2, e2, r7) =
        bind-ok (make_asset ramcore_symbol (tokens_for bytes)) _ s1 t tt r6 in
      let (made, same) = make_asset-ok ramcore_symbol (tokens_for bytes) s1 s2 tokens_out e2 in
      let amount : tokens_out.amount ≡ tokens_for bytes = ap (λ (a : Asset). a.amount) made in
      let (enough, r8) =
        check-then (ltb_ℤ (pos 1) tokens_out.amount)
          "token amount received from selling ram is too low" _ s2 t tt r7 in
      let s3 : State = set_global (release bytes tokens_out.amount) s2 in
      let (nonneg, r9) =
        check-then (leb_ℤ (pos 0) s3.global.total_ram_stake)
          "error, attempt to unstake more tokens than previously staked" _ s3 t tt r8 in
      let rest : UserResources = record res { ram_bytes = int64 (res.ram_bytes -ℤ bytes) } in
      record {
        s1 = s1;
        supplied = supplied;
        positive = positive;
        whole = whole;
        res = res;
        known = known;
        s2 = s3;
        released =
            ap (set_global (release bytes tokens_out.amount)) same
            ∙ ap (λ a. set_global (release bytes a) s1) amount;
        after =
            payment-Sold ctx.self account rest (ram_account ∷ account ∷ [])
              (transfer_call ram_account account tokens_out "sell ram") s3 t r9;
      }

  -- A number of bytes is bought for what they cost.
  pub buyrambytes-buys :
      (ctx : Context) (cbt payer receiver bytes : ℕ) (s t : State)
      → buyrambytes ctx cbt payer receiver bytes s ≡ ok (tt, t)
      → (quant : Asset) × (buyram ctx cbt payer receiver quant s ≡ ok (tt, t))
  unfolding buyrambytes
  buyrambytes-buys ctx cbt payer receiver bytes s t run =
      let (positive, r0) = check-then (ltb 0 bytes) "must buy positive quantity" _ s t tt run in
      let (whole, r1) =
        check-then (bytes % 1024 == 0) "must buy in exact increments of one kilobyte (1024 bytes)" _
          s t tt r0 in
      let (quant, s1, e1, r2) =
        bind-ok (make_asset ramcore_symbol (pos (bytes / 1024 * 10000 % 2 ^ 32))) _ s t tt r1 in
      let here : s1 ≡ s =
        (make_asset-ok ramcore_symbol (pos (bytes / 1024 * 10000 % 2 ^ 32)) s s1 quant e1).1 in
      (quant, subst (λ w. buyram ctx cbt payer receiver quant w ≡ ok (tt, t)) here r2)
