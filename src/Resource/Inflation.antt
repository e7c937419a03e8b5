-- ===== src/Resource/Inflation.antt =====
-- contracts/eosio.system/src/resource.cpp: `set_total`, which works out the inflation of a day from
-- the usage of the system, and `issue_inflation`, which issues it and shares it out.
use ux_contracts.Prelude.{
  ℕ, zero, suc, ◌-◌, ◌*◌, ◌%◌, ◌^◌, Bool, not, ◌&&◌, none, some, List, [], ◌∷◌, leb, ltb, ◌==◌,
  if◌then◌else◌, ℤ, pos, ltb_ℤ, leb_ℤ, length, mul_64, int32, quot, ◌+◌, true, false,
}
use ux_contracts.Chain.Action.{
  Action, ◌>>=◌, ◌>>◌, check, or_fail, gets, modify, lift, when, for_each, pure,
}
use ux_contracts.Chain.Asset.{Asset, symbol_eq}
use ux_contracts.Chain.Context.{Context}
use ux_contracts.Chain.Platform.{Platform, make_asset}
use ux_contracts.Chain.Double.{Double, of_ℕ}
use ux_contracts.Token.History.{issue_call, transfer_call}
use ux_contracts.Resource.{
  ResourceConfig, SystemUsageHistory, Producer, System, State, get_or_create, set_config, send,
}

abbrev pub bpay_account : ℕ
bpay_account = 6138663581940940800

abbrev pub upay_account : ℕ
upay_account = 6138663592141488128

-- `static_cast<uint64_t>( limit ) * 2 * 60 * 60 * 24`
abbrev pub per_day : ℕ → ℕ
per_day limit = limit * 2 * 60 * 60 * 24 % 2 ^ 64

module _ ⦃d : Double⦄ where
  open d use {F, of_ℤ, decimal, add, sub, mul, div, minus, pow, log, exp, fmin, lt, to_int64}

  abbrev calc_ma : F → ℕ → F → F
  calc_ma sum timeperiod new_val = div (add sum new_val) (of_ℕ timeperiod)

  abbrev calc_ema : F → ℤ → F → F
  calc_ema previous_average time_period new_val =
      let mult = div (decimal 20 1) (add (of_ℤ time_period) (decimal 10 1)) in
      add (mul (sub new_val previous_average) mult) previous_average

  abbrev get_c : F → F
  get_c x = mul (mul (minus x) (log x)) (exp (of_ℕ 1))

  -- The moving-average loop, backwards over the history: `n` rows at most.
  abbrev sum_use : (SystemUsageHistory → F) → ℕ → List SystemUsageHistory → F → F
  sum_use field zero rows sum = sum
  sum_use field (suc n) [] sum = sum
  sum_use field (suc n) (h ∷ rows) sum = sum_use field n rows (add sum (field h))

  abbrev at_least : F → F → F
  at_least least x = if lt x least then least else x

  -- The two utilisations and their total, with the total kept away from 0 and 1.
  pub record Utilization : Type 0 where
    pub cpu : F
    pub net : F
    pub total : F

  abbrev rescale : F → Utilization → Utilization
  rescale bound u = record {
    cpu = mul (div u.cpu u.total) bound;
    net = mul (div u.net u.total) bound;
    total = bound;
  }

  abbrev clamp : Utilization → Utilization
  clamp u =
      let low = decimal 1 11 in
      let high = decimal 99999999999 11 in
      let v = if lt u.total low then rescale low u else u in
      if lt high v.total then rescale high v else v

  -- The rates of a day, from the utilisation, the maximal pay `mp` and the transfer rate `vt`.
  pub record Rates : Type 0 where
    pub inflation : F
    pub upaygross : F
    pub bppay : F
    pub daily_i_u : F
    pub utility_daily : F
    pub cpu_pay : F
    pub bppay_daily : F
    pub final_bp_daily : F

  abbrev rates_of : F → F → Utilization → Rates
  rates_of mp vt u =
      let one = of_ℕ 1 in
      let c = get_c u.total in
      let inflation = sub (div (sub one u.total) (sub (sub one u.total) (mul c vt))) one in
      let bp_u = mul mp c in
      let upaygross = sub (pow (add one inflation) (sub one bp_u)) one in
      let bppay = sub inflation upaygross in
      let waterfall_bp = mul inflation (sub one u.total) in
      let bppay_final = fmin bppay waterfall_bp in
      let uppaynet = sub inflation bppay_final in
      let daily_i_u = sub (pow (add one inflation) (div one (of_ℕ 365))) one in
      let utility_daily = mul (div uppaynet inflation) daily_i_u in
      let cpu_pay = mul utility_daily (div u.cpu u.total) in
      let net_pay = sub utility_daily cpu_pay in
      let bppay_daily = mul (div bppay_final inflation) daily_i_u in
      record {
        inflation = inflation;
        upaygross = upaygross;
        bppay = bppay;
        daily_i_u = daily_i_u;
        utility_daily = utility_daily;
        cpu_pay = cpu_pay;
        bppay_daily = bppay_daily;
        final_bp_daily = add bppay_daily net_pay;
      }

  -- The first 21 producers of the index, as long as they have votes and are active.
  abbrev pub active_from : ℕ → List Producer → List ℕ
  active_from size [] = []
  active_from size (p ∷ ps) =
      let rest = active_from (suc size) ps in
      if ltb size 21 && (lt (of_ℕ 0) p.total_votes && p.is_active) then p.owner ∷ rest else []

module _ ⦃p : Platform⦄ ⦃d : Double⦄ where
  open p use {find, put, asset_add, asset_sub}
  open d use {F, decimal, add, sub, mul, div, minus, pow, lt, to_int64}

  -- The comparison `a <= b` of assets.
  abbrev pub le_asset : Asset → Asset → Action State Bool
  le_asset a b = do
    check (symbol_eq a.symbol b.symbol) "comparison of assets with different symbols is not allowed"
    pure (leb_ℤ a.amount b.amount)

  -- `--end()`, which the library refuses on an empty table
  abbrev pub latest : Action State SystemUsageHistory
  latest = do
    rows ← gets (λ s. s.history)
    elim rows [
      | [] ↦ or_fail none "cannot decrement end iterator when the table is empty"
      | h ∷ hs ↦ pure h
    ]

  abbrev pub modify_latest : SystemUsageHistory → Action State (Unit {0})
  modify_latest h =
      modify (λ s. record s { history = elim s.history [ [] ↦ [] | x ∷ hs ↦ h ∷ hs ] })

  unfoldable pub set_total : System → ℕ → ℕ → ℕ → Action State (Unit {0})
  set_total sys total_cpu_us total_net_words period_start = do
    config ← get_or_create
    itr ← latest
    rows ← gets (λ s. s.history)
    let draglimit = config.emadraglimit
    let day_count = itr.daycount
    check (ltb day_count 1096) "inflation period has ended"
    let vt =
        mul (pow (of_ℕ 2) (minus (div (of_ℕ day_count) (of_ℕ 365))))
          config.initial_value_transfer_rate
    let system_max_cpu = per_day sys.max_block_cpu_usage
    check (leb total_cpu_us system_max_cpu) "measured cpu usage is greater than system total"
    let usage_cpu = at_least (decimal 1 11) (div (of_ℕ total_cpu_us) (of_ℕ system_max_cpu))
    let system_max_net = per_day sys.max_block_net_usage
    check (leb (mul_64 total_net_words 8) system_max_net)
        "measured net usage is greater than system total"
    let usage_net =
        at_least (decimal 1 11) (div (of_ℕ (mul_64 total_net_words 8)) (of_ℕ system_max_net))
    let ma_cpu_total = sum_use (λ h. h.use_cpu) (draglimit - 1) rows (decimal 0 1)
    let ma_net_total = sum_use (λ h. h.use_net) (draglimit - 1) rows (decimal 0 1)
    let period = (if ltb day_count draglimit then day_count + 1 else draglimit) % 2 ^ 8
    let util_cpu_ma = calc_ma ma_cpu_total period usage_cpu
    let util_net_ma = calc_ma ma_net_total period usage_net
    let pk = length rows
    let raw_util_cpu_ema =
        if leb draglimit pk then calc_ema itr.ma_cpu (int32 draglimit) usage_cpu else util_cpu_ma
    let raw_util_net_ema =
        if leb draglimit pk then calc_ema itr.ma_net (int32 draglimit) usage_net else util_net_ma
    let half_cpu = div raw_util_cpu_ema (of_ℕ 2)
    let half_net = div raw_util_net_ema (of_ℕ 2)
    let util = clamp (record { cpu = half_cpu; net = half_net; total = add half_cpu half_net })
    let rates = rates_of config.max_pay_constant vt util
    st ← or_fail sys.core_stat "unable to find key"
    let supply = d.of_ℤ st.supply.amount
    utility_tokens ← make_asset sys.core_symbol (to_int64 (mul rates.cpu_pay supply))
    bppay_tokens ← make_asset sys.core_symbol (to_int64 (mul rates.final_bp_daily supply))
    modify (λ s. record s {
      history =
          record {
            id = pk;
            timestamp = period_start;
            daycount = (day_count + 1) % 2 ^ 32;
            total_cpu_us = total_cpu_us;
            total_net_words = total_net_words;
            net_percent_total = div usage_net (add usage_net usage_cpu);
            cpu_percent_total = div usage_cpu (add usage_net usage_cpu);
            use_cpu = usage_cpu;
            use_net = usage_net;
            ma_cpu = util_cpu_ma;
            ma_net = util_net_ma;
            ema_cpu = raw_util_cpu_ema;
            ema_net = raw_util_net_ema;
            ema_util_total = util.total;
            utility = rates.upaygross;
            utility_daily = rates.utility_daily;
            bppay = rates.bppay;
            bppay_daily = rates.bppay_daily;
            inflation = rates.inflation;
            inflation_daily = rates.daily_i_u;
            utility_tokens = utility_tokens;
            bppay_tokens = bppay_tokens;
          }
          ∷ s.history;
    })
    modify (set_config config)

  -- A producer's share: a new row of the pay table, or more in the row.
  unfoldable pub pay_producer : ℕ → Asset → ℕ → Action State (Unit {0})
  pay_producer scope earned_pay owner = do
    row ← gets (λ s. find s.producer_pay scope owner)
    elim row [
      | none ↦ modify (λ s. record s {
        producer_pay =
            put s.producer_pay owner scope owner
              (record { owner = owner; balance = earned_pay; last_claim_time = 0 });
      })
      | some pay ↦ do
        sum ← lift (asset_add pay.balance earned_pay)
        modify (λ s. record s {
          producer_pay = put s.producer_pay 0 scope owner (record pay { balance = sum });
        })
    ]

  -- The tokens of the latest row, cut down in proportion where the supply has no room for all.
  unfoldable pub fit_supply :
      System → Asset → Asset → SystemUsageHistory → Bool → Action State Asset
  fit_supply sys inflation remaining itr false = pure inflation
  fit_supply sys inflation remaining itr true = do
    let share = div (d.of_ℤ itr.bppay_tokens.amount) (d.of_ℤ inflation.amount)
    bppay ← make_asset sys.core_symbol (to_int64 (mul share (d.of_ℤ remaining.amount)))
    utility ← lift (asset_sub remaining bppay)
    sum ← lift (asset_add bppay utility)
    modify_latest (record itr { bppay_tokens = bppay; utility_tokens = utility })
    pure sum

  -- The rest of `issue_inflation`: the tokens are issued and go to the two pay accounts, and each
  -- active producer gets its share.
  unfoldable pub share_out :
      Context → System → ResourceConfig → ℕ → Asset → SystemUsageHistory → Action State (Unit {0})
  share_out ctx sys config period_start inflation itr = do
    when (ltb_ℤ (pos 0) inflation.amount)
        (send (ctx.self ∷ []) (issue_call ctx.self inflation "issue daily inflation"))
    when (ltb_ℤ (pos 0) itr.bppay_tokens.amount) (
        send (ctx.self ∷ [])
          (transfer_call ctx.self bpay_account itr.bppay_tokens "producer daily"))
    when (ltb_ℤ (pos 0) itr.utility_tokens.amount) (
        send (ctx.self ∷ []) (transfer_call ctx.self upay_account itr.utility_tokens "usage daily"))
    let active_producers = active_from 0 sys.producers
    check (ltb 0 (length active_producers)) "No active producers"
    check (length active_producers == sys.last_producer_schedule_size)
        "active_producers must equal last_producer_schedule_size"
    earned_pay ← make_asset sys.core_symbol (quot itr.bppay_tokens.amount (length active_producers))
    when (ltb_ℤ (pos 0) earned_pay.amount)
        (for_each active_producers (pay_producer ctx.self earned_pay))
    modify (set_config (record config { last_period_inflation_print = period_start }))

  unfoldable pub issue_inflation : Context → System → ℕ → Action State (Unit {0})
  issue_inflation ctx sys period_start = do
    config ← get_or_create
    first ← latest
    raw ← lift (asset_add first.bppay_tokens first.utility_tokens)
    within ← le_asset raw (record { amount = pos 15_000_000_000; symbol = sys.core_symbol })
    check within "period inflation cap exceeded"
    st ← or_fail sys.core_stat "unable to find key"
    remaining ← lift (asset_sub st.max_supply st.supply)
    check (ltb_ℤ (pos 0) remaining.amount) "cannot exceed max token supply"
    fits ← le_asset raw remaining
    inflation ← fit_supply sys raw remaining first (not fits)
    itr ← latest
    share_out ctx sys config period_start inflation itr
