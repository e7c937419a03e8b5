-- ===== src/Resource/Period.antt =====
-- contracts/eosio.system/src/resource.cpp: the actions that set the resource model up, end a period,
-- pay an account and turn the model on and off.
use ux_contracts.Prelude.{
  ℕ, ◌+◌, ◌%◌, ◌^◌, Bool, true, false, not, ◌&&◌, Option, none, some, List, [], ◌∷◌, leb, ◌==◌, pos,
  if◌then◌else◌, length, eqb_ℤ,
}
use ux_contracts.Chain.Action.{Action, ◌>>=◌, ◌>>◌, check, or_fail, gets, modify, pure}
use ux_contracts.Chain.Asset.{Asset, symbol_eq}
use ux_contracts.Chain.Context.{Context, require_auth, current_seconds}
use ux_contracts.Chain.Platform.{Platform}
use ux_contracts.Chain.Double.{Double}
use ux_contracts.Token.History.{transfer_call}
use ux_contracts.Resource.{
  Source, SystemUsage, SystemUsageHistory, System, State, Texts, ResourceConfig, get_or_create,
  set_config, usage_at, send,
}
use ux_contracts.Resource.Text.{hashes_text}
use ux_contracts.Resource.Tally.{modal}
use ux_contracts.Resource.Inflation.{upay_account}
use ux_contracts.Resource.Submission.{submissions}

module _ ⦃p : Platform⦄ where
  open p use {Table, drop, keys}

  -- `while( itr != end() ) { itr = erase( itr ); }`
  abbrev pub erase_keys : {R : Type 0} → Table R → ℕ → List ℕ → Table R
  erase_keys t scope [] = t
  erase_keys t scope (k ∷ ks) = erase_keys (drop t scope k) scope ks

  abbrev pub erase_all : {R : Type 0} → Table R → ℕ → Table R
  erase_all t scope = erase_keys t scope (keys t scope)

module _ ⦃p : Platform⦄ ⦃d : Double⦄ where
  open p use {find, put, drop}
  open d use {F, decimal}

  -- The first row of the history. Its fields that the code leaves alone are zero and the default asset.
  abbrev first_row : ℕ → SystemUsageHistory
  first_row period_start =
      let zero_F = d.of_ℤ (pos 0) in
      let none_yet : Asset = record {
        amount = pos 0;
        symbol = record { code = 0; precision = 0 };
      } in
      record {
        id = 0;
        daycount = 0;
        total_cpu_us = 0;
        total_net_words = 0;
        net_percent_total = zero_F;
        cpu_percent_total = zero_F;
        use_cpu = zero_F;
        use_net = zero_F;
        ma_cpu = zero_F;
        ma_net = zero_F;
        ema_cpu = zero_F;
        ema_net = zero_F;
        ema_util_total = zero_F;
        utility = zero_F;
        utility_daily = zero_F;
        bppay = zero_F;
        bppay_daily = zero_F;
        inflation = zero_F;
        inflation_daily = zero_F;
        utility_tokens = none_yet;
        bppay_tokens = none_yet;
        timestamp = period_start;
      }

  -- With no history yet: its first row, and no submission counts.
  abbrev pub start_history :
      ℕ → ResourceConfig → List SystemUsageHistory → Action State ResourceConfig
  start_history period_start config (h ∷ hs) = pure config
  start_history period_start config [] = do
    modify (λ s. record s { history = first_row period_start ∷ [] })
    pure (record config {
      submitting_oracles = [];
      inflation_transferred = false;
      account_distributions_made = [];
    })

  unfoldable pub initresource : Context → ℕ → ℕ → ℕ → ℕ → F → F → Action State (Unit {0})
  initresource ctx dataset_batch_size oracle_consensus_threshold period_start period_seconds
        initial_value_transfer_rate max_pay_constant =
      do
        require_auth ctx ctx.self
        old ← get_or_create
        let config = record old {
          dataset_batch_size = dataset_batch_size;
          oracle_consensus_threshold = oracle_consensus_threshold;
          period_start = period_start;
          period_seconds = period_seconds;
          initial_value_transfer_rate = initial_value_transfer_rate;
          max_pay_constant = max_pay_constant;
          last_period_inflation_print = 0;
          active = false;
        }
        rows ← gets (λ s. s.history)
        config' ← start_history period_start config rows
        modify (set_config config')

  unfoldable pub claimdistrib : Context → System → ℕ → Action State (Unit {0})
  claimdistrib ctx sys account = do
    require_auth ctx account
    found ← gets (λ s. find s.account_pay ctx.self account)
    itr ← or_fail found "account balance not found"
    check (symbol_eq itr.balance.symbol sys.core_symbol)
        "comparison of assets with different symbols is not allowed"
    check (not (eqb_ℤ itr.balance.amount (pos 0))) "no balance to claim"
    send (upay_account ∷ account ∷ [])
        (transfer_call upay_account account itr.balance "utility reward")
    modify (λ s. record s { account_pay = drop s.account_pay ctx.self account })

  unfoldable pub resactivate : Context → Bool → Action State (Unit {0})
  resactivate ctx active = do
    require_auth ctx ctx.self
    config ← get_or_create
    check (if active then not config.active else true) "resource model already active"
    check (if active then true else config.active) "resource model already inactive"
    modify (set_config (record config { active = active }))

  module _ ⦃t : Texts⦄ where
    open t use {sha256}

    -- An oracle's data is what it committed to, and what most submitted.
    abbrev pub is_true : SystemUsage → Bool
    is_true u = sha256 (hashes_text u.submission_hash_list) == u.all_data_hash

    abbrev pub is_full : ℕ → SystemUsage → Bool
    is_full modal_hash u = is_true u && (u.all_data_hash == modal_hash)

    abbrev pub points : ℕ → SystemUsage → ℕ
    points modal_hash u = if is_true u then if u.all_data_hash == modal_hash then 10 else 1 else 0

    abbrev pub scored : Option Source → ℕ → ℕ → Source
    scored none oracle n = record { account = oracle; submissions_score = n; submissions_count = 1 }
    scored (some row) oracle n = record row {
      submissions_score = (row.submissions_score + n) % 2 ^ 32;
      submissions_count = (row.submissions_count + 1) % 2 ^ 32;
    }

    -- The scoring loop, for a modal hash with enough votes. The result is how many sent full modal data.
    abbrev pub score : ℕ → System → ℕ → List ℕ → Action State ℕ
    score scope sys modal_hash [] = pure 0
    score scope sys modal_hash (oracle ∷ oracles) = do
      u ← gets (λ s. usage_at sys scope s oracle)
      modify (λ s. record s {
        sources =
            put s.sources scope scope oracle
              (scored (find s.sources scope oracle) oracle (points modal_hash u));
      })
      rest ← score scope sys modal_hash oracles
      pure (if is_full modal_hash u then rest + 1 else rest)

    -- The modal commitment and its count.
    unfoldable pub modal_commit : System → ℕ → ResourceConfig → State → ℕ × ℕ
    modal_commit sys scope config s =
        if leb config.oracle_consensus_threshold (length config.submitting_oracles)
        then modal (λ u. some u.all_data_hash) (submissions sys scope s config.submitting_oracles)
        else (0, 0)

    abbrev pub score_modal : ℕ → System → ResourceConfig → ℕ × ℕ → Action State ℕ
    score_modal scope sys config best =
        if leb config.oracle_consensus_threshold best.1
        then score scope sys best.0 config.submitting_oracles
        else pure 0

    unfoldable pub nextperiod : Context → System → Action State (Unit {0})
    nextperiod ctx sys = do
      config ← get_or_create
      check config.active "resource model not active"
      let next_start = (config.period_start + config.period_seconds) % 2 ^ 32
      check (leb next_start (current_seconds ctx)) "current resource period has not ended"
      modify (λ s. record s { datasets = erase_all s.datasets ctx.self })
      best ← gets (modal_commit sys ctx.self config)
      full ← score_modal ctx.self sys config best
      check (leb config.oracle_consensus_threshold full) "full modal data not received"
      modify (λ s. record s { usage = erase_all s.usage ctx.self })
      modify (
          set_config (record config {
            submitting_oracles = [];
            period_start = next_start;
            inflation_transferred = false;
            account_distributions_made = [];
          }))
