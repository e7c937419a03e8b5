-- ===== src/Resource/Submission.antt =====
-- contracts/eosio.system/src/resource.cpp: what the oracles submit. `settotalusg` takes the usage of
-- the whole system, and `addactusg` the usage of accounts, in numbered datasets.
use ux_contracts.Prelude.{
  ℕ, Bool, true, not, ◌&&◌, none, some, is_some, List, [], ◌∷◌, ◌++◌, map, leb, ltb, ◌==◌, ℤ,
  if◌then◌else◌, length, get_elem?, contains, mul_64, add_64, sub_64,
}
use ux_contracts.Chain.Action.{
  Action, Result, ok, err, ◌>>=◌, ◌>>◌, check, or_fail, gets, modify, lift, when, for_each,
}
use ux_contracts.Chain.Context.{Context, require_auth}
use ux_contracts.Chain.Platform.{Platform, make_asset}
use ux_contracts.Chain.Double.{Double, of_ℕ}
use ux_contracts.Resource.{
  Metric, SystemUsage, ResourceConfig, SystemUsageHistory, System, State, Texts, is_oracle,
  get_or_create, set_config, put_usage, usage_at, dataset_at, add_dataset,
}
use ux_contracts.Resource.Text.{to_string, totals_text}
use ux_contracts.Resource.Tally.{modal, hash_of}
use ux_contracts.Resource.Inflation.{per_day, latest, set_total, issue_inflation}

abbrev pub cpu_us : ℕ
cpu_us = 5004639791883485184

abbrev pub net_words : ℕ
net_words = 11146987776967180288

-- The text of a dataset: each account's name and then its usage.
abbrev pub dataset_text : ⦃t : Texts⦄ → List Metric → List ℕ
unfolding to_string
dataset_text [] = []
dataset_text ⦃t⦄ (m ∷ ms) = t.name_to_string m.a ++ to_string m.u ++ dataset_text ms

-- The loop over the dataset, on the oracle's row: what is allocated stays within the declared total.
unfoldable pub allocate : List Metric → SystemUsage → Result SystemUsage
allocate [] row = ok row
allocate (m ∷ ms) row =
    let rest = allocate ms (record row { allocated_cpu = add_64 row.allocated_cpu m.u }) in
    if ltb 0 m.u
    then if leb m.u (sub_64 row.total_cpu_us row.allocated_cpu)
      then rest
      else err "insufficient unallocated cpu"
    else err "account cpu measurement must be greater than 0"

module _ ⦃p : Platform⦄ ⦃d : Double⦄ ⦃t : Texts⦄ where
  open p use {find, put, asset_add}
  open d use {mul, div, to_int64}
  open t use {sha256}

  -- The rows of the oracles that have submitted, as the counting loops read them.
  abbrev pub submissions : System → ℕ → State → List ℕ → List SystemUsage
  submissions sys scope s oracles = map (usage_at sys scope s) oracles

  -- `data[ i ].u`
  abbrev pub value_at : System → List Metric → ℕ → ℕ
  value_at sys metrics i = elim (get_elem? metrics i) [ none ↦ sys.end_value | some m ↦ m.u ]

  -- A dataset is kept once for each hash.
  unfoldable pub keep_dataset : System → ℕ → ℕ → ℕ → List Metric → Action State (Unit {0})
  keep_dataset sys payer scope hash metrics = do
    dt_itr ← gets (λ s. dataset_at sys scope s hash)
    when (not (dt_itr.hash == hash)) (modify (add_dataset payer scope hash metrics))

  -- The modal hash of the totals and its count.
  unfoldable pub modal_totals : System → ℕ → ResourceConfig → State → ℕ × ℕ
  modal_totals sys scope config s =
      modal (hash_of 0) (submissions sys scope s config.submitting_oracles)

  -- Whether inflation is due: it has not been issued for the period, enough oracles have submitted and
  -- agree on a hash of the totals, and its dataset is there.
  unfoldable pub is_due : System → ℕ → ResourceConfig → State → Bool
  is_due sys scope config s =
      let (modal_hash, mode_count) = modal_totals sys scope config s in
      not config.inflation_transferred
      && leb config.oracle_consensus_threshold (length config.submitting_oracles)
      && leb config.oracle_consensus_threshold mode_count
      && ((dataset_at sys scope s modal_hash).hash == modal_hash)

  -- Inflation of the period, where it is due. The result is whether it was issued.
  unfoldable pub distribute : Context → System → ResourceConfig → ℕ → Action State Bool
  distribute ctx sys config period_start = do
    due ← gets (is_due sys ctx.self config)
    totals ← gets (λ s. (dataset_at sys ctx.self s (modal_totals sys ctx.self config s).0).metrics)
    when due (do
      set_total sys (value_at sys totals 0) (value_at sys totals 1) period_start
      issue_inflation ctx sys period_start)
    gets (λ s. due)

  unfoldable pub settotalusg : Context → System → ℕ → ℕ → ℕ → ℕ → ℕ → Action State (Unit {0})
  settotalusg ctx sys source total_cpu_us total_net_words all_data_hash period_start = do
    require_auth ctx source
    check (is_oracle sys source) "not a qualified oracle"
    config ← get_or_create
    check config.active "resource model not active"
    check (config.period_start == period_start) "period_start does not match current period_start"
    check (leb total_cpu_us (per_day sys.max_block_cpu_usage))
        "measured cpu usage is greater than system total"
    check (leb (mul_64 total_net_words 8) (per_day sys.max_block_net_usage))
        "measured net usage is greater than system total"
    itr ← gets (λ s. find s.usage ctx.self source)
    check (not (is_some itr)) "total already set"
    let hash = sha256 (totals_text total_cpu_us total_net_words)
    keep_dataset sys ctx.self ctx.self hash (
        record { a = cpu_us; u = total_cpu_us }
        ∷ record { a = net_words; u = total_net_words }
        ∷ [])
    modify (
        put_usage source ctx.self source (record {
          source = source;
          total_cpu_us = total_cpu_us;
          total_net_words = total_net_words;
          allocated_cpu = 0;
          submission_hash_list = hash ∷ [];
          all_data_hash = all_data_hash;
        }))
    let config = record config { submitting_oracles = config.submitting_oracles ++ source ∷ [] }
    issued ← distribute ctx sys config period_start
    modify (
        set_config (record config {
          inflation_transferred = if issued then true else config.inflation_transferred;
        }))

  -- `add_claim`, as a number of tokens
  abbrev pub payout_of : SystemUsageHistory → Metric → ℤ
  payout_of h m =
      to_int64 (mul (div (of_ℕ m.u) (of_ℕ h.total_cpu_us)) (d.of_ℤ h.utility_tokens.amount))

  unfoldable pub pay_account :
      ℕ → System → SystemUsageHistory → ℕ → Metric → Action State (Unit {0})
  pay_account scope sys h period_start m = do
    payout ← make_asset sys.core_symbol (payout_of h m)
    row ← gets (λ s. find s.account_pay scope m.a)
    elim row [
      | none ↦ modify (λ s. record s {
        account_pay =
            put s.account_pay scope scope m.a
              (record { account = m.a; balance = payout; timestamp = period_start });
      })
      | some pay ↦ do
        sum ← lift (asset_add pay.balance payout)
        modify (λ s. record s {
          account_pay =
              put s.account_pay scope scope m.a
                (record pay { balance = sum; timestamp = period_start });
        })
    ]

  -- The modal hash of the dataset with this number, and its count.
  unfoldable pub modal_dataset : System → ℕ → ResourceConfig → ℕ → State → ℕ × ℕ
  modal_dataset sys scope config dataset_id s =
      modal (hash_of dataset_id) (submissions sys scope s config.submitting_oracles)

  -- Whether the dataset is due to be paid: enough oracles have submitted and agree on its hash, and it
  -- has not been paid.
  unfoldable pub is_payable : System → ℕ → ResourceConfig → ℕ → State → Bool
  is_payable sys scope config dataset_id s =
      leb config.oracle_consensus_threshold (length config.submitting_oracles)
      && not (contains config.account_distributions_made dataset_id)
      && leb config.oracle_consensus_threshold (modal_dataset sys scope config dataset_id s).1

  -- The data that is paid for: of the dataset with the modal hash, where it is there.
  unfoldable pub modal_data : System → ℕ → ResourceConfig → ℕ → State → List Metric
  modal_data sys scope config dataset_id s =
      let hash = (modal_dataset sys scope config dataset_id s).0 in
      let dt_itr = dataset_at sys scope s hash in if dt_itr.hash == hash then dt_itr.metrics else []

  -- Pay for the modal dataset, where it is due. The result is whether it was paid.
  unfoldable pub reward : Context → System → ResourceConfig → ℕ → ℕ → Action State Bool
  reward ctx sys config dataset_id period_start = do
    payable ← gets (is_payable sys ctx.self config dataset_id)
    accounts_usage_data ← gets (modal_data sys ctx.self config dataset_id)
    when payable (do
      suh_itr ← latest
      for_each accounts_usage_data (pay_account ctx.self sys suh_itr period_start))
    gets (λ s. payable)

  unfoldable pub addactusg : Context → System → ℕ → ℕ → List Metric → ℕ → Action State (Unit {0})
  addactusg ctx sys source dataset_id dataset period_start = do
    require_auth ctx source
    check (is_oracle sys source) "not a qualified oracle"
    config ← get_or_create
    check config.active "resource model not active"
    check (leb (length dataset) config.dataset_batch_size) "must supply fewer dataset values"
    check (config.period_start == period_start) "period_start does not match current period_start"
    check config.inflation_transferred "inflation not yet transferred"
    found ← gets (λ s. find s.usage ctx.self source)
    row ← or_fail found "usage totals not set"
    check (dataset_id == length row.submission_hash_list) "dataset_id differs from expected value"
    allocated ← lift (allocate dataset row)
    let hash = sha256 (dataset_text dataset)
    modify (
        put_usage source ctx.self source
          (record allocated { submission_hash_list = allocated.submission_hash_list ++ hash ∷ [] }))
    keep_dataset sys source ctx.self hash dataset
    paid ← reward ctx sys config dataset_id period_start
    modify (
        set_config (record config {
          account_distributions_made =
              if paid
              then config.account_distributions_made ++ dataset_id ∷ []
              else config.account_distributions_made;
        }))
