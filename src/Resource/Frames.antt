-- ===== src/Resource/Frames.antt =====
-- What the issue of inflation leaves alone: the submissions, the datasets, the scores and the accounts'
-- pay; and that of the configuration only the time of the last issue changes.
use ux_contracts.Prelude.{
  ℕ, ◌≡◌, refl, ◌∙◌, Bool, List, [], ◌∷◌, arith, length, pos, ltb_ℤ, not, ltb, ◌==◌, quot, ℤ,
}
use ux_contracts.Chain.Action.{for_each, when}
use ux_contracts.Chain.Asset.{Asset, Symbol}
use ux_contracts.Chain.Context.{Context}
use ux_contracts.Chain.Platform.{Platform, make_asset}
use ux_contracts.Chain.Double.{Double}
use ux_contracts.Chain.Frame.{
  Relation, Keeps, bind-Keeps, check-Keeps, or_fail-Keeps, lift-Keeps, modify-Keeps, when-Keeps,
  for_each-Keeps,
}
use ux_contracts.Token.History.{Call, issue_call, transfer_call}
use ux_contracts.Resource.{
  ResourceConfig, SystemUsageHistory, System, State, get_or_create, send, set_config,
}
use ux_contracts.Resource.Inflation.{
  set_total, issue_inflation, latest, pay_producer, fit_supply, share_out, le_asset, active_from,
  bpay_account, upay_account,
}

module _ ⦃p : Platform⦄ ⦃d : Double⦄ where
  -- The parts of the state that the submissions are about.
  pub record SameSubmissions (s s' : State) : Type 0 where
    pub usage : s'.usage ≡ s.usage
    pub datasets : s'.datasets ≡ s.datasets
    pub sources : s'.sources ≡ s.sources
    pub account_pay : s'.account_pay ≡ s.account_pay

  abbrev pub same_submissions : Relation State
  same_submissions = record {
    R = SameSubmissions;
    same = λ s. record { usage = refl; datasets = refl; sources = refl; account_pay = refl };
    join = λ s t u a b. record {
      usage = b.usage ∙ a.usage;
      datasets = b.datasets ∙ a.datasets;
      sources = b.sources ∙ a.sources;
      account_pay = b.account_pay ∙ a.account_pay;
    };
  }

  pub set_total-Keeps :
      (sys : System) (total_cpu_us total_net_words period_start : ℕ)
      → Keeps same_submissions (set_total sys total_cpu_us total_net_words period_start)
  unfolding set_total
  set_total-Keeps sys total_cpu_us total_net_words period_start s s' u run = ground arith

  pay_producer-Keeps :
      (scope : ℕ) (earned_pay : Asset) (owner : ℕ)
      → Keeps same_submissions (pay_producer scope earned_pay owner)
  unfolding pay_producer
  pay_producer-Keeps scope earned_pay owner s s' u run = ground arith

  fit_supply-Keeps :
      (sys : System) (inflation remaining : Asset) (itr : SystemUsageHistory) (b : Bool)
      → Keeps same_submissions (fit_supply sys inflation remaining itr b)
  unfolding fit_supply
  fit_supply-Keeps sys inflation remaining itr b s s' u run = ground arith

  get_or_create-Keeps : Keeps same_submissions get_or_create
  get_or_create-Keeps s s' u run = ground arith

  latest-Keeps : Keeps same_submissions latest
  latest-Keeps s s' u run = ground arith

  le_asset-Keeps : (a b : Asset) → Keeps same_submissions (le_asset a b)
  le_asset-Keeps a b s s' u run = ground arith

  pay_all-Keeps :
      (scope : ℕ) (earned_pay : Asset) (owners : List ℕ)
      → Keeps same_submissions (for_each owners (pay_producer scope earned_pay))
  pay_all-Keeps scope earned_pay owners =
      for_each-Keeps same_submissions owners (pay_producer scope earned_pay)
        (pay_producer-Keeps scope earned_pay)

  when-send-Keeps :
      (b : Bool) (authorization : List ℕ) (call : Call)
      → Keeps same_submissions (when b (send authorization call))
  when-send-Keeps b authorization call s s' u run = ground arith

  make_asset-Keeps :
      (symbol : Symbol) (amount : ℤ) → Keeps same_submissions (make_asset symbol amount)
  make_asset-Keeps symbol amount s s' u run = ground arith

  share_out-Keeps :
      (ctx : Context) (sys : System) (config : ResourceConfig) (period_start : ℕ)
      (inflation : Asset) (itr : SystemUsageHistory)
      → Keeps same_submissions (share_out ctx sys config period_start inflation itr)
  unfolding share_out
  share_out-Keeps ctx sys config period_start inflation itr =
      let owners = active_from 0 sys.producers in
      bind-Keeps same_submissions _ _
        (when-send-Keeps (ltb_ℤ (pos 0) inflation.amount) (ctx.self ∷ [])
          (issue_call ctx.self inflation "issue daily inflation"))
        λ u0.
          bind-Keeps same_submissions _ _
            (when-send-Keeps (ltb_ℤ (pos 0) itr.bppay_tokens.amount) (ctx.self ∷ [])
              (transfer_call ctx.self bpay_account itr.bppay_tokens "producer daily"))
            λ u1.
              bind-Keeps same_submissions _ _
                (when-send-Keeps (ltb_ℤ (pos 0) itr.utility_tokens.amount) (ctx.self ∷ [])
                  (transfer_call ctx.self upay_account itr.utility_tokens "usage daily"))
                λ u2.
                  bind-Keeps same_submissions _ _
                    (check-Keeps same_submissions (ltb 0 (length owners)) "No active producers")
                    λ u3.
                      bind-Keeps same_submissions _ _
                        (check-Keeps same_submissions
                          (length owners == sys.last_producer_schedule_size)
                          "active_producers must equal last_producer_schedule_size")
                        λ u4.
                          bind-Keeps same_submissions _ _
                            (make_asset-Keeps sys.core_symbol
                              (quot itr.bppay_tokens.amount (length owners)))
                            λ earned_pay.
                              bind-Keeps same_submissions _ _
                                (when-Keeps same_submissions (ltb_ℤ (pos 0) earned_pay.amount)
                                  (for_each owners (pay_producer ctx.self earned_pay))
                                  (pay_all-Keeps ctx.self earned_pay owners))
                                λ u5.
                                  modify-Keeps same_submissions
                                    (set_config (record config {
                                      last_period_inflation_print = period_start;
                                    }))
                                    λ s. record {
                                      usage = refl;
                                      datasets = refl;
                                      sources = refl;
                                      account_pay = refl;
                                    }

  pub issue_inflation-Keeps :
      (ctx : Context) (sys : System) (period_start : ℕ)
      → Keeps same_submissions (issue_inflation ctx sys period_start)
  unfolding issue_inflation
  issue_inflation-Keeps ctx sys period_start =
      bind-Keeps same_submissions _ _ get_or_create-Keeps λ config.
        bind-Keeps same_submissions _ _ latest-Keeps λ first.
          bind-Keeps same_submissions _ _
            (lift-Keeps same_submissions (p.asset_add first.bppay_tokens first.utility_tokens))
            λ raw.
              bind-Keeps same_submissions _ _
                (le_asset-Keeps raw
                  (record { amount = pos 15_000_000_000; symbol = sys.core_symbol }))
                λ within.
                  bind-Keeps same_submissions _ _
                    (check-Keeps same_submissions within "period inflation cap exceeded")
                    λ u0.
                      bind-Keeps same_submissions _ _
                        (or_fail-Keeps same_submissions sys.core_stat "unable to find key")
                        λ st.
                          bind-Keeps same_submissions _ _
                            (lift-Keeps same_submissions (p.asset_sub st.max_supply st.supply))
                            λ remaining.
                              bind-Keeps same_submissions _ _
                                (check-Keeps same_submissions (ltb_ℤ (pos 0) remaining.amount)
                                  "cannot exceed max token supply")
                                λ u1.
                                  bind-Keeps same_submissions _ _ (le_asset-Keeps raw remaining)
                                    λ fits.
                                      bind-Keeps same_submissions _ _
                                        (fit_supply-Keeps sys raw remaining first (not fits))
                                        λ inflation.
                                          bind-Keeps same_submissions _ _ latest-Keeps λ itr.
                                            share_out-Keeps ctx sys config period_start inflation
                                              itr
