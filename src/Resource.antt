-- ===== src/Resource.antt =====
-- contracts/eosio.system/src/resource.cpp and include/eosio.system/resource.hpp: the tables of the
-- resource model, and what it takes from the rest of the system.
pub mod Text
pub mod Tally
pub mod Modal
pub mod Oracles
pub mod Frames
pub mod Declared
pub mod Added
pub mod Advance
pub mod Claim
pub mod Soundness
pub mod History
mod Tests
pub mod Inflation
pub mod Submission
pub mod Period
use ux_contracts.Prelude.{
  ℕ, Bool, true, false, Option, none, some, List, [], ◌∷◌, ◌==◌, ◌+◌, ◌++◌, if◌then◌else◌, pos, ℤ,
  suc,
}
use ux_contracts.Chain.Action.{Action, ◌>>=◌, ◌>>◌, check, or_fail, gets, modify, lift, pure}
use ux_contracts.Chain.Asset.{Symbol, Asset, symbol_eq, in_range}
use ux_contracts.Chain.Context.{Context}
use ux_contracts.Chain.Platform.{Platform}
use ux_contracts.Chain.Double.{Double}
use ux_contracts.Token.{CurrencyStats}
use ux_contracts.Token.History.{Call, Inline}

pub record Metric : Type 0 where
  pub a : ℕ
  pub u : ℕ

pub record Dataset : Type 0 where
  pub id : ℕ
  pub hash : ℕ
  pub metrics : List Metric

pub record Source : Type 0 where
  pub account : ℕ
  pub submissions_score : ℕ
  pub submissions_count : ℕ

pub record SystemUsage : Type 0 where
  pub source : ℕ
  pub total_cpu_us : ℕ
  pub total_net_words : ℕ
  pub allocated_cpu : ℕ
  pub submission_hash_list : List ℕ
  pub all_data_hash : ℕ

pub record AccountPay : Type 0 where
  pub account : ℕ
  pub balance : Asset
  pub timestamp : ℕ

pub record ProducerPay : Type 0 where
  pub owner : ℕ
  pub balance : Asset
  pub last_claim_time : ℕ

-- What the contract takes from the library of the chain: a hash of bytes, and the text of a name.
pub record Texts : Type 0 where
  pub sha256 : List ℕ → ℕ
  pub name_to_string : ℕ → List ℕ

module _ ⦃d : Double⦄ where
  pub record ResourceConfig : Type 0 where
    pub period_seconds : ℕ
    pub oracle_consensus_threshold : ℕ
    pub dataset_batch_size : ℕ
    pub period_start : ℕ
    pub submitting_oracles : List ℕ
    pub inflation_transferred : Bool
    pub account_distributions_made : List ℕ
    pub emadraglimit : ℕ
    pub initial_value_transfer_rate : d.F
    pub max_pay_constant : d.F
    pub last_period_inflation_print : ℕ
    pub active : Bool

  pub record SystemUsageHistory : Type 0 where
    pub id : ℕ
    pub daycount : ℕ
    pub total_cpu_us : ℕ
    pub total_net_words : ℕ
    pub net_percent_total : d.F
    pub cpu_percent_total : d.F
    pub use_cpu : d.F
    pub use_net : d.F
    pub ma_cpu : d.F
    pub ma_net : d.F
    pub ema_cpu : d.F
    pub ema_net : d.F
    pub ema_util_total : d.F
    pub utility : d.F
    pub utility_daily : d.F
    pub bppay : d.F
    pub bppay_daily : d.F
    pub inflation : d.F
    pub inflation_daily : d.F
    pub utility_tokens : Asset
    pub bppay_tokens : Asset
    pub timestamp : ℕ

  pub record Producer : Type 0 where
    pub owner : ℕ
    pub total_votes : d.F
    pub is_active : Bool

  -- What the resource model reads of the system contract and the token contract: global limits, the
  -- producers in the order of the index `prototalvote`, and the row of the core token. The last three
  -- fields are what the contract's memory holds where the code reads through an iterator at the end
  -- of a table, or past the end of a vector.
  pub record System : Type 0 where
    pub max_block_cpu_usage : ℕ
    pub max_block_net_usage : ℕ
    pub last_producer_schedule_size : ℕ
    pub producers : List Producer
    pub core_symbol : Symbol
    pub core_stat : Option CurrencyStats
    pub end_dataset : Dataset
    pub end_usage : SystemUsage
    pub end_value : ℕ

  -- `resource_config_state{}`
  abbrev pub default_config : ResourceConfig
  default_config = record {
    period_seconds = 86400;
    oracle_consensus_threshold = 0;
    dataset_batch_size = 0;
    period_start = 0;
    submitting_oracles = [];
    inflation_transferred = false;
    account_distributions_made = [];
    emadraglimit = 2;
    initial_value_transfer_rate = d.decimal 1 1;
    max_pay_constant = d.decimal 2947 4;
    last_period_inflation_print = 0;
    active = false;
  }

  -- The loop of `is_oracle`, which stops after 21 producers.
  abbrev pub is_oracle_from : ℕ → ℕ → List Producer → Bool
  is_oracle_from owner count [] = false
  is_oracle_from owner count (p ∷ ps) =
      let rest = is_oracle_from owner (suc count) ps in
      if p.owner == owner then true else if suc count == 21 then false else rest

  unfoldable pub is_oracle : System → ℕ → Bool
  is_oracle sys owner = is_oracle_from owner 0 sys.producers

module _ ⦃p : Platform⦄ ⦃d : Double⦄ where
  open p use {Table, find, put, drop, keys, available_primary_key, symbol_is_valid}

  -- The history is the list of its rows, the latest first: rows are only ever added, under the keys
  -- 0, 1, 2, so that the next key is its length.
  pub record State : Type 0 where
    pub config : Option ResourceConfig
    pub sources : Table Source
    pub usage : Table SystemUsage
    pub history : List SystemUsageHistory
    pub account_pay : Table AccountPay
    pub datasets : Table Dataset
    pub producer_pay : Table ProducerPay
    pub inlines : List Inline

  abbrev pub config_of : State → ResourceConfig
  config_of s = elim s.config [ none ↦ default_config | some c ↦ c ]

  abbrev pub set_config : ResourceConfig → State → State
  set_config c s = record s { config = some c }

  -- `_resource_config.get_or_create( _self, resource_config_state{} )`
  abbrev pub get_or_create : Action State ResourceConfig
  get_or_create = do modify (λ s. set_config (config_of s) s); gets config_of

  abbrev pub put_usage : ℕ → ℕ → ℕ → SystemUsage → State → State
  put_usage payer scope key u s = record s { usage = put s.usage payer scope key u }

  -- `u_t.find( oracle )`, read without a test for the end of the table
  abbrev pub usage_at : System → ℕ → State → ℕ → SystemUsage
  usage_at sys scope s oracle = elim (find s.usage scope oracle) [
    | none ↦ sys.end_usage
    | some u ↦ u
  ]

  -- The first dataset with the hash, in the order of the keys.
  abbrev pub first_with : Table Dataset → ℕ → ℕ → List ℕ → Option Dataset
  first_with t scope hash [] = none
  first_with t scope hash (k ∷ ks) =
      let rest = first_with t scope hash ks in
      elim (find t scope k) [ none ↦ rest | some r ↦ if r.hash == hash then some r else rest ]

  -- `dt_hash_index.find( hash )`, read without a test for the end of the index
  abbrev pub dataset_at : System → ℕ → State → ℕ → Dataset
  dataset_at sys scope s hash = elim (first_with s.datasets scope hash (keys s.datasets scope)) [
    | none ↦ sys.end_dataset
    | some r ↦ r
  ]

  abbrev pub add_dataset : ℕ → ℕ → ℕ → List Metric → State → State
  add_dataset payer scope hash metrics s =
      let id = available_primary_key s.datasets scope in
      record s {
        datasets =
            put s.datasets payer scope id (record { id = id; hash = hash; metrics = metrics });
      }

  abbrev pub send : List ℕ → Call → Action State (Unit {0})
  send authorization call = modify (λ s. record s {
    inlines = s.inlines ++ record { authorization = authorization; call = call } ∷ [];
  })
