-- ===== src/System/Tables.antt =====
-- contracts/eosio.system/include/eosio.system/eosio.system.hpp: the constants, and the rows of the tables.
use ux_contracts.Prelude.{
  ℕ, ◌+◌, ◌-◌, ◌*◌, ◌/◌, ◌%◌, Bool, false, ◌&&◌, Option, none, some, List, [], ◌∷◌, ◌==◌,
  if◌then◌else◌, String, ℤ, pos, eqb_ℤ,
}
use ux_contracts.Chain.Asset.{Symbol, Asset}
use ux_contracts.Chain.Double.{Double, of_ℕ}

-- `eosio.token`, `eosio.ram` and the other accounts of the system, as names.
abbrev pub ram_account : ℕ
ram_account = 6138663590285017088

abbrev pub stake_account : ℕ
stake_account = 6138663591134630912

abbrev pub bpay_account : ℕ
bpay_account = 6138663581940940800

abbrev pub upay_account : ℕ
upay_account = 6138663592141488128

abbrev pub names_account : ℕ
names_account = 6138663588137709568

abbrev pub rex_account : ℕ
rex_account = 6138663590357893120

abbrev pub b1_account : ℕ
b1_account = 4053239664633446400

-- `UTXRAM` with four decimals.
abbrev pub ramcore_symbol : Symbol
ramcore_symbol = record { code = 84942949733461; precision = 4 }

abbrev pub seconds_per_day : ℕ
seconds_per_day = 24 * 3600

abbrev pub seconds_per_year : ℕ
seconds_per_year = 52 * 7 * 24 * 3600

abbrev pub refund_delay_sec : ℕ
refund_delay_sec = 3 * seconds_per_day

abbrev pub blocks_per_day : ℕ
blocks_per_day = 2 * seconds_per_day

-- What is taken from the class of names: the suffix after the last dot, and the texts of two errors.
pub record Names : Type 0 where
  pub suffix : ℕ → ℕ
  pub not_registered : ℕ → String
  pub not_currently_registered : ℕ → String

-- `eosio::block_signing_authority`: its one version, with the keys and their weights.
pub record Authority : Type 0 where
  pub threshold : ℕ
  pub authority_keys : List (ℕ × ℕ)

-- What is taken from the class of authorities, `is_valid`.
pub record Authorities : Type 0 where
  pub is_valid : Authority → Bool

abbrev pub convert_to_block_signing_authority : ℕ → Authority
convert_to_block_signing_authority producer_key = record {
  threshold = 1;
  authority_keys = (producer_key, 1) ∷ [];
}

-- The flags of `voter_info::flags1`: a bit is set, and set or cleared.
abbrev pub has_field : (flags field : ℕ) → Bool
has_field flags field = flags / field % 2 == 1

abbrev pub set_field : (flags field : ℕ) → Bool → ℕ
set_field flags field value =
    if has_field flags field
    then if value then flags else flags - field
    else if value
    then flags + field
    else flags

abbrev pub ram_managed : ℕ
ram_managed = 1

abbrev pub net_managed : ℕ
net_managed = 2

abbrev pub cpu_managed : ℕ
cpu_managed = 4

pub record UserResources : Type 0 where
  pub owner : ℕ
  pub net_weight : Asset
  pub cpu_weight : Asset
  pub ram_bytes : ℤ

abbrev pub is_empty_resources : UserResources → Bool
is_empty_resources r =
    eqb_ℤ r.net_weight.amount (pos 0)
    && eqb_ℤ r.cpu_weight.amount (pos 0)
    && eqb_ℤ r.ram_bytes (pos 0)

pub record DelegatedBandwidth : Type 0 where
  pub from : ℕ
  pub to : ℕ
  pub net_weight : Asset
  pub cpu_weight : Asset

abbrev pub is_empty_bandwidth : DelegatedBandwidth → Bool
is_empty_bandwidth d = eqb_ℤ d.net_weight.amount (pos 0) && eqb_ℤ d.cpu_weight.amount (pos 0)

-- The time is in whole seconds.
pub record RefundRequest : Type 0 where
  pub owner : ℕ
  pub request_time : ℕ
  pub net_amount : Asset
  pub cpu_amount : Asset

abbrev pub is_empty_refund : RefundRequest → Bool
is_empty_refund r = eqb_ℤ r.net_amount.amount (pos 0) && eqb_ℤ r.cpu_amount.amount (pos 0)

pub record RexBalance : Type 0 where
  pub owner : ℕ
  pub vote_stake : Asset
  pub rex_balance : Asset

-- The pool that lends: of its fields those that vote stakes are computed from.
pub record RexPool : Type 0 where
  pub total_lendable : Asset
  pub total_rex : Asset

pub record ExchangeState : Type 0 where
  pub supply : Asset
  pub base : Asset
  pub quote : Asset

-- Of `eosio_global_state` and `eosio_global_state2` the fields that the modelled code uses; a block
-- time is its slot, other times are in microseconds, and the blockchain parameters are their packed
-- form.
pub record Global : Type 0 where
  pub max_ram_size : ℕ
  pub total_ram_bytes_reserved : ℕ
  pub total_ram_stake : ℤ
  pub last_producer_schedule_update : ℕ
  pub last_pervote_bucket_fill : ℕ
  pub total_unpaid_blocks : ℕ
  pub total_activated_stake : ℤ
  pub thresh_activated_stake_time : ℕ
  pub last_producer_schedule_size : ℕ
  pub last_name_close : ℕ
  pub new_ram_per_block : ℕ
  pub last_ram_increase : ℕ
  pub last_block_num : ℕ
  pub revision : ℕ
  pub parameters : ℕ

pub record WasmParameters : Type 0 where
  pub max_mutable_global_bytes : ℕ
  pub max_table_elements : ℕ
  pub max_section_elements : ℕ
  pub max_linear_memory_init : ℕ
  pub max_func_local_bytes : ℕ
  pub max_nested_structures : ℕ
  pub max_symbol_bytes : ℕ
  pub max_module_bytes : ℕ
  pub max_code_bytes : ℕ
  pub max_pages : ℕ
  pub max_call_depth : ℕ

-- The calls of the chain that only a privileged contract may make.
pub data Privileged : Type 0 where
  set_blockchain_parameters : ℕ → Privileged
  set_wasm_parameters : WasmParameters → Privileged
  set_privileged : ℕ → Bool → Privileged
  preactivate_feature : ℕ → Privileged

pub record AbiHash : Type 0 where
  pub owner : ℕ
  pub hash : ℕ

-- What the chain lets an account use.
pub record Limits : Type 0 where
  pub ram : ℤ
  pub net : ℤ
  pub cpu : ℤ

-- A deferred call of `refund`.
pub record Deferred : Type 0 where
  pub id : ℕ
  pub payer : ℕ
  pub owner : ℕ
  pub delay_sec : ℕ

module _ ⦃d : Double⦄ where
  pub record VoterInfo : Type 0 where
    pub owner : ℕ
    pub proxy : ℕ
    pub producers : List ℕ
    pub staked : ℤ
    pub last_vote_weight : d.F
    pub proxied_vote_weight : d.F
    pub is_proxy : Bool
    pub flags1 : ℕ

  -- `voter_info{}`, with its owner.
  abbrev pub new_voter : ℕ → VoterInfo
  new_voter owner = record {
    owner = owner;
    proxy = 0;
    producers = [];
    staked = pos 0;
    last_vote_weight = of_ℕ 0;
    proxied_vote_weight = of_ℕ 0;
    is_proxy = false;
    flags1 = 0;
  }

  pub record ProducerInfo : Type 0 where
    pub owner : ℕ
    pub total_votes : d.F
    pub producer_key : ℕ
    pub is_active : Bool
    pub url : String
    pub unpaid_blocks : ℕ
    pub last_claim_time : ℕ
    pub location : ℕ
    pub producer_authority : Option Authority

  pub record ProducerInfo2 : Type 0 where
    pub owner : ℕ
    pub votepay_share : d.F
    pub last_votepay_share_update : ℕ

  -- The sums of vote weights in the global states, and the settings of the inflation.
  pub record Weights : Type 0 where
    pub total_producer_vote_weight : d.F
    pub total_producer_votepay_share : d.F
    pub last_vpay_state_update : ℕ
    pub total_vpay_share_change_rate : d.F
    pub continuous_rate : d.F
    pub inflation_pay_factor : ℤ
    pub votepay_factor : ℤ

  -- `deactivate`: the key 0 is `public_key()`.
  abbrev pub deactivate : ProducerInfo → ProducerInfo
  deactivate p = record p { producer_key = 0; producer_authority = none; is_active = false }

  abbrev authority_or : ℕ → Option Authority → Authority
  authority_or key none = convert_to_block_signing_authority key
  authority_or key (some a) = if a.threshold == 0 then convert_to_block_signing_authority key else a

  abbrev pub get_producer_authority : ProducerInfo → Authority
  get_producer_authority p = authority_or p.producer_key p.producer_authority
