-- ===== src/System/Privileged.antt =====
-- contracts/eosio.system/src/eosio.system.cpp and native.cpp: the actions that pass their arguments on to
-- the chain, the hash of an abi, and the settings that a new contract starts with.
use ux_contracts.Prelude.{
  ℕ, ◌*◌, Option, none, some, not, ◌||◌, List, [], ◌∷◌, ◌++◌, ◌==◌, if◌then◌else◌, pos, leb,
  is_some,
}
use ux_contracts.Chain.Action.{Action, ◌>>=◌, ◌>>◌, check, fail, gets, modify}
use ux_contracts.Chain.Context.{Context, require_auth}
use ux_contracts.Chain.Platform.{Platform}
use ux_contracts.Chain.Double.{Double, of_ℕ}
use ux_contracts.System.Tables.{
  Global, Weights, WasmParameters, AbiHash, Privileged, set_blockchain_parameters,
  set_wasm_parameters, set_privileged, preactivate_feature,
}
use ux_contracts.System.State.{State, set_global}
use ux_contracts.System.Core.{get_continuous_rate}

-- What is taken from the chain: a field of the packed parameters, and the hash of bytes.
pub record Packed : Type 0 where
  pub max_authority_depth : ℕ → ℕ
  pub sha256 : List ℕ → ℕ

abbrev default_limits : WasmParameters
default_limits = record {
  max_mutable_global_bytes = 1024;
  max_table_elements = 1024;
  max_section_elements = 8192;
  max_linear_memory_init = 64 * 1024;
  max_func_local_bytes = 8192;
  max_nested_structures = 1024;
  max_symbol_bytes = 8192;
  max_module_bytes = 20 * 1024 * 1024;
  max_code_bytes = 20 * 1024 * 1024;
  max_pages = 528;
  max_call_depth = 251;
}

abbrev high_limits : WasmParameters
high_limits = record {
  max_mutable_global_bytes = 8192;
  max_table_elements = 8192;
  max_section_elements = 8192;
  max_linear_memory_init = 16 * 64 * 1024;
  max_func_local_bytes = 8192;
  max_nested_structures = 1024;
  max_symbol_bytes = 8192;
  max_module_bytes = 20 * 1024 * 1024;
  max_code_bytes = 20 * 1024 * 1024;
  max_pages = 528;
  max_call_depth = 1024;
}

-- "default"_n, "low"_n and "high"_n
abbrev default_name : ℕ
default_name = 5374603357560242176

abbrev low_name : ℕ
low_name = 10175883358043635712

abbrev high_name : ℕ
high_name = 7753175456936886272

-- `eosio_global_state{}` and `eosio_global_state2{}`, with the chain's parameters.
abbrev pub get_default_parameters : ℕ → Global
get_default_parameters parameters = record {
  max_ram_size = 9 * 1024 * 1024 * 1024;
  total_ram_bytes_reserved = 0;
  total_ram_stake = pos 0;
  last_producer_schedule_update = 0;
  last_pervote_bucket_fill = 0;
  total_unpaid_blocks = 0;
  total_activated_stake = pos 0;
  thresh_activated_stake_time = 0;
  last_producer_schedule_size = 0;
  last_name_close = 0;
  new_ram_per_block = 0;
  last_ram_increase = 0;
  last_block_num = 0;
  revision = 0;
  parameters = parameters;
}

module _ ⦃p : Platform⦄ ⦃d : Double⦄ where
  open p use {find, put}

  -- No votes, and an inflation of 5 per cent.
  abbrev pub get_default_inflation_parameters : Weights
  get_default_inflation_parameters = record {
    total_producer_vote_weight = of_ℕ 0;
    total_producer_votepay_share = of_ℕ 0;
    last_vpay_state_update = 0;
    total_vpay_share_change_rate = of_ℕ 0;
    continuous_rate = get_continuous_rate (pos 500);
    inflation_pay_factor = pos 50_000;
    votepay_factor = pos 40_000;
  }

  abbrev call_chain : Privileged → Action State (Unit {0})
  call_chain call = modify (λ s. record s { privileged = s.privileged ++ call ∷ [] })

  unfoldable pub setparams : ⦃h : Packed⦄ → Context → ℕ → Action State (Unit {0})
  setparams ⦃h⦄ ctx params = do
    require_auth ctx ctx.self
    modify (set_global (λ g. record g { parameters = params }))
    check (leb 3 (h.max_authority_depth params)) "max_authority_depth should be at least 3"
    call_chain (set_blockchain_parameters params)

  unfoldable pub wasmcfg : Context → ℕ → Action State (Unit {0})
  wasmcfg ctx settings = do
    require_auth ctx ctx.self
    if settings == default_name || settings == low_name
        then call_chain (set_wasm_parameters default_limits)
        else if settings == high_name
        then call_chain (set_wasm_parameters high_limits)
        else fail "Unknown configuration"

  unfoldable pub setpriv : Context → ℕ → (is_priv : ℕ) → Action State (Unit {0})
  setpriv ctx account is_priv = do
    require_auth ctx ctx.self
    call_chain (set_privileged account (not (is_priv == 0)))

  unfoldable pub activate : Context → ℕ → Action State (Unit {0})
  activate ctx feature_digest = do
    require_auth ctx ctx.self
    call_chain (preactivate_feature feature_digest)

  abbrev hashed : (acnt hash : ℕ) → Option AbiHash → AbiHash
  hashed acnt hash none = record { owner = acnt; hash = hash }
  hashed acnt hash (some row) = record row { hash = hash }

  -- A row is stored for the account, or the one found gets the hash.
  unfoldable pub setabi : ⦃h : Packed⦄ → Context → ℕ → List ℕ → Action State (Unit {0})
  setabi ⦃h⦄ ctx acnt abi = do
    itr ← gets (λ s. find s.abi_hashes ctx.self acnt)
    modify (λ s. record s {
      abi_hashes =
          put s.abi_hashes (if is_some itr then 0 else acnt) ctx.self acnt
            (hashed acnt (h.sha256 abi) itr);
    })

  unfoldable pub onerror : Action State (Unit {0})
  onerror = fail "the onerror action cannot be called directly"
