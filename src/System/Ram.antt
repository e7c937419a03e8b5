-- ===== src/System/Ram.antt =====
-- contracts/eosio.system/src/delegate_bandwidth.cpp and eosio.system.cpp: memory is bought and sold, and
-- its supply grows.
use ux_contracts.Prelude.{
  ℕ, ◌+◌, ◌-◌, ◌*◌, ◌/◌, ◌%◌, ◌^◌, Bool, false, Option, none, some, [], ◌∷◌, ◌==◌, if◌then◌else◌, ℤ,
  pos, ltb_ℤ, leb_ℤ, ◌+ℤ◌, ◌-ℤ◌, times, int64, uint64, quot, add_64, sub_64, ltb, pos_part,
  neg_part,
}
use ux_contracts.Chain.Action.{Action, ◌>>=◌, ◌>>◌, check, or_fail, gets, modify, when, pure}
use ux_contracts.Chain.Asset.{Asset, symbol_eq}
use ux_contracts.Chain.Context.{Context, require_auth}
use ux_contracts.Chain.Platform.{Platform, make_asset}
use ux_contracts.Chain.Double.{Double}
use ux_contracts.Token.History.{transfer_call}
use ux_contracts.System.Tables.{
  UserResources, ExchangeState, Global, VoterInfo, has_field, ram_managed, ram_account,
  ramcore_symbol,
}
use ux_contracts.System.State.{State, send, set_global, core_asset, set_resource_limits}

-- `x % n == 0` for a signed `x` and a positive `n`.
abbrev pub divides : ℕ → ℤ → Bool
divides n x = (pos_part x + neg_part x) % n == 0

-- `RAM market modified`: the market's base grows by `delta`.
abbrev pub grow_market : ℤ → ExchangeState → ExchangeState
grow_market delta m = record m {
  base = record { amount = int64 (m.base.amount +ℤ delta); symbol = m.base.symbol };
}

-- `quant.amount / 10000 * 1024` and `bytes / 1024 * 10000`
unfoldable pub bytes_for : ℤ → ℤ
bytes_for amount = int64 (times 1024 (quot amount 10000))

unfoldable pub tokens_for : ℤ → ℤ
tokens_for bytes = int64 (times 10000 (quot bytes 1024))

module _ ⦃p : Platform⦄ ⦃d : Double⦄ where
  open p use {find, put}

  -- `_rammarket.modify( itr, ... )`, where the iterator has to be at a row.
  abbrev pub modify_market : (ExchangeState → ExchangeState) → Action State (Unit {0})
  modify_market f = do
    itr ← gets (λ s. s.rammarket)
    m ← or_fail itr "cannot pass end iterator to modify"
    modify (λ s. record s { rammarket = some (f m) })

  -- `cbt` is the slot of `current_block_time()`.
  unfoldable pub update_ram_supply : ℕ → Action State (Unit {0})
  update_ram_supply cbt = do
    g ← gets (λ s. s.global)
    let new_ram = (cbt + (2 ^ 32 - g.last_ram_increase)) % 2 ^ 32 * g.new_ram_per_block % 2 ^ 32 in
        when (ltb g.last_ram_increase cbt) (do
          modify (set_global (λ g. record g { max_ram_size = add_64 g.max_ram_size new_ram }))
          modify_market (grow_market (pos new_ram))
          modify (set_global (λ g. record g { last_ram_increase = cbt })))

  -- The limit of the memory follows what the account has bought (`ram_gift_bytes` is 0), unless it is
  -- managed.
  abbrev pub is_managed : ℕ → Option VoterInfo → Bool
  is_managed field none = false
  is_managed field (some v) = has_field v.flags1 field

  abbrev pub update_ram_limit : ℕ → UserResources → State → State
  update_ram_limit self res s =
      let l = s.limits res.owner in
      if is_managed ram_managed (find s.voters self res.owner)
      then s
      else set_resource_limits res.owner res.ram_bytes l.net l.cpu s

  -- `res_itr == userres.end()`: a new row, or more memory in the one found.
  abbrev pub more_ram : ℕ → ℤ → Option UserResources → Action State UserResources
  more_ram receiver bytes none = do
    net ← core_asset (pos 0)
    cpu ← core_asset (pos 0)
    pure (record { owner = receiver; net_weight = net; cpu_weight = cpu; ram_bytes = bytes })
  more_ram receiver bytes (some res) =
      pure (record res { ram_bytes = int64 (res.ram_bytes +ℤ bytes) })

  abbrev pub put_resources : ℕ → ℕ → UserResources → State → State
  put_resources payer receiver res s = record s {
    userres = put s.userres payer receiver receiver res;
  }

  abbrev pub reserve : ℤ → ℤ → Global → Global
  reserve bytes amount g = record g {
    total_ram_bytes_reserved = add_64 g.total_ram_bytes_reserved (uint64 bytes);
    total_ram_stake = int64 (g.total_ram_stake +ℤ amount);
  }

  abbrev pub release : ℤ → ℤ → Global → Global
  release bytes amount g = record g {
    total_ram_bytes_reserved = sub_64 g.total_ram_bytes_reserved (uint64 bytes);
    total_ram_stake = int64 (g.total_ram_stake -ℤ amount);
  }

  unfoldable pub buyram : Context → ℕ → (payer receiver : ℕ) → Asset → Action State (Unit {0})
  buyram ctx cbt payer receiver quant = do
    require_auth ctx payer
    update_ram_supply cbt
    check (divides 10000 quant.amount) "can only buy in exact increments of 1.0000 UTXRAM"
    check (symbol_eq quant.symbol ramcore_symbol) "must buy ram with ramcore token"
    check (ltb_ℤ (pos 0) quant.amount) "must purchase a positive amount"
    send (payer ∷ ram_account ∷ []) (transfer_call payer ram_account quant "buy ram")
    found ← gets (λ s. s.rammarket)
    market ← or_fail found "ram market does not exist"
    check (ltb_ℤ (pos 0) (bytes_for quant.amount)) "must reserve a positive amount"
    modify (set_global (reserve (bytes_for quant.amount) quant.amount))
    itr ← gets (λ s. find s.userres receiver receiver)
    res ← more_ram receiver (bytes_for quant.amount) itr
    modify (put_resources receiver receiver res)
    modify (update_ram_limit ctx.self res)

  -- `(int64_t)(bytes/1024*10000)`, computed in 32 bits.
  unfoldable pub buyrambytes : Context → ℕ → (payer receiver : ℕ) → ℕ → Action State (Unit {0})
  buyrambytes ctx cbt payer receiver bytes = do
    check (ltb 0 bytes) "must buy positive quantity"
    check (bytes % 1024 == 0) "must buy in exact increments of one kilobyte (1024 bytes)"
    quant ← make_asset ramcore_symbol (pos (bytes / 1024 * 10000 % 2 ^ 32))
    buyram ctx cbt payer receiver quant

  unfoldable pub sellram : Context → ℕ → (account : ℕ) → ℤ → Action State (Unit {0})
  sellram ctx cbt account bytes = do
    require_auth ctx account
    update_ram_supply cbt
    check (ltb_ℤ (pos 0) bytes) "cannot sell negative byte"
    check (divides 1024 bytes) "can only sell in exact increments of one kilobyte (1024 bytes)"
    itr ← gets (λ s. find s.userres account account)
    res ← or_fail itr "no resource row"
    check (leb_ℤ bytes res.ram_bytes) "insufficient quota"
    found ← gets (λ s. s.rammarket)
    market ← or_fail found "cannot pass end iterator to modify"
    tokens_out ← make_asset ramcore_symbol (tokens_for bytes)
    check (ltb_ℤ (pos 1) tokens_out.amount) "token amount received from selling ram is too low"
    modify (set_global (release bytes tokens_out.amount))
    g ← gets (λ s. s.global)
    check (leb_ℤ (pos 0) g.total_ram_stake)
        "error, attempt to unstake more tokens than previously staked"
    let rest = record res { ram_bytes = int64 (res.ram_bytes -ℤ bytes) } in
        do
          modify (put_resources account account rest)
          modify (update_ram_limit ctx.self rest)
          send (ram_account ∷ account ∷ [])
              (transfer_call ram_account account tokens_out "sell ram")

  unfoldable pub setram : Context → ℕ → Action State (Unit {0})
  setram ctx max_ram_size = do
    require_auth ctx ctx.self
    g ← gets (λ s. s.global)
    check (ltb g.max_ram_size max_ram_size) "ram may only be increased"
    check (ltb max_ram_size (1024 ^ 5)) "ram size is unrealistic"
    check (ltb g.total_ram_bytes_reserved max_ram_size) "attempt to set max below reserved"
    modify_market (grow_market (int64 (pos max_ram_size -ℤ pos g.max_ram_size)))
    modify (set_global (λ g. record g { max_ram_size = max_ram_size }))

  unfoldable pub setramrate : Context → ℕ → ℕ → Action State (Unit {0})
  setramrate ctx cbt bytes_per_block = do
    require_auth ctx ctx.self
    update_ram_supply cbt
    modify (set_global (λ g. record g { new_ram_per_block = bytes_per_block }))
