-- ===== src/System/Bandwidth.antt =====
-- contracts/eosio.system/src/delegate_bandwidth.cpp: tokens are staked for bandwidth, taken back, and
-- refunded after a delay.
use ux_contracts.Prelude.{
  ℕ, Bool, true, false, not, ◌&&◌, ◌||◌, Option, none, some, List, [], ◌∷◌, ◌==◌, if◌then◌else◌, ℤ,
  pos, ltb_ℤ, leb_ℤ, ◌+ℤ◌, int64, is_some,
}
use ux_contracts.Chain.Action.{Action, ◌>>=◌, ◌>>◌, check, gets, modify, when, pure, lift}
use ux_contracts.Chain.Asset.{Asset}
use ux_contracts.Chain.Context.{Context, current_seconds}
use ux_contracts.Chain.Platform.{Platform}
use ux_contracts.Chain.Sums.{store}
use ux_contracts.Chain.Double.{Double}
use ux_contracts.Token.History.{transfer_call}
use ux_contracts.System.Tables.{
  UserResources, DelegatedBandwidth, RefundRequest, Deferred, is_empty_resources,
  is_empty_bandwidth, is_empty_refund, ram_managed, net_managed, cpu_managed, stake_account,
  refund_delay_sec,
}
use ux_contracts.System.State.{State, send, core_asset, set_resource_limits}
use ux_contracts.System.Ram.{is_managed}

abbrev pub max_ℤ : ℤ → ℤ → ℤ
max_ℤ a b = if ltb_ℤ a b then b else a

abbrev with_amount : Asset → ℤ → Asset
with_amount a amount = record { amount = amount; symbol = a.symbol }

-- What is left to transfer of the changes, and whether a refund is to be called later.
pub record Moved : Type 0 where
  pub net_balance : Asset
  pub cpu_balance : Asset
  pub need_deferred_trx : Bool

module _ ⦃p : Platform⦄ ⦃d : Double⦄ where
  open p use {find, put, drop, asset_add, asset_sub, asset_neg}

  -- `itr == del_tbl.end()` is `none`.
  unfoldable pub delegated_row :
      (from receiver : ℕ)
      → (net cpu : Asset) → Option DelegatedBandwidth
      → Action State DelegatedBandwidth
  delegated_row from receiver net cpu none =
      pure (record { from = from; to = receiver; net_weight = net; cpu_weight = cpu })
  delegated_row from receiver net cpu (some b) = do
    n ← lift (asset_add b.net_weight net)
    c ← lift (asset_add b.cpu_weight cpu)
    pure (record b { net_weight = n; cpu_weight = c })

  -- The row is written, and erased if nothing is left in it.
  abbrev pub store_delegated : (payer from receiver : ℕ) → DelegatedBandwidth → State → State
  store_delegated payer from receiver row s = record s {
    delband = store (is_empty_bandwidth row) s.delband payer from receiver row;
  }

  unfoldable pub change_delegated :
      (from receiver : ℕ) → (net cpu : Asset) → Action State (Unit {0})
  change_delegated from receiver net cpu = do
    itr ← gets (λ s. find s.delband from receiver)
    row ← delegated_row from receiver net cpu itr
    check (leb_ℤ (pos 0) row.net_weight.amount) "insufficient staked net bandwidth"
    check (leb_ℤ (pos 0) row.cpu_weight.amount) "insufficient staked cpu bandwidth"
    modify (store_delegated (if is_some itr then 0 else from) from receiver row)

  unfoldable pub totals_row :
      (receiver : ℕ) → (net cpu : Asset) → Option UserResources → Action State UserResources
  totals_row receiver net cpu none =
      pure (record { owner = receiver; net_weight = net; cpu_weight = cpu; ram_bytes = pos 0 })
  totals_row receiver net cpu (some r) = do
    n ← lift (asset_add r.net_weight net)
    c ← lift (asset_add r.cpu_weight cpu)
    pure (record r { net_weight = n; cpu_weight = c })

  abbrev pub store_totals : (payer receiver : ℕ) → UserResources → State → State
  store_totals payer receiver row s = record s {
    userres = store (is_empty_resources row) s.userres payer receiver receiver row;
  }

  -- The limits follow the totals, but for those that are managed.
  abbrev pub update_limits : (self receiver : ℕ) → UserResources → State → State
  update_limits self receiver row s =
      let v = find s.voters self receiver in
      let l = s.limits receiver in
      if is_managed net_managed v && is_managed cpu_managed v
      then s
      else set_resource_limits receiver
          (if is_managed ram_managed v then l.ram else max_ℤ row.ram_bytes l.ram)
          (if is_managed net_managed v then l.net else row.net_weight.amount)
          (if is_managed cpu_managed v then l.cpu else row.cpu_weight.amount) s

  unfoldable pub change_totals :
      Context → (from receiver : ℕ) → (net cpu : Asset) → Action State (Unit {0})
  change_totals ctx from receiver net cpu = do
    itr ← gets (λ s. find s.userres receiver receiver)
    row ← totals_row receiver net cpu itr
    check (leb_ℤ (pos 0) row.net_weight.amount) "insufficient staked total net bandwidth"
    check (leb_ℤ (pos 0) row.cpu_weight.amount) "insufficient staked total cpu bandwidth"
    modify (update_limits ctx.self receiver row)
    modify (
        store_totals (if is_some itr then if from == receiver then from else 0 else from) receiver
          row)

  -- A part of a refund after a change of the stake, and what of the change it does not cover.
  unfoldable pub settle_part : (held balance : Asset) → Action State (Asset × Asset)
  settle_part held balance = do
    left ← lift (asset_sub held balance)
    pure (
        if ltb_ℤ left.amount (pos 0)
        then (with_amount left (pos 0), asset_neg left)
        else (left, with_amount balance (pos 0)))

  -- The same, for a refund that is new.
  unfoldable pub new_part : (balance : Asset) → Action State (Asset × Asset)
  new_part balance =
      if ltb_ℤ balance.amount (pos 0)
      then pure (asset_neg balance, with_amount balance (pos 0))
      else (do none_held ← core_asset (pos 0); pure (none_held, balance))

  abbrev pub store_refund : (payer owner : ℕ) → RefundRequest → State → State
  store_refund payer owner row s = record s {
    refunds = store (is_empty_refund row) s.refunds payer owner owner row;
  }

  unfoldable pub create_refund : Context → (from : ℕ) → (net cpu : Asset) → Action State Moved
  create_refund ctx from net cpu = do
    n ← new_part net
    c ← new_part cpu
    modify (λ s. record s {
      refunds = put s.refunds from from from (record {
        owner = from;
        request_time = current_seconds ctx;
        net_amount = n.0;
        cpu_amount = c.0;
      });
    })
    pure (record { net_balance = n.1; cpu_balance = c.1; need_deferred_trx = true })

  -- `req != refunds_tbl.end()` is `some`.
  unfoldable pub move_refund :
      Context → (from : ℕ) → (net cpu : Asset) → Option RefundRequest → Action State Moved
  move_refund ctx from net cpu none =
      if ltb_ℤ net.amount (pos 0) || ltb_ℤ cpu.amount (pos 0)
      then create_refund ctx from net cpu
      else pure (record { net_balance = net; cpu_balance = cpu; need_deferred_trx = false })
  move_refund ctx from net cpu (some r) = do
    n ← settle_part r.net_amount net
    c ← settle_part r.cpu_amount cpu
    check (leb_ℤ (pos 0) n.0.amount) "negative net refund amount"
    check (leb_ℤ (pos 0) c.0.amount) "negative cpu refund amount"
    let row = record r {
      request_time =
          if ltb_ℤ net.amount (pos 0) || ltb_ℤ cpu.amount (pos 0)
          then current_seconds ctx
          else r.request_time;
      net_amount = n.0;
      cpu_amount = c.0;
    }
    modify (store_refund 0 from row)
    pure (record {
      net_balance = n.1;
      cpu_balance = c.1;
      need_deferred_trx = not (is_empty_refund row);
    })

  abbrev cancel_deferred : ℕ → List Deferred → List Deferred
  cancel_deferred id [] = []
  cancel_deferred id (t ∷ ts) =
      let rest = cancel_deferred id ts in if t.id == id then rest else t ∷ rest

  -- What was sent before under the owner's name is cancelled.
  abbrev pub defer_refund : ℕ → Bool → State → State
  defer_refund owner need s =
      let others = cancel_deferred owner s.deferred in
      let call : Deferred = record {
        id = owner;
        payer = owner;
        owner = owner;
        delay_sec = refund_delay_sec;
      } in
      record s { deferred = if need then call ∷ others else others }

  abbrev pub is_refunding : (from receiver : ℕ) → (net cpu : Asset) → Bool → Bool
  is_refunding from receiver net cpu transfer =
      (not transfer && from == receiver) || ltb_ℤ (int64 (net.amount +ℤ cpu.amount)) (pos 0)

  unfoldable pub change_refund :
      Context → (source from receiver : ℕ) → (net cpu : Asset) → Bool → Action State (Unit {0})
  change_refund ctx source from receiver net cpu transfer = do
    req ← gets (λ s. find s.refunds from from)
    moved ←
        (if is_refunding from receiver net cpu transfer
          then move_refund ctx from net cpu req
          else pure (record { net_balance = net; cpu_balance = cpu; need_deferred_trx = false }))
    modify (defer_refund from moved.need_deferred_trx)
    transfer_amount ← lift (asset_add moved.net_balance moved.cpu_balance)
    when (ltb_ℤ (pos 0) transfer_amount.amount)
        (send (source ∷ []) (transfer_call source stake_account transfer_amount "stake bandwidth"))
