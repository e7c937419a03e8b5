-- ===== src/System/State.antt =====
-- The state that the files of contracts/eosio.system share, and the calls that all of them make.
use ux_contracts.Prelude.{ℕ, Option, List, [], ◌∷◌, ◌++◌, ◌==◌, if◌then◌else◌, ℤ}
use ux_contracts.Chain.Action.{Action, ◌>>=◌, or_fail, gets, modify, pure}
use ux_contracts.Chain.Asset.{Symbol, Asset}
use ux_contracts.Chain.Platform.{Platform, make_asset}
use ux_contracts.Chain.Double.{Double}
use ux_contracts.Token.History.{Call, Inline}
use ux_contracts.Bidding.{NameBid}
use ux_contracts.Resource.{ProducerPay}
use ux_contracts.System.Tables.{
  UserResources, DelegatedBandwidth, RefundRequest, RexBalance, RexPool, ExchangeState, Global,
  Limits, Deferred, AbiHash, Privileged, VoterInfo, ProducerInfo, ProducerInfo2, Weights,
}

module _ ⦃p : Platform⦄ ⦃d : Double⦄ where
  open p use {Table, put}

  -- The tables of the account `self` have one scope, those of a user the scope of the user. The market
  -- is one row, and so is the pool; `limits` is the chain's.
  pub record State : Type 0 where
    pub voters : Table VoterInfo
    pub producers : Table ProducerInfo
    pub producers2 : Table ProducerInfo2
    pub userres : Table UserResources
    pub delband : Table DelegatedBandwidth
    pub refunds : Table RefundRequest
    pub bids : Table NameBid
    pub producer_pay : Table ProducerPay
    pub rexbalance : Table RexBalance
    pub rexpool : Option RexPool
    pub rammarket : Option ExchangeState
    pub global : Global
    pub weights : Weights
    pub limits : ℕ → Limits
    pub inlines : List Inline
    pub deferred : List Deferred
    pub abi_hashes : Table AbiHash
    pub privileged : List Privileged

  abbrev pub send : List ℕ → Call → Action State (Unit {0})
  send authorization call = modify (λ s. record s {
    inlines = s.inlines ++ record { authorization = authorization; call = call } ∷ [];
  })

  abbrev pub set_global : (Global → Global) → State → State
  set_global f s = record s { global = f s.global }

  abbrev pub core_symbol : Action State Symbol
  core_symbol = do
    itr ← gets (λ s. s.rammarket)
    m ← or_fail itr "system contract must first be initialized"
    pure m.quote.symbol

  -- `asset( amount, core_symbol() )`
  abbrev pub core_asset : ℤ → Action State Asset
  core_asset amount = do symbol ← core_symbol; make_asset symbol amount

  abbrev set_at : ℕ → Limits → (ℕ → Limits) → ℕ → Limits
  set_at account l limits a = if account == a then l else limits a

  -- `set_resource_limits( account, ram, net, cpu )`
  abbrev pub set_resource_limits : ℕ → (ram net cpu : ℤ) → State → State
  set_resource_limits account ram net cpu s = record s {
    limits = set_at account (record { ram = ram; net = net; cpu = cpu }) s.limits;
  }

  abbrev pub put_voter : (payer self account : ℕ) → VoterInfo → State → State
  put_voter payer self account v s = record s { voters = put s.voters payer self account v }
