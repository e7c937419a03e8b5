-- ===== src/System/RexStake.antt =====
-- contracts/eosio.system/src/rex.cpp: the parts that the rest of the system calls. A vote counts the
-- tokens that its account has in REX, and an account that has any must vote.
use ux_contracts.Prelude.{
  ℕ, ◌+◌, ◌-◌, ◌*◌, ◌/◌, ◌%◌, ◌^◌, Bool, false, not, ◌||◌, Option, none, some, ◌==◌, String, ℤ, pos,
  ltb_ℤ, eqb_ℤ, ◌+ℤ◌, ◌-ℤ◌, int64, leb, length, pos_part, neg_part,
}
use ux_contracts.Chain.Action.{Action, ◌>>=◌, ◌>>◌, check, gets, modify, when, pure}
use ux_contracts.Chain.Context.{Context}
use ux_contracts.Chain.Platform.{Platform}
use ux_contracts.Chain.Double.{Double}
use ux_contracts.System.Tables.{VoterInfo, RexBalance, RexPool}
use ux_contracts.System.State.{State, core_asset, put_voter}

module _ ⦃p : Platform⦄ ⦃d : Double⦄ where
  open p use {find, put}

  -- `uint128_t( a ) * b / c`, as 64 bits.
  abbrev uint128 : ℤ → ℕ
  uint128 a = (pos_part a + (2 ^ 128 - neg_part a)) % 2 ^ 128

  abbrev pub rex_stake : ℤ → RexPool → ℤ
  rex_stake rex pool =
      let whole = uint128 rex * uint128 pool.total_lendable.amount % 2 ^ 128 in
      int64 (pos (whole / uint128 pool.total_rex.amount))

  abbrev rex_available : Option RexPool → Bool
  rex_available none = false
  rex_available (some pool) = ltb_ℤ (pos 0) pool.total_rex.amount

  abbrev pub add_stake : ℕ → ℕ → ℤ → Option VoterInfo → State → State
  add_stake self voter delta none s = s
  add_stake self voter delta (some v) s =
      put_voter 0 self voter (record v { staked = int64 (v.staked +ℤ delta) }) s

  abbrev pub with_stake : ℕ → ℕ → ℤ → RexBalance → State → State
  with_stake self voter stake b s = record s {
    rexbalance =
        put s.rexbalance 0 self voter
          (record b { vote_stake = record { amount = stake; symbol = b.vote_stake.symbol } });
  }

  abbrev pub restake : Context → ℕ → RexBalance → RexPool → Action State (Unit {0})
  restake ctx voter b pool = do
    zero_stake ← core_asset (pos 0)
    let stake = rex_stake b.rex_balance.amount pool
    let delta = int64 (stake -ℤ b.vote_stake.amount)
    modify (with_stake ctx.self voter stake b)
    vitr ← gets (λ s. find s.voters ctx.self voter)
    when (not (eqb_ℤ delta (pos 0))) (modify (add_stake ctx.self voter delta vitr))

  -- Without a row, or with an empty pool, nothing is to be done.
  abbrev pub rex_stake_of :
      Context → ℕ → Option RexBalance → Option RexPool → Action State (Unit {0})
  rex_stake_of ctx voter none pool = pure tt
  rex_stake_of ctx voter (some b) none = pure tt
  rex_stake_of ctx voter (some b) (some pool) =
      when (ltb_ℤ (pos 0) pool.total_rex.amount) (restake ctx voter b pool)

  unfoldable pub update_rex_stake : Context → ℕ → Action State (Unit {0})
  update_rex_stake ctx voter = do
    bitr ← gets (λ s. find s.rexbalance ctx.self voter)
    pool ← gets (λ s. s.rexpool)
    rex_stake_of ctx voter bitr pool

  abbrev votes_enough : Option VoterInfo → Bool
  votes_enough none = false
  votes_enough (some v) = not (v.proxy == 0) || leb 21 (length v.producers)

  abbrev pub check_voting_requirement : Context → ℕ → String → Action State (Unit {0})
  check_voting_requirement ctx owner error_msg = do
    vitr ← gets (λ s. find s.voters ctx.self owner)
    check (votes_enough vitr) error_msg

  abbrev pub holds_rex : Option RexBalance → Bool
  holds_rex none = false
  holds_rex (some b) = ltb_ℤ (pos 0) b.rex_balance.amount
