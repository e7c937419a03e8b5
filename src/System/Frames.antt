-- ===== src/System/Frames.antt =====
-- What votes leave alone: the stakes, the refunds, the limits, and what has been sent.
use ux_contracts.Prelude.{
  ℕ, ◌≡◌, refl, ◌∙◌, arith, Bool, false, not, ◌||◌, Option, none, some, List, ◌==◌, if◌then◌else◌,
  ℤ, pos, length, is_some, leb_ℤ,
}
use ux_contracts.Chain.Context.{Context}
use ux_contracts.Chain.Asset.{Asset}
use ux_contracts.Chain.Platform.{Platform}
use ux_contracts.Chain.Double.{Double}
use ux_contracts.Chain.Frame.{Relation, Keeps, bind-Keeps, when-Keeps, check-then}
use ux_contracts.Token.History.{Inline}
use ux_contracts.System.Tables.{
  Names, UserResources, DelegatedBandwidth, RefundRequest, Limits, Deferred, VoterInfo, RexBalance,
  RexPool, b1_account,
}
use ux_contracts.System.State.{State, set_global, put_voter}
use ux_contracts.System.Voting.{record_votes, update_votes, activate_stake}
use ux_contracts.System.Steps.{Steps, cast_votes-Keeps}
use ux_contracts.System.RexStake.{rex_stake_of, update_rex_stake}
use ux_contracts.System.Staking.{update_voting_power, validate_b1_vesting, staked_voter}

module _ ⦃p : Platform⦄ ⦃d : Double⦄ where
  open p use {find}

  -- What a vote does not touch.
  pub record Stakes : Type 0 where
    pub delband : p.Table DelegatedBandwidth
    pub refunds : p.Table RefundRequest
    pub userres : p.Table UserResources
    pub limits : ℕ → Limits
    pub inlines : List Inline
    pub deferred : List Deferred
    pub total_ram_bytes_reserved : ℕ
    pub total_ram_stake : ℤ

  abbrev pub stakes : State → Stakes
  stakes s = record {
    delband = s.delband;
    refunds = s.refunds;
    userres = s.userres;
    limits = s.limits;
    inlines = s.inlines;
    deferred = s.deferred;
    total_ram_bytes_reserved = s.global.total_ram_bytes_reserved;
    total_ram_stake = s.global.total_ram_stake;
  }

  abbrev pub same_stakes : Relation State
  same_stakes = record {
    R = λ s t. stakes t ≡ stakes s;
    same = λ s. refl;
    join = λ s t u h k. k ∙ h;
  }

  activate_same :
      (now : ℕ) (v : VoterInfo) (s : State)
      → stakes (set_global (activate_stake now v) s) ≡ stakes s
  activate_same now v s = ground arith

  stakes-Steps : Steps same_stakes
  stakes-Steps = record {
    producer2 = λ payer self account i s. refl;
    votes = λ self account i votes s found. refl;
    weights = λ f s. refl;
    activation = activate_same;
    weight = λ self account v last proxied s found. refl;
  }

  record_votes-Keeps :
      (ctx : Context) (voter_name proxy : ℕ) (producers : List ℕ) (weight : d.F)
      → Keeps same_stakes (record_votes ctx voter_name proxy producers weight)
  record_votes-Keeps ctx voter_name proxy producers weight s s' a run = ground arith

  update_votes-Keeps :
      ⦃n : Names⦄ (depth : ℕ) (ctx : Context) (voter_name proxy : ℕ) (producers : List ℕ)
      (voting : Bool)
      → Keeps same_stakes (update_votes depth ctx voter_name proxy producers voting)
  unfolding update_votes
  update_votes-Keeps depth ctx voter_name proxy producers voting =
      bind-Keeps same_stakes _ _
        (cast_votes-Keeps same_stakes stakes-Steps depth ctx voter_name proxy producers voting)
        λ weight. record_votes-Keeps ctx voter_name proxy producers weight

  rex_stake_of-Keeps :
      (ctx : Context) (voter : ℕ) (b : Option RexBalance) (pool : Option RexPool)
      → Keeps same_stakes (rex_stake_of ctx voter b pool)
  rex_stake_of-Keeps ctx voter none pool s s' a run = ground arith
  rex_stake_of-Keeps ctx voter (some b) none s s' a run = ground arith
  rex_stake_of-Keeps ctx voter (some b) (some pool) s s' a run = ground arith

  pub update_rex_stake-Keeps :
      (ctx : Context) (voter : ℕ) → Keeps same_stakes (update_rex_stake ctx voter)
  unfolding update_rex_stake
  update_rex_stake-Keeps ctx voter s s' a run =
      rex_stake_of-Keeps ctx voter (find s.rexbalance ctx.self voter) s.rexpool s s' a run

  validate_b1_vesting-Keeps :
      (ctx : Context) (stake : ℤ) → Keeps same_stakes (validate_b1_vesting ctx stake)
  unfolding validate_b1_vesting
  validate_b1_vesting-Keeps ctx stake s s' a run = ground arith

  pub update_voting_power-Keeps :
      ⦃n : Names⦄ (depth : ℕ) (ctx : Context) (voter : ℕ) (total_update : Asset)
      → Keeps same_stakes (update_voting_power depth ctx voter total_update)
  unfolding update_voting_power
  update_voting_power-Keeps depth ctx voter total_update s s' a run =
      let found = find s.voters ctx.self voter in
      let v = staked_voter voter total_update.amount found in
      let s1 = put_voter (if is_some found then 0 else voter) ctx.self voter v s in
      let (nonneg, r1) =
        check-then (leb_ℤ (pos 0) v.staked) "stake for voting cannot be negative" _ s1 s' a run in
      bind-Keeps same_stakes _ _
        (when-Keeps same_stakes (voter == b1_account) _ (validate_b1_vesting-Keeps ctx v.staked))
        (λ u.
          when-Keeps same_stakes (not (length v.producers == 0) || not (v.proxy == 0)) _
            (update_votes-Keeps depth ctx voter v.proxy v.producers false))
        s1 s' a r1
