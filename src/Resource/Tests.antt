-- ===== src/Resource/Tests.antt =====
-- Runs of the resource model, and its theorems at concrete inputs.
use ux_contracts.Prelude.{
  ℕ, ◌≡◌, ◌≢◌, refl, ◌+◌, ◌*◌, ◌%◌, ◌^◌, [], ◌∷◌, List, true, some, none, pos, ltb, arith, ◌+ℤ◌,
  ◌-ℤ◌, neg, int64, uint64, quot, ◌↔◌, contains, take, if◌then◌else◌,
}
use ux_contracts.Chain.Action.{Result, ok, err}
use ux_contracts.Chain.Asset.{Symbol, checked}
use ux_contracts.Chain.Context.{Context}
use ux_contracts.Chain.Platform.{checked_add, checked_sub}
use ux_contracts.Chain.Memory.{memory}
use ux_contracts.Chain.Millionths.{millionths}
use ux_contracts.Resource.{Metric, SystemUsage, System, State, Texts, is_oracle}
use ux_contracts.Resource.Text.{
  to_string, totals_text, hashes_text, read_totals, read_totals-totals_text,
}
use ux_contracts.Resource.Modal.{IsModal, modal-IsModal}
use ux_contracts.Resource.Oracles.{
  owners, is_oracle_lem, Allocated, with_allocated, allocate-Allocated,
}
use ux_contracts.Resource.Declared.{Declared, settotalusg-Declared}
use ux_contracts.Resource.Added.{IsAllocated, Added, addactusg-Added}
use ux_contracts.Resource.Advance.{Advanced, nextperiod-Advanced}
use ux_contracts.Resource.Claim.{Claimed, claimdistrib-Claimed, claim_once}
use ux_contracts.Resource.History.{
  Request, init_request, activate_request, total_request, dataset_request, run, IsFresh,
  run-IsSound,
}
use ux_contracts.Resource.Soundness.{IsSound, put-IsAllocated}
use ux_contracts.Resource.Tally.{modal, hash_of}
use ux_contracts.Resource.Inflation.{
  set_total, issue_inflation, share_out, fit_supply, pay_producer,
}
use ux_contracts.Resource.Submission.{
  settotalusg, addactusg, keep_dataset, distribute, reward, modal_totals, is_due, modal_dataset,
  is_payable, modal_data, allocate, pay_account, dataset_text,
}
use ux_contracts.Resource.Period.{initresource, resactivate, nextperiod, claimdistrib, modal_commit}

abbrev digest : List ℕ → ℕ
digest [] = 7
digest (b ∷ bs) = (b + 31 * digest bs) % 2 ^ 32

-- The name 1 is "a", and the name 2 is "a1".
abbrev name_text : ℕ → List ℕ
name_text n = if ltb n 2 then 97 ∷ [] else 97 ∷ 49 ∷ []

instance abbrev texts : Texts
texts = record { sha256 = digest; name_to_string = name_text }

-- A dataset's text has nothing between a name and its usage: these two are told apart by no hash.
ambiguous_datasets :
    dataset_text (record { a = 1; u = 12 } ∷ []) ≡ dataset_text (record { a = 2; u = 2 } ∷ [])
unfolding to_string
ambiguous_datasets = refl

abbrev at : ℕ → Context
at seconds = record {
  self = 1;
  has_auth = λ a. true;
  has_auth_level = λ a b. true;
  is_account = λ a. true;
  current_time_point = seconds * 1_000_000;
}

abbrev core : Symbol
core = record { code = 9; precision = 4 }

abbrev system : System
system = record {
  max_block_cpu_usage = 200000;
  max_block_net_usage = 1048576;
  last_producer_schedule_size = 1;
  producers = record { owner = 5; total_votes = 1_000_000; is_active = true } ∷ [];
  core_symbol = core;
  core_stat = some (record {
    supply = record { amount = pos 1_000_000; symbol = core };
    max_supply = record { amount = pos 100_000_000; symbol = core };
    issuer = 1;
  });
  end_dataset = record { id = 0; hash = 0; metrics = [] };
  end_usage = record {
    source = 0;
    total_cpu_us = 0;
    total_net_words = 0;
    allocated_cpu = 0;
    submission_hash_list = [];
    all_data_hash = 0;
  };
  end_value = 0;
}

abbrev empty : State
empty = record {
  config = none;
  sources = [];
  usage = [];
  history = [];
  account_pay = [];
  datasets = [];
  producer_pay = [];
  inlines = [];
}

abbrev settled : Result (Unit {0} × State) → State
settled (ok (u, s)) = s
settled (err e) = empty

abbrev accounts : List Metric
accounts = record { a = 1; u = 8_000_000_000 } ∷ record { a = 2; u = 9_000_000_000 } ∷ []

abbrev commitment : ℕ
unfolding to_string
commitment = digest (
    hashes_text
      (digest (totals_text 17_280_000_000 11_324_620_800) ∷ digest (dataset_text accounts) ∷ []))

abbrev set_up : State
unfolding initresource
set_up = settled (initresource (at 90) 10 1 100 50 100_000 294_700 empty)

abbrev started : State
unfolding resactivate
started = settled (resactivate (at 95) true set_up)

abbrev declared : State
unfolding settotalusg keep_dataset distribute is_due modal_totals modal is_oracle set_total
    issue_inflation share_out fit_supply pay_producer to_string quot neg ◌+ℤ◌ ◌-ℤ◌ int64 uint64
    checked checked_add checked_sub
declared =
    settled (settotalusg (at 110) system 5 17_280_000_000 11_324_620_800 commitment 100 started)

declares :
    settotalusg (at 110) system 5 17_280_000_000 11_324_620_800 commitment 100 started
    ≡ ok (tt, declared)
unfolding settotalusg keep_dataset distribute is_due modal_totals modal is_oracle set_total
    issue_inflation share_out fit_supply pay_producer to_string quot neg ◌+ℤ◌ ◌-ℤ◌ int64 uint64
    checked checked_add checked_sub started set_up declared commitment
declares = refl

abbrev added : State
unfolding settotalusg keep_dataset distribute is_due modal_totals modal is_oracle set_total
    issue_inflation share_out fit_supply pay_producer to_string quot neg ◌+ℤ◌ ◌-ℤ◌ int64 uint64
    checked checked_add checked_sub addactusg reward modal_dataset is_payable modal_data allocate
    pay_account
added = settled (addactusg (at 120) system 5 1 accounts 100 declared)

adds : addactusg (at 120) system 5 1 accounts 100 declared ≡ ok (tt, added)
unfolding settotalusg keep_dataset distribute is_due modal_totals modal is_oracle set_total
    issue_inflation share_out fit_supply pay_producer to_string quot neg ◌+ℤ◌ ◌-ℤ◌ int64 uint64
    checked checked_add checked_sub addactusg reward modal_dataset is_payable modal_data allocate
    pay_account started set_up declared commitment added
adds = refl

abbrev next_period : State
unfolding nextperiod modal_commit modal
next_period = settled (nextperiod (at 150) system added)

advances : nextperiod (at 150) system added ≡ ok (tt, next_period)
unfolding nextperiod modal_commit settotalusg keep_dataset distribute is_due modal_totals modal
    is_oracle set_total issue_inflation share_out fit_supply pay_producer to_string quot neg ◌+ℤ◌
    ◌-ℤ◌ int64 uint64 checked checked_add checked_sub addactusg reward modal_dataset is_payable
    modal_data allocate pay_account started set_up declared commitment added next_period
advances = refl

abbrev paid : State
unfolding claimdistrib
paid = settled (claimdistrib (at 130) system 1 added)

pays : claimdistrib (at 130) system 1 added ≡ ok (tt, paid)
unfolding claimdistrib settotalusg keep_dataset distribute is_due modal_totals modal is_oracle
    set_total issue_inflation share_out fit_supply pay_producer to_string quot neg ◌+ℤ◌ ◌-ℤ◌ int64
    uint64 checked checked_add checked_sub addactusg reward modal_dataset is_payable modal_data
    allocate pay_account started set_up declared commitment added paid
pays = refl

-- Before the period has lasted its 50 seconds it does not end.
advances_early : nextperiod (at 149) system added ≡ err "current resource period has not ended"
unfolding nextperiod settotalusg keep_dataset distribute is_due modal_totals modal is_oracle
    set_total issue_inflation share_out fit_supply pay_producer to_string quot neg ◌+ℤ◌ ◌-ℤ◌ int64
    uint64 checked checked_add checked_sub addactusg reward modal_dataset is_payable modal_data
    allocate pay_account started set_up declared commitment added
advances_early = refl

-- An oracle declares its totals once in a period.
declares_again : settotalusg (at 111) system 5 1 1 0 100 declared ≡ err "total already set"
unfolding settotalusg keep_dataset distribute is_due modal_totals modal is_oracle set_total
    issue_inflation share_out fit_supply pay_producer to_string quot neg ◌+ℤ◌ ◌-ℤ◌ int64 uint64
    checked checked_add checked_sub started set_up declared commitment
declares_again = refl

settotalusg-Declared_example :
    Declared (at 110) system 5 17_280_000_000 11_324_620_800 commitment 100 started declared
settotalusg-Declared_example =
    settotalusg-Declared (at 110) system 5 17_280_000_000 11_324_620_800 commitment 100 started
      declared declares

empty-IsFresh : IsFresh empty
empty-IsFresh = record { no_config = refl; no_usage = λ scope source. refl }

declared-IsAllocated : IsAllocated declared
unfolding settotalusg keep_dataset distribute is_due modal_totals modal is_oracle set_total
    issue_inflation share_out fit_supply pay_producer to_string quot neg ◌+ℤ◌ ◌-ℤ◌ int64 uint64
    checked checked_add checked_sub started set_up declared commitment
declared-IsAllocated =
    put-IsAllocated 5 1 5
      (record {
        source = 5;
        total_cpu_us = 17_280_000_000;
        total_net_words = 11_324_620_800;
        allocated_cpu = 0;
        submission_hash_list = digest (totals_text 17_280_000_000 11_324_620_800) ∷ [];
        all_data_hash = commitment;
      })
      empty declared (λ scope source row e. absurd (ground arith)) (omega arith) (omega arith) refl

addactusg-Added_example : Added (at 120) system 5 1 accounts 100 declared added
addactusg-Added_example =
    addactusg-Added (at 120) system 5 1 accounts 100 declared added declared-IsAllocated adds

nextperiod-Advanced_example : Advanced (at 150) system added next_period
nextperiod-Advanced_example = nextperiod-Advanced (at 150) system added next_period advances

claimdistrib-Claimed_example : Claimed (at 130) 1 added paid
claimdistrib-Claimed_example = claimdistrib-Claimed (at 130) system 1 added paid pays

claim_once_example : claimdistrib (at 131) system 1 paid ≢ ok (tt, paid)
claim_once_example = claim_once (at 130) (at 131) system system 1 added paid paid refl pays

abbrev requests : List (Context × Request)
unfolding to_string
requests =
    (at 90, init_request 10 1 100 50 100_000 294_700)
    ∷ (at 95, activate_request true)
    ∷ (at 110, total_request system 5 17_280_000_000 11_324_620_800 commitment 100)
    ∷ (at 120, dataset_request system 5 1 accounts 100)
    ∷ []

run-IsSound_example : IsSound 1 (run 1 requests empty)
run-IsSound_example = run-IsSound 1 requests empty empty-IsFresh

abbrev row_of : ℕ → SystemUsage
row_of hash = record {
  source = 5;
  total_cpu_us = 100;
  total_net_words = 0;
  allocated_cpu = 30;
  submission_hash_list = hash ∷ [];
  all_data_hash = 0;
}

abbrev rows : List SystemUsage
rows = row_of 9 ∷ row_of 4 ∷ row_of 6 ∷ row_of 4 ∷ row_of 9 ∷ []

-- Of two hashes with two votes each the smaller wins.
modal_tie : modal (hash_of 0) rows ≡ (4, 2)
unfolding modal
modal_tie = refl

modal-IsModal_example : IsModal (hash_of 0) rows (modal (hash_of 0) rows)
modal-IsModal_example = modal-IsModal (hash_of 0) rows (omega arith)

is_oracle_lem_example : is_oracle system 5 ≡ contains (take 21 (owners system.producers)) 5
is_oracle_lem_example = is_oracle_lem system 5

allocate-Allocated_example :
    (allocate (record { a = 1; u = 70 } ∷ []) (row_of 9) ≡ ok (with_allocated (row_of 9) 70))
    ↔ Allocated (record { a = 1; u = 70 } ∷ []) (row_of 9) (with_allocated (row_of 9) 70)
allocate-Allocated_example =
    allocate-Allocated (record { a = 1; u = 70 } ∷ []) (row_of 9) (with_allocated (row_of 9) 70)
      (omega arith) (omega arith)

read_totals-totals_text_example : read_totals (totals_text 1000 20) ≡ (1000, 20)
read_totals-totals_text_example = read_totals-totals_text 1000 20 (omega arith) (omega arith)
