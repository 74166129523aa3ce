-- ===== src/Pool/Examples.antt =====
-- bothy/pool.py: tests, and the theorems at concrete pools.
use bothy.Common.{String, ◌≤◌, ◌≡◌, refl, true, none, some, List, [], ◌∷◌, arith, length, ok, err}
use bothy.Dict
use bothy.Budget.Policy.{BudgetPolicy, subscription, ceiling, per_run, unit}
use bothy.Budget.Ledger as Ledger
use bothy.Budget.Ledger.{missing}
use bothy.Pool.Outcomes.{PoolPolicy, Sample, ratio, recent, trim, recent_count, above, below}
use bothy.Pool.Admission.{
  healthy, probing, Admitted, Admission, Env, init, recompute, gate, enter, admit, refusal,
  lane_busy,
}
use bothy.Pool.Lanes.{IsSane}
use bothy.Pool.History.{
  Call, admits, run, step, AllFresh, run-bounds, run-one_per_subject, run-lane_is_live,
}
use bothy.Pool.Door.{IsUntouched, admit-err-IsUntouched}
use bothy.Pool.Recovery.{recompute_all, AllCalm, recompute_all-climbs}

abbrev two_workers : PoolPolicy
two_workers = record {
  max_workers = 2;
  min_workers = 1;
  recompute_time = 30000000;
  window_time = 900000000;
  recent_samples = 20;
  grow_below_ratio = 100;
  shrink_above_ratio = 500;
  collapse_above_ratio = 5000;
  min_samples = 4;
}

abbrev percents : BudgetPolicy
percents = record {
  mode = subscription;
  per_run_usd = 2000000;
  per_day_usd = 25000000;
  model_pricing = "default";
  per_run_percent = 2000000;
  ceiling_percent = 85000000;
  reservation_ttl = 3600000000;
}

abbrev start : Admission
start = init two_workers percents missing 0

abbrev at_one : Env
at_one = record { mono = 1; disk = record { now = 1000; fresh_id = "res_a"; disk_ok = true } }

abbrev admits_mail : Call
admits_mail = admits "run_a" "mail" none (some 10000000) none

abbrev first : Admitted
first = record {
  run_id = "run_a";
  subject = "mail";
  reservation = record {
    id = "res_a";
    run_id = "run_a";
    amount = 2000000;
    unit = "percent";
    reserved_at = 1000;
    expires_at = 3600001000;
    actual = 0;
  };
  admitted_at = 1000;
}

-- what a test of the calls computes with
all_calls : Unit {0}
unfolding step admit recompute init gate enter Dict.get Ledger.reserve Ledger.current Ledger.load
    Ledger.roll_day Ledger.drop_expired Ledger.sweep Ledger.base Ledger.hold Ledger.outstanding
    ceiling per_run unit Ledger.save Dict.set
all_calls = tt

first_admitted : (admit start at_one "run_a" "mail" none (some 10000000) none).1 ≡ ok first
unfolding all_calls
first_admitted = refl

second_refused :
    (admit (step start at_one admits_mail) at_one "run_b" "mail" none (some 10000000) none).1
    ≡ err (refusal (lane_busy "mail" "run_a"))
unfolding all_calls
second_refused = refl

abbrev calls : List (Env × Call)
calls = (at_one, admits_mail) ∷ []

sane : IsSane two_workers
sane = omega arith

fresh : AllFresh start calls
unfolding init Dict.get
fresh = (refl, tt)

live_first : Dict.get (run start calls).live "run_a" ≡ some first
unfolding run all_calls
live_first = refl

lane_first : Dict.get (run start calls).lanes "mail" ≡ some "run_a"
unfolding run all_calls
lane_first = refl

run-bounds_example :
    (length (run start calls).live ≤ 2)
    × (1 ≤ (run start calls).effective)
    × ((run start calls).effective ≤ 2)
run-bounds_example = run-bounds two_workers percents missing 0 calls sane fresh

run-one_per_subject_example : ◌≡◌ {A = String} "run_a" "run_a"
run-one_per_subject_example =
    run-one_per_subject two_workers percents missing 0 calls sane fresh "run_a" "run_a" first first
      live_first live_first refl

run-lane_is_live_example :
    (m : Admitted) × (Dict.get (run start calls).live "run_a" ≡ some m) × (m.subject ≡ "mail")
run-lane_is_live_example =
    run-lane_is_live two_workers percents missing 0 calls sane fresh "mail" "run_a" lane_first

admit-err-IsUntouched_example :
    IsUntouched
      (step start at_one admits_mail)
      (admit (step start at_one admits_mail) at_one "run_b" "mail" none (some 10000000) none).0
admit-err-IsUntouched_example =
    admit-err-IsUntouched (step start at_one admits_mail) at_one "run_b" "mail" none (some 10000000)
      none (refusal (lane_busy "mail" "run_a")) second_refused

start_has_no_run : Dict.get start.live "run_a" ≡ none
unfolding init Dict.get
start_has_no_run = refl

abbrev collapsed : Admission
collapsed = record {
  policy = two_workers;
  budget = percents;
  ledger = missing;
  lanes = [];
  live = [];
  samples = [];
  effective = 1;
  state = probing;
  last_recompute = 0;
  probe_open = true;
}

-- four runs that went well
abbrev good_runs : List Sample
good_runs = (1, true) ∷ (2, true) ∷ (3, true) ∷ (4, true) ∷ []

good_runs_are_calm : AllCalm two_workers 0 ((30000000, good_runs) ∷ [])
unfolding above below ratio recent trim recent_count
good_runs_are_calm = (omega arith, omega arith, (refl, refl, refl), tt)

recompute_all-climbs_example :
    ((recompute_all ((30000000, good_runs) ∷ []) collapsed).effective ≡ 2)
    × ((recompute_all ((30000000, good_runs) ∷ []) collapsed).state ≡ healthy)
recompute_all-climbs_example =
    recompute_all-climbs ((30000000, good_runs) ∷ []) collapsed good_runs_are_calm (omega arith)
      (omega arith) (omega arith)
