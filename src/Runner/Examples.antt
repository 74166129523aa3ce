-- ===== src/Runner/Examples.antt =====
-- bothy/runner.py: runs, and instances of the theorems.
use bothy.Common.{[], false, none, refl, some, true, ℕ, ◌∷◌}
use bothy.Text.{codes}
use bothy.Dict
use bothy.Budget.Policy.{BudgetPolicy, subscription}
use bothy.Budget.Ledger.{missing}
use bothy.Pool.Outcomes.{PoolPolicy}
use bothy.Pool.Admission.{Env, init}
use bothy.Runner.Gates.{Office, Job, World, turned, turn_completed, has_prompt}
use bothy.Runner.Run.{run}
use bothy.Runner.Released.{Left}
use bothy.Runner.Tables.{run-Left}
use bothy.Runner.Started.{starts_in, Starts, MayStart, run-Starts}

abbrev two_workers : PoolPolicy
two_workers = record {
  max_workers = 2;
  min_workers = 1;
  recompute_time = 30000000;
  window_time = 900000000;
  recent_samples = 20;
  grow_below_ratio = 100;
  shrink_above_ratio = 500;
  collapse_above_ratio = 5000;
  min_samples = 4;
}

abbrev percents : BudgetPolicy
percents = record {
  mode = subscription;
  per_run_usd = 2000000;
  per_day_usd = 25000000;
  model_pricing = "default";
  per_run_percent = 2000000;
  ceiling_percent = 85000000;
  reservation_ttl = 3600000000;
}

abbrev morning : Office
morning = record { admission = init two_workers percents missing 0; tape = [] }

abbrev at : ℕ → Env
at mono = record { mono = mono; disk = record { now = 1000; fresh_id = "res_a"; disk_ok = true } }

-- no profile, and a worker that answers
abbrev quiet_day : World
quiet_day = record {
  default_profile = none;
  profiles = λ name. none;
  dream_prompt = λ active. has_prompt;
  position = (some 10000000, none);
  wall_clock = 1800000000;
  max_tokens = none;
  question_hold = 0;
  audit_writable = true;
  claim_breaks = false;
  setup_breaks = false;
  close_breaks = false;
  at_door = at 1;
  at_end = at 2;
  work = λ active wall tokens. turned [] turn_completed false false (codes "done" ∷ []) 0;
}

abbrev mail : Job
mail = record {
  run_id = "run_a";
  subject = "mail";
  profile = none;
  wall_clock = none;
  max_tokens = none;
  untrusted = true;
  heartbeat = false;
  dream = false;
}

run-Left_example : Left quiet_day mail morning.admission (run quiet_day mail morning)
unfolding init Dict.get
run-Left_example = run-Left quiet_day mail morning refl

run-Starts_example :
    Starts quiet_day mail 0 (MayStart quiet_day mail morning.admission) (run quiet_day mail morning)
unfolding starts_in
run-Starts_example = run-Starts quiet_day mail morning
