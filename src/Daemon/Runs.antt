-- ===== src/Daemon/Runs.antt =====
-- bothy/daemon.py, drain: the runs of a pass, and which wakes they may be for.
use bothy.Common.{
  ℕ, ◌≤◌, ◌<◌, String, Bool, true, false, Option, none, some, List, [], ◌∷◌, ◌≡◌, str_eq, ◌&&◌, any,
  not, if◌then◌else◌, value_or,
}
use bothy.Schedule.Job.{Job}
use bothy.Daemon.Queue.{Wake}
use bothy.Daemon.Prompt.{Order, Report, Words, order_for}
use bothy.Daemon.Report.{is_refused_for_capacity, is_drove}
use bothy.Daemon.Pass.{Limits, Pass, Call, ran, too_old, time_until}
use bothy.Daemon.Waits.{most_of}

-- an order and the report of its run, if the run was not left by an exception
abbrev pub Run : Type 0
Run = Order × Option Report

-- the runs among the calls, the oldest first, before those of `later`
unfoldable pub runs_before : List Call → List Run → List Run
runs_before [] later = later
runs_before (ran order report ∷ calls) later = runs_before calls ((order, report) ∷ later)
runs_before (_ ∷ calls) later = runs_before calls later

-- the lanes that are known to be busy, and whether the pool is known to be full, after a run
unfoldable pub lanes_after : Run → List String → List String
lanes_after (order, none) lanes = lanes
lanes_after (order, some r) lanes =
    if is_refused_for_capacity r && str_eq (value_or r.gate "") "lane_busy"
    then order.subject ∷ lanes
    else lanes

unfoldable pub full_after : Run → Bool → Bool
full_after (order, none) full = full
full_after (order, some r) full =
    if is_refused_for_capacity r && not (str_eq (value_or r.gate "") "lane_busy")
    then true
    else full

-- a run that the wake may have at a time: it has attempts left, it has not waited too long, it is
-- due, and a goal that it has may be tried again
pub record MayRun (limits : Limits) (words : Words) (start : ℕ) (w : Wake) (order : Order)
    : Type 0 where
  pub at : ℕ
  pub begun : start ≤ at
  pub not_drove : is_drove w ≡ false
  pub attempts_left : w.attempts < limits.max_wake_attempts
  pub young : too_old limits w at ≡ none
  pub due : time_until w.next_attempt_at at ≡ 0
  pub tries_left : (most : ℕ) → most_of w.goal ≡ some most → w.goal_attempts < most
  pub job : Option Job
  pub is_its_order : order ≡ order_for words job w

-- runs of some of the wakes, in their order and none twice; after a run that found its lane busy there
-- is none in that lane, and after one that found the pool full there is none
pub data Runs (limits : Limits) (words : Words) (start : ℕ)
    : List String → Bool → List Wake → List Run → Type 0 where
  no_runs :
      {lanes : List String}
      → {full : Bool} → {ws : List Wake} → Runs limits words start lanes full ws []
  passed_over :
      {lanes : List String}
      → {full : Bool} → {w : Wake} → {ws : List Wake} → {runs : List Run}
      → Runs limits words start lanes full ws runs
      → Runs limits words start lanes full (w ∷ ws) runs
  has_run :
      {lanes : List String}
      → {w : Wake} → {ws : List Wake} → {run : Run} → {runs : List Run}
      → MayRun limits words start w run.0
      → any (str_eq run.0.subject) lanes ≡ false
      → Runs limits words start (lanes_after run lanes) (full_after run false) ws runs
      → Runs limits words start lanes false (w ∷ ws) (run ∷ runs)

-- runs of a pass
unfoldable pub runs_of : Pass → List Run
runs_of p = runs_before p.calls []
