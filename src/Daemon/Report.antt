-- ===== src/Daemon/Report.antt =====
-- bothy/daemon.py, drain: what a run's end does to the wake that it was for, and the marks of a goal.
use bothy.Common.{
  ℕ, ◌+◌, String, Bool, true, false, Option, none, some, List, [], ◌∷◌, ltb, not, value_or,
  if◌then◌else◌, str_eq, ◌&&◌, ◌||◌, any,
}
use bothy.Json.{Json, dict, number, get}
use bothy.Text.{Chars, codes, is_nil}
use bothy.Schedule.Job.{instant}
use bothy.Goal.Check.{Verdict, RunResult}
use bothy.Daemon.Queue.{Wake, subject_of}
use bothy.Daemon.Prompt.{Report}
use bothy.Daemon.Pass.{
  Pass, Flow, going, stopped, raised, audit_unverified, alert_goal, marked, called, counted, gap,
  defer, retry_at,
}

-- a wake's goal and the attempts that it may take
pub record Target : Type 0 where
  pub definition : Json
  pub most : ℕ

-- target["max_attempts"]
unfoldable pub max_attempts_of : Json → Option ℕ
max_attempts_of goal = elim (get goal "max_attempts") [ some (number n) ↦ some n | _ ↦ none ]

unfoldable pub is_capacity : Option String → Bool
is_capacity none = false
is_capacity (some gate) =
    str_eq gate "lane_busy" || (str_eq gate "pool_full" || str_eq gate "pool_probing")

unfoldable pub is_budget : Option String → Bool
is_budget none = false
is_budget (some gate) = str_eq gate "budget" || str_eq gate "budget_unknown"

-- the part of goal.check that reads the run's result
unfoldable pub result_of : Report → RunResult
result_of r = record {
  completed = str_eq r.status "completed";
  reason = r.reason;
  messages = r.messages;
}

unfoldable pub goal_counted : ℕ → Wake → Wake
goal_counted n v = record v { goal_attempts = n }

unfoldable pub unverified : Chars → ℕ → Wake → Wake
unverified evidence now v = record v {
  processed = true;
  processed_at = some (instant now);
  outcome = some "unverified";
  goal_feedback = some evidence;
}

unfoldable pub last_evidence : Option Chars → Chars
last_evidence none = codes "Goal attempt limit reached before verification"
last_evidence (some evidence) =
    if is_nil evidence then codes "Goal attempt limit reached before verification" else evidence

unfoldable pub out_of_attempts : Wake → Pass → Pass
out_of_attempts w p =
    let evidence = last_evidence w.goal_feedback in
    counted (
      called (alert_goal w.id evidence) (
        called (audit_unverified w.id w.goal_attempts evidence)
          (marked w.id (unverified evidence p.now) p)))

unfoldable pub closed : Report → String → Bool → ℕ → Wake → Wake
closed r outcome spoke now v = record v {
  processed = true;
  processed_at = some (instant now);
  run_id = r.run_id;
  outcome = some outcome;
  spoke = spoke;
}

unfoldable pub checked : Report → Verdict → Wake → Wake
checked r verdict v = record v { goal_feedback = some verdict.evidence; run_id = r.run_id }

unfoldable pub alert_unmet : Wake → Option Verdict → Pass → Pass
alert_unmet w none p = p
alert_unmet w (some verdict) p =
    if verdict.passed then p else called (alert_goal w.id verdict.evidence) p

-- isinstance(event.get("drove"), dict)
unfoldable pub is_action : Option Json → Bool
is_action (some (dict ms)) = true
is_action _ = false

unfoldable pub is_drove : Wake → Bool
is_drove w = is_action w.drove

unfoldable pub is_going : Flow → Bool
is_going going = true
is_going stopped = false
is_going raised = false

unfoldable pub is_route : Wake → String → Bool
is_route w key = str_eq (value_or w.route "") key

unfoldable pub spoke : List Chars → Bool
spoke [] = false
spoke (s ∷ said) = true

unfoldable pub outcome_of : Verdict → String
outcome_of verdict = if verdict.passed then "verified" else "unverified"

unfoldable pub is_retried : Target → Wake → Report → Verdict → Bool
is_retried target w r verdict =
    not verdict.passed
    && not (str_eq r.status "refused" && is_budget r.gate)
    && ltb (w.goal_attempts + 1) target.most

unfoldable pub give_back : Option Target → Wake → Pass → Pass
give_back none w p = p
give_back (some target) w p = marked w.id (goal_counted w.goal_attempts) p

-- a refusal that is no verdict on the work
unfoldable pub is_refused_for_capacity : Report → Bool
is_refused_for_capacity r = str_eq r.status "refused" && is_capacity r.gate

unfoldable pub noted : Wake → String → Pass → Pass
noted w gate p =
    if str_eq gate "lane_busy"
    then record p { busy_lanes = subject_of w ∷ p.busy_lanes }
    else record p { pool_exhausted = true }

unfoldable pub retry : Wake → Pass → Pass
retry w p = counted (marked w.id (retry_at (p.now + gap w.goal_attempts)) p)

-- a run that was refused for capacity
unfoldable pub put_off : Option Target → Wake → String → Pass → Pass
put_off target w gate p = defer w gate (noted w gate (give_back target w p))

unfoldable pub known_full : Wake → Pass → Option String
known_full w p =
    if any (str_eq (subject_of w)) p.busy_lanes
    then some "lane_busy"
    else if p.pool_exhausted
    then some "pool_full"
    else none
