-- ===== src/Drove/Watching.antt =====
-- bothy/drove.py, DroveRuns: start, tick and what they call. A time is in microseconds. A
-- start is one step here, from its tests to its write, although the source tests without its lock.
use bothy.Common.{
  ℕ, ◌+◌, String, str_eq, Bool, true, Option, none, some, [], any, length, leb, if◌then◌else◌,
}
use bothy.Json.{Json, Members, find}
use bothy.Text.{codes}
use bothy.Dict
use bothy.Dict.{Dict}
use bothy.Schedule.Job.{Stamp, instant, garbled}
use bothy.Drove.Action
use bothy.Drove.Action.{Action, argv, parse_action, as_dict, made, refused, assertion}
use bothy.Drove.Cli
use bothy.Drove.Cli.{Outcome, as_object}
use bothy.Drove.Runs.{
  watching, Watch, StartResult, Drove, Config, Outside, target, watched, record_start, refusal,
  or_text, is_failed, run_id_of, planner_of,
}

unfoldable pub new_watch : Config → Action → Option String → String → ℕ → String → Members → Watch
new_watch cfg a wake source now run body = record {
  run = run;
  target = target a;
  action = as_dict a;
  wake = wake;
  source = source;
  status = watching;
  started_at = now;
  deadline_at = some (instant (now + cfg.deadline_seconds));
  planner_state = planner_of body;
  workspace = find body "workspace";
  goal = find body "goal";
  unknown = 0;
  checked_at = none;
  finished_at = none;
  last_report = none;
}

unfoldable pub keep : Watch → Drove → Drove
keep w d = record d { runs = Dict.set d.runs w.run w }

unfoldable pub answered :
    Config
    → Action
    → Option String
    → String
    → ℕ
    → Members
    → Option String
    → Drove
    → Drove × Option StartResult
answered cfg a wake source now body none d =
    record_start (some (target a))
      (refusal "failed" "unparsed" (codes "Drove answered without a run id")) d
answered cfg a wake source now body (some run) d =
    record_start (some (target a))
      (record { status = "started"; code = ""; run = some run; detail = [] })
      (keep (new_watch cfg a wake source now run body) d)

unfoldable pub read_start :
    Config → Action → Option String → String → ℕ → Outcome → Drove → Drove × Option StartResult
read_start cfg a wake source now o d =
    if o.is_ok
    then answered cfg a wake source now o.body (run_id_of (find o.body "run")) d
    else record_start (some (target a))
        (refusal (if is_failed o.code then "failed" else "refused") o.code o.error) d

unfoldable pub has_target : String → Watch → Bool
has_target t w = str_eq w.target t

-- past a moment by a time, or of no moment that can be read
unfoldable pub is_after : Option Stamp → ℕ → ℕ → Bool
is_after none seconds now = true
is_after (some garbled) seconds now = true
is_after (some (instant t)) seconds now = leb (t + seconds) now

module _ (out : Outside) (cfg : Config) where
  unfoldable pub ask :
      Action → Option String → String → ℕ → Option String → Drove → Drove × Option StartResult
  ask a wake source now none d =
      record_start (some (target a)) (refusal "refused" "no-repo" (codes "no repository")) d
  ask a wake source now (some repo) d =
      read_start cfg a wake source now
        (Cli.run out.shell (argv a cfg.binary) (some repo) cfg.timeout) d

  unfoldable pub start_action :
      Action → Option String → String → ℕ → Drove → Drove × Option StartResult
  start_action a wake source now d =
      if any (has_target (target a)) (watched d)
      then record_start (some (target a))
          (refusal "refused" "already_running" (codes "a run is already being watched")) d
      else if leb cfg.max_runs (length (watched d))
      then record_start (some (target a))
          (refusal "refused" "capacity" (codes "run(s) already watched")) d
      else ask a wake source now (or_text (or_text a.repo cfg.repo) none) d

  unfoldable pub start_parsed :
      Action.Outcome → Option String → String → ℕ → Drove → Drove × Option StartResult
  start_parsed (made a) wake source now d = start_action a wake source now d
  start_parsed (refused why) wake source now d =
      record_start none (refusal "refused" "action" (codes "no action")) d
  start_parsed assertion wake source now d = (d, none)

  -- without a result where an assertion fails
  unfoldable pub start : Json → Option String → String → ℕ → Drove → Drove × Option StartResult
  start raw wake source now d = start_parsed (parse_action out.dotted raw) wake source now d
