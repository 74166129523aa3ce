-- ===== src/Drove/Runs.antt =====
-- bothy/drove.py, DroveRuns: the registry of the runs that Bothy started, as the file's table by the
-- run's id, with what is called of the audit log and the alerter, the newest first.
use bothy.Common.{
  ℕ, String, str_append, str_eq, Bool, true, false, Option, none, some, List, [], ◌∷◌, filter, leb,
  value_or, if◌then◌else◌, ◌&&◌,
}
use bothy.Json.{Json, Members, text, find, no_members, one_of}
use bothy.Text.{Chars, codes}
use bothy.Dict.{Dict}
use bothy.Schedule.Job.{Stamp}
use bothy.Drove.Action.{Action, Shape, from_cairn, next, run, verb_of, is_run_id}
use bothy.Drove.Cli.{Shell, as_object}

pub data Status : Type 0 where
  watching down vanished deadline : Status

pub record Watch : Type 0 where
  pub run : String
  pub target : String
  pub action : Json
  pub wake : Option String
  pub source : String
  pub status : Status
  pub started_at : ℕ
  pub deadline_at : Option Stamp
  pub planner_state : Option Json
  pub workspace : Option Json
  pub goal : Option Json
  pub unknown : ℕ
  pub checked_at : Option Stamp
  pub finished_at : Option ℕ
  pub last_report : Option Members

pub record StartResult : Type 0 where
  pub status : String
  pub code : String
  pub run : Option String
  pub detail : Chars

pub data Call : Type 0 where
  audit_start : Option String → StartResult → Call
  audit_state : String → Option Json → Option Json → Call
  audit_finished : String → Status → Call
  alert_unread tell_finished alert_deadline alert_vanished : String → Call

pub record Drove : Type 0 where
  pub runs : Dict Watch
  pub calls : List Call

pub record Config : Type 0 where
  pub max_runs : ℕ
  pub deadline_seconds : ℕ
  pub poll_seconds : ℕ
  pub repo : Option String
  pub binary : String
  pub timeout : ℕ

-- Drove's program, the split of a dotted path, and Python's == on JSON values
pub record Outside : Type 0 where
  pub shell : Shell
  pub dotted : String → List String
  pub same : Option Json → Option Json → Bool

-- what follows the two dashes of a flag
abbrev pub flag_name : Shape → String
flag_name from_cairn = "from-cairn"
flag_name next = "next"
flag_name run = "run"

unfoldable pub target : Action → String
target a =
    str_append (verb_of a.shape)
      (str_append ":" (str_append (flag_name a.shape) (str_append ":" a.value)))

unfoldable pub is_transient : StartResult → Bool
is_transient r =
    str_eq r.status "refused" && one_of ("herdr-down" ∷ "herdr" ∷ "capacity" ∷ []) r.code

unfoldable pub is_watching : Watch → Bool
is_watching w = elim w.status [ watching ↦ true | _ ↦ false ]

unfoldable pub values : Dict Watch → List Watch
values [] = []
values ((k, w) ∷ d) = w ∷ values d

-- sorted by `started_at`, stable
unfoldable pub insert_started : Watch → List Watch → List Watch
insert_started w [] = w ∷ []
insert_started w (v ∷ vs) =
    let rest = insert_started w vs in if leb w.started_at v.started_at then w ∷ v ∷ vs else v ∷ rest

unfoldable pub records_of : List Watch → List Watch
records_of [] = []
records_of (w ∷ ws) = insert_started w (records_of ws)

unfoldable pub records : Drove → List Watch
records d = records_of (values d.runs)

unfoldable pub watched : Drove → List Watch
watched d = filter is_watching (records d)

unfoldable pub noted : Call → Drove → Drove
noted c d = record d { calls = c ∷ d.calls }

-- _record
unfoldable pub record_start : Option String → StartResult → Drove → Drove × Option StartResult
record_start target r d = (noted (audit_start target r) d, some r)

unfoldable pub refusal : String → String → Chars → StartResult
refusal status code detail = record { status = status; code = code; run = none; detail = detail }

-- `a or b` of two texts that may be missing or empty
unfoldable pub or_text : Option String → Option String → Option String
or_text none other = other
or_text (some s) other = if str_eq s "" then other else some s

unfoldable pub is_failed : String → Bool
is_failed code = one_of ("timeout" ∷ "unparsed" ∷ "not-found" ∷ "spawn-failed" ∷ []) code

unfoldable pub run_id_of : Option Json → Option String
run_id_of (some (text s)) = if is_run_id (codes s) then some s else none
run_id_of _ = none

unfoldable pub planner_of : Members → Option Json
planner_of body = find (value_or (as_object (find body "planner")) no_members) "state"
