-- ===== src/Schedule/Store.antt =====
-- bothy/schedule.py, Schedule and the checks of a job at its definition. The job file is a dict of
-- jobs; `none` is a file that is not there or that cannot be read.
use bothy.Common.{
  ℕ, ◌+◌, ◌-◌, ◌/◌, String, Bool, true, false, Option, none, some, List, [], ◌∷◌, ◌==◌, ◌&&◌, ◌||◌,
  not, ltb, leb, Result, ok, err, ◌>>=◌, ◌>>◌, guard, is_some, value_or, if◌then◌else◌,
}
use bothy.Dict
use bothy.Dict.{Dict}
use bothy.Json.{Json, nothing, number}
use bothy.Text.{Chars, codes, strip, is_nil, is_digit, within}
use bothy.Goal.Definition.{GoalError, validate_definition}
use bothy.Drove.Action.{Outcome, made, refused, assertion, parse_action}
use bothy.Schedule.Job.{
  Job, Kind, once, Stamp, instant, garbled, Fault, is_schedule_error, bad_dream, bad_goal,
  drove_with_check, bad_max_tokens, bad_wall_clock, bad_sop, bad_action, os_error, assertion_error,
  Clockwork, zone, compute_next, period_seconds, within_active_hours, spaced_enough,
}

abbrev pub File : Type 0
File = Option (Dict Job)

-- what is at a SOP's path: it leads out of the directory, it cannot be read, or its size and its text,
-- if it is UTF-8
pub data SopFile : Type 0 where
  outside unreadable : SopFile
  bytes : ℕ → Option Chars → SopFile

-- `writes_memory` is whether a profile is configured and grants `memory: write`; `sop_file` is what
-- the directory of SOPs has, where one is given; `dotted` and `compiles` are as in Drove and Goal
pub record Env : Type 0 where
  pub clockwork : Clockwork
  pub writable : Bool
  pub writes_memory : String → Bool
  pub sop_file : Option (String → SopFile)
  pub dotted : String → List String
  pub compiles : String → Bool

abbrev pub sop_max_bytes : ℕ
sop_max_bytes = 16384

unfoldable pub is_sop_char : ℕ → Bool
is_sop_char c = within b'a' b'z' c || is_digit c

-- the rest of a name: `$` matches before a newline at the end, too
unfoldable pub is_sop_rest : Chars → Bool
is_sop_rest [] = true
is_sop_rest (c ∷ cs) =
    let rest = is_sop_rest cs in c == b'\n' && is_nil cs || (is_sop_char c || c == b'-') && rest

unfoldable pub without_newline : Chars → ℕ
without_newline [] = 0
without_newline (c ∷ cs) = let rest = without_newline cs in if c == b'\n' then rest else rest + 1

-- SOP_NAME.match(name)
unfoldable pub is_sop_name : Chars → Bool
is_sop_name [] = false
is_sop_name (c ∷ cs) = is_sop_char c && (is_sop_rest cs && leb (without_newline cs) 63)

unfoldable pub readable : SopFile → Bool
readable outside = false
readable unreadable = false
readable (bytes n none) = false
readable (bytes n (some content)) = leb n sop_max_bytes && not (is_nil (strip content))

unfoldable pub check_sop : Option (String → SopFile) → Option String → Result Fault (Unit {0})
check_sop files none = ok tt
check_sop none (some name) = guard (is_sop_name (codes name)) bad_sop
check_sop (some file) (some name) = guard (is_sop_name (codes name) && readable (file name)) bad_sop

unfoldable pub grants : (String → Bool) → Option String → Bool
grants writes_memory none = false
grants writes_memory (some name) = writes_memory name

unfoldable pub validate_dream : Env → Job → Result Fault (Unit {0})
validate_dream env j =
    if not j.dream
    then ok tt
    else if j.heartbeat || (is_some j.drove || is_some j.sop)
    then err bad_dream
    else guard (grants env.writes_memory j.profile) bad_dream

unfoldable pub is_positive : Option ℕ → Bool
is_positive none = true
is_positive (some n) = ltb 0 n

unfoldable pub goal_fault : Result GoalError (Unit {0}) → Result Fault (Unit {0})
goal_fault (ok u) = ok u
goal_fault (err e) = err bad_goal

unfoldable pub literal : Outcome → Result Fault (Unit {0})
literal (made a) = ok tt
literal (refused e) = err bad_action
literal assertion = err assertion_error

unfoldable pub check_drove : Env → Option Json → Result Fault (Unit {0})
check_drove env none = ok tt
check_drove env (some raw) = literal (parse_action env.dotted raw)

-- put, up to its lock
unfoldable pub check_job : Env → Job → ℕ → Result Fault (Unit {0})
check_job env j moment = do
  validate_dream env j
  goal_fault
      (validate_definition env.compiles (value_or j.validate nothing) (number j.max_attempts))
  guard (not (is_some j.drove && is_some j.validate)) drove_with_check
  guard (is_positive j.max_tokens) bad_max_tokens
  guard (is_positive j.wall_clock) bad_wall_clock
  check_sop env.sop_file j.sop
  first ← compute_next env.clockwork j moment
  tz ← zone env.clockwork j
  check_drove env j.drove

unfoldable pub load : File → Dict Job
load none = []
load (some d) = d

unfoldable pub save {ℓ} : {A : Type ℓ} → Env → File → Dict Job → A → File × Result Fault A
save env f d a = if env.writable then (some d, ok a) else (f, err os_error)

unfoldable pub stamp : Option ℕ → Option Stamp
stamp none = none
stamp (some t) = some (instant t)

-- a job gets its first due time
unfoldable pub with_due : Env → Job → ℕ → Option Stamp → Result Fault Job
with_due env j moment (some s) = ok j
with_due env j moment none = do
  due ← compute_next env.clockwork j moment
  ok (record j { next_due_at = stamp due })

unfoldable pub put_ready : Env → File → Result Fault Job → File × Result Fault Job
put_ready env f (err e) = (f, err e)
put_ready env f (ok j) = save env f (Dict.set (load f) j.id j) j

unfoldable pub put : Env → File → Job → ℕ → File × Result Fault Job
put env f j moment = put_ready env f (check_job env j moment >> with_due env j moment j.next_due_at)

unfoldable pub checked : Env → Option Job → Result Fault (Option Job)
checked env none = ok none
checked env (some j) = validate_dream env j >> ok (some j)

unfoldable pub get : Env → File → String → Result Fault (Option Job)
get env f id = checked env (Dict.get (load f) id)

unfoldable pub jobs_of : Env → Dict Job → Result Fault (List Job)
jobs_of env [] = ok []
jobs_of env ((id, j) ∷ d) = do validate_dream env j; rest ← jobs_of env d; ok (j ∷ rest)

unfoldable pub jobs : Env → File → Result Fault (List Job)
jobs env f = jobs_of env (load f)

unfoldable pub remove : Env → File → String → File × Result Fault Bool
remove env f id = elim (Dict.get (load f) id) [
  | none ↦ (f, ok false)
  | some j ↦ save env f (Dict.remove (load f) id) true
]

unfoldable pub has_come : Option Stamp → ℕ → Bool
has_come none now = false
has_come (some garbled) now = false
has_come (some (instant t)) now = leb t now

unfoldable pub both : Result Fault Bool → Result Fault Bool → Result Fault Bool
both (ok true) second = second
both (ok false) second = ok false
both (err e) second = err e

unfoldable pub is_due : Clockwork → Job → ℕ → Result Fault Bool
is_due env j now =
    if j.enabled && has_come j.next_due_at now
    then both (within_active_hours env j now) (spaced_enough env j now)
    else ok false

unfoldable pub due_rows : Clockwork → Dict Job → ℕ → Result Fault (List Job)
due_rows env [] now = ok []
due_rows env ((id, j) ∷ d) now = do
  here ← is_due env j now
  rest ← due_rows env d now
  ok (if here then j ∷ rest else rest)

unfoldable pub due : Clockwork → File → ℕ → Result Fault (List Job)
due env f now = due_rows env (load f) now

-- the firings of an interval that were missed
unfoldable pub missed : Option Stamp → Option ℕ → ℕ → ℕ
missed (some (instant t)) (some period) now = if ltb period (now - t) then (now - t) / period else 0
missed _ _ now = 0

unfoldable pub is_once : Kind → Bool
is_once once = true
is_once _ = false

-- the job behind a firing, by what compute_next answered
unfoldable pub advance : Job → Result Fault (Option ℕ) → Result Fault Job
advance j (ok none) =
    ok (record j { next_due_at = none; enabled = not (is_once j.kind) && j.enabled })
advance j (ok (some t)) = ok (record j { next_due_at = some (instant t) })
advance j (err e) =
    if is_schedule_error e then ok (record j { next_due_at = none; enabled = false }) else err e

-- the job as it is when compute_next is asked
unfoldable pub stamped : Job → Option ℕ → ℕ → Job
stamped j period now = record j {
  last_fired_at = some (instant now);
  misfires = j.misfires + missed j.next_due_at period now;
}

unfoldable pub fired : Clockwork → Job → ℕ → Result Fault Job
fired env j now = do
  period ← period_seconds env j
  advance (stamped j period now) (compute_next env (stamped j period now) now)

unfoldable pub keep_fired :
    Env → File → String → Result Fault Job → File × Result Fault (Option Job)
keep_fired env f id (err e) = (f, err e)
keep_fired env f id (ok j) = save env f (Dict.set (load f) id j) (some j)

unfoldable pub fire : Env → File → String → ℕ → Option Job → File × Result Fault (Option Job)
fire env f id now none = (f, ok none)
fire env f id now (some j) = keep_fired env f id (fired env.clockwork j now)

unfoldable pub mark_fired : Env → File → String → ℕ → File × Result Fault (Option Job)
mark_fired env f id now = fire env f id now (Dict.get (load f) id)
