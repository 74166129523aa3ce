-- ===== src/Schedule/Job.antt =====
-- bothy/schedule.py, Job: when a job fires next, and the guards on a firing. A moment is a count of
-- microseconds, and a zone's minutes are those of Cron.
use bothy.Common.{
  ℕ, ◌+◌, ◌*◌, ◌/◌, ◌%◌, String, Bool, true, false, Option, none, some, List, [], ◌∷◌, ◌==◌, ◌&&◌,
  ◌||◌, ltb, leb, Result, ok, err, ◌>>=◌, ◌>>◌, guard, is_some, if◌then◌else◌,
}
use bothy.Json.{Json}
use bothy.Text.{codes, lower, same_chars}
use bothy.Cron.Field.{CronError}
use bothy.Cron.Spec.{CronSpec, Zone, parse, next_after}

-- a stored time: what clock.iso wrote, or a text that clock.parse does not take
pub data Stamp : Type 0 where
  instant : ℕ → Stamp
  garbled : Stamp

-- float(text): a time span, a number that is not positive, an infinite one, or a ValueError
pub data Seconds : Type 0 where
  micros : ℕ → Seconds
  not_positive unbounded not_number : Seconds

pub data Kind : Type 0 where
  once every cron : Kind
  other : String → Kind

-- what is raised: ScheduleError by its cause, and the errors of other types that pass through
pub data Fault : Type 0 where
  bad_interval interval_not_positive unknown_kind unknown_zone bad_dream bad_goal drove_with_check :
      Fault
  bad_max_tokens bad_wall_clock bad_sop bad_action : Fault
  bad_cron : CronError → Fault
  value_error index_error overflow assertion_error os_error : Fault

-- `except ScheduleError`
unfoldable pub is_schedule_error : Fault → Bool
is_schedule_error value_error = false
is_schedule_error index_error = false
is_schedule_error overflow = false
is_schedule_error assertion_error = false
is_schedule_error os_error = false
is_schedule_error _ = true

-- `validate` and `drove` are as JSON reads them; `active_hours` is empty where the source has None
pub record Job : Type 0 where
  pub id : String
  pub kind : Kind
  pub spec : String
  pub prompt : String
  pub subject : Option String
  pub enabled : Bool
  pub tz : String
  pub active_hours : List ℕ
  pub min_spacing : ℕ
  pub dream : Bool
  pub heartbeat : Bool
  pub profile : Option String
  pub drove : Option Json
  pub sop : Option String
  pub validate : Option Json
  pub max_attempts : ℕ
  pub last_fired_at : Option Stamp
  pub next_due_at : Option Stamp
  pub misfires : ℕ
  pub wall_clock : Option ℕ
  pub max_tokens : Option ℕ

abbrev pub minute : ℕ
minute = 60000000

abbrev pub max_stagger_seconds : ℕ
max_stagger_seconds = 300

-- Python's date parser and float, the zones of zoneinfo, UTC, and the first four bytes of the
-- SHA-256 of a job's id
pub record Clockwork : Type 0 where
  pub parse_instant : String → Option ℕ
  pub to_seconds : String → Seconds
  pub zone_info : String → Option Zone
  pub utc_zone : Zone
  pub digest : String → ℕ

-- clock.parse
unfoldable pub stamp_time : Stamp → Result Fault ℕ
stamp_time (instant t) = ok t
stamp_time garbled = err value_error

unfoldable pub or_zone : Option Zone → Result Fault Zone
or_zone none = err unknown_zone
or_zone (some z) = ok z

-- start <= hour < end, or a window that wraps midnight
unfoldable pub in_hours : ℕ → ℕ → ℕ → Bool
in_hours start end hour =
    if leb start end then leb start hour && ltb hour end else leb start hour || ltb hour end

module _ (env : Clockwork) where
  unfoldable pub zone : Job → Result Fault Zone
  zone j =
      if same_chars (lower (codes j.tz)) (codes "utc")
      then ok env.utc_zone
      else or_zone (env.zone_info j.tz)

  unfoldable pub stagger : Job → ℕ
  stagger j = env.digest j.id % max_stagger_seconds * 1000000

  unfoldable pub refuse_interval : Seconds → Result Fault (Unit {0})
  refuse_interval (micros p) = guard (ltb 0 p) interval_not_positive
  refuse_interval not_positive = err interval_not_positive
  refuse_interval unbounded = ok tt
  refuse_interval not_number = err bad_interval

  -- timedelta(seconds=...)
  unfoldable pub span_of : Seconds → Result Fault ℕ
  span_of (micros p) = ok p
  span_of unbounded = err overflow
  span_of not_positive = err interval_not_positive
  span_of not_number = err bad_interval

  -- where an `every` counts from
  unfoldable pub base : Job → ℕ → Result Fault ℕ
  base j moment = elim (j.last_fired_at) [ none ↦ ok moment | some s ↦ stamp_time s ]

  -- a firing on the hour is put off by the job's own offset
  unfoldable pub staggered : Job → Zone → Option ℕ → Option ℕ
  staggered j z none = none
  staggered j z (some local) =
      some (z.utc local * minute + (if (z.civil local).minute == 0 then stagger j else 0))

  unfoldable pub spec_next : Job → Zone → ℕ → Result CronError CronSpec → Result Fault (Option ℕ)
  spec_next j z moment (err e) = err (bad_cron e)
  spec_next j z moment (ok c) = ok (staggered j z (next_after z c 400 (moment / minute)))

  unfoldable pub cron_next : Job → ℕ → Result Fault (Option ℕ)
  cron_next j moment = do z ← zone j; spec_next j z moment (parse (codes j.spec))

  unfoldable pub once_next : Job → Option ℕ → Result Fault (Option ℕ)
  once_next j none = err value_error
  once_next j (some due) = ok (if is_some (j.last_fired_at) then none else some due)

  unfoldable pub next_of : Kind → Job → ℕ → Result Fault (Option ℕ)
  next_of once j moment = once_next j (env.parse_instant j.spec)
  next_of every j moment = do
    refuse_interval (env.to_seconds j.spec)
    from ← base j moment
    seconds ← span_of (env.to_seconds j.spec)
    ok (some (from + seconds))
  next_of cron j moment = cron_next j moment
  next_of (other k) j moment = err unknown_kind

  unfoldable pub compute_next : Job → ℕ → Result Fault (Option ℕ)
  compute_next j moment = next_of j.kind j moment

  -- for `every` alone; none where the float is no span to divide by
  unfoldable pub period_of : Kind → Seconds → Result Fault (Option ℕ)
  period_of every (micros p) = ok (if p == 0 then none else some p)
  period_of every not_positive = ok none
  period_of every unbounded = ok none
  period_of every not_number = err value_error
  period_of _ s = ok none

  unfoldable pub period_seconds : Job → Result Fault (Option ℕ)
  period_seconds j = period_of j.kind (env.to_seconds j.spec)

  unfoldable pub hours_test : Job → ℕ → List ℕ → Result Fault Bool
  hours_test j moment [] = ok true
  hours_test j moment (start ∷ []) = err index_error
  hours_test j moment (start ∷ end ∷ more) = do
    z ← zone j
    ok (in_hours start end (z.civil (z.local (moment / minute))).hour)

  unfoldable pub within_active_hours : Job → ℕ → Result Fault Bool
  within_active_hours j moment = hours_test j moment j.active_hours

  -- a firing in the future is not far enough back
  unfoldable pub spaced_from : ℕ → Option Stamp → ℕ → Result Fault Bool
  spaced_from spacing none moment = ok true
  spaced_from spacing (some s) moment = do last ← stamp_time s; ok (leb (last + spacing) moment)

  unfoldable pub spaced_enough : Job → ℕ → Result Fault Bool
  spaced_enough j moment = spaced_from j.min_spacing j.last_fired_at moment
