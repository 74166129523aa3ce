-- ===== src/Schedule/Examples.antt =====
-- bothy/schedule.py: a few jobs, and instances of the theorems.
use bothy.Common.{
  Listed, ℕ, ◌+◌, ◌/◌, ◌%◌, ◌≤◌, true, false, none, some, [], ◌∷◌, ok, err, ◌≡◌, refl, ◌↔◌, arith,
}
use bothy.Dict
use bothy.Text.{
  codes, lower, lower_char, same_chars, words, split_by, is_nil, is_space, push_first, is_digit,
  strip, lstrip_by, rstrip_by, all_chars, all_digits, int_from, contains_char, starts_with, before,
  after, split_on,
}
use bothy.Cron.Field.{
  parse_field, parse_parts, parse_part, part_span, range_span, value_span, take_step, span,
  progression, single, named, to_int, non_empty, minuses,
}
use bothy.Cron.Spec.{Zone, CronSpec, create, parse, matches, day_matches, search_from, next_after}
use bothy.Schedule.Job.{
  Job, once, every, cron, micros, instant, index_error, Clockwork, zone, stagger, staggered,
  spec_next, cron_next, once_next, next_of, compute_next, period_of, period_seconds, base,
  refuse_interval, span_of, hours_test, within_active_hours, spaced_from, spaced_enough, stamp_time,
}
use bothy.Schedule.Calendar.{FiresAt, compute_next-cron}
use bothy.Goal.Definition.{validate_definition, attempts_in_range, check_kind, is_single}
use bothy.Schedule.Store.{
  File, Env, is_sop_name, is_sop_rest, is_sop_char, without_newline, check_job, check_sop,
  check_drove, validate_dream, is_positive, goal_fault, with_due, put_ready, put, load, save,
  has_come, both, is_due, due_rows, due, missed, is_once, advance, stamped, fired, keep_fired, fire,
  mark_fired,
}
use bothy.Schedule.Firing.{IsReady, mark_fired-spaced}
use bothy.Schedule.Due.{Stored, due_iff}
use bothy.Schedule.Interval.{IsMissed, refired, mark_fired-every}

-- months of thirty days
abbrev plain_days : Zone
plain_days = record {
  local = λ m. m;
  utc = λ m. m;
  civil = λ m. record {
    minute = m % 60;
    hour = m / 60 % 24;
    day = m / 1440 % 30 + 1;
    month = 1;
    weekday = m / 1440 % 7;
  };
}

-- every text is five seconds, and as an instant the tenth second
abbrev five_seconds : Clockwork
five_seconds = record {
  parse_instant = λ s. some 10000000;
  to_seconds = λ s. micros 5000000;
  zone_info = λ name. none;
  utc_zone = plain_days;
  digest = λ id. 307;
}

abbrev world : Env
world = record {
  clockwork = five_seconds;
  writable = true;
  writes_memory = λ name. false;
  sop_file = none;
  dotted = λ path. [];
  compiles = λ pattern. true;
}

abbrev pulse : Job
pulse = record {
  id = "pulse";
  kind = every;
  spec = "5";
  prompt = "look around";
  subject = none;
  enabled = true;
  tz = "UTC";
  active_hours = [];
  min_spacing = 1000000;
  dream = false;
  heartbeat = true;
  profile = none;
  drove = none;
  sop = none;
  validate = none;
  max_attempts = 1;
  last_fired_at = none;
  next_due_at = some (instant 3000000);
  misfires = 0;
  wall_clock = none;
  max_tokens = none;
}

abbrev reminder : Job
reminder = record pulse { id = "reminder"; kind = once }

abbrev nightly : Job
nightly = record pulse { id = "nightly"; kind = cron; spec = "10 0 * * *" }

abbrev file : File
file = some (("pulse", pulse) ∷ ("reminder", reminder) ∷ [])

-- seventeen seconds late: three firings are dropped and counted
abbrev pulse_fired : Job
pulse_fired = record pulse {
  last_fired_at = some (instant 20000000);
  next_due_at = some (instant 25000000);
  misfires = 3;
}

pulse_fires :
    mark_fired world file "pulse" 20000000
    ≡ (some (("pulse", pulse_fired) ∷ ("reminder", reminder) ∷ []), ok (some pulse_fired))
unfolding mark_fired fire keep_fired save fired period_seconds period_of advance stamped
    compute_next next_of refuse_interval span_of base missed stamp_time load Dict.get Dict.set
pulse_fires = refl

both_due : due five_seconds file 4000000 ≡ ok (pulse ∷ reminder ∷ [])
unfolding due due_rows is_due has_come both within_active_hours hours_test spaced_enough spaced_from
    load
both_due = refl

-- a window of one hour stops every other job, too
half_a_window :
    due five_seconds (some (("pulse", record pulse { active_hours = 9 ∷ [] }) ∷ [])) 4000000
    ≡ err index_error
unfolding due due_rows is_due has_come both within_active_hours hours_test spaced_enough spaced_from
    load
half_a_window = refl

newline_in_a_name : is_sop_name (b'a' ∷ b'\n' ∷ []) ≡ true
unfolding is_sop_name is_sop_rest is_sop_char without_newline is_digit is_nil
newline_in_a_name = refl

abbrev reminder_fired : Job
reminder_fired = record reminder {
  last_fired_at = some (instant 20000000);
  next_due_at = none;
  enabled = false;
}

reminder_fires :
    mark_fired world file "reminder" 20000000
    ≡ (some (("pulse", pulse) ∷ ("reminder", reminder_fired) ∷ []), ok (some reminder_fired))
unfolding mark_fired fire keep_fired save fired period_seconds period_of advance stamped
    compute_next next_of once_next is_once missed stamp_time load Dict.get Dict.set
reminder_fires = refl

stores_pulse : put world none pulse 0 ≡ (some (("pulse", pulse) ∷ []), ok pulse)
unfolding put put_ready check_job check_sop check_drove validate_dream goal_fault is_positive
    with_due save load Dict.set compute_next next_of refuse_interval span_of base stamp_time zone
    validate_definition attempts_in_range check_kind is_single same_chars lower lower_char
stores_pulse = refl

due_iff_example :
    Listed pulse (pulse ∷ reminder ∷ [])
    ↔ (Stored pulse (load file) × IsReady five_seconds pulse 4000000)
due_iff_example = due_iff five_seconds file 4000000 (pulse ∷ reminder ∷ []) both_due pulse

mark_fired-spaced_example :
    (Dict.get (load (some (("pulse", pulse_fired) ∷ ("reminder", reminder) ∷ []))) "pulse"
      ≡ some pulse_fired)
    × ((later : ℕ) → is_due five_seconds pulse_fired later ≡ ok true → 20000000 + 1000000 ≤ later)
mark_fired-spaced_example =
    mark_fired-spaced world file (some (("pulse", pulse_fired) ∷ ("reminder", reminder) ∷ []))
      "pulse" 20000000 pulse_fired pulse_fires

reminder_there : Dict.get (load file) "reminder" ≡ some reminder
unfolding Dict.get load
reminder_there = refl

pulse_there : Dict.get (load file) "pulse" ≡ some pulse
unfolding Dict.get load
pulse_there = refl

mark_fired-every_example :
    (m : ℕ) × (IsMissed pulse.next_due_at 5000000 20000000 m
      × ((mark_fired world file "pulse" 20000000 ≡ (
        some (Dict.set (load file) "pulse" (refired pulse 5000000 20000000 m)),
        ok (some (refired pulse 5000000 20000000 m)),
      ))
          × ((later : ℕ)
              → is_due five_seconds (refired pulse 5000000 20000000 m) later ≡ ok true
              → 20000000 + 5000000 ≤ later)))
mark_fired-every_example =
    mark_fired-every world 5000000 file "pulse" pulse 20000000 (omega arith) refl pulse_there refl
      refl

tonight : compute_next five_seconds nightly 120000000 ≡ ok (some 600000000)
unfolding compute_next next_of cron_next spec_next zone same_chars lower lower_char parse create
    words split_by is_nil is_space push_first parse_field parse_parts parse_part part_span
    range_span value_span take_step span progression single named to_int minuses non_empty strip
    lstrip_by rstrip_by all_chars all_digits is_digit int_from contains_char starts_with before
    after split_on next_after search_from matches day_matches staggered stagger
tonight = refl

compute_next-cron_example :
    (z : Zone) × (c : CronSpec) × (zone five_seconds nightly ≡ ok z)
    × (parse (codes nightly.spec) ≡ ok c)
    × FiresAt five_seconds nightly z c 120000000 600000000
compute_next-cron_example = compute_next-cron five_seconds nightly 120000000 600000000 refl tonight
