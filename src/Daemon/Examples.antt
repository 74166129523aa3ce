-- ===== src/Daemon/Examples.antt =====
-- Runs of the queue on small inputs.
use bothy.Common.{◌/◌, ◌%◌, ◌+◌, String, true, false, none, some, List, [], ◌∷◌, refl, pos, arith}
use bothy.Json.{no_members}
use bothy.Text.{codes}
use bothy.Cron.Spec.{Zone}
use bothy.Schedule.Job.{Clockwork, instant, micros}
use bothy.Schedule.Store.{Env}
use bothy.Goal.Check
use bothy.Goal.Check.{exited}
use bothy.Daemon.Queue.{Wake, has_id, mark, pending, subject_of}
use bothy.Daemon.Prompt.{Words}
use bothy.Daemon.Pass.{Limits}
use bothy.Daemon.Drain.{Outside, drain}
use bothy.Daemon.Liveness.{Round, passes, IsSettled, passes-IsSettled}
use bothy.Daemon.Runs.{Runs, runs_of}
use bothy.Daemon.Order.{drain-Runs}
use bothy.Daemon.Drain.{
  drain, loop, turn, visit, live, held, ready, take_up, begin, start, settle, after_run,
}
use bothy.Daemon.Report.{
  is_drove, is_action, is_going, known_full, put_off, noted, give_back, is_refused_for_capacity,
  is_capacity,
}
use bothy.Daemon.Prompt.{order_for, dream_job_for, is_scheduled}
use bothy.Daemon.Pass.{
  defer, deferred, marked, abandon, called, counted, given_up, spent, too_old, age_over,
  has_too_many_attempts, retry_delay, time_until, first_of, gap,
}
use bothy.Daemon.Liveness.{pass, AreSmooth}
use bothy.Daemon.Waits.{left, goal_left, most_of}
use bothy.Daemon.Queue.{has_id, pending, mark, subject_of}
use bothy.Schedule.Reply.{has_prefix}
use bothy.Text.{same_chars}

abbrev plain_days : Zone
plain_days = record {
  local = λ m. m;
  utc = λ m. m;
  civil = λ m. record {
    minute = m % 60;
    hour = m / 60 % 24;
    day = m / 1440 % 30 + 1;
    month = 1;
    weekday = m / 1440 % 7;
  };
}

abbrev clockwork : Clockwork
clockwork = record {
  parse_instant = λ s. none;
  to_seconds = λ s. micros 5000000;
  zone_info = λ name. none;
  utc_zone = plain_days;
  digest = λ id. 307;
}

abbrev no_jobs : Env
no_jobs = record {
  clockwork = clockwork;
  writable = true;
  writes_memory = λ name. false;
  sop_file = none;
  dotted = λ path. [];
  compiles = λ pattern. true;
}

abbrev test_passes : Check.Outside
test_passes = record {
  compiles = λ pattern. true;
  search = λ pattern output. false;
  str_int = λ n. b'0' ∷ [];
  message = λ why. codes "refused";
  run = λ args deadline. exited (pos 0) (codes "4 passed");
}

abbrev plain : Words
plain = record {
  token = λ text. codes "0123456789abcdef";
  str_nat = λ n. codes "9";
  format = λ route payload. payload;
  dumps = λ payload. codes "{}";
}

-- a runner that finds every lane busy
abbrev busy : Outside
busy = record {
  lease_busy = false;
  stopping = λ p. false;
  run = λ p order. record {
    report = some (record {
      status = "refused";
      gate = some "lane_busy";
      reason = codes "refused";
      run_id = none;
      messages = [];
    });
    took = 7;
    arrived = [];
  };
  env = no_jobs;
  jobs = λ p. none;
  goal = test_passes;
  words = plain;
  has_slack = false;
  has_discord = false;
}

abbrev hook : String → Wake
hook id = record {
  id = id;
  route = some "/ci";
  subject = some "issue-77";
  prompt = some "look";
  payload = no_members;
  profile = none;
  drove = none;
  goal = none;
  wall_clock = none;
  max_tokens = none;
  received_at = some (instant 1000);
  processed = false;
  processed_at = none;
  attempts = 0;
  last_gate = none;
  last_deferred_at = none;
  next_attempt_at = none;
  waiting_since = none;
  goal_attempts = 0;
  goal_feedback = none;
  outcome = none;
  abandoned_reason = none;
  run_id = none;
  spoke = false;
  drove_run = none;
  drove_code = none;
}

abbrev one_attempt : Limits
one_attempt = record { max_wake_attempts = 1; max_wake_age = 21600000000 }

abbrev minute_later : Round
minute_later = record { rest = 64000000; arrived = []; out = busy }

abbrev three_rounds : List Round
three_rounds = minute_later ∷ minute_later ∷ minute_later ∷ []

abbrev two_hooks : List Wake
two_hooks = hook "a" ∷ hook "b" ∷ []

drain-Runs_example :
    Runs one_attempt plain 2000 [] false
      (pending two_hooks)
      (runs_of (drain busy one_attempt two_hooks 2000))
drain-Runs_example = drain-Runs busy one_attempt two_hooks 2000

three_rounds-AreSmooth : AreSmooth one_attempt "a" three_rounds two_hooks 2000
unfolding has_id is_drove is_action left goal_left most_of pass is_going drain pending loop turn
    visit live held ready known_full take_up begin start settle put_off defer deferred noted
    give_back is_refused_for_capacity is_capacity after_run marked mark abandon called counted
    given_up spent too_old age_over has_too_many_attempts retry_delay time_until first_of gap
    order_for dream_job_for is_scheduled has_prefix subject_of same_chars
three_rounds-AreSmooth = (
  (omega arith, refl, (λ p o. refl), refl, refl),
  (
    (omega arith, refl, (λ p o. refl), refl, refl),
    ((omega arith, refl, (λ p o. refl), refl, refl), tt),
  ),
)

-- refused once, which is as often as the limit lets it, and then given up
passes-IsSettled_example : IsSettled "a" (passes one_attempt three_rounds two_hooks 2000)
unfolding has_id is_drove is_action left goal_left most_of
passes-IsSettled_example =
    passes-IsSettled one_attempt "a" three_rounds two_hooks 2000 (hook "a") refl refl refl refl
      (omega arith) three_rounds-AreSmooth
