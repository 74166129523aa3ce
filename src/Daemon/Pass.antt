-- ===== src/Daemon/Pass.antt =====
-- bothy/daemon.py, _defer, _retry_delay, _abandon, _too_many_attempts and _too_old. A pass over the
-- queue is the queue and the clock as they are, what was called so far, the newest first, and the
-- variables of the loop. The audit log and the alerter are calls that return.
use bothy.Common.{
  ℕ, ◌+◌, ◌-◌, ◌*◌, ◌^◌, min, String, Bool, true, Option, none, some, List, ◌∷◌, ltb, leb, value_or,
  if◌then◌else◌,
}
use bothy.Text.{Chars}
use bothy.Schedule.Job.{Stamp, instant, garbled}
use bothy.Daemon.Queue.{Wake, GivenUp, refused_times, waited, mark}
use bothy.Daemon.Prompt.{Order, Report}

pub record Limits : Type 0 where
  pub max_wake_attempts : ℕ
  pub max_wake_age : ℕ

pub data Call : Type 0 where
  ran : Order → Option Report → Call
  audit_abandoned : String → GivenUp → ℕ → Call
  alert_waiting : String → GivenUp → Call
  audit_unverified : String → ℕ → Chars → Call
  audit_checked : String → ℕ → String → Option String → Call
  alert_goal : String → Chars → Call
  slack_reply discord_reply : String → Chars → Call
  tell_heartbeat : String → Chars → Call
  alert_drove : String → String → Call

-- whether the loop goes on, was told to stop, or left by an exception
pub data Flow : Type 0 where
  going stopped raised : Flow

pub record Pass : Type 0 where
  pub queue : List Wake
  pub now : ℕ
  pub calls : List Call
  pub busy_lanes : List String
  pub pool_exhausted : Bool
  pub handled : ℕ
  pub flow : Flow

abbrev pub second : ℕ
second = 1000000

abbrev pub longest_gap : ℕ
longest_gap = 64 * second

-- self.store.mark
unfoldable pub marked : String → (Wake → Wake) → Pass → Pass
marked i fields p = record p { queue = mark i fields p.queue }

unfoldable pub called : Call → Pass → Pass
called c p = record p { calls = c ∷ p.calls }

unfoldable pub counted : Pass → Pass
counted p = record p { handled = p.handled + 1 }

unfoldable pub failed : Pass → Pass
failed p = record p { flow = raised }

-- min(64, 4 * 2 ** min(n, 4)) seconds
unfoldable pub gap : ℕ → ℕ
gap n = min 64 (4 * 2 ^ min n 4) * second

-- `event.get(first) or second`
unfoldable pub first_of : Option Stamp → Option Stamp → Option Stamp
first_of none other = other
first_of (some t) other = some t

-- the fields that `_defer` writes; `w` is the wake as the pass read it
unfoldable pub deferred : Wake → String → ℕ → Wake → Wake
deferred w gate now v = record v {
  attempts = w.attempts + 1;
  last_gate = some gate;
  last_deferred_at = some (instant now);
  next_attempt_at = some (instant (now + gap (w.attempts + 1 - 1)));
  waiting_since = first_of w.waiting_since (first_of w.received_at (some (instant now)));
}

unfoldable pub defer : Wake → String → Pass → Pass
defer w gate p = marked w.id (deferred w gate p.now) p

-- how long until the time that is stored
unfoldable pub time_until : Option Stamp → ℕ → ℕ
time_until none now = 0
time_until (some garbled) now = 0
time_until (some (instant t)) now = t - now

unfoldable pub retry_at : ℕ → Wake → Wake
retry_at t v = record v { next_attempt_at = some (instant t) }

unfoldable pub retry_delay : Wake → Pass → Pass × ℕ
retry_delay w p =
    let delay = time_until w.next_attempt_at p.now in
    if ltb longest_gap delay
    then (marked w.id (retry_at (p.now + longest_gap)) p, longest_gap)
    else (p, delay)

unfoldable pub given_up : GivenUp → ℕ → Wake → Wake
given_up why now v = record v {
  processed = true;
  processed_at = some (instant now);
  outcome = some "abandoned";
  abandoned_reason = some why;
}

unfoldable pub abandon : Wake → GivenUp → Pass → Pass
abandon w why p =
    called (alert_waiting (value_or w.route "?") why)
      (called (audit_abandoned w.id why w.attempts) (marked w.id (given_up why p.now) p))

unfoldable pub has_too_many_attempts : Limits → Wake → Bool
has_too_many_attempts limits w = leb limits.max_wake_attempts w.attempts

-- the age that is over the limit, if it is
unfoldable pub age_over : Limits → Option Stamp → ℕ → Option ℕ
age_over limits none now = none
age_over limits (some garbled) now = none
age_over limits (some (instant t)) now =
    if ltb now (t + limits.max_wake_age) then none else some (now - t)

unfoldable pub too_old : Limits → Wake → ℕ → Option ℕ
too_old limits w now = age_over limits (first_of w.waiting_since w.received_at) now

-- `_too_old(event) or _too_many_attempts(event)`: why the wake is given up, if it is
unfoldable pub spent : Limits → Wake → Option ℕ → Option GivenUp
spent limits w (some age) = some (waited age)
spent limits w none =
    if has_too_many_attempts limits w
    then some (refused_times w.attempts (value_or w.last_gate "capacity"))
    else none
