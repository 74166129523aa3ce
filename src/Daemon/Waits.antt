-- ===== src/Daemon/Waits.antt =====
-- bothy/daemon.py: the attempts that a wake has left, and what it is after its turn in a pass.
use bothy.Common.{ℕ, ◌+◌, ◌-◌, ◌≤◌, ◌<◌, true, false, Option, none, some, ◌≡◌, ◌⊎◌, arith}
use bothy.Json.{Json}
use bothy.Schedule.Job.{Stamp, instant, garbled}
use bothy.Daemon.Queue.{Wake}
use bothy.Daemon.Report.{Target, goal_counted, max_attempts_of, is_going}
use bothy.Daemon.Pass.{Limits, Pass, gap, has_too_many_attempts, spent, longest_gap, time_until}
use bothy.Daemon.Rows.{Keeps}

unfoldable pub goal_left : Option ℕ → ℕ → ℕ
goal_left none n = 0
goal_left (some most) n = most - n

unfoldable pub most_of : Option Json → Option ℕ
most_of none = none
most_of (some goal) = max_attempts_of goal

-- the attempts that a wake has left, refused and with a goal that is not met
unfoldable pub left : Limits → Wake → ℕ
left limits v = limits.max_wake_attempts - v.attempts + goal_left (most_of v.goal) v.goal_attempts

pub gap-le : (n : ℕ) → gap n ≤ longest_gap
unfolding gap
gap-le n = ground arith

pub time_until-le : (s : Option Stamp) (t now : ℕ) → t ≤ now → time_until s now ≤ time_until s t
unfolding time_until
time_until-le none t now h = omega arith
time_until-le (some garbled) t now h = omega arith
time_until-le (some (instant at)) t now h = omega (arith, h)

pub until_gap :
    (d now : ℕ) → d ≤ longest_gap → time_until (some (instant (now + d))) now ≤ longest_gap
unfolding time_until
until_gap d now h = omega (arith, h)

pub spent-attempts :
    (limits : Limits) (w : Wake) (age : Option ℕ)
    → spent limits w age ≡ none
    → w.attempts < limits.max_wake_attempts
unfolding spent has_too_many_attempts
spent-attempts limits w (some age) h = cc
spent-attempts limits w none h = ground (arith, h)

module _ (limits : Limits) (w : Wake) (t : ℕ) where
  -- what is left of the wake when it still waits
  pub record Waits (v : Wake) (now : ℕ) : Type 0 where
    pub unprocessed : v.processed ≡ false
    pub same_drove : v.drove ≡ w.drove
    pub same_goal : v.goal ≡ w.goal
    pub soon : time_until v.next_attempt_at now ≤ longest_gap
    pub no_more : left limits v ≤ left limits w
    pub fewer : time_until w.next_attempt_at t ≡ 0 → left limits v < left limits w

  abbrev pub Turned : Pass → Type 0
  Turned p = (v : Wake) × Keeps w.id v t p × ((v.processed ≡ true) ⊎ Waits v p.now)

  -- the pass that is not left by an exception
  abbrev pub Served : Pass → Type 0
  Served p = is_going p.flow ≡ true → Turned p

module _ (w : Wake) where
  -- a goal with attempts left
  abbrev pub Tries : Option Target → Type 0
  Tries none = Unit
  Tries (some target) = (most_of w.goal ≡ some target.most) × (w.goal_attempts < target.most)

  -- the wake while its run is under way
  unfoldable pub current : Option Target → Wake
  current none = w
  current (some target) = goal_counted (w.goal_attempts + 1) w
