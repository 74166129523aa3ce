-- ===== src/Schedule/Hours.antt =====
-- bothy/schedule.py, within_active_hours: the window on the clock's face.
use bothy.Common.{ℕ, ◌+◌, ◌-◌, ◌%◌, ◌<◌, ◌≡◌, ltb, arith}
use bothy.Schedule.Job.{in_hours}

-- hours from one hour of the day to another
abbrev pub hours_from : ℕ → ℕ → ℕ
hours_from start hour = (hour + 24 - start) % 24

-- An hour of the day is in the window exactly if it comes sooner behind the start than the end does,
-- be the window within a day or around midnight; a window from an hour to itself is empty.
pub in_hours-cyclic :
    (start end hour : ℕ)
    → start < 24
    → end < 24
    → hour < 24
    → in_hours start end hour ≡ ltb (hours_from start hour) (hours_from start end)
unfolding in_hours
in_hours-cyclic start end hour s e h = ground arith
