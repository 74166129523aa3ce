-- ===== src/Schedule/Interval.antt =====
-- bothy/schedule.py: a job on an interval, and the firings that it missed.
use bothy.Common.{
  ℕ, ◌+◌, ◌*◌, ◌/◌, ◌-◌, ◌≤◌, ◌<◌, Option, none, ◌⊎◌, inl, inr, ltb, if_elim, String, true, some,
  ok, ◌≡◌, refl, arith, leb→le,
}
use bothy.Dict
use bothy.Dict.{Dict}
use bothy.Schedule.Job.{
  Job, every, Stamp, instant, garbled, Clockwork, compute_next, period_seconds, stamp_time, next_of,
}
use bothy.Schedule.Store.{
  File, Env, load, save, has_come, is_due, missed, advance, stamped, fired, keep_fired, fire,
  mark_fired,
}
use bothy.Schedule.Firing.{is_due-IsReady}
use bothy.Schedule.Job.{micros, refuse_interval, span_of, base, period_of, next_of}

-- How many firings were missed: none where the job had no time, or `now` is at most an interval behind
-- it; and else the whole intervals between them.
abbrev pub IsMissed : Option Stamp → ℕ → ℕ → ℕ → Type 0
IsMissed (some (instant t)) period now m =
    ((now ≤ t + period) × (m ≡ 0))
    ⊎ ((t + period < now) × ((t + m * period ≤ now) × (now < t + (m + 1) * period)))
IsMissed (some garbled) period now m = m ≡ 0
IsMissed none period now m = m ≡ 0

whole_le : (n r : ℕ) → 0 < r → n / r * r ≤ n
whole_le n r h = grind arith

lt-whole_suc : (n r : ℕ) → 0 < r → n < (n / r + 1) * r
lt-whole_suc n r h = grind arith

missed-IsMissed :
    (due : Option Stamp) (period now : ℕ)
    → 1 ≤ period
    → IsMissed due period now (missed due (some period) now)
unfolding missed
missed-IsMissed none period now positive = refl
missed-IsMissed (some garbled) period now positive = refl
missed-IsMissed (some (instant t)) period now positive =
    if_elim (IsMissed (some (instant t)) period now) (ltb period (now - t)) ((now - t) / period) 0
      (λ late.
        let below = whole_le (now - t) period (omega arith) in
        let above = lt-whole_suc (now - t) period (omega arith) in
        let far : t + period < now = ground arith in inr (far, (omega arith, omega arith)))
      (λ early. inl (ground arith, refl))

-- an interval's job behind a firing at `now`, with the firings that it missed
abbrev pub refired : Job → ℕ → ℕ → ℕ → Job
refired j period now m = record j {
  last_fired_at = some (instant now);
  misfires = j.misfires + m;
  next_due_at = some (instant (now + period));
}

module _ (env : Clockwork) (period : ℕ) (positive : 1 ≤ period) where
  period_seconds-every :
      (j : Job)
      → j.kind ≡ every
      → env.to_seconds j.spec ≡ micros period
      → period_seconds env j ≡ ok (some period)
  unfolding period_seconds period_of
  period_seconds-every j k e = rw (k, e) ground arith

  next_of-every :
      (j : Job) (now moment : ℕ)
      → j.last_fired_at ≡ some (instant now)
      → env.to_seconds j.spec ≡ micros period
      → next_of env every j moment ≡ ok (some (now + period))
  unfolding next_of refuse_interval span_of base stamp_time
  next_of-every j now moment last e = rw (e, last) ground arith

  fired-every :
      (j : Job) (now : ℕ)
      → j.kind ≡ every
      → env.to_seconds j.spec ≡ micros period
      → fired env j now ≡ ok (refired j period now (missed j.next_due_at (some period) now))
  unfolding fired stamped compute_next advance next_of missed refuse_interval base
  fired-every j now k e =
      let next = next_of-every (stamped j (some period) now) now now refl e in
      rw (period_seconds-every j k e, k, next) refl

-- A firing of a job on an interval, recorded where the file can be written, sets its next time one
-- interval on, and the job is not due before that, however many firings were missed. To its count of
-- misfires it adds none where the job had no time or the firing came at most an interval behind it, and
-- else the whole intervals since that time. Nothing else of the job changes but its last firing.
pub mark_fired-every :
    (env : Env) (period : ℕ) (f : File) (id : String) (j : Job) (now : ℕ)
    → 1 ≤ period
    → env.writable ≡ true
    → Dict.get (load f) id ≡ some j
    → j.kind ≡ every
    → env.clockwork.to_seconds j.spec ≡ micros period
    → (m : ℕ) × (IsMissed j.next_due_at period now m
        × ((mark_fired env f id now ≡ (
          some (Dict.set (load f) id (refired j period now m)),
          ok (some (refired j period now m)),
        ))
            × ((later : ℕ)
                → is_due env.clockwork (refired j period now m) later ≡ ok true
                → now + period ≤ later)))
unfolding mark_fired fire keep_fired save has_come
mark_fired-every env period f id j now positive can_write there k e =
    let m = missed j.next_due_at (some period) now in
    (
      m,
      (
        missed-IsMissed j.next_due_at period now positive,
        (
          rw (there, fired-every env.clockwork period positive j now k e, can_write) refl,
          λ later h.
              leb→le (now + period) later
                (is_due-IsReady env.clockwork (refired j period now m) later h).1,
        ),
      ),
    )
