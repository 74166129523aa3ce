-- ===== src/Schedule/Calendar.antt =====
-- bothy/schedule.py, compute_next: the time of a job with a cron expression.
use bothy.Common.{
  ℕ, ◌+◌, ◌*◌, ◌/◌, ◌<◌, suc, false, Option, none, some, ◌==◌, Result, ok, err, bind_ok,
  ok_injective, ◌≡◌, refl, subst, Bool-cases, inl, inr, arith,
}
use bothy.Text.{codes}
use bothy.Cron.Field.{CronError}
use bothy.Cron.Spec.{Zone, CronSpec, parse, matches}
use bothy.Cron.Search.{IsFirst, Finds, next_after-Finds}
use bothy.Schedule.Job.{
  Job, cron, Clockwork, zone, stagger, staggered, spec_next, cron_next, next_of, compute_next,
  minute, max_stagger_seconds,
}

-- the offset of a job is under five minutes
stagger-bound : (env : Clockwork) (j : Job) → stagger env j < max_stagger_seconds * 1000000
unfolding stagger
stagger-bound env j = omega arith

-- a firing at a matching minute of the zone's wall clock, with the offset of one on the hour
abbrev pub FiresAt : Clockwork → Job → Zone → CronSpec → ℕ → ℕ → Type 0
FiresAt env j z c moment t =
    (local offset : ℕ) × IsFirst (λ m. matches c (z.civil m)) (suc (z.local (moment / minute)))
      (suc (z.local (moment / minute)) + 400 * 1440) local
    × (t ≡ z.utc local * minute + offset)
    × (offset < max_stagger_seconds * 1000000)
    × (((z.civil local).minute == 0) ≡ false → offset ≡ 0)

staggered-FiresAt :
    (env : Clockwork) (j : Job) (z : Zone) (c : CronSpec) (moment t : ℕ) (found : Option ℕ)
    → Finds
        (λ m. matches c (z.civil m))
        (suc (z.local (moment / minute)))
        (suc (z.local (moment / minute)) + 400 * 1440)
        found
    → staggered env j z found ≡ some t
    → FiresAt env j z c moment t
unfolding staggered
staggered-FiresAt env j z c moment t none f h = cc
staggered-FiresAt env j z c moment t (some local) f h =
    elim (Bool-cases ((z.civil local).minute == 0)) [
      | inl sharp ↦
          let e = rw sharp at h in
          (local, stagger env j, f, cc, stagger-bound env j, λ other. absurd (cc))
      | inr between ↦ let e = rw between at h in (local, 0, f, cc, omega arith, λ other. refl)
    ]

spec_next-FiresAt :
    (env : Clockwork) (j : Job) (z : Zone) (moment t : ℕ) (r : Result CronError CronSpec)
    → spec_next env j z moment r ≡ ok (some t)
    → (c : CronSpec) × (r ≡ ok c) × FiresAt env j z c moment t
unfolding spec_next
spec_next-FiresAt env j z moment t (err e) h = cc
spec_next-FiresAt env j z moment t (ok c) h = (
  c,
  refl,
  staggered-FiresAt env j z c moment t _ (next_after-Finds z c 400 (moment / minute))
      (ok_injective _ _ h),
)

cron_next-of :
    (env : Clockwork) (j : Job) (moment t : ℕ)
    → j.kind ≡ cron
    → compute_next env j moment ≡ ok (some t)
    → cron_next env j moment ≡ ok (some t)
unfolding compute_next next_of
cron_next-of env j moment t k h = subst (λ m. next_of env m j moment ≡ ok (some t)) k h

-- A job with a cron expression is next due at the first minute behind the moment, on the wall clock
-- of its zone, that the expression matches, within 400 days; only a firing on the hour is put off,
-- and by less than five minutes.
pub compute_next-cron :
    (env : Clockwork) (j : Job) (moment t : ℕ)
    → j.kind ≡ cron
    → compute_next env j moment ≡ ok (some t)
    → (z : Zone) × (c : CronSpec) × (zone env j ≡ ok z)
      × (parse (codes j.spec) ≡ ok c)
      × FiresAt env j z c moment t
unfolding compute_next cron_next
compute_next-cron env j moment t k h =
    let (z, here, rest) = bind_ok (zone env j) _ (some t) (cron_next-of env j moment t k h) in
    let (c, parsed, fires) = spec_next-FiresAt env j z moment t (parse (codes j.spec)) rest in
    (z, c, here, parsed, fires)
