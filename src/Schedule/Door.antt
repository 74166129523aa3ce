-- ===== src/Schedule/Door.antt =====
-- bothy/schedule.py, put and get: what is taken into the job file.
use bothy.Common.{
  ℕ, true, Option, none, some, Result, ok, err, bind_ok, ok_injective, is_some, ◌≡◌, refl, sym, ap,
  ◌∙◌, Bool-cases, inl, inr, ◌⊎◌,
}
use bothy.Dict
use bothy.Dict.{Dict, get-set}
use bothy.Schedule.Job.{Job, Stamp, Fault, compute_next}
use bothy.Schedule.Store.{File, Env, load, save, due}
use bothy.Schedule.Store.{check_job, with_due, put_ready, put, get, checked, stamp, validate_dream}
use bothy.Schedule.Firing.{save-inv, get-written}

put_ready-keeps :
    (env : Env) (f g : File) (r : Result Fault Job) (e : Fault)
    → put_ready env f r ≡ (g, err e)
    → g ≡ f
unfolding put_ready save
put_ready-keeps env f g (err why) e h = sym (ap (λ p. p.0) h)
put_ready-keeps env f g (ok j) e h = elim (Bool-cases (env.writable)) [
  | inl kept ↦ let e' = ap (λ p. p.1) (rw kept at h) in cc
  | inr lost ↦ sym (ap (λ p. p.0) (rw lost at h))
]

-- A job that is refused, for its definition or because the file cannot be written, leaves the file as
-- it was.
pub put-err-keeps :
    (env : Env) (f g : File) (j : Job) (now : ℕ) (e : Fault) → put env f j now ≡ (g, err e) → g ≡ f
unfolding put
put-err-keeps env f g j now e h = put_ready-keeps env f g _ e h

-- the job that put stores: as it was given, or with a first time
abbrev pub IsScheduled : Env → Job → ℕ → Job → Type 0
IsScheduled env j now stored =
    ((stored ≡ j) × (is_some j.next_due_at ≡ true))
    ⊎ ((due : Option ℕ) × (compute_next env.clockwork j now ≡ ok due)
        × (stored ≡ record j { next_due_at = stamp due }))

with_due-IsScheduled :
    (env : Env) (j : Job) (now : ℕ) (given : Option Stamp) (stored : Job)
    → j.next_due_at ≡ given
    → with_due env j now given ≡ ok stored
    → IsScheduled env j now stored
unfolding with_due
with_due-IsScheduled env j now (some s) stored same h =
    inl (sym (ok_injective _ _ h), ap is_some same)
with_due-IsScheduled env j now none stored same h =
    let (due, found, rest) = bind_ok (compute_next env.clockwork j now) _ stored h in
    inr (due, found, sym (ok_injective _ _ rest))

put_ready-inv :
    (env : Env) (f g : File) (r : Result Fault Job) (stored : Job)
    → put_ready env f r ≡ (g, ok stored)
    → (r ≡ ok stored) × (g ≡ some (Dict.set (load f) stored.id stored))
unfolding put_ready
put_ready-inv env f g (err e) stored h = let e' = ap (λ p. p.1) h in cc
put_ready-inv env f g (ok j) stored h =
    let (file, same) = save-inv env f g (Dict.set (load f) j.id j) j stored h in
    (ap ok same, file ∙ ap (λ i. some (Dict.set (load f) i.id i)) same)

-- nothing of a stored job but its time is another's
IsScheduled-dream :
    (env : Env) (j stored : Job) (now : ℕ)
    → IsScheduled env j now stored
    → validate_dream env stored ≡ validate_dream env j
unfolding validate_dream
IsScheduled-dream env j stored now (inl (same, given)) = ap (validate_dream env) same
IsScheduled-dream env j stored now (inr (due, found, same)) = ap (validate_dream env) same

checked_awake :
    (env : Env) (row : Option Job) (j : Job)
    → row ≡ some j
    → validate_dream env j ≡ ok tt
    → checked env row ≡ ok (some j)
unfolding checked
checked_awake env row j same h = rw (same, h) refl

-- A job that put takes is one that passes every check; it is stored as given, or with the time that
-- compute_next gave it, and get finds it under its id.
pub get-put :
    (env : Env) (f g : File) (j stored : Job) (now : ℕ)
    → put env f j now ≡ (g, ok stored)
    → (check_job env j now ≡ ok tt)
      × IsScheduled env j now stored
      × (get env g stored.id ≡ ok (some stored))
unfolding put get check_job
get-put env f g j stored now h =
    let (made, file) = put_ready-inv env f g _ stored h in
    let (u, passed, later) = bind_ok (check_job env j now) _ stored made in
    let scheduled = with_due-IsScheduled env j now j.next_due_at stored refl later in
    let (v, awake, rest) = bind_ok (validate_dream env j) _ tt passed in
    let found = get-written f g stored.id stored file in
    (
      passed,
      scheduled,
      checked_awake env (Dict.get (load g) stored.id) stored found
          (IsScheduled-dream env j stored now scheduled ∙ awake),
    )
