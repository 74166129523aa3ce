-- ===== src/Schedule/Firing.antt =====
-- bothy/schedule.py: what a firing leaves of a job, and which jobs are due.
use bothy.Common.{
  and_true, ℕ, ◌+◌, ◌≤◌, String, Bool, true, false, Option, none, some, ◌&&◌, Result, ok, err,
  bind_ok, ok_injective, if◌then◌else◌, ◌≡◌, refl, sym, ap, ◌∙◌, subst, Bool-cases, inl, inr, arith,
  leb→le, str_eq_refl,
}
use bothy.Dict
use bothy.Dict.{Dict, get-set}
use bothy.Schedule.Job.{
  Job, Stamp, instant, Fault, is_schedule_error, Clockwork, period_seconds, within_active_hours,
  spaced_enough, spaced_from, stamp_time,
}
use bothy.Schedule.Store.{
  File, Env, load, save, has_come, both, is_due, advance, stamped, fired, keep_fired, fire,
  mark_fired,
}

-- what a firing leaves: a job that fired at `now`, with the fields that no firing changes
abbrev pub HasFired : Job → Job → ℕ → Type 0
HasFired before after now =
    (after.last_fired_at ≡ some (instant now))
    × (after.min_spacing ≡ before.min_spacing)
    × (after.kind ≡ before.kind)
    × (after.id ≡ before.id)

advance-HasFired :
    (j : Job) (next : Result Fault (Option ℕ)) (after : Job) (before : Job) (now : ℕ)
    → HasFired before j now
    → advance j next ≡ ok after
    → HasFired before after now
unfolding advance
advance-HasFired j (ok none) after before now h e =
    subst (λ k. HasFired before k now) (ok_injective _ _ e) h
advance-HasFired j (ok (some t)) after before now h e =
    subst (λ k. HasFired before k now) (ok_injective _ _ e) h
advance-HasFired j (err why) after before now h e = elim (Bool-cases (is_schedule_error why)) [
  | inl caught ↦ subst (λ k. HasFired before k now) (ok_injective _ _ (rw caught at e)) h
  | inr raised ↦ let g = rw raised at e in cc
]

fired-HasFired :
    (env : Clockwork) (j after : Job) (now : ℕ) → fired env j now ≡ ok after → HasFired j after now
unfolding fired stamped
fired-HasFired env j after now e =
    let (period, known, e') = bind_ok (period_seconds env j) _ after e in
    advance-HasFired (stamped j period now) _ after j now (refl, refl, refl, refl) e'

both-true : (a b : Result Fault Bool) → both a b ≡ ok true → (a ≡ ok true) × (b ≡ ok true)
unfolding both
both-true (ok true) b h = (refl, h)
both-true (ok false) b h = cc
both-true (err e) b h = cc

-- every guard of a firing has let the job through
abbrev pub IsReady : Clockwork → Job → ℕ → Type 0
IsReady env j now =
    (j.enabled ≡ true)
    × (has_come j.next_due_at now ≡ true)
    × (within_active_hours env j now ≡ ok true)
    × (spaced_enough env j now ≡ ok true)

pub is_due-IsReady :
    (env : Clockwork) (j : Job) (now : ℕ) → is_due env j now ≡ ok true → IsReady env j now
unfolding is_due
is_due-IsReady env j now h = elim (Bool-cases (j.enabled && has_come j.next_due_at now)) [
  | inl come ↦
      let (on, time) = and_true _ _ come in
      let (hours, spaced) = both-true _ _ (rw come at h) in (on, time, hours, spaced)
  | inr early ↦ let g = rw early at h in cc
]

all_pass :
    (a b : Bool) (first second : Result Fault Bool)
    → a ≡ true
    → b ≡ true
    → first ≡ ok true
    → second ≡ ok true
    → (if a && b then both first second else ok false) ≡ ok true
unfolding both
all_pass a b first second ea eb ef es = rw (ea, eb, ef) es

pub is_due_complete :
    (env : Clockwork) (j : Job) (now : ℕ) → IsReady env j now → is_due env j now ≡ ok true
unfolding is_due
is_due_complete env j now (on, time, hours, spaced) = all_pass _ _ _ _ on time hours spaced

module _ (env : Clockwork) where
  spaced_from-le :
      (spacing fired_at now : ℕ) (last : Option Stamp)
      → last ≡ some (instant fired_at)
      → spaced_from env spacing last now ≡ ok true
      → fired_at + spacing ≤ now
  unfolding spaced_from stamp_time
  spaced_from-le spacing fired_at now last same h =
      leb→le _ _ (ok_injective _ _ (subst (λ s. spaced_from env spacing s now ≡ ok true) same h))

  -- the guard of a job that has fired
  fired-spaced :
      (before after : Job) (now later : ℕ)
      → HasFired before after now
      → is_due env after later ≡ ok true
      → now + before.min_spacing ≤ later
  unfolding spaced_enough
  fired-spaced before after now later (last, spacing, kind, id) h =
      let (on, time, hours, spaced) = is_due-IsReady env after later h in
      let far : now + after.min_spacing ≤ later =
        spaced_from-le after.min_spacing now later after.last_fired_at last spaced in
      omega (arith, far, spacing)

-- what a write that came through has left
pub save-inv {ℓ} :
    {A : Type ℓ} (env : Env) (f g : File) (d : Dict Job) (a b : A)
    → save env f d a ≡ (g, ok b)
    → (g ≡ some d) × (a ≡ b)
unfolding save
save-inv env f g d a b h = elim (Bool-cases (env.writable)) [
  | inl kept ↦ let e = rw kept at h in (sym (ap (λ p. p.0) e), ok_injective _ _ (ap (λ p. p.1) e))
  | inr lost ↦ let e = ap (λ p. p.1) (rw lost at h) in cc
]

keep_fired-inv :
    (env : Env) (f g : File) (id : String) (r : Result Fault Job) (j : Job)
    → keep_fired env f id r ≡ (g, ok (some j))
    → (r ≡ ok j) × (g ≡ some (Dict.set (load f) id j))
unfolding keep_fired
keep_fired-inv env f g id (err e) j h = let g' = ap (λ p. p.1) h in cc
keep_fired-inv env f g id (ok k) j h =
    let (file, same) = save-inv env f g (Dict.set (load f) id k) (some k) (some j) h in
    let e : k ≡ j = cc in (ap ok e, file ∙ ap (λ i. some (Dict.set (load f) id i)) e)

fire-inv :
    (env : Env) (f g : File) (id : String) (now : ℕ) (row : Option Job) (j : Job)
    → fire env f id now row ≡ (g, ok (some j))
    → (before : Job) × (row ≡ some before)
      × (fired env.clockwork before now ≡ ok j)
      × (g ≡ some (Dict.set (load f) id j))
unfolding fire
fire-inv env f g id now none j h = let e = ap (λ p. p.1) h in cc
fire-inv env f g id now (some before) j h =
    let (same, file) = keep_fired-inv env f g id (fired env.clockwork before now) j h in
    (before, refl, same, file)

-- a firing that was recorded: of a job of the file, which the file then holds as it was handed back
pub mark_fired-inv :
    (env : Env) (f g : File) (id : String) (now : ℕ) (j : Job)
    → mark_fired env f id now ≡ (g, ok (some j))
    → (before : Job) × (Dict.get (load f) id ≡ some before)
      × (fired env.clockwork before now ≡ ok j)
      × (g ≡ some (Dict.set (load f) id j))
unfolding mark_fired
mark_fired-inv env f g id now j h = fire-inv env f g id now (Dict.get (load f) id) j h

pub get-written :
    (f g : File) (id : String) (j : Job)
    → g ≡ some (Dict.set (load f) id j)
    → Dict.get (load g) id ≡ some j
unfolding load
get-written f g id j same =
    subst (λ h. Dict.get (load h) id ≡ some j) (sym same)
      (get-set (load f) id id j ∙ rw (str_eq_refl id) refl)

-- Once a firing is recorded the file holds the job as it was handed back, and no guard lets it
-- through again before its least spacing has passed, whatever its schedule says.
pub mark_fired-spaced :
    (env : Env) (f g : File) (id : String) (now : ℕ) (j : Job)
    → mark_fired env f id now ≡ (g, ok (some j))
    → (Dict.get (load g) id ≡ some j)
      × ((later : ℕ) → is_due env.clockwork j later ≡ ok true → now + j.min_spacing ≤ later)
mark_fired-spaced env f g id now j h =
    let (before, there, done, file) = mark_fired-inv env f g id now j h in
    let left = fired-HasFired env.clockwork before j now done in
    (
      get-written f g id j file,
      λ later due_then.
          omega (arith, left.1, fired-spaced env.clockwork before j now later left due_then),
    )
