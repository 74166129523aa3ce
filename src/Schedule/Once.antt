-- ===== src/Schedule/Once.antt =====
-- bothy/schedule.py: a job that is to fire once.
use bothy.Common.{
  ℕ, String, true, false, Option, none, some, ◌&&◌, not, Result, ok, err, bind_ok, ok_injective,
  is_some, ◌≡◌, refl, sym, ap, ◌∙◌, subst, Bool-cases, inl, inr, ◌⊎◌,
}
use bothy.Dict
use bothy.Dict.{Dict}
use bothy.Schedule.Job.{
  Job, once, Fault, is_schedule_error, Clockwork, compute_next, period_seconds, value_error,
  once_next, next_of,
}
use bothy.Schedule.Store.{
  File, Env, load, is_due, due, is_once, advance, stamped, fired, mark_fired,
}
use bothy.Schedule.Firing.{mark_fired-inv}

advance-once :
    (j : Job) (next : Result Fault (Option ℕ)) (after : Job)
    → j.kind ≡ once
    → (next ≡ ok none) ⊎ ((e : Fault) × (next ≡ err e))
    → advance j next ≡ ok after
    → (after.enabled ≡ false) × (after.next_due_at ≡ none)
unfolding advance is_once
advance-once j (ok none) after k s e =
    let same = ok_injective _ _ e in
    (
      sym (ap (λ i. i.enabled) same) ∙ ap (λ m. not (is_once m) && j.enabled) k,
      sym (ap (λ i. i.next_due_at) same),
    )
advance-once j (ok (some t)) after k s e = elim s [
  | inl n ↦ absurd (cc)
  | inr (why, n) ↦ absurd (cc)
]
advance-once j (err why) after k s e = elim (Bool-cases (is_schedule_error why)) [
  | inl caught ↦
      let same = ok_injective _ _ (rw caught at e) in
      (sym (ap (λ i. i.enabled) same), sym (ap (λ i. i.next_due_at) same))
  | inr raised ↦ let g = rw raised at e in cc
]

-- a job that runs once has no time behind its firing
once_next-fired :
    (env : Clockwork) (j : Job) (t : Option ℕ)
    → is_some (j.last_fired_at) ≡ true
    → (once_next env j t ≡ ok none) ⊎ ((e : Fault) × (once_next env j t ≡ err e))
unfolding once_next
once_next-fired env j none h = inr (value_error, refl)
once_next-fired env j (some due) h = inl (rw h refl)

compute_next-once :
    (env : Clockwork) (j : Job) (now : ℕ)
    → j.kind ≡ once
    → is_some (j.last_fired_at) ≡ true
    → (compute_next env j now ≡ ok none) ⊎ ((e : Fault) × (compute_next env j now ≡ err e))
unfolding compute_next next_of
compute_next-once env j now k h =
    subst (λ m. (next_of env m j now ≡ ok none) ⊎ ((e : Fault) × (next_of env m j now ≡ err e)))
      (sym k) (once_next-fired env j (env.parse_instant j.spec) h)

fired-once :
    (env : Clockwork) (j after : Job) (now : ℕ)
    → j.kind ≡ once
    → fired env j now ≡ ok after
    → (after.enabled ≡ false) × (after.next_due_at ≡ none)
unfolding fired stamped
fired-once env j after now k e =
    let (period, known, e') = bind_ok (period_seconds env j) _ after e in
    advance-once (stamped j period now) (compute_next env (stamped j period now) now) after k
      (compute_next-once env (stamped j period now) now k refl) e'

-- A job that is to fire once is off behind its firing, and no moment makes it due again.
pub mark_fired-once :
    (env : Env) (f g : File) (id : String) (now : ℕ) (before j : Job)
    → Dict.get (load f) id ≡ some before
    → before.kind ≡ once
    → mark_fired env f id now ≡ (g, ok (some j))
    → (j.enabled ≡ false)
      × (j.next_due_at ≡ none)
      × ((later : ℕ) → is_due env.clockwork j later ≡ ok false)
unfolding is_due
mark_fired-once env f g id now before j there k h =
    let (found, there', done, file) = mark_fired-inv env f g id now j h in
    let same : before ≡ found = cc in
    let (disabled, none_due) =
      fired-once env.clockwork found j now (sym (ap (λ i. i.kind) same) ∙ k) done in
    (disabled, none_due, λ later. rw disabled refl)
