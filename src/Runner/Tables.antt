-- ===== src/Runner/Tables.antt =====
-- bothy/runner.py, Runner.run, with bothy/pool.py: a run's way through the door, and back.
use bothy.Common.{
  ℕ, String, Option, none, some, List, ◌≡◌, refl, sym, ap, ◌∙◌, inl, inr, str_eq, if◌then◌else◌,
  if_elim, Option-cases, Result, ok, err,
}
use bothy.Dict
use bothy.Dict.{Dict, get-set, get-remove}
use bothy.Budget.Policy.{api, subscription, Mode}
use bothy.Budget.Ledger.{LedgerError}
use bothy.Pool.Admission.{
  Admission, Admitted, Env, over_budget, pool_probing, lane_busy, pool_full, AdmitError, refusal,
  ledger_error, recompute, gate, enter, admit,
}
use bothy.Pool.Invariant.{gate_open}
use bothy.Pool.History.{live-recompute}
use bothy.Runner.Gates.{
  Event, Job, World, Office, DreamPrompt, unfit, raised, nothing_new, has_prompt, noted, refuse,
  dreaming,
}
use bothy.Runner.Run.{profiled, turned_away, entered, at_door, positioned, dreamed, run}
use bothy.Budget.Ledger as Ledger
use bothy.Budget.Ledger.{Reservation}
use bothy.Runner.Released.{Same, Inside, lanes-recompute, Left, profiled-Left}

-- what the door leaves: one run more, or the tables as they were
abbrev Admits : Admission → String → String → Admission × Result AdmitError Admitted → Type 0
Admits before run_id subject (a, err e) = Same before a
Admits before run_id subject (a, ok m) = Inside before run_id subject a

Same-recompute : (before : Admission) (mono : ℕ) → Same before (recompute mono before)
Same-recompute before mono = (
  (λ j. ap (λ d. Dict.get d j) (live-recompute mono before)),
  (λ s. ap (λ d. Dict.get d s) (lanes-recompute mono before)),
)

enter-Admits :
    (before a : Admission) (env : Env) (run_id subject : String) (c : Ledger.Call Reservation)
    → Same before a
    → Dict.get before.live run_id ≡ none
    → Dict.get before.lanes subject ≡ none
    → Admits before run_id subject (enter a env run_id subject c)
unfolding enter
enter-Admits before a env run_id subject (f, err e) same fresh free = same
enter-Admits before a env run_id subject (f, ok r) (live, lanes) fresh free =
    let entry : Admitted = record {
      run_id = run_id;
      subject = subject;
      reservation = r;
      admitted_at = env.disk.now;
    } in
    record {
      fresh = fresh;
      free = free;
      entry = entry;
      has_subject = refl;
      in_live = λ j.
          get-set a.live run_id j entry
          ∙ ap (λ o. if str_eq run_id j then some entry else o) (live j);
      in_lanes = λ s.
          get-set a.lanes subject s run_id
          ∙ ap (λ o. if str_eq subject s then some run_id else o) (lanes s);
    }

admit-Admits :
    (before : Admission) (env : Env) (run_id subject : String) (amount observed : Option ℕ)
    (resets : Option String)
    → Dict.get before.live run_id ≡ none
    → Admits before run_id subject (admit before env run_id subject amount observed resets)
unfolding admit
admit-Admits before env run_id subject amount observed resets fresh =
    let b = recompute env.mono before in
    let same = Same-recompute before env.mono in
    elim (Option-cases (gate b subject)) [
      | inl open_now ↦
          rw (open_now, admit)
            (enter-Admits before b env run_id subject _ same fresh
              (sym (same.1 subject) ∙ (gate_open b subject open_now).0))
      | inr (reason, e) ↦ rw (e, admit) same
    ]

module _ (w : World) (job : Job) (before : Admission) where
  entered-Left :
      (r : Admission × Result AdmitError Admitted) (o : Office)
      → Admits before job.run_id job.subject r
      → Left w job before (entered w job r o)
  unfolding entered turned_away refuse noted
  entered-Left (a, err (refusal (over_budget b))) o h = inl h
  entered-Left (a, err (refusal (pool_probing n))) o h = inl h
  entered-Left (a, err (refusal (lane_busy s holder))) o h = inl h
  entered-Left (a, err (refusal (pool_full m n))) o h = inl h
  entered-Left (a, err (ledger_error e)) o h = inl h
  entered-Left (a, ok m) o h =
      if_elim (Left w job before) w.claim_breaks (_, raised) (profiled w job _ _)
        (λ breaks. inr (refl, inl breaks, h)) (λ _. profiled-Left w job before _ _ h)

  unchanged : Same before before
  unchanged = ((λ j. refl), (λ s. refl))

  at_door-Left :
      (observed : Option ℕ) (resets : Option String) (tape : List Event)
      → Dict.get before.live job.run_id ≡ none
      → Left w job before
          (at_door w job observed resets (record { admission = before; tape = tape }))
  unfolding at_door
  at_door-Left observed resets tape fresh =
      entered-Left _ _
        (admit-Admits before w.at_door job.run_id job.subject none observed resets fresh)

  positioned-Left :
      (mode : Mode) (observed : Option ℕ) (tape : List Event)
      → Dict.get before.live job.run_id ≡ none
      → Left w job before
          (positioned w job mode observed (record { admission = before; tape = tape }))
  unfolding positioned refuse noted
  positioned-Left api observed tape fresh = at_door-Left none none tape fresh
  positioned-Left subscription none tape fresh = inl unchanged
  positioned-Left subscription (some used) tape fresh = at_door-Left (some used) _ tape fresh

  dreamed-Left :
      (d : DreamPrompt) (tape : List Event)
      → Dict.get before.live job.run_id ≡ none
      → Left w job before (dreamed w job d (record { admission = before; tape = tape }))
  unfolding dreamed refuse noted
  dreamed-Left unfit tape fresh = inl unchanged
  dreamed-Left nothing_new tape fresh =
      if_elim (Left w job before) w.audit_writable (_, _) (_, _) (λ _. inl unchanged)
        (λ _. inl unchanged)
  dreamed-Left has_prompt tape fresh = positioned-Left before.budget.mode w.position.0 tape fresh

-- Where a run's id is new, and at whichever of its gates it is refused and whatever its worker does, the
-- admission's live runs and its taken lanes are afterwards what they were before; or else the run
-- returned no result: an exception came between the door and the `try`, or in the `finally` before the
-- release, and the tables then have that run, and its lane, beside what they had before.
pub run-Left :
    (w : World) (job : Job) (o : Office)
    → Dict.get o.admission.live job.run_id ≡ none
    → Left w job o.admission (run w job o)
unfolding run
run-Left w job o fresh = dreamed-Left w job o.admission (dreaming w job) o.tape fresh
