-- ===== src/Runner/Released.antt =====
-- bothy/runner.py, Runner.run, with bothy/pool.py: what a run leaves of the admission's tables.
use bothy.Common.{
  ℕ, String, Bool, true, false, Option, none, some, List, [], ◌∷◌, ◌≡◌, ◌⊎◌, refl, sym, ap, ◌∙◌,
  subst, inl, inr, arith, str_eq, str_eq_iff, str_eq_refl, if◌then◌else◌, if_elim, Bool-cases,
  Option-cases, Result, ok, err,
}
use bothy.Dict
use bothy.Dict.{Dict, get-set, get-remove}
use bothy.Budget.Policy.{api, subscription, Mode}
use bothy.Budget.Ledger.{LedgerError}
use bothy.Pool.Outcomes.{ratio, trim}
use bothy.Pool.Admission.{Admission, Admitted, Env, recompute, release, report}
use bothy.Pool.Invariant.{lanes-adjust}
use bothy.Runner.Gates.{
  Job, World, Office, Ending, Active, RunResult, Gate, Work, memory_refused, broke, turned, noted,
  raised, are_limits, wall_of, tokens_of, limits,
}
use bothy.Runner.Run.{
  report_all, reported, settled, close_run, refused_inside, finish_refused, worked, set_up, limited,
  profiled, is_completed,
}

-- both tables have the same entries
abbrev pub Same : Admission → Admission → Type 0
Same before after =
    ((j : String) → Dict.get after.live j ≡ Dict.get before.live j)
    × ((s : String) → Dict.get after.lanes s ≡ Dict.get before.lanes s)

-- the tables with one run more
pub record Inside (before : Admission) (run_id subject : String) (a : Admission) : Type 0 where
  pub fresh : Dict.get before.live run_id ≡ none
  pub free : Dict.get before.lanes subject ≡ none
  pub entry : Admitted
  pub has_subject : entry.subject ≡ subject
  pub in_live :
      (j : String)
      → Dict.get a.live j ≡ (if str_eq run_id j then some entry else Dict.get before.live j)
  pub in_lanes :
      (s : String)
      → Dict.get a.lanes s ≡ (if str_eq subject s then some run_id else Dict.get before.lanes s)

pub lanes-recompute : (mono : ℕ) (a : Admission) → (recompute mono a).lanes ≡ a.lanes
unfolding recompute
lanes-recompute mono a = ground (
  arith,
  lanes-adjust (ratio a.policy mono a.samples)
      (record a { last_recompute = mono; samples = trim a.policy mono a.samples }),
)

release_tables :
    (a : Admission) (env : Env) (run_id : String) (good : Bool) (actual : Option ℕ) (m : Admitted)
    → Dict.get a.live run_id ≡ some m
    → ((release a env run_id good actual).0.live ≡ Dict.remove a.live run_id)
      × ((release a env run_id good actual).0.lanes ≡ Dict.remove a.lanes m.subject)
unfolding release
release_tables a env run_id good actual m h = rw (h, release) (refl, refl)

-- a table with a row taken out that was put into another
taken_out :
    {A : Type 0} (after now before : Dict A) (k j : String) (v : A)
    → after ≡ Dict.remove now k
    → Dict.get now j ≡ (if str_eq k j then some v else Dict.get before j)
    → Dict.get before k ≡ none
    → Dict.get after j ≡ Dict.get before j
taken_out after now before k j v e h fresh =
    ap (λ d. Dict.get d j) e ∙ get-remove now k j ∙ (elim (Bool-cases (str_eq k j)) [
      | inl own ↦
          let same : k ≡ j = ground (arith, own, str_eq_iff k j) in
          rw own (subst (λ i. none ≡ Dict.get before i) same (sym fresh))
      | inr other ↦ rw other (h ∙ rw other refl)
    ])

pub release-Same :
    (before a : Admission) (env : Env) (run_id subject : String) (good : Bool) (actual : Option ℕ)
    → Inside before run_id subject a
    → Same before (release a env run_id good actual).0
release-Same before a env run_id subject good actual h =
    let here : Dict.get a.live run_id ≡ some h.entry =
      h.in_live run_id ∙ rw (str_eq_refl run_id) refl in
    let (live, lanes) = release_tables a env run_id good actual h.entry here in
    let lanes_now = lanes ∙ ap (λ s. Dict.remove a.lanes s) h.has_subject in
    (
      (λ j. taken_out _ a.live before.live run_id j h.entry live (h.in_live j) h.fresh),
      (λ s. taken_out _ a.lanes before.lanes subject s run_id lanes_now (h.in_lanes s) h.free),
    )

report-Inside :
    (before a : Admission) (env : Env) (run_id subject : String) (cost : ℕ)
    → Inside before run_id subject a
    → Inside before run_id subject (report a env run_id cost).0
unfolding report
report-Inside before a env run_id subject cost h = elim (Option-cases (Dict.get a.live run_id)) [
  | inl gone ↦ rw (gone, report) h
  | inr (m, e) ↦
      rw (e, report)
        (record {
          fresh = h.fresh;
          free = h.free;
          entry = h.entry;
          has_subject = h.has_subject;
          in_live = h.in_live;
          in_lanes = h.in_lanes;
        })
]

report_all-Inside :
    (before : Admission) (run_id subject : String) (costs : List (Env × ℕ)) (a : Admission)
    → Inside before run_id subject a
    → Inside before run_id subject (report_all run_id costs a)
unfolding report_all
report_all-Inside before run_id subject [] a h = h
report_all-Inside before run_id subject ((env, cost) ∷ costs) a h =
    report_all-Inside before run_id subject costs _
      (report-Inside before a env run_id subject cost h)

reported-Inside :
    (mode : Mode) (before : Admission) (run_id subject : String) (costs : List (Env × ℕ))
    (a : Admission)
    → Inside before run_id subject a
    → Inside before run_id subject (reported mode run_id costs a)
unfolding reported
reported-Inside api before run_id subject costs a h =
    report_all-Inside before run_id subject costs a h
reported-Inside subscription before run_id subject costs a h = h

module _ (w : World) (job : Job) (before : Admission) where
  -- an exception that the `try` does not catch, or that its `finally` raises before the release
  abbrev Breaks : Type 0
  Breaks = (w.claim_breaks ≡ true) ⊎ ((w.setup_breaks ≡ true) ⊎ (w.close_breaks ≡ true))

  -- the tables are as they were; or such an exception ended the run, and they have it still
  abbrev pub Left : Office × Ending → Type 0
  Left r =
      Same before r.0.admission
      ⊎ ((r.1 ≡ raised) × Breaks × Inside before job.run_id job.subject r.0.admission)

  abbrev Within : Admission → Type 0
  Within a = Inside before job.run_id job.subject a

  settled-Left :
      (paid : Result LedgerError ℕ) (r : RunResult) (o : Office)
      → Same before o.admission
      → Left (settled paid r o)
  unfolding settled noted
  settled-Left (err e) r o h = inl h
  settled-Left (ok paid) r o h = inl h

  close_run-Left :
      (spent : ℕ) (r : RunResult) (o : Office)
      → Within o.admission
      → Left (close_run w job spent r o)
  unfolding close_run noted
  close_run-Left spent r o h =
      if_elim Left w.close_breaks (o, raised) (settled _ r _)
        (λ breaks. inr (refl, inr (inr breaks), h))
        (λ _. settled-Left _ r _ (
          release-Same before o.admission w.at_end job.run_id job.subject (is_completed r.status)
            (some spent) h))

  refused_inside-Left :
      (paid : Result LedgerError ℕ) (g : Gate) (o : Office)
      → Same before o.admission
      → Left (refused_inside w job paid g o)
  unfolding refused_inside noted
  refused_inside-Left (err e) g o h = inl h
  refused_inside-Left (ok paid) g o h = inl h

  finish_refused-Left :
      (g : Gate) (o : Office) → Within o.admission → Left (finish_refused w job g o)
  unfolding finish_refused noted
  finish_refused-Left g o h =
      refused_inside-Left _ g _
        (release-Same before o.admission w.at_end job.run_id job.subject false (some 0) h)

  worked-Left : (work : Work) (o : Office) → Within o.admission → Left (worked w job work o)
  unfolding worked noted
  worked-Left memory_refused o h = close_run-Left _ _ _ h
  worked-Left (broke started costs cancelled) o h =
      close_run-Left _ _ _
        (reported-Inside o.admission.budget.mode before job.run_id job.subject costs _ h)
  worked-Left (turned costs turn has_reason cancelled messages cost) o h =
      close_run-Left _ _ _
        (reported-Inside o.admission.budget.mode before job.run_id job.subject costs _ h)

  set_up-Left : (work : Work) (o : Office) → Within o.admission → Left (set_up w job work o)
  unfolding set_up
  set_up-Left work o h =
      if_elim Left w.setup_breaks (o, raised) (worked w job work o)
        (λ breaks. inr (refl, inr (inl breaks), h)) (λ _. worked-Left work o h)

  pub profiled-Left :
      (active : Result (Unit {0}) (Option Active)) (o : Office)
      → Within o.admission
      → Left (profiled w job active o)
  unfolding profiled limited
  profiled-Left (err e) o h = finish_refused-Left _ o h
  profiled-Left (ok active) o h =
      if_elim Left
        (are_limits o.admission.budget.reservation_ttl w.question_hold (wall_of w job active)
          (tokens_of w job active))
        (set_up w job (w.work active (wall_of w job active) (tokens_of w job active)) o)
        (finish_refused w job limits o) (λ _. set_up-Left _ o h)
        (λ _. finish_refused-Left limits o h)
