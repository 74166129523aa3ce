-- ===== src/Runner/Started.antt =====
-- bothy/runner.py, Runner.run: for which runs a worker is started.
use bothy.Common.{
  ℕ, ◌+◌, ◌<◌, String, true, false, Option, none, some, List, [], ◌∷◌, ◌≡◌, ◌⊎◌, refl, ap, ◌∙◌, inl,
  inr, arith, if_elim, Option-cases, subst, Result, ok, err,
}
use bothy.Budget.Policy.{api, subscription, Mode}
use bothy.Budget.Ledger as Ledger
use bothy.Budget.Ledger.{LedgerError, Reservation}
use bothy.Pool.Admission.{
  Admission, Admitted, Env, over_budget, pool_probing, lane_busy, pool_full, AdmitError, refusal,
  ledger_error, admit, recompute, adjust, enter, gate,
}
use bothy.Runner.Gates.{
  Event, Job, World, Office, Ending, returned, raised, Active, RunResult, Gate, DreamPrompt, unfit,
  nothing_new, has_prompt, Work, memory_refused, broke, turned, worker_started, admitted, noted,
  refuse, dreaming, are_limits, are_tokens, wall_of, tokens_of, profile, limits,
}
use bothy.Runner.Run.{
  settled, close_run, refused_inside, finish_refused, worked, set_up, limited, profiled,
  turned_away, entered, at_door, positioned, dreamed, run, started_if, broken,
}

-- the workers started
unfoldable pub starts_in : List Event → ℕ
starts_in [] = 0
starts_in (worker_started ∷ tape) = starts_in tape + 1
starts_in (_ ∷ tape) = starts_in tape

-- a run that was refused says at which gate
abbrev pub NotRefused : Ending → Type 0
NotRefused (returned r) = r.gate ≡ none
NotRefused raised = Unit

-- the position of the window that the door is told
unfoldable pub observed_of : Mode → Option ℕ × Option String → Option ℕ × Option String
observed_of api position = (none, none)
observed_of subscription position = position

-- The limits of a run: a hold of its questions, if there is one, ends with the wall clock before the
-- reservation does, the wall clock is positive, and so is the number of tokens, if there is one.
abbrev pub AreLimits : ℕ → ℕ → ℕ → Option ℕ → Type 0
AreLimits ttl hold wall tokens =
    ((hold ≡ 0) ⊎ (hold + wall < ttl)) × (0 < wall) × ((n : ℕ) → tokens ≡ some n → 0 < n)

are_limits-AreLimits :
    (ttl hold wall : ℕ) (tokens : Option ℕ)
    → are_limits ttl hold wall tokens ≡ true
    → AreLimits ttl hold wall tokens
unfolding are_limits are_tokens
are_limits-AreLimits ttl hold wall none h = (ground arith, ground arith, λ n e. cc)
are_limits-AreLimits ttl hold wall (some m) h =
    (ground arith, ground arith, λ n e. let same : m ≡ n = cc in ground arith)

-- why a worker may be started: the run may dream if it is to, the door admitted it, its profile was
-- found, and its limits are in order
pub record MayStart (w : World) (job : Job) (a : Admission) : Type 0 where
  pub may_dream : dreaming w job ≡ has_prompt
  pub entry : Admitted
  pub is_admitted :
      (admit a w.at_door job.run_id job.subject none
        (observed_of a.budget.mode w.position).0
        (observed_of a.budget.mode w.position).1).1
      ≡ ok entry
  pub active : Option Active
  pub has_profile : profile w job.profile ≡ ok active
  pub has_limits :
      AreLimits a.budget.reservation_ttl w.question_hold
        (wall_of w job active)
        (tokens_of w job active)

-- the door leaves the policy of the budget
budget-recompute : (mono : ℕ) (a : Admission) → (recompute mono a).budget ≡ a.budget
unfolding recompute adjust
budget-recompute mono a = ground arith

budget-enter :
    (a : Admission) (env : Env) (run_id subject : String) (c : Ledger.Call Reservation)
    → (enter a env run_id subject c).0.budget ≡ a.budget
unfolding enter
budget-enter a env run_id subject (f, err e) = refl
budget-enter a env run_id subject (f, ok r) = refl

budget-admit :
    (a : Admission) (env : Env) (run_id subject : String) (amount observed : Option ℕ)
    (resets : Option String)
    → (admit a env run_id subject amount observed resets).0.budget ≡ a.budget
unfolding admit
budget-admit a env run_id subject amount observed resets =
    let b = recompute env.mono a in
    elim (Option-cases (gate b subject)) [
      | inl open_now ↦
          rw (open_now, admit) (budget-enter b env run_id subject _ ∙ budget-recompute env.mono a)
      | inr (reason, e) ↦ rw (e, admit) (budget-recompute env.mono a)
    ]

module _ (w : World) (job : Job) where
  starts-settled :
      (paid : Result LedgerError ℕ) (r : RunResult) (o : Office)
      → (starts_in (settled paid r o).0.tape ≡ starts_in o.tape)
        × (r.gate ≡ none → NotRefused (settled paid r o).1)
  unfolding settled noted starts_in
  starts-settled (err e) r o = (refl, λ h. tt)
  starts-settled (ok paid) r o = (refl, λ h. h)

  starts-close_run :
      (spent : ℕ) (r : RunResult) (o : Office)
      → (starts_in (close_run w job spent r o).0.tape ≡ starts_in o.tape)
        × (r.gate ≡ none → NotRefused (close_run w job spent r o).1)
  unfolding close_run noted starts_in
  starts-close_run spent r o =
      if_elim (λ e. (starts_in e.0.tape ≡ starts_in o.tape) × (r.gate ≡ none → NotRefused e.1))
        w.close_breaks (o, raised) (settled _ r _) (λ _. (refl, λ h. tt))
        (λ _. starts-settled _ r _)

  starts-refused_inside :
      (paid : Result LedgerError ℕ) (g : Gate) (o : Office)
      → starts_in (refused_inside w job paid g o).0.tape ≡ starts_in o.tape
  unfolding refused_inside noted starts_in
  starts-refused_inside (err e) g o = refl
  starts-refused_inside (ok paid) g o = refl

  starts-finish_refused :
      (g : Gate) (o : Office) → starts_in (finish_refused w job g o).0.tape ≡ starts_in o.tape
  unfolding finish_refused noted starts_in
  starts-finish_refused g o = starts-refused_inside _ g _

  module _ (n : ℕ) (G : Type 0) where
    -- no worker was started, or one with grounds, and then the run is not a refusal
    abbrev pub Starts : Office × Ending → Type 0
    Starts r = (starts_in r.0.tape ≡ n) ⊎ ((starts_in r.0.tape ≡ n + 1) × G × NotRefused r.1)

    worked-Starts :
        (work : Work) (o : Office) → G → starts_in o.tape ≡ n → Starts (worked w job work o)
    unfolding worked noted started_if starts_in broken
    worked-Starts memory_refused o g h = inl ((starts-close_run _ _ _).0 ∙ h)
    worked-Starts (broke false costs cancelled) o g h = inl ((starts-close_run _ _ _).0 ∙ h)
    worked-Starts (broke true costs cancelled) o g h =
        inr ((starts-close_run _ _ _).0 ∙ ap (λ k. k + 1) h, g, (starts-close_run _ _ _).1 refl)
    worked-Starts (turned costs turn has_reason cancelled messages cost) o g h =
        inr ((starts-close_run _ _ _).0 ∙ ap (λ k. k + 1) h, g, (starts-close_run _ _ _).1 refl)

    set_up-Starts :
        (work : Work) (o : Office) → G → starts_in o.tape ≡ n → Starts (set_up w job work o)
    unfolding set_up
    set_up-Starts work o g h =
        if_elim Starts w.setup_breaks (o, raised) (worked w job work o) (λ _. inl h)
          (λ _. worked-Starts work o g h)

  module _ (n : ℕ) (before : Admission) where
    abbrev Fair : Office × Ending → Type 0
    Fair r = Starts n (MayStart w job before) r

    -- the run has come in
    record Entered : Type 0 where
      dreams : dreaming w job ≡ has_prompt
      entry : Admitted
      opened :
          (admit before w.at_door job.run_id job.subject none
            (observed_of before.budget.mode w.position).0
            (observed_of before.budget.mode w.position).1).1
          ≡ ok entry

    limited-Fair :
        (active : Option Active) (o : Office)
        → Entered
        → profile w job.profile ≡ ok active
        → o.admission.budget ≡ before.budget
        → starts_in o.tape ≡ n
        → Fair (limited w job active o)
    unfolding limited
    limited-Fair active o in_now named kept h =
        let wall = wall_of w job active in
        let tokens = tokens_of w job active in
        if_elim Fair (are_limits o.admission.budget.reservation_ttl w.question_hold wall tokens)
          (set_up w job (w.work active wall tokens) o) (finish_refused w job limits o)
          (λ fit.
            set_up-Starts n (MayStart w job before) (w.work active wall tokens) o
              (record {
                may_dream = in_now.dreams;
                entry = in_now.entry;
                is_admitted = in_now.opened;
                active = active;
                has_profile = named;
                has_limits =
                    subst (λ b. AreLimits b.reservation_ttl w.question_hold wall tokens) kept
                      (are_limits-AreLimits _ w.question_hold wall tokens fit);
              })
              h)
          (λ _. inl (starts-finish_refused limits o ∙ h))

    profiled-Fair :
        (found : Result (Unit {0}) (Option Active)) (o : Office)
        → Entered
        → profile w job.profile ≡ found
        → o.admission.budget ≡ before.budget
        → starts_in o.tape ≡ n
        → Fair (profiled w job found o)
    unfolding profiled
    profiled-Fair (err e) o in_now named kept h = inl (starts-finish_refused _ o ∙ h)
    profiled-Fair (ok active) o in_now named kept h = limited-Fair active o in_now named kept h

    entered-Fair :
        (r : Admission × Result AdmitError Admitted) (o : Office)
        → dreaming w job ≡ has_prompt
        → (admit before w.at_door job.run_id job.subject none
            (observed_of before.budget.mode w.position).0
            (observed_of before.budget.mode w.position).1).1
          ≡ r.1
        → r.0.budget ≡ before.budget
        → starts_in o.tape ≡ n
        → Fair (entered w job r o)
    unfolding entered turned_away refuse noted starts_in
    entered-Fair (a, err (refusal (over_budget b))) o may e kept h = inl h
    entered-Fair (a, err (refusal (pool_probing k))) o may e kept h = inl h
    entered-Fair (a, err (refusal (lane_busy s holder))) o may e kept h = inl h
    entered-Fair (a, err (refusal (pool_full k m))) o may e kept h = inl h
    entered-Fair (a, err (ledger_error b)) o may e kept h = inl h
    entered-Fair (a, ok m) o may e kept h =
        let now = record (noted admitted o) { admission = a } in
        if_elim Fair w.claim_breaks (now, raised) (profiled w job (profile w job.profile) now)
          (λ _. inl h)
          (λ _. profiled-Fair _ now (record { dreams = may; entry = m; opened = e }) refl kept h)

    -- what the door answers for a position
    abbrev answer : Option ℕ → Option String → Result AdmitError Admitted
    answer observed resets = (admit before w.at_door job.run_id job.subject none observed resets).1

    positioned-Fair :
        (mode : Mode) (position : Option ℕ × Option String) (tape : List Event)
        → dreaming w job ≡ has_prompt
        → before.budget.mode ≡ mode
        → w.position ≡ position
        → starts_in tape ≡ n
        → Fair (positioned w job mode position.0 (record { admission = before; tape = tape }))
    unfolding positioned at_door refuse noted starts_in observed_of
    positioned-Fair api position tape may e at h =
        entered-Fair _ _ may
          (ap (λ m. answer (observed_of m w.position).0 (observed_of m w.position).1) e)
          (budget-admit before w.at_door job.run_id job.subject none none none) h
    positioned-Fair subscription (none, resets) tape may e at h = inl h
    positioned-Fair subscription (some used, resets) tape may e at h =
        entered-Fair _ _ may
          (ap (λ m. answer (observed_of m w.position).0 (observed_of m w.position).1) e
            ∙ ap (λ p. answer p.0 w.position.1) at)
          (budget-admit before w.at_door job.run_id job.subject none (some used) w.position.1) h

    dreamed-Fair :
        (d : DreamPrompt) (tape : List Event)
        → dreaming w job ≡ d
        → starts_in tape ≡ n
        → Fair (dreamed w job d (record { admission = before; tape = tape }))
    unfolding dreamed refuse noted starts_in
    dreamed-Fair unfit tape may h = inl h
    dreamed-Fair nothing_new tape may h =
        if_elim Fair w.audit_writable (_, _) (_, _) (λ _. inl h) (λ _. inl h)
    dreamed-Fair has_prompt tape may h =
        positioned-Fair before.budget.mode w.position tape may refl refl h

-- A run starts a worker only if it may dream, if it is to, the door admitted it, its profile was found
-- and its limits are in order, with the time that the budget's policy has for a reservation; and a run
-- that is refused, at whichever gate, started none.
pub run-Starts :
    (w : World) (job : Job) (o : Office)
    → Starts w job (starts_in o.tape) (MayStart w job o.admission) (run w job o)
unfolding run
run-Starts w job o =
    dreamed-Fair w job (starts_in o.tape) o.admission (dreaming w job) o.tape refl refl
