-- ===== src/Runner/Run.antt =====
-- bothy/runner.py, Runner.run: the gates before a worker, and the bookkeeping after it. The admission
-- is Pool's. The worker, with the profile's memory and the turn, is a parameter by how it ended.
-- Exceptions between the door and the `try`, and in the `finally` before the release, are the World's.
-- The calls of the audit log and of the alerter, and what follows the release, are taken to return.
use bothy.Common.{
  ℕ, String, Bool, true, false, Option, none, some, List, [], ◌∷◌, not, if◌then◌else◌, Result, ok,
  err, ◌&&◌,
}
use bothy.Budget.Policy.{Mode, api, subscription}
use bothy.Pool.Admission
use bothy.Pool.Admission.{
  Admission, Env, Refused, AdmitError, Admitted, refusal, ledger_error, over_budget,
}
use bothy.Budget.Ledger.{LedgerError}
use bothy.Runner.Gates.{
  Status, Gate, Active, Job, DreamPrompt, Turn, Work, World, RunResult, Office, Ending, noted,
  refused_by, refuse, profile, dreaming, wall_of, tokens_of, are_limits, completed, failed,
  interrupted, was_refused, dream_invalid, budget_unknown, profile_gate, limits, memory_gate, door,
  unfit, nothing_new, has_prompt, turn_completed, turn_failed, turn_interrupted, memory_refused,
  broke, turned, refused_at, dream_skipped, admitted, budget_alert, worker_started, worker_closed,
  unregistered, finished, returned, raised,
}

unfoldable pub is_completed : Status → Bool
is_completed completed = true
is_completed _ = false

unfoldable pub is_api : Mode → Bool
is_api api = true
is_api subscription = false

-- what the meter counted, in api mode
unfoldable pub metered : Mode → ℕ → ℕ
metered mode cost = if is_api mode then cost else 0

-- the meter's reports; one that the ledger refuses ends nothing, since run_turn swallows it
unfoldable pub report_all : String → List (Env × ℕ) → Admission → Admission
report_all run_id [] a = a
report_all run_id ((env, cost) ∷ costs) a =
    report_all run_id costs (Admission.report a env run_id cost).0

-- the cost of the last report, be it one that was not taken
unfoldable pub spent_by : List (Env × ℕ) → ℕ → ℕ
spent_by [] spent = spent
spent_by ((env, cost) ∷ costs) spent = spent_by costs cost

unfoldable pub reported : Mode → String → List (Env × ℕ) → Admission → Admission
reported subscription run_id costs a = a
reported api run_id costs a = report_all run_id costs a

unfoldable pub status_of : Turn → Bool → Bool → Status
status_of turn_completed has_reason cancelled = completed
status_of turn_failed has_reason cancelled =
    if not has_reason && cancelled then interrupted else failed
status_of turn_interrupted has_reason cancelled = interrupted

unfoldable pub broken : Bool → ℕ → RunResult
broken cancelled cost = record {
  status = if cancelled then interrupted else failed;
  gate = none;
  messages = [];
  cost = cost;
}

unfoldable pub started_if : Bool → Office → Office
started_if started o = if started then noted worker_started o else o

unfoldable pub settled : Result LedgerError ℕ → RunResult → Office → Office × Ending
settled (err e) r o = (o, raised)
settled (ok paid) r o = (noted unregistered (noted (finished r.status) o), returned r)

module _ (w : World) (job : Job) where
  -- the `finally` of a run, with what it spent
  unfoldable pub close_run : ℕ → RunResult → Office → Office × Ending
  close_run spent r o =
      let (a, paid) =
        Admission.release o.admission w.at_end job.run_id (is_completed r.status) (some spent) in
      if w.close_breaks
      then (o, raised)
      else settled paid r (noted worker_closed (record o { admission = a }))

  -- a run that its limits or its profile refused
  unfoldable pub refused_inside : Result LedgerError ℕ → Gate → Office → Office × Ending
  refused_inside (err e) g o = (o, raised)
  refused_inside (ok paid) g o = (noted (finished was_refused) o, returned (refused_by g))

  unfoldable pub finish_refused : Gate → Office → Office × Ending
  finish_refused g o =
      let (a, paid) = Admission.release o.admission w.at_end job.run_id false (some 0) in
      refused_inside paid g (noted (refused_at g) (record o { admission = a }))

  unfoldable pub worked : Work → Office → Office × Ending
  worked memory_refused o = close_run 0 (refused_by memory_gate) (noted (refused_at memory_gate) o)
  worked (broke started costs cancelled) o =
      close_run (metered o.admission.budget.mode (spent_by costs 0)) (broken cancelled 0)
        (record (started_if started o) {
          admission = reported o.admission.budget.mode job.run_id costs o.admission;
        })
  worked (turned costs turn has_reason cancelled messages cost) o =
      let spent = metered o.admission.budget.mode cost in
      close_run spent
        (record {
          status = status_of turn has_reason cancelled;
          gate = none;
          messages = if job.dream then [] else messages;
          cost = spent;
        })
        (record (noted worker_started o) {
          admission = reported o.admission.budget.mode job.run_id costs o.admission;
        })

  -- the registry, the approvals and the client are made outside the `try`
  unfoldable pub set_up : Work → Office → Office × Ending
  set_up work o = if w.setup_breaks then (o, raised) else worked work o

  unfoldable pub limited : Option Active → Office → Office × Ending
  limited active o =
      let wall = wall_of w job active in
      let tokens = tokens_of w job active in
      if are_limits o.admission.budget.reservation_ttl w.question_hold wall tokens
      then set_up (w.work active wall tokens) o
      else finish_refused limits o

  unfoldable pub profiled : Result (Unit {0}) (Option Active) → Office → Office × Ending
  profiled (err e) o = finish_refused profile_gate o
  profiled (ok active) o = limited active o

  unfoldable pub turned_away : Refused → Office → Office × Ending
  turned_away (over_budget b) o = (
    noted budget_alert (noted (refused_at (door (over_budget b))) o),
    returned (refused_by (door (over_budget b))),
  )
  turned_away r o = refuse (door r) o

  unfoldable pub entered : Admission × Result AdmitError Admitted → Office → Office × Ending
  entered (a, err (refusal r)) o = turned_away r (record o { admission = a })
  entered (a, err (ledger_error e)) o = (record o { admission = a }, raised)
  entered (a, ok m) o =
      if w.claim_breaks
      then (noted admitted (record o { admission = a }), raised)
      else profiled (profile w job.profile) (noted admitted (record o { admission = a }))

  unfoldable pub at_door : Option ℕ → Option String → Office → Office × Ending
  at_door observed resets o =
      entered (Admission.admit o.admission w.at_door job.run_id job.subject none observed resets) o

  unfoldable pub positioned : Mode → Option ℕ → Office → Office × Ending
  positioned api observed o = at_door none none o
  positioned subscription none o = refuse budget_unknown o
  positioned subscription (some used) o = at_door (some used) w.position.1 o

  unfoldable pub dreamed : DreamPrompt → Office → Office × Ending
  dreamed unfit o = refuse dream_invalid o
  dreamed nothing_new o =
      if w.audit_writable
      then (
        noted dream_skipped o,
        returned (record { status = completed; gate = none; messages = []; cost = 0 }),
      )
      else (o, raised)
  dreamed has_prompt o = positioned o.admission.budget.mode w.position.0 o

  unfoldable pub run : Office → Office × Ending
  run o = dreamed (dreaming w job) o
