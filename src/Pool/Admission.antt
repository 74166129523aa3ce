-- ===== src/Pool/Admission.antt =====
-- bothy/pool.py, Admission: the one door that every run goes through. Each call holds the lock, so
-- it is one step; it reads the monotonic clock once, at `Env.mono`.
use bothy.Common.{
  ℕ, ◌+◌, ◌-◌, min, max, String, Bool, true, false, Option, none, some, List, [], leb, ltb,
  if◌then◌else◌, length, Result, ok, err, ◌&&◌,
}
use bothy.Dict
use bothy.Dict.{Dict}
use bothy.Budget.Policy.{BudgetPolicy}
use bothy.Budget.Ledger as Ledger
use bothy.Budget.Ledger.{
  File, Reservation, BudgetRefused, LedgerError, refused, needs_observed_used, os_error,
}
use bothy.Pool.Outcomes.{PoolPolicy, Sample, Ratio, trim, record_outcome, ratio, above, below}

pub data PoolState : Type 0 where
  healthy degraded probing : PoolState

pub record Admitted : Type 0 where
  pub run_id : String
  pub subject : String
  pub reservation : Reservation
  pub admitted_at : ℕ

-- `ledger` is the budget's file, under `budget`.
pub record Admission : Type 0 where
  pub policy : PoolPolicy
  pub budget : BudgetPolicy
  pub ledger : File
  pub lanes : Dict String
  pub live : Dict Admitted
  pub samples : List Sample
  pub effective : ℕ
  pub state : PoolState
  pub last_recompute : ℕ
  pub probe_open : Bool

pub record Env : Type 0 where
  pub mono : ℕ
  pub disk : Ledger.Env

pub data Refused : Type 0 where
  pool_probing : ℕ → Refused
  lane_busy : String → String → Refused
  pool_full : ℕ → ℕ → Refused
  over_budget : BudgetRefused → Refused

-- what `admit` raises: its own refusal, or what the ledger's call raised that is none
pub data AdmitError : Type 0 where
  refusal : Refused → AdmitError
  ledger_error : LedgerError → AdmitError

-- Admission.__init__
unfoldable pub init : PoolPolicy → BudgetPolicy → File → ℕ → Admission
init policy budget ledger mono = record {
  policy = policy;
  budget = budget;
  ledger = ledger;
  lanes = [];
  live = [];
  samples = [];
  effective = policy.max_workers;
  state = healthy;
  last_recompute = mono;
  probe_open = true;
}

-- the ladder of `_recompute`, once there is evidence enough
unfoldable pub adjust : Ratio → Admission → Admission
adjust r a =
    let p = a.policy in
    let grown = min p.max_workers (a.effective + 1) in
    if above r p.collapse_above_ratio
    then record a { effective = 1; state = probing; probe_open = true }
    else if above r p.shrink_above_ratio
    then record a { effective = max p.min_workers (a.effective - 1); state = degraded }
    else if below r p.grow_below_ratio
    then record a {
      effective = grown;
      state = if leb p.max_workers grown then healthy else degraded;
    }
    else a

unfoldable pub recompute : ℕ → Admission → Admission
recompute mono a =
    if ltb mono (a.last_recompute + a.policy.recompute_time)
    then a
    else (let r = ratio a.policy mono a.samples in
        let a' = record a { last_recompute = mono; samples = trim a.policy mono a.samples } in
        if ltb r.samples a.policy.min_samples then a' else adjust r a')

unfoldable pub is_probing : PoolState → Bool
is_probing probing = true
is_probing s = false

-- the three gates before the budget, in their order
unfoldable pub gate : Admission → String → Option Refused
unfolding is_probing
gate a subject =
    if is_probing a.state && ltb 0 (length a.live)
    then some (pool_probing (length a.live))
    else elim (Dict.get a.lanes subject) [
      | some holder ↦ some (lane_busy subject holder)
      | none ↦
          if leb a.effective (length a.live)
          then some (pool_full (length a.live) a.effective)
          else none
    ]

-- `except BudgetRefused as exc: raise Refused(gate="budget")`; other errors pass through
unfoldable pub admit_error : LedgerError → AdmitError
admit_error (refused b) = refusal (over_budget b)
admit_error needs_observed_used = ledger_error needs_observed_used
admit_error os_error = ledger_error os_error

-- what `admit` does with the ledger's answer
unfoldable pub enter :
    Admission
    → Env
    → String
    → String
    → Ledger.Call Reservation
    → Admission × Result AdmitError Admitted
unfolding admit_error
enter a env run_id subject (f, err e) = (record a { ledger = f }, err (admit_error e))
enter a env run_id subject (f, ok r) =
    let admitted : Admitted = record {
      run_id = run_id;
      subject = subject;
      reservation = r;
      admitted_at = env.disk.now;
    } in
    (
      record a {
        ledger = f;
        lanes = Dict.set a.lanes subject run_id;
        live = Dict.set a.live run_id admitted;
      },
      ok admitted,
    )

unfoldable pub admit :
    Admission
    → Env
    → String
    → String
    → Option ℕ
    → Option ℕ
    → Option String
    → Admission × Result AdmitError Admitted
admit a env run_id subject amount observed_used resets_at =
    let b = recompute env.mono a in
    elim (gate b subject) [
      | some gate_no ↦ (b, err (refusal gate_no))
      | none ↦
          enter b env run_id subject
            (Ledger.reserve b.budget env.disk b.ledger run_id amount observed_used resets_at)
    ]

-- a successful probe reopens the door
unfoldable pub after_probe : PoolState → Bool → PoolState
after_probe probing true = degraded
after_probe s good = s

unfoldable pub release :
    Admission → Env → String → Bool → Option ℕ → Admission × Result LedgerError ℕ
release a env run_id good actual = elim (Dict.get a.live run_id) [
  | none ↦ (a, ok 0)
  | some admitted ↦
      let (f, paid) = Ledger.settle a.budget env.disk a.ledger admitted.reservation.id actual in
      (
        record a {
          ledger = f;
          lanes = Dict.remove a.lanes admitted.subject;
          live = Dict.remove a.live run_id;
          samples = record_outcome a.policy env.mono good a.samples;
          state = after_probe a.state good;
        },
        paid,
      )
]

unfoldable pub report : Admission → Env → String → ℕ → Admission × Result LedgerError (Unit {0})
report a env run_id actual = elim (Dict.get a.live run_id) [
  | none ↦ (a, ok tt)
  | some admitted ↦
      let (f, answer) = Ledger.report env.disk a.ledger admitted.reservation.id actual in
      (record a { ledger = f }, elim answer [ ok r ↦ ok tt | err e ↦ err e ])
]
