-- ===== src/Budget/Cap.antt =====
-- bothy/budget.py in api mode: the cap holds over every history of calls.
use bothy.Common.{
  ℕ, ◌+◌, ◌≤◌, String, ◌≡◌, false, Option, none, some, List, [], ◌∷◌, arith, Bool-cases,
  Option-cases, inl, inr, ltb, ltb-false→le, value_or,
}
use bothy.Dict
use bothy.Budget.Policy.{BudgetPolicy, api, ceiling, per_run}
use bothy.Budget.Ledger.{
  Reservation, State, File, Env, held, load, roll_day, outstanding, current, base, new_reservation,
  hold, reserve, report, settle, settle_run, expire_stale, drop_expired, accrue,
}
use bothy.Budget.Conservation.{
  accrue-api, sweep-committed, committed, committed_in, committed-load, reservations-load,
  reservations-roll_day, rolled-committed-le, save-committed, save_if_any-committed, Op, reserves,
  reports, settles, settles_run, expires, step, run, Covers, IsHonest, AllHonest,
}

base-api :
    (p : BudgetPolicy)
    → p.mode ≡ api
    → (s : State) (observed_used : Option ℕ) → base p s observed_used ≡ some s.accrued
unfolding base
base-api p is_api s observed_used = rw is_api

held-report :
    (r : Reservation) (actual : ℕ) → actual ≤ held r → held (record r { actual = actual }) ≤ held r
unfolding held
held-report r actual h = omega arith

pub held-new :
    (p : BudgetPolicy) (env : Env) (run_id : String) (want : ℕ)
    → held (new_reservation p env run_id want) ≡ want
unfolding held
held-new p env run_id want = omega arith

actual-le-held : (r : Reservation) → r.actual ≤ held r
unfolding held
actual-le-held r = omega arith

pub outstanding-add :
    (s : State) (r : Reservation)
    → outstanding (record s { reservations = Dict.set s.reservations r.id r })
      ≤ outstanding s + held r
unfolding outstanding
outstanding-add s r = Dict.sum_values-set-le held s.reservations r.id r

hold-room :
    (p : BudgetPolicy) (env : Env) (s : State) (run_id : String) (want : ℕ)
    → ltb (ceiling p) (s.accrued + outstanding s + want) ≡ false
    → let r = new_reservation p env run_id want in
      committed (record s { reservations = Dict.set s.reservations r.id r }) ≤ ceiling p
hold-room p env s run_id want under =
    let r = new_reservation p env run_id want in
    omega (arith, outstanding-add s r, held-new p env run_id want, ltb-false→le _ _ under)

outstanding-report :
    (s : State) (id : String) (r : Reservation) (actual : ℕ)
    → Dict.get s.reservations id ≡ some r
    → actual ≤ held r
    → outstanding
        (record s { reservations = Dict.set s.reservations id (record r { actual = actual }) })
      ≤ outstanding s
unfolding outstanding
outstanding-report s id r actual e h =
    let r' = record r { actual = actual } in
    omega (arith, Dict.sum_values-set-present held s.reservations id r' r e, held-report r actual h)

outstanding-remove :
    (s : State) (id : String) (r : Reservation) (accrued : ℕ)
    → Dict.get s.reservations id ≡ some r
    → outstanding (record s { accrued = accrued; reservations = Dict.remove s.reservations id })
        + held r
      ≤ outstanding s
unfolding outstanding
outstanding-remove s id r accrued e = Dict.sum_values-remove-present held s.reservations id r e

module _ (p : BudgetPolicy) (is_api : p.mode ≡ api) (env : Env) (f : File)
    (before : committed_in f ≤ ceiling p) where
  current-committed-le : committed (current p env.now f) ≤ committed_in f
  unfolding current drop_expired
  current-committed-le = omega (
    arith,
    sweep-committed p is_api _ (roll_day env.now (load env.now f)),
    rolled-committed-le env.now f,
  )

  hold-committed :
      (s : State) (run_id : String) (want : ℕ) (resets_at : Option String)
      → committed_in (hold p env f s run_id want s.accrued resets_at).0 ≤ ceiling p
  unfolding hold
  hold-committed s run_id want resets_at =
      elim (Bool-cases (ltb (ceiling p) (s.accrued + outstanding s + want))) [
        | inl over ↦ rw over before
        | inr under ↦
            rw under
              (save-committed (ceiling p) env f before _ _ (hold-room p env s run_id want under))
      ]

  report-committed :
      (id : String) (actual : ℕ)
      → Covers f id actual
      → committed_in (report env f id actual).0 ≤ ceiling p
  unfolding report
  report-committed id actual honest =
      elim (Option-cases (Dict.get (load env.now f).reservations id)) [
        | inl e ↦ rw (e, report) before
        | inr (r, e) ↦
            rw (e, report) (save-committed (ceiling p) env f before _ _ (report-room r e))
      ]
    where
      report-room :
          (r : Reservation)
          → Dict.get (load env.now f).reservations id ≡ some r
          → committed (record (load env.now f) {
            reservations = Dict.set (load env.now f).reservations id (record r { actual = actual });
          })
            ≤ ceiling p
      report-room r e = omega (
        arith,
        outstanding-report (load env.now f) id r actual e
            (honest r (rw (reservations-load env.now f) at e)),
        committed-load env.now f,
      )

  settle-committed :
      (id : String) (actual : Option ℕ)
      → IsHonest f (settles id actual)
      → committed_in (settle p env f id actual).0 ≤ ceiling p
  unfolding settle
  settle-committed id actual honest = elim (Option-cases (Dict.get rolled.reservations id)) [
    | inl e ↦
        rw (e, settle)
          (save-committed (ceiling p) env f before _ _
            (omega (arith, rolled-committed-le env.now f)))
    | inr (r, e) ↦
        rw (e, settle) (save-committed (ceiling p) env f before _ _ (settle-room actual honest r e))
  ]
    where
      rolled : State
      rolled = roll_day env.now (load env.now f)

      spent-le :
          (a : Option ℕ)
          → IsHonest f (settles id a)
          → (r : Reservation) → Dict.get rolled.reservations id ≡ some r
          → value_or a r.actual ≤ held r
      spent-le none h r e = actual-le-held r
      spent-le (some a) h r e =
          h r
            (rw (reservations-roll_day env.now (load env.now f), reservations-load env.now f) at e)

      settle-room :
          (a : Option ℕ)
          → IsHonest f (settles id a)
          → (r : Reservation) → Dict.get rolled.reservations id ≡ some r
          → committed (record rolled {
            accrued = accrue p rolled.accrued (value_or a r.actual);
            reservations = Dict.remove rolled.reservations id;
          })
            ≤ ceiling p
      settle-room a h r e = omega (
        arith,
        outstanding-remove rolled id r (accrue p rolled.accrued (value_or a r.actual)) e,
        spent-le a h r e,
        accrue-api p is_api rolled.accrued (value_or a r.actual),
        rolled-committed-le env.now f,
      )

  settle_run-committed : (run_id : String) → committed_in (settle_run p env f run_id).0 ≤ ceiling p
  unfolding settle_run
  settle_run-committed run_id = save_if_any-committed (ceiling p) env f before _ _ (
      omega (
        arith,
        sweep-committed p is_api _ (roll_day env.now (load env.now f)),
        rolled-committed-le env.now f,
      ))

  expire_stale-committed : committed_in (expire_stale p env f).0 ≤ ceiling p
  unfolding expire_stale drop_expired
  expire_stale-committed = save_if_any-committed (ceiling p) env f before _ _ (
      omega (
        arith,
        sweep-committed p is_api _ (roll_day env.now (load env.now f)),
        rolled-committed-le env.now f,
      ))

  reserve-committed :
      (run_id : String) (amount observed_used : Option ℕ) (resets_at : Option String)
      → committed_in (reserve p env f run_id amount observed_used resets_at).0 ≤ ceiling p
  unfolding reserve
  reserve-committed run_id amount observed_used resets_at =
      rw (base-api p is_api (current p env.now f) observed_used, reserve)
        (hold-committed (current p env.now f) run_id (value_or amount (per_run p)) resets_at)

  step-committed : (op : Op) → IsHonest f op → committed_in (step p env f op) ≤ ceiling p
  unfolding step
  step-committed (reserves run_id amount observed_used resets_at) h =
      reserve-committed run_id amount observed_used resets_at
  step-committed (reports id actual) h = report-committed id actual h
  step-committed (settles id actual) h = settle-committed id actual h
  step-committed (settles_run run_id) h = settle_run-committed run_id
  step-committed expires h = expire_stale-committed

-- In api mode, from a file whose spent and reserved money is within the daily ceiling, every
-- history of calls in which each reported or settled spend is within what its reservation holds
-- leaves spent and reserved money together within the daily ceiling, whatever the clock, the
-- minted ids and the disk do.
pub run-committed-le-ceiling :
    (p : BudgetPolicy) (f : File) (calls : List (Env × Op))
    → p.mode ≡ api
    → AllHonest p f calls
    → committed_in f ≤ ceiling p
    → committed_in (run p f calls) ≤ ceiling p
unfolding run
run-committed-le-ceiling p f [] is_api h before = before
run-committed-le-ceiling p f ((env, op) ∷ rest) is_api h before =
    run-committed-le-ceiling p (step p env f op) rest is_api h.1
      (step-committed p is_api env f before op h.0)
