-- ===== src/Budget/Gate.antt =====
-- bothy/budget.py, BudgetLedger.reserve: what a grant promises and when a refusal comes.
use bothy.Common.{
  ℕ, ◌+◌, ◌≤◌, ◌<◌, String, ◌≡◌, true, false, Option, some, arith, Bool-cases, Option-cases, inl,
  inr, lt→ltb, ◌∙◌, ◌↔◌, ltb, ltb-false→le, str_eq_refl, ok, err, value_or,
}
use bothy.Dict
use bothy.Budget.Policy.{BudgetPolicy, ceiling, per_run, cap_name, unit}
use bothy.Budget.Ledger.{
  Reservation, BudgetRefused, LedgerError, State, File, saved, Env, refused, os_error, load, save,
  outstanding, current, base, new_reservation, hold, reserve,
}
use bothy.Budget.Cap.{outstanding-add, held-new}

-- What a granted reservation leaves behind: it is in the file, and the trusted figure and all the
-- file's reservations together fit the ceiling.
pub record IsGrant (p : BudgetPolicy) (used : ℕ) (r : Reservation) (after : File) : Type 0 where
  pub recorded : Dict.get (load 0 after).reservations r.id ≡ some r
  pub fits : used + outstanding (load 0 after) ≤ ceiling p

module _ (env : Env) (f : File) where
  save_stored :
      {A : Type 0} → env.disk_ok ≡ true → (s : State) (a : A) → save env f s a ≡ (saved s, ok a)
  unfolding save
  save_stored e s a = rw e

  save_failed :
      {A : Type 0} → env.disk_ok ≡ false → (s : State) (a : A) → save env f s a ≡ (f, err os_error)
  unfolding save
  save_failed e s a = rw e

abbrev refusal : BudgetPolicy → State → ℕ → ℕ → Option String → BudgetRefused
refusal p s want used resets_at = record {
  cap = cap_name p;
  limit = ceiling p;
  current = used + outstanding s;
  requested = want;
  unit = unit p;
  resets_at = resets_at;
}

module _ (p : BudgetPolicy) (env : Env) (f : File) (run_id : String) where
  abbrev granted : ℕ → Reservation
  granted want = new_reservation p env run_id want

  module _ (s : State) (want used : ℕ) (resets_at : Option String) where
    abbrev total : ℕ
    total = used + outstanding s + want

    hold_over :
        ltb (ceiling p) total ≡ true
        → hold p env f s run_id want used resets_at
          ≡ (f, err (refused (refusal p s want used resets_at)))
    unfolding hold
    hold_over h = rw h

    hold_under :
        ltb (ceiling p) total ≡ false
        → hold p env f s run_id want used resets_at
          ≡ save env f
              (record s { reservations = Dict.set s.reservations env.fresh_id (granted want) })
              (granted want)
    unfolding hold
    hold_under h = rw h

    IsGrant-saved :
        ltb (ceiling p) total ≡ false
        → IsGrant p used (granted want) (
            saved (record s { reservations = Dict.set s.reservations env.fresh_id (granted want) }))
    unfolding load outstanding
    IsGrant-saved under = record {
      recorded = rw (Dict.get-set, str_eq_refl);
      fits = omega (
        arith,
        outstanding-add s (granted want),
        held-new p env run_id want,
        ltb-false→le _ _ under,
      );
    }

    hold-IsGrant :
        (r : Reservation)
        → (hold p env f s run_id want used resets_at).1 ≡ ok r
        → IsGrant p used r (hold p env f s run_id want used resets_at).0
    hold-IsGrant r h = elim (Bool-cases (ltb (ceiling p) total)) [
      | inl over ↦ cc (h, hold_over over)
      | inr under ↦ elim (Bool-cases env.disk_ok) [
        | inl e ↦
            let call = hold_under under ∙ save_stored env f e _ _ in
            let same : r ≡ granted want = cc (h, call) in rw (call, same) (IsGrant-saved under)
        | inr e ↦ cc (h, hold_under under, save_failed env f e _ _)
      ]
    ]

    refused-lt :
        (b : BudgetRefused)
        → (hold p env f s run_id want used resets_at).1 ≡ err (refused b)
        → ceiling p < total
    unfolding hold save
    refused-lt b h = ground arith

    hold-refused_iff :
        ((b : BudgetRefused) × ((hold p env f s run_id want used resets_at).1 ≡ err (refused b)))
        ↔ (ceiling p < total)
    hold-refused_iff = (
      λ t. refused-lt t.0 t.1,
      λ over. (refusal p s want used resets_at, rw (hold_over (lt→ltb _ _ over))),
    )

    hold-err :
        (e : LedgerError)
        → (hold p env f s run_id want used resets_at).1 ≡ err e
        → (hold p env f s run_id want used resets_at).0 ≡ f
    unfolding hold save
    hold-err e h = ground arith

  -- A granted reservation is in the file afterwards, and the figure that the mode trusts (the
  -- accrued dollars, or the percent that Codex reports) and all the file's reservations, the new
  -- one among them, together fit the ceiling.
  pub reserve-IsGrant :
      (amount observed_used : Option ℕ) (resets_at : Option String) (used : ℕ) (r : Reservation)
      → base p (current p env.now f) observed_used ≡ some used
      → (reserve p env f run_id amount observed_used resets_at).1 ≡ ok r
      → IsGrant p used r (reserve p env f run_id amount observed_used resets_at).0
  unfolding reserve
  reserve-IsGrant amount observed_used resets_at used r trusted h =
      rw (trusted, reserve)
        (hold-IsGrant (current p env.now f) (value_or amount (per_run p)) used resets_at r
          (rw (trusted, reserve) at h))

  -- Once the trusted figure is known, the gate refuses exactly when that figure, what live
  -- reservations hold and the amount wanted (the policy's per-run amount if none is named) pass
  -- the ceiling.
  pub reserve-refused_iff :
      (amount observed_used : Option ℕ) (resets_at : Option String) (used : ℕ)
      → base p (current p env.now f) observed_used ≡ some used
      → ((b : BudgetRefused) × ((reserve p env f run_id amount observed_used resets_at).1
            ≡ err (refused b)))
        ↔ (ceiling p < used + outstanding (current p env.now f) + value_or amount (per_run p))
  unfolding reserve
  reserve-refused_iff amount observed_used resets_at used trusted =
      rw (trusted, reserve)
        (hold-refused_iff (current p env.now f) (value_or amount (per_run p)) used resets_at)

  -- A call of `reserve` that raises, for whatever reason, leaves the file as it was.
  pub reserve-err-keeps :
      (amount observed_used : Option ℕ) (resets_at : Option String) (e : LedgerError)
      → (reserve p env f run_id amount observed_used resets_at).1 ≡ err e
      → (reserve p env f run_id amount observed_used resets_at).0 ≡ f
  unfolding reserve
  reserve-err-keeps amount observed_used resets_at e h =
      elim (Option-cases (base p (current p env.now f) observed_used)) [
        | inl unknown ↦ rw (unknown, reserve)
        | inr (used, trusted) ↦
            rw (trusted, reserve)
              (hold-err (current p env.now f) (value_or amount (per_run p)) used resets_at e
                (rw (trusted, reserve) at h))
      ]
