-- ===== src/Budget/Reaping.antt =====
-- bothy/budget.py: which reservations a sweep takes and which it leaves.
use bothy.Common.{
  ℕ, ◌≤◌, String, ◌≡◌, ◌≢◌, Bool, false, some, [], ◌∷◌, arith, Bool-cases, inl, inr, refl, sym, ◌↔◌,
  le→ltb-false, ◌∙◌, List, ok, str_eq_iff, ltb-false→le, str_eq, if◌then◌else◌,
}
use bothy.Dict
use bothy.Dict.{Dict}
use bothy.Budget.Policy.{BudgetPolicy}
use bothy.Budget.Ledger.{
  Call, Reservation, State, File, Env, load, roll_day, reap, sweep, is_expired, drop_expired,
  settle_run, expire_stale, save, save_if_any, accrue, held,
}
use bothy.Budget.Conservation.{reservations-load, reservations-roll_day}

module _ (p : BudgetPolicy) (gone : Reservation → Bool) (id : String) (r : Reservation) where
  reap_left :
      (accrued : ℕ) (rows : Dict Reservation)
      → Dict.get (reap p gone accrued rows).rows id ≡ some r
      → gone r ≡ false
  unfolding reap Dict.get
  reap_left accrued [] h = ground arith
  reap_left accrued ((k, x) ∷ rows) h =
      let next = if gone x then accrue p accrued (held x) else accrued in
      ground (arith, reap_left next rows)

  reap_kept :
      (accrued : ℕ) (rows : Dict Reservation)
      → Dict.get rows id ≡ some r
      → gone r ≡ false
      → Dict.get (reap p gone accrued rows).rows id ≡ some r
  unfolding reap Dict.get
  reap_kept accrued [] h live = ground arith
  reap_kept accrued ((k, x) ∷ rows) h live =
      let next = if gone x then accrue p accrued (held x) else accrued in
      ground (arith, reap_kept next rows)

  reap_found :
      (accrued : ℕ) (rows : Dict Reservation)
      → Dict.IsUnique rows
      → Dict.get (reap p gone accrued rows).rows id ≡ some r
      → Dict.get rows id ≡ some r
  unfolding reap Dict.get
  reap_found accrued [] u h = ground arith
  reap_found accrued ((k, x) ∷ rows) u h =
      let next = if gone x then accrue p accrued (held x) else accrued in
      ground (arith, reap_found next rows u.1, str_eq_iff k id)

module _ (p : BudgetPolicy) (gone : Reservation → Bool) where
  nothing_reaped :
      (accrued : ℕ) (rows : Dict Reservation)
      → (reap p gone accrued rows).reaped ≡ []
      → (reap p gone accrued rows).rows ≡ rows
  unfolding reap
  nothing_reaped accrued [] h = refl
  nothing_reaped accrued ((k, x) ∷ rows) h =
      let next = if gone x then accrue p accrued (held x) else accrued in
      ground (arith, nothing_reaped next rows)

module _ (env : Env) (f : File) where
  rows-save_if_any :
      (s : State) (rs reaped : List Reservation)
      → (rs ≡ [] → s.reservations ≡ (load 0 f).reservations)
      → (save_if_any env f (s, rs)).1 ≡ ok reaped
      → (load 0 (save_if_any env f (s, rs)).0).reservations ≡ s.reservations
  unfolding save_if_any save load
  rows-save_if_any s [] reaped same h = sym (same refl)
  rows-save_if_any s (r ∷ rs) reaped same h = elim (Bool-cases env.disk_ok) [
    | inl e ↦ rw e
    | inr e ↦ cc (rw e at h)
  ]

module _ (p : BudgetPolicy) (gone : Reservation → Bool) (env : Env) (f : File) where
  abbrev rolled : State
  rolled = roll_day env.now (load env.now f)

  abbrev swept : Call (List Reservation)
  swept = save_if_any env f (sweep p gone rolled)

  rows-rolled : rolled.reservations ≡ (load 0 f).reservations
  rows-rolled = reservations-roll_day env.now (load env.now f) ∙ reservations-load env.now f

  module _ (reaped : List Reservation) (done : swept.1 ≡ ok reaped) where
    rows-swept :
        (load 0 swept.0).reservations ≡ (reap p gone rolled.accrued rolled.reservations).rows
    unfolding sweep
    rows-swept =
        rows-save_if_any env f _ _ reaped
          (λ e. nothing_reaped p gone rolled.accrued rolled.reservations e ∙ rows-rolled) done

    swept_iff :
        (id : String) (r : Reservation)
        → Dict.IsUnique (load 0 f).reservations
        → (Dict.get (load 0 swept.0).reservations id ≡ some r)
          ↔ ((Dict.get (load 0 f).reservations id ≡ some r) × (gone r ≡ false))
    swept_iff id r u =
        rw (rows-swept, rows-rolled)
          (
            (λ h. (reap_found p gone id r _ _ u h, reap_left p gone id r _ _ h)),
            (λ h. reap_kept p gone id r _ _ h.0 h.1),
          )

-- After a run is settled by its id, a reservation is in the file exactly if it was there before
-- and belongs to another run. It holds for every call that returns; the rows' keys are distinct.
pub settle_run-get_iff :
    (p : BudgetPolicy) (env : Env) (f : File) (run_id : String) (settled : List Reservation)
    → (settle_run p env f run_id).1 ≡ ok settled
    → Dict.IsUnique (load 0 f).reservations
    → (id : String) (r : Reservation)
    → (Dict.get (load 0 (settle_run p env f run_id).0).reservations id ≡ some r)
      ↔ ((Dict.get (load 0 f).reservations id ≡ some r) × (r.run_id ≢ run_id))
unfolding settle_run
settle_run-get_iff p env f run_id settled done u id r =
    let (l, g) = swept_iff p (λ x. str_eq x.run_id run_id) env f settled done id r u in
    (
      λ h. ((l h).0, λ e. cc ((l h).1, (str_eq_iff r.run_id run_id).1 e)),
      λ h. g (h.0, not_same h.1),
    )
  where
    not_same : r.run_id ≢ run_id → str_eq r.run_id run_id ≡ false
    not_same ne = ground (arith, str_eq_iff r.run_id run_id)

-- After a sweep at the instant `env.now`, a reservation is in the file exactly if it was there
-- before and had not expired: none outlives its term, and none goes early. It holds for every
-- call that returns; the rows' keys are distinct.
pub expire_stale-get_iff :
    (p : BudgetPolicy) (env : Env) (f : File) (expired : List Reservation)
    → (expire_stale p env f).1 ≡ ok expired
    → Dict.IsUnique (load 0 f).reservations
    → (id : String) (r : Reservation)
    → (Dict.get (load 0 (expire_stale p env f).0).reservations id ≡ some r)
      ↔ ((Dict.get (load 0 f).reservations id ≡ some r) × (env.now ≤ r.expires_at))
unfolding expire_stale drop_expired
expire_stale-get_iff p env f expired done u id r =
    let (l, g) = swept_iff p (is_expired env.now) env f expired done id r u in
    (
      λ h. ((l h).0, ltb-false→le _ _ (unfold is_expired in (l h).1)),
      λ h. g (h.0, unfold is_expired in le→ltb-false _ _ h.1),
    )
