-- ===== src/Budget/Conservation.antt =====
-- bothy/budget.py in api mode: spent and reserved money together, whatever the calls and their order.
use bothy.Common.{
  ℕ, ◌+◌, ◌≤◌, max, String, ◌≡◌, refl, Bool, Option, some, List, [], ◌∷◌, arith, Bool-cases, inl,
  inr,
}
use bothy.Dict
use bothy.Dict.{Dict}
use bothy.Budget.Policy.{BudgetPolicy, api}
use bothy.Budget.Ledger.{
  Reservation, State, File, missing, corrupt, saved, Env, held, load, save, roll_day, outstanding,
  accrue, reap, sweep, drop_expired, reserve, report, settle, settle_run, expire_stale, save_if_any,
}

-- what is spent and what is promised
abbrev pub committed : State → ℕ
committed s = s.accrued + outstanding s

abbrev pub rows_held : Dict Reservation → ℕ
rows_held rows = Dict.sum_values held rows

module _ (p : BudgetPolicy) (is_api : p.mode ≡ api) where
  pub accrue-api : (accrued spent : ℕ) → accrue p accrued spent ≡ accrued + spent
  unfolding accrue
  accrue-api accrued spent = rw is_api

  reap_sum :
      (gone : Reservation → Bool) (accrued : ℕ) (rows : Dict Reservation)
      → (reap p gone accrued rows).accrued + rows_held (reap p gone accrued rows).rows
        ≡ accrued + rows_held rows
  unfolding reap Dict.sum_values
  reap_sum gone accrued [] = refl
  reap_sum gone accrued ((k, r) ∷ rows) = elim (Bool-cases (gone r)) [
    | inl e ↦ rw (e, is_api) (omega (arith, reap_sum gone (accrued + max r.amount r.actual) rows))
    | inr e ↦ rw e (omega (arith, reap_sum gone accrued rows))
  ]

  -- Whatever rows a pass drops, spent and reserved money together stay what they were.
  pub sweep-committed :
      (gone : Reservation → Bool) (s : State) → committed (sweep p gone s).0 ≡ committed s
  unfolding sweep outstanding
  sweep-committed gone s = reap_sum gone s.accrued s.reservations

  drop_expired-committed : (now : ℕ) (s : State) → committed (drop_expired p now s).0 ≡ committed s
  drop_expired-committed now s = unfold drop_expired in sweep-committed _ s

committed-roll_day-le : (now : ℕ) (s : State) → committed (roll_day now s) ≤ committed s
unfolding roll_day outstanding
committed-roll_day-le now s = ground arith

pub data Op : Type 0 where
  reserves : String → Option ℕ → Option ℕ → Option String → Op
  reports : String → ℕ → Op
  settles : String → Option ℕ → Op
  settles_run : String → Op
  expires : Op

-- What one call leaves in the file.
unfoldable pub step : BudgetPolicy → Env → File → Op → File
step p env f (reserves run_id amount observed_used resets_at) =
    (reserve p env f run_id amount observed_used resets_at).0
step p env f (reports id actual) = (report env f id actual).0
step p env f (settles id actual) = (settle p env f id actual).0
step p env f (settles_run run_id) = (settle_run p env f run_id).0
step p env f expires = (expire_stale p env f).0

unfoldable pub run : BudgetPolicy → File → List (Env × Op) → File
unfolding step
run p f [] = f
run p f ((env, op) ∷ rest) = run p (step p env f op) rest

-- The spend that a caller names stays within what its reservation holds.
abbrev pub Covers : File → String → ℕ → Type 0
Covers f id spent =
    (r : Reservation) → Dict.get (load 0 f).reservations id ≡ some r → spent ≤ held r

abbrev pub IsHonest : File → Op → Type 0
IsHonest f (reports id actual) = Covers f id actual
IsHonest f (settles id (some actual)) = Covers f id actual
IsHonest f _ = Unit {0}

abbrev pub AllHonest : BudgetPolicy → File → List (Env × Op) → Type 0
AllHonest p f [] = Unit {0}
AllHonest p f ((env, op) ∷ rest) = IsHonest f op × AllHonest p (step p env f op) rest

abbrev pub committed_in : File → ℕ
committed_in f = committed (load 0 f)

pub committed-load : (now : ℕ) (f : File) → committed (load now f) ≡ committed_in f
unfolding load outstanding
committed-load now missing = refl
committed-load now corrupt = refl
committed-load now (saved s) = refl

pub reservations-load : (now : ℕ) (f : File) → (load now f).reservations ≡ (load 0 f).reservations
unfolding load
reservations-load now missing = refl
reservations-load now corrupt = refl
reservations-load now (saved s) = refl

pub reservations-roll_day : (now : ℕ) (s : State) → (roll_day now s).reservations ≡ s.reservations
unfolding roll_day
reservations-roll_day now s = ground arith

pub rolled-committed-le :
    (now : ℕ) (f : File) → committed (roll_day now (load now f)) ≤ committed_in f
rolled-committed-le now f =
    omega (arith, committed-roll_day-le now (load now f), committed-load now f)

module _ (bound : ℕ) (env : Env) (f : File) (before : committed_in f ≤ bound) where
  pub save-committed :
      {A : Type 0} (s : State) (a : A)
      → committed s ≤ bound
      → committed_in (save env f s a).0 ≤ bound
  unfolding save load
  save-committed s a h = elim (Bool-cases env.disk_ok) [ inl e ↦ rw e h | inr e ↦ rw e before ]

  pub save_if_any-committed :
      (s : State) (rs : List Reservation)
      → committed s ≤ bound
      → committed_in (save_if_any env f (s, rs)).0 ≤ bound
  unfolding save_if_any
  save_if_any-committed s [] h = before
  save_if_any-committed s (r ∷ rs) h = save-committed s (r ∷ rs) h
