-- ===== src/Budget/Examples.antt =====
-- bothy/budget.py: tests, and the theorems at concrete ledgers.
use bothy.Common.{
  ◌+◌, ◌≤◌, ◌<◌, ◌≡◌, ◌↔◌, refl, true, false, none, some, List, [], ◌∷◌, arith, subst, sym, ap, ok,
  err,
}
use bothy.Dict
use bothy.Budget.Policy.{BudgetPolicy, api, subscription, ceiling, per_run, unit}
use bothy.Budget.Ledger.{
  held, Reservation, BudgetRefused, File, missing, saved, Env, refused, needs_observed_used, load,
  save, roll_day, outstanding, drop_expired, sweep, is_expired, current, base, hold, reserve,
  settle_run, expire_stale, save_if_any,
}
use bothy.Budget.Conservation.{
  Op, reserves, reports, expires, run, step, committed_in, AllHonest, Covers,
}
use bothy.Budget.Cap.{run-committed-le-ceiling}
use bothy.Budget.Gate.{IsGrant, reserve-IsGrant, reserve-refused_iff}

abbrev dollars : BudgetPolicy
dollars = record {
  mode = api;
  per_run_usd = 2000000;
  per_day_usd = 5000000;
  model_pricing = "default";
  per_run_percent = 2000000;
  ceiling_percent = 85000000;
  reservation_ttl = 3600000000;
}

abbrev percents : BudgetPolicy
percents = record dollars { mode = subscription }

abbrev noon : Env
noon = record { now = 1000; fresh_id = "res_a"; disk_ok = true }

abbrev later : Env
later = record { now = 3600002000; fresh_id = "res_b"; disk_ok = true }

abbrev held_a : Reservation
held_a = record {
  id = "res_a";
  run_id = "run_a";
  amount = 2000000;
  unit = "usd";
  reserved_at = 1000;
  expires_at = 3600001000;
  actual = 0;
}

abbrev one_held : File
one_held =
    saved
      (record { day = 0; accrued = 0; reservations = ("res_a", held_a) ∷ []; recovered = false })

reserve_first : reserve dollars noon missing "run_a" none none none ≡ (one_held, ok held_a)
unfolding reserve current load roll_day drop_expired sweep base hold outstanding ceiling per_run
    unit save Dict.set
reserve_first = refl

-- the day rolls over nothing here: the expired row is charged to the day, and its room is free
expire_charges : expire_stale dollars later one_held ≡ (
  saved (record { day = 0; accrued = 2000000; reservations = []; recovered = false }),
  ok (held_a ∷ []),
)
unfolding expire_stale load roll_day drop_expired sweep is_expired save_if_any
expire_charges = refl

abbrev history : List (Env × Op)
history =
    (noon, reserves "run_a" none none none)
    ∷ (noon, reports "res_a" 1500000)
    ∷ (later, expires)
    ∷ (later, reserves "run_b" (some 4000000) none none)
    ∷ []

one_held-Covers : Covers one_held "res_a" 1500000
unfolding load Dict.get held
one_held-Covers r e = ground arith

history_honest : AllHonest dollars missing history
unfolding step
history_honest = (
  tt,
  (
    subst (λ g. Covers g "res_a" 1500000) (sym (ap (λ c. c.0) reserve_first)) one_held-Covers,
    (tt, (tt, tt)),
  ),
)

missing_within : committed_in missing ≤ ceiling dollars
unfolding load outstanding ceiling
missing_within = omega arith

run-committed-le-ceiling_example : committed_in (run dollars missing history) ≤ ceiling dollars
run-committed-le-ceiling_example =
    run-committed-le-ceiling dollars missing history refl history_honest missing_within

first_ok : (reserve dollars noon missing "run_a" none none none).1 ≡ ok held_a
first_ok = rw reserve_first

reserve-IsGrant_example :
    IsGrant dollars 0 held_a (reserve dollars noon missing "run_a" none none none).0
unfolding current load roll_day drop_expired sweep base
reserve-IsGrant_example =
    reserve-IsGrant dollars noon missing "run_a" none none none 0 held_a refl first_ok

reserve-refused_iff_example :
    ((b : BudgetRefused) × ((reserve percents later one_held "run_b" none (some 84000000) none).1
        ≡ err (refused b)))
    ↔ (85000000 < 84000000 + 0 + 2000000)
unfolding current load roll_day drop_expired sweep base outstanding is_expired ceiling per_run
reserve-refused_iff_example =
    reserve-refused_iff percents later one_held "run_b" none (some 84000000) none 84000000 refl

blind : (reserve percents later one_held "run_b" none none none).1 ≡ err needs_observed_used
unfolding reserve base
blind = refl

one_held-IsUnique : Dict.IsUnique (load 0 one_held).reservations
unfolding load Dict.get
one_held-IsUnique = (refl, tt)

settled_ok : (settle_run dollars later one_held "run_a").1 ≡ ok (held_a ∷ [])
unfolding settle_run load roll_day sweep save_if_any save
settled_ok = refl

expired_ok : (expire_stale dollars noon one_held).1 ≡ ok []
unfolding expire_stale load roll_day drop_expired sweep is_expired save_if_any
expired_ok = refl
