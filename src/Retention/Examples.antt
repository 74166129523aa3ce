-- ===== src/Retention/Examples.antt =====
-- bothy/retention.py: sweeps of a small queue, and an instance of the theorem.
use bothy.Common.{
  ℕ, ◌≡◌, refl, String, true, false, none, some, Option, [], ◌∷◌, arith, str_eq, if◌then◌else◌,
}
use bothy.Retention.Sweep.{
  QueuedWake, stays, sweep_wakes, last_entries, cut_to, unfinished, sweep_wakes-unfinished,
}

abbrev clock : String → Option ℕ
clock s = if str_eq s "dawn" then some 10 else if str_eq s "noon" then some 100 else none

abbrev waiting : QueuedWake
waiting = record { id = "w1"; processed = false; received_at = "dawn" }

abbrev settled : QueuedWake
settled = record { id = "w2"; processed = true; received_at = "noon" }

abbrev stale : QueuedWake
stale = record { id = "w3"; processed = true; received_at = "dawn" }

sweeps_stale : sweep_wakes clock 50 5 120 (waiting ∷ stale ∷ settled ∷ []) ≡ waiting ∷ settled ∷ []
unfolding sweep_wakes cut_to stays
sweeps_stale = refl

-- the bound on the entries takes the oldest wake, which nobody has worked on
drops_unfinished : sweep_wakes clock 50 1 120 (waiting ∷ settled ∷ []) ≡ settled ∷ []
unfolding sweep_wakes cut_to last_entries stays
drops_unfinished = refl

sweep_wakes-unfinished_example :
    unfinished (sweep_wakes clock 50 5 120 (waiting ∷ stale ∷ settled ∷ []))
    ≡ unfinished (waiting ∷ stale ∷ settled ∷ [])
unfolding stays
sweep_wakes-unfinished_example =
    sweep_wakes-unfinished clock 50 5 120 (waiting ∷ stale ∷ settled ∷ []) (omega arith)
