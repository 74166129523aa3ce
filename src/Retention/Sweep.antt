-- ===== src/Retention/Sweep.antt =====
-- bothy/retention.py, sweep: which wakes stay in the queue. Times are in microseconds; the reader of
-- a time stamp is Python's.
use bothy.Common.{
  ℕ, zero, suc, ◌+◌, ◌≤◌, String, Bool, true, Option, none, some, List, [], ◌∷◌, ◌≡◌, refl, arith,
  filter, length, ltb, not, if◌then◌else◌, take_last, le→ltb-false,
}

pub record QueuedWake : Type 0 where
  pub id : String
  pub processed : Bool
  pub received_at : String

-- unfinished, of no known age, or younger than the cutoff
unfoldable pub stays : (String → Option ℕ) → ℕ → ℕ → QueuedWake → Bool
stays instant cutoff now w =
    if not w.processed
    then true
    else elim (instant w.received_at) [ none ↦ true | some at ↦ ltb now (at + cutoff) ]

-- `kept[-n:]`, which is everything where `n` is zero
unfoldable pub last_entries : ℕ → List QueuedWake → List QueuedWake
last_entries zero ws = ws
last_entries (suc n) ws = take_last (suc n) ws

unfoldable pub cut_to : ℕ → List QueuedWake → List QueuedWake
cut_to n ws = if ltb n (length ws) then last_entries n ws else ws

unfoldable pub sweep_wakes : (String → Option ℕ) → ℕ → ℕ → ℕ → List QueuedWake → List QueuedWake
sweep_wakes instant cutoff entries now ws = cut_to entries (filter (stays instant cutoff now) ws)

abbrev pub unfinished : List QueuedWake → List QueuedWake
unfinished ws = filter (λ w. not w.processed) ws

unfinished-filter :
    (instant : String → Option ℕ) (cutoff now : ℕ) (ws : List QueuedWake)
    → unfinished (filter (stays instant cutoff now) ws) ≡ unfinished ws
unfolding stays
unfinished-filter instant cutoff now [] = refl
unfinished-filter instant cutoff now (w ∷ ws) =
    ground (arith, unfinished-filter instant cutoff now ws)

-- Where no more wakes are young or unfinished than the queue may hold, a sweep keeps every wake that
-- is not processed, in its order.
pub sweep_wakes-unfinished :
    (instant : String → Option ℕ) (cutoff entries now : ℕ) (ws : List QueuedWake)
    → length (filter (stays instant cutoff now) ws) ≤ entries
    → unfinished (sweep_wakes instant cutoff entries now ws) ≡ unfinished ws
unfolding sweep_wakes cut_to
sweep_wakes-unfinished instant cutoff entries now ws fits =
    rw (le→ltb-false entries (length (filter (stays instant cutoff now) ws)) fits)
      (unfinished-filter instant cutoff now ws)
