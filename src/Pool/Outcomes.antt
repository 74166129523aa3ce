-- ===== src/Pool/Outcomes.antt =====
-- bothy/pool.py, PoolPolicy and _Outcomes: the limits, and the recent outcomes that move the size.
-- Time is the monotonic clock in microseconds; a ratio is compared in ten-thousandths.
use bothy.Common.{
  ℕ, ◌+◌, ◌*◌, max, Bool, not, List, [], ◌∷◌, ◌++◌, leb, ltb, length, filter, take_last,
}

pub record PoolPolicy : Type 0 where
  pub max_workers : ℕ
  pub min_workers : ℕ
  pub recompute_time : ℕ
  pub window_time : ℕ
  pub recent_samples : ℕ
  pub grow_below_ratio : ℕ
  pub shrink_above_ratio : ℕ
  pub collapse_above_ratio : ℕ
  pub min_samples : ℕ

-- a time and whether the run went well
abbrev pub Sample : Type 0
Sample = ℕ × Bool

unfoldable pub recent_count : PoolPolicy → ℕ
recent_count p = max 1 p.recent_samples

-- `sample[0] >= now - window`, with the window moved to the other side
unfoldable pub trim : PoolPolicy → ℕ → List Sample → List Sample
unfolding recent_count
trim p now samples =
    take_last (recent_count p * 5) (filter (λ s. leb now (s.0 + p.window_time)) samples)

unfoldable pub record_outcome : PoolPolicy → ℕ → Bool → List Sample → List Sample
unfolding trim
record_outcome p now good samples = trim p now (samples ++ (now, good) ∷ [])

-- failures over total; no outcome at all is the ratio 0 / 1 of no samples
pub record Ratio : Type 0 where
  pub failures : ℕ
  pub total : ℕ
  pub samples : ℕ

unfoldable pub recent : PoolPolicy → ℕ → List Sample → List Sample
unfolding trim recent_count
recent p now samples = take_last (recent_count p) (trim p now samples)

ratio_of : List Sample → Ratio
ratio_of [] = record { failures = 0; total = 1; samples = 0 }
ratio_of (s ∷ ss) = record {
  failures = length (filter (λ x. not x.1) (s ∷ ss));
  total = length (s ∷ ss);
  samples = length (s ∷ ss);
}

unfoldable pub ratio : PoolPolicy → ℕ → List Sample → Ratio
unfolding recent ratio_of
ratio p now samples = ratio_of (recent p now samples)

-- failures / total > threshold, and <
unfoldable pub above : Ratio → ℕ → Bool
above r threshold = ltb (threshold * r.total) (r.failures * 10000)

unfoldable pub below : Ratio → ℕ → Bool
below r threshold = ltb (r.failures * 10000) (threshold * r.total)
