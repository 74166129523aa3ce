-- ===== src/Pool/Recovery.antt =====
-- bothy/pool.py: how the pool climbs back.
use bothy.Common.{
  ℕ, ltb, sym, subst, ◌+◌, ◌≤◌, min, ◌≡◌, refl, ◌∙◌, true, false, List, [], ◌∷◌, arith, length,
}
use bothy.Pool.Outcomes.{PoolPolicy, Ratio, Sample, ratio, trim, above, below}
use bothy.Pool.Admission.{healthy, Admission, adjust, recompute}
use bothy.Pool.Invariant.{policy-adjust}

-- Recomputations in a row, each at its time and with the outcomes that are on record then.
unfoldable pub recompute_all : List (ℕ × List Sample) → Admission → Admission
recompute_all [] a = a
recompute_all ((mono, samples) ∷ rounds) a =
    recompute_all rounds (recompute mono (record a { samples = samples }))

-- The failure ratio is below the grow threshold, and above neither of the others.
abbrev pub IsCalm : PoolPolicy → Ratio → Type 0
IsCalm p r =
    (above r p.collapse_above_ratio ≡ false)
    × (above r p.shrink_above_ratio ≡ false)
    × (below r p.grow_below_ratio ≡ true)

-- Each comes when it is due, with evidence enough, and finds a calm ratio.
abbrev pub AllCalm : PoolPolicy → ℕ → List (ℕ × List Sample) → Type 0
AllCalm p last [] = Unit {0}
AllCalm p last ((mono, samples) ∷ rounds) =
    (last + p.recompute_time ≤ mono)
    × (p.min_samples ≤ (ratio p mono samples).samples)
    × IsCalm p (ratio p mono samples)
    × AllCalm p mono rounds

-- what a calm recomputation leaves
abbrev Grown : PoolPolicy → ℕ → Admission → Admission → Type 0
Grown p mono a b =
    (b.policy ≡ p)
    × (b.last_recompute ≡ mono)
    × (b.effective ≡ min p.max_workers (a.effective + 1))
    × (p.max_workers ≤ a.effective + 1 → b.state ≡ healthy)

adjust-Grown :
    (p : PoolPolicy) (mono : ℕ) (r : Ratio) (a : Admission)
    → a.policy ≡ p
    → a.last_recompute ≡ mono
    → IsCalm p r
    → Grown p mono a (adjust r a)
unfolding adjust
adjust-Grown p mono r a e at calm =
    (policy-adjust r a ∙ e, ground arith, ground arith, λ high. ground arith)

recompute-Grown :
    (mono : ℕ) (samples : List Sample) (a : Admission)
    → a.last_recompute + a.policy.recompute_time ≤ mono
    → a.policy.min_samples ≤ (ratio a.policy mono samples).samples
    → IsCalm a.policy (ratio a.policy mono samples)
    → Grown a.policy mono a (recompute mono (record a { samples = samples }))
unfolding recompute
recompute-Grown mono samples a due enough calm =
    let due_now : ltb mono (a.last_recompute + a.policy.recompute_time) ≡ false = ground arith in
    let is_enough : ltb (ratio a.policy mono samples).samples a.policy.min_samples ≡ false =
      ground arith in
    rw (due_now, is_enough, recompute)
      (adjust-Grown a.policy mono (ratio a.policy mono samples)
        (record a { last_recompute = mono; samples = trim a.policy mono samples }) refl refl calm)

round-Grown :
    (p : PoolPolicy) (last mono : ℕ) (samples : List Sample) (rest : List (ℕ × List Sample))
    (a : Admission)
    → a.policy ≡ p
    → a.last_recompute ≡ last
    → AllCalm p last ((mono, samples) ∷ rest)
    → Grown p mono a (recompute mono (record a { samples = samples }))
round-Grown p last mono samples rest a e at (due, enough, calm, later) =
    subst
      (λ q.
        a.last_recompute + q.recompute_time ≤ mono
        → q.min_samples ≤ (ratio q mono samples).samples
        → IsCalm q (ratio q mono samples)
        → Grown q mono a (recompute mono (record a { samples = samples })))
      e (recompute-Grown mono samples a) (subst (λ l. l + p.recompute_time ≤ mono) (sym at) due)
      enough calm

climbs :
    (p : PoolPolicy) (last : ℕ) (rounds : List (ℕ × List Sample)) (a : Admission)
    → a.policy ≡ p
    → a.last_recompute ≡ last
    → AllCalm p last rounds
    → 1 ≤ length rounds
    → a.effective ≤ p.max_workers
    → p.max_workers ≤ a.effective + length rounds
    → ((recompute_all rounds a).effective ≡ p.max_workers)
      × ((recompute_all rounds a).state ≡ healthy)
unfolding recompute_all
climbs p last [] a e at calm some_rounds low enough = absurd (omega arith)
climbs p last ((mono, samples) ∷ []) a e at calm some_rounds low enough =
    let (kept, at', size, well) = round-Grown p last mono samples [] a e at calm in
    (omega (arith, size), well (omega arith))
climbs p last ((mono, samples) ∷ r ∷ rounds) a e at calm some_rounds low enough =
    let (kept, at', size, well) = round-Grown p last mono samples (r ∷ rounds) a e at calm in
    climbs p mono (r ∷ rounds) (recompute mono (record a { samples = samples })) kept at' calm.3
      (omega arith) (omega (arith, size)) (omega (arith, size))

-- From a size that is at most the full one, and in whatever state, collapsed or probing too: after at
-- least one recomputation, and at least as many as there are workers to win back, each of which is due,
-- has evidence enough and finds a calm ratio, the pool has its full size and is `healthy`.
pub recompute_all-climbs :
    (rounds : List (ℕ × List Sample)) (a : Admission)
    → AllCalm a.policy a.last_recompute rounds
    → 1 ≤ length rounds
    → a.effective ≤ a.policy.max_workers
    → a.policy.max_workers ≤ a.effective + length rounds
    → ((recompute_all rounds a).effective ≡ a.policy.max_workers)
      × ((recompute_all rounds a).state ≡ healthy)
recompute_all-climbs rounds a = climbs a.policy a.last_recompute rounds a refl refl
