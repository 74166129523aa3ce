-- ===== src/Cron/Search.antt =====
-- bothy/cronspec.py, next_after: the first matching minute of the horizon.
use bothy.Common.{
  ℕ, zero, suc, ◌+◌, ◌*◌, ◌≤◌, ◌<◌, Bool, true, false, Option, none, some, ◌≡◌, refl, sym, subst,
  ◌==◌, ==_iff, Bool-cases, inl, inr, arith,
}
use bothy.Cron.Spec.{Zone, CronSpec, matches, search_from, next_after}

-- the first of the minutes from `cursor` on, before `end`, that the test picks
abbrev pub IsFirst : (ℕ → Bool) → ℕ → ℕ → ℕ → Type 0
IsFirst test cursor end m =
    (cursor ≤ m) × (m < end) × (test m ≡ true) × ((k : ℕ) → cursor ≤ k → k < m → test k ≡ false)

-- what the loop finds
abbrev pub Finds : (ℕ → Bool) → ℕ → ℕ → Option ℕ → Type 0
Finds test cursor end (some m) = IsFirst test cursor end m
Finds test cursor end none = (k : ℕ) → cursor ≤ k → k < end → test k ≡ false

from_next :
    (test : ℕ → Bool) (cursor k : ℕ)
    → test cursor ≡ false
    → (suc cursor ≤ k → test k ≡ false)
    → cursor ≤ k
    → test k ≡ false
from_next test cursor k here later low = elim (Bool-cases (k == cursor)) [
  | inl same ↦ subst (λ m. test m ≡ false) (sym ((==_iff k cursor).0 same)) here
  | inr other ↦ later (ground (arith, other))
]

Finds-later :
    (test : ℕ → Bool) (cursor end : ℕ) (o : Option ℕ)
    → test cursor ≡ false
    → Finds test (suc cursor) end o
    → Finds test cursor end o
Finds-later test cursor end none here h =
    λ k low high. from_next test cursor k here (λ above. h k above high) low
Finds-later test cursor end (some m) here h = (
  omega arith,
  h.1,
  h.2,
  λ k low high. from_next test cursor k here (λ above. h.3 k above high) low,
)

search_from-Finds :
    (test : ℕ → Bool) (rounds cursor end : ℕ)
    → cursor + rounds ≡ end
    → Finds test cursor end (search_from test rounds cursor)
unfolding search_from
search_from-Finds test zero cursor end e = λ k low high. absurd (omega arith)
search_from-Finds test (suc rounds) cursor end e = elim (Bool-cases (test cursor)) [
  | inl here ↦
      rw (here, search_from) (omega arith, omega arith, here, λ k low high. absurd (omega arith))
  | inr later ↦
      rw (later, search_from)
        (Finds-later test cursor end (search_from test rounds (suc cursor)) later
          (search_from-Finds test rounds (suc cursor) end (omega arith)))
]

-- A search answers with the first matching minute behind the moment, on the zone's wall clock and
-- within the horizon; and with nothing exactly where no minute of the horizon matches.
pub next_after-Finds :
    (zone : Zone) (c : CronSpec) (horizon_days moment : ℕ)
    → Finds
        (λ m. matches c (zone.civil m))
        (suc (zone.local moment))
        (suc (zone.local moment) + horizon_days * 1440)
        (next_after zone c horizon_days moment)
unfolding next_after
next_after-Finds zone c horizon_days moment =
    search_from-Finds (λ m. matches c (zone.civil m)) (horizon_days * 1440)
      (suc (zone.local moment)) _ refl
