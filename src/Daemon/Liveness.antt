-- ===== src/Daemon/Liveness.antt =====
-- bothy/daemon.py, drain and _drain_loop: what becomes of a wake over the passes of the queue.
use bothy.Common.{
  length, ℕ, ◌+◌, ◌≤◌, ◌<◌, String, true, false, Option, none, some, List, [], ◌∷◌, ◌++◌, ◌≡◌, ◌⊎◌,
  inl, inr, refl, ap, sym, ◌∙◌, arith, subst,
}
use bothy.Schedule.Job.{Stamp, instant, garbled}
use bothy.Daemon.Queue.{Wake}
use bothy.Daemon.Report.{is_action, is_drove, is_going}
use bothy.Daemon.Pass.{Limits, Pass, longest_gap, time_until}
use bothy.Daemon.Drain.{Outside, drain}
use bothy.Daemon.Rows.{row, row-append}
use bothy.Daemon.Others.{Silent}
use bothy.Daemon.Waits.{left, Waits}
use bothy.Daemon.Loop.{drain-own, drain-other}

-- what comes before a pass, and what is outside it: the time since the last one, and the wakes that
-- came
pub record Round : Type 0 where
  pub rest : ℕ
  pub arrived : List Wake
  pub out : Outside

unfoldable pub pass : Limits → Round → List Wake → ℕ → Pass
pass limits r queue now = drain r.out limits (queue ++ r.arrived) (now + r.rest)

-- the queue after one pass of each round
unfoldable pub passes : Limits → List Round → List Wake → ℕ → List Wake
passes limits [] queue now = queue
passes limits (r ∷ rounds) queue now =
    let p = pass limits r queue now in passes limits rounds p.queue p.now

-- the pass comes at least the longest gap after the last one, gets the lease, and is neither stopped
-- nor left by an exception; and no wake that comes has the id
abbrev pub IsSmooth : Limits → String → Round → List Wake → ℕ → Type 0
IsSmooth limits i r queue now =
    (longest_gap ≤ r.rest)
    × (row i r.arrived ≡ [])
    × Silent i r.out
    × (r.out.lease_busy ≡ false)
    × (is_going (pass limits r queue now).flow ≡ true)

abbrev pub AreSmooth : Limits → String → List Round → List Wake → ℕ → Type 0
AreSmooth limits i [] queue now = Unit
AreSmooth limits i (r ∷ rounds) queue now =
    IsSmooth limits i r queue now
    × AreSmooth limits i rounds (pass limits r queue now).queue (pass limits r queue now).now

-- the queue has the wake, processed
abbrev pub IsSettled : String → List Wake → Type 0
IsSettled i queue = (v : Wake) × (row i queue ≡ (v ∷ [])) × (v.processed ≡ true)

with_arrived :
    (i : String) (v : Wake) (queue arrived : List Wake)
    → row i queue ≡ (v ∷ [])
    → row i arrived ≡ []
    → row i (queue ++ arrived) ≡ (v ∷ [])
with_arrived i v queue arrived h none_here = row-append i queue arrived ∙ rw (h, none_here) refl

passes-done :
    (limits : Limits) (i : String) (rounds : List Round) (queue : List Wake) (now : ℕ) (v : Wake)
    → AreSmooth limits i rounds queue now
    → row i queue ≡ (v ∷ [])
    → v.id ≡ i
    → v.processed ≡ true
    → IsSettled i (passes limits rounds queue now)
unfolding passes pass
passes-done limits i [] queue now v smooth h at done = (v, h, done)
passes-done limits i (r ∷ rounds) queue now v ((gap, here, silent, free, on), smooth) h at done =
    passes-done limits i rounds _ _ v smooth
      (drain-other r.out limits i v _ _ silent done at (with_arrived i v queue r.arrived h here)) at
      done

due_after :
    (s : Option Stamp) (now rest : ℕ)
    → time_until s now ≤ longest_gap
    → longest_gap ≤ rest
    → time_until s (now + rest) ≡ 0
unfolding time_until
due_after none now rest h g = refl
due_after (some garbled) now rest h g = refl
due_after (some (instant at)) now rest h g = omega (arith, h, g)

-- what is left of a wake after a pass
abbrev pub Leaves : Limits → Wake → ℕ → String → Pass → Type 0
Leaves limits w t i p =
    (v : Wake) × (row i p.queue ≡ (v ∷ []))
    × (v.id ≡ i)
    × ((v.processed ≡ true) ⊎ Waits limits w t v p.now)

pass-Leaves :
    (limits : Limits) (i : String) (r : Round) (queue : List Wake) (now : ℕ) (w : Wake)
    → IsSmooth limits i r queue now
    → row i queue ≡ (w ∷ [])
    → w.id ≡ i
    → w.processed ≡ false
    → is_drove w ≡ false
    → Leaves limits w (now + r.rest) i (pass limits r queue now)
unfolding pass
pass-Leaves limits i r queue now w (gap, here, silent, free, on) h at waiting mine =
    let own =
      drain-own r.out limits w (now + r.rest) (subst (λ j. Silent j r.out) (sym at) silent) waiting
        mine (queue ++ r.arrived) free
        (subst (λ j. row j (queue ++ r.arrived) ≡ (w ∷ [])) (sym at)
          (with_arrived i w queue r.arrived h here))
        on in
    (
      own.0,
      subst
          (λ j. row j (drain r.out limits (queue ++ r.arrived) (now + r.rest)).queue ≡ (own.0 ∷ []))
          at own.1.0,
      own.1.1 ∙ at,
      own.2,
    )

passes-soon :
    (limits : Limits) (i : String) (rounds : List Round) (queue : List Wake) (now : ℕ) (w : Wake)
    → row i queue ≡ (w ∷ [])
    → w.id ≡ i
    → w.processed ≡ false
    → is_drove w ≡ false
    → time_until w.next_attempt_at now ≤ longest_gap
    → left limits w < length rounds
    → AreSmooth limits i rounds queue now
    → IsSettled i (passes limits rounds queue now)
unfolding passes is_drove
passes-soon limits i [] queue now w h at waiting mine near enough smooth = ground (arith, enough)
passes-soon limits i (r ∷ rounds) queue now w h at waiting mine near enough (first, smooth) =
    let (v, found, same, state) = pass-Leaves limits i r queue now w first h at waiting mine in
    elim state [
      | inl done ↦ passes-done limits i rounds _ _ v smooth found same done
      | inr waits ↦
          passes-soon limits i rounds _ _ v found same waits.unprocessed
            (ap is_action waits.same_drove ∙ mine) waits.soon
            (omega
              (arith, enough, waits.fewer (due_after w.next_attempt_at now r.rest near first.0)))
            smooth
    ]

-- A wake for the runner that is pending and whose id no other wake has is processed after more passes
-- than it has attempts left, with one to spare, where the passes come at least the longest gap apart,
-- each has the lease and is neither stopped nor left by an exception. It does not matter how the runs
-- end, how long they take, what other wakes come, or what is stored as the next attempt of the wake.
pub passes-IsSettled :
    (limits : Limits) (i : String) (rounds : List Round) (queue : List Wake) (now : ℕ) (w : Wake)
    → row i queue ≡ (w ∷ [])
    → w.id ≡ i
    → w.processed ≡ false
    → is_drove w ≡ false
    → left limits w + 1 < length rounds
    → AreSmooth limits i rounds queue now
    → IsSettled i (passes limits rounds queue now)
unfolding passes is_drove
passes-IsSettled limits i [] queue now w h at waiting mine enough smooth = ground (arith, enough)
passes-IsSettled limits i (r ∷ rounds) queue now w h at waiting mine enough (first, smooth) =
    let (v, found, same, state) = pass-Leaves limits i r queue now w first h at waiting mine in
    elim state [
      | inl done ↦ passes-done limits i rounds _ _ v smooth found same done
      | inr waits ↦
          passes-soon limits i rounds _ _ v found same waits.unprocessed
            (ap is_action waits.same_drove ∙ mine) waits.soon (omega (arith, enough, waits.no_more))
            smooth
    ]
