-- ===== src/Daemon/Order.antt =====
-- bothy/daemon.py, drain: what the runner is asked for in a pass, and in what order.
use bothy.Common.{
  subst, ◌++◌, ℕ, ◌≤◌, false, List, [], ◌∷◌, ◌≡◌, inl, inr, refl, ap, sym, ◌∙◌, arith, if_elim,
  if◌then◌else◌,
}
use bothy.Daemon.Queue.{Wake, pending}
use bothy.Daemon.Report.{is_going}
use bothy.Daemon.Pass.{Limits, Pass}
use bothy.Daemon.Drain.{Outside, turn, loop, drain, fresh}
use bothy.Daemon.Runs.{
  Run, runs_before, lanes_after, full_after, Runs, no_runs, passed_over, has_run, runs_of,
}
use bothy.Daemon.Asked.{Asked, turn-Asked}

module _ (out : Outside) (limits : Limits) (from : ℕ) where
  -- the runs from `p` to `q`, of some of these wakes
  abbrev Shown : Pass → List Wake → Pass → Type 0
  Shown p ws q =
      (runs : List Run) × ((later : List Run)
        → runs_before q.calls later ≡ runs_before p.calls (runs ++ later))
      × Runs limits out.words from p.busy_lanes p.pool_exhausted ws runs

  Shown-after :
      (w : Wake) (ws : List Wake) (p t q : Pass)
      → Asked out limits from w p t
      → Shown t ws q
      → Shown p (w ∷ ws) q
  Shown-after w ws p t q (inl (calls, lanes, full, now)) (runs, ran_then, picked) = (
    runs,
    (λ later. ran_then later ∙ calls (runs ++ later)),
    passed_over (
        subst (λ b. Runs limits out.words from p.busy_lanes b ws runs) full
          (subst (λ ls. Runs limits out.words from ls t.pool_exhausted ws runs) lanes picked)),
  )
  Shown-after w ws p t q (inr (run, may, free, room, (calls, lanes, full, now)))
        (runs, ran_then, picked) =
      let after_run =
        subst (λ b. Runs limits out.words from (lanes_after run p.busy_lanes) b ws runs)
          (full ∙ ap (full_after run) room)
          (subst (λ ls. Runs limits out.words from ls t.pool_exhausted ws runs) lanes picked) in
      (
        run ∷ runs,
        (λ later. ran_then later ∙ calls (runs ++ later)),
        subst (λ b. Runs limits out.words from p.busy_lanes b (w ∷ ws) (run ∷ runs)) (sym room)
            (has_run may free after_run),
      )

  Asked-now : (w : Wake) (p t : Pass) → Asked out limits from w p t → p.now ≤ t.now
  Asked-now w p t (inl (calls, lanes, full, now)) = now
  Asked-now w p t (inr (run, may, free, room, (calls, lanes, full, now))) = now

  loop-Shown : (ws : List Wake) (p : Pass) → from ≤ p.now → Shown p ws (loop out limits ws p)
  unfolding loop
  loop-Shown [] p started = ([], (λ later. refl), no_runs)
  loop-Shown (w ∷ ws) p started =
      let t = turn out limits w p in
      let asked = turn-Asked out limits from w p started in
      if_elim (Shown p (w ∷ ws)) (out.stopping p) _ _ (λ _. ([], (λ later. refl), no_runs))
        (λ _. Shown-after w ws p t (if is_going t.flow then loop out limits ws t else t) asked (
          if_elim (Shown t ws) (is_going t.flow) _ _
            (λ _. loop-Shown ws t (omega (arith, started, Asked-now w p t asked)))
            (λ _. ([], (λ later. refl), no_runs))))

append_nil : {A : Type 0} (xs : List A) → xs ++ [] ≡ xs
append_nil [] = refl
append_nil (x ∷ xs) = ap (λ ys. x ∷ ys) (append_nil xs)

-- The runs of a pass are of wakes that were pending as it began and are not Drove's, in the order of
-- the queue and none twice. A wake that runs has refusals and attempts at its goal left, has not waited
-- too long, is due, and the run is asked for what the wake says. After a run that found its lane busy
-- no other in that lane is tried, and after one that found the pool full none is.
pub drain-Runs :
    (out : Outside) (limits : Limits) (queue : List Wake) (now : ℕ)
    → Runs limits out.words now [] false (pending queue) (runs_of (drain out limits queue now))
unfolding drain runs_of runs_before
drain-Runs out limits queue now =
    if_elim (λ q. Runs limits out.words now [] false (pending queue) (runs_of q)) out.lease_busy _ _
      (λ _. no_runs)
      (λ _.
        let (runs, shows, picked) =
          loop-Shown out limits now (pending queue) (fresh queue now) (omega arith) in
        subst (Runs limits out.words now [] false (pending queue))
          (sym (shows [] ∙ append_nil runs)) picked)
