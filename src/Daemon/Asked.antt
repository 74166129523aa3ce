-- ===== src/Daemon/Asked.antt =====
-- bothy/daemon.py, drain: the run that the turn of a wake has, if it has one.
use bothy.Common.{
  ℕ, ◌≤◌, ◌<◌, String, false, Option, none, some, ◌∷◌, ◌≡◌, ◌⊎◌, inl, inr, refl, ap, arith, str_eq,
  any, if_elim, leb, ltb, Result, ok, err,
}
use bothy.Json.{Json}
use bothy.Schedule.Job.{Job, Fault}
use bothy.Daemon.Queue.{Wake, GivenUp, subject_of}
use bothy.Daemon.Prompt.{order_for}
use bothy.Daemon.Report.{Target, out_of_attempts, is_drove, known_full, max_attempts_of}
use bothy.Daemon.Pass.{
  Limits, Pass, marked, called, counted, failed, defer, retry_delay, abandon, too_old, spent,
  longest_gap, time_until,
}
use bothy.Daemon.Drain.{
  Outside, after_run, start, begin, begin_goal, take_up, ready, held, live, visit, turn,
}
use bothy.Daemon.Waits.{most_of, spent-attempts}
use bothy.Daemon.Runs.{Run, runs_before, MayRun}
use bothy.Daemon.Shows.{Quiet, Ran, quiet, settle-Ran}

module _ (out : Outside) (limits : Limits) (from : ℕ) (w : Wake) where
  -- the turn of the wake: nothing ran, or its order did
  abbrev pub Asked : Pass → Pass → Type 0
  Asked p q =
      Quiet p q
      ⊎ ((run : Run) × MayRun limits out.words from w run.0
          × (any (str_eq run.0.subject) p.busy_lanes ≡ false)
          × (p.pool_exhausted ≡ false)
          × Ran run p q)

  -- what holds of the wake before its run
  record Ready (p : Pass) : Type 0 where
    started : from ≤ p.now
    mine : is_drove w ≡ false
    some_left : w.attempts < limits.max_wake_attempts
    fresh_enough : too_old limits w p.now ≡ none
    is_due : time_until w.next_attempt_at p.now ≡ 0
    free : any (str_eq (subject_of w)) p.busy_lanes ≡ false
    room : p.pool_exhausted ≡ false

  start-Asked :
      (target : Option Target) (job : Result Fault (Option Job)) (p q : Pass)
      → Ready p
      → ((most : ℕ) → most_of w.goal ≡ some most → w.goal_attempts < most)
      → Quiet p q
      → Asked p (start out target w job q)
  unfolding start failed after_run order_for runs_before
  start-Asked target (err fault) p q ready tries k = inl k
  start-Asked target (ok job) p q ready tries (calls, lanes, full, now) =
      let order = order_for out.words job w in
      inr (
        (order, (out.run q order).report),
        record {
          at = p.now;
          begun = ready.started;
          not_drove = ready.mine;
          attempts_left = ready.some_left;
          young = ready.fresh_enough;
          due = ready.is_due;
          tries_left = tries;
          job = job;
          is_its_order = refl;
        },
        ready.free,
        ready.room,
        settle-Ran out target order _ w p _ refl (
          (λ later. calls ((order, (out.run q order).report) ∷ later)),
          lanes,
          full,
          omega (arith, now),
        ),
      )

  begin_goal-Asked :
      (goal : Json) (most : Option ℕ) (p q : Pass)
      → Ready p
      → most_of w.goal ≡ most
      → Quiet p q
      → Asked p (begin_goal out goal w most q)
  unfolding begin_goal begin failed out_of_attempts counted called marked runs_before
  begin_goal-Asked goal none p q ready same k = inl k
  begin_goal-Asked goal (some most) p q ready same k =
      if_elim (Asked p) (leb most w.goal_attempts) _ _ (λ _. inl k)
        (λ more.
          start-Asked (some _) _ p _ ready
            (λ n e. let same_most : most ≡ n = cc in ground (arith, more, same_most)) k)

  take_up-Asked :
      (goal : Option Json) (p q : Pass)
      → Ready p
      → w.goal ≡ goal
      → Quiet p q
      → Asked p (take_up out w goal q)
  unfolding take_up begin most_of
  take_up-Asked none p q ready same k =
      start-Asked none _ p q ready
        (λ most e. let no_most : most_of w.goal ≡ none = ap most_of same in cc) k
  take_up-Asked (some goal) p q ready same k =
      begin_goal-Asked goal (max_attempts_of goal) p q ready (ap most_of same) k

  -- what is known of the wake when no gate is
  known_full-none :
      (p : Pass)
      → known_full w p ≡ none
      → (any (str_eq (subject_of w)) p.busy_lanes ≡ false) × (p.pool_exhausted ≡ false)
  unfolding known_full
  known_full-none p h = ground (arith, h)

  ready-Asked :
      (gate : Option String) (p : Pass)
      → (known_full w p ≡ none → Ready p)
      → known_full w p ≡ gate
      → Asked p (ready out w gate p)
  unfolding ready defer marked
  ready-Asked none p ready h = take_up-Asked w.goal p p (ready h) refl (quiet p)
  ready-Asked (some gate) p ready h = inl (quiet p)

  held-Asked :
      (p : Pass)
      → from ≤ p.now
      → is_drove w ≡ false
      → w.attempts < limits.max_wake_attempts
      → too_old limits w p.now ≡ none
      → Asked p (held out w (retry_delay w p))
  unfolding retry_delay held marked
  held-Asked p started mine some_left young =
      let until = time_until w.next_attempt_at p.now in
      if_elim (λ d. Asked p (held out w d)) (ltb longest_gap until) _ _ (λ far. inl (quiet p))
        (λ near.
          if_elim (Asked p) (ltb 0 until) _ _ (λ ahead. inl (quiet p))
            (λ due.
              ready-Asked (known_full w p) p
                (λ h. record {
                  started = started;
                  mine = mine;
                  some_left = some_left;
                  fresh_enough = young;
                  is_due = ground (arith, due);
                  free = (known_full-none p h).0;
                  room = (known_full-none p h).1;
                })
                refl))

  live-Asked :
      (why : Option GivenUp) (p : Pass)
      → from ≤ p.now
      → is_drove w ≡ false
      → (why ≡ none → (w.attempts < limits.max_wake_attempts) × (too_old limits w p.now ≡ none))
      → Asked p (live out w why p)
  unfolding live abandon called marked runs_before
  live-Asked none p started mine fit = held-Asked p started mine (fit refl).0 (fit refl).1
  live-Asked (some why) p started mine fit = inl (quiet p)

  spent-young : (age : Option ℕ) → spent limits w age ≡ none → age ≡ none
  unfolding spent
  spent-young (some age) h = cc
  spent-young none h = refl

  pub turn-Asked : (p : Pass) → from ≤ p.now → Asked p (turn out limits w p)
  unfolding turn visit
  turn-Asked p started =
      if_elim (Asked p) (is_drove w) _ _ (λ _. inl (quiet p))
        (λ mine. live-Asked _ p started mine (λ h. (spent-attempts limits w _ h, spent-young _ h)))
