-- ===== src/Daemon/Own.antt =====
-- bothy/daemon.py, drain: what the turn of a wake makes of it. It is processed, or it has one attempt
-- less and waits no longer than the longest gap.
use bothy.Common.{
  ℕ, ◌+◌, ◌≤◌, ◌<◌, String, true, false, Option, none, some, ◌≡◌, inl, inr, refl, ap, arith,
  if_elim, leb, ltb, Result, ok, err, value_or, ltb-false→le, ltb→lt,
}
use bothy.Json.{Json}
use bothy.Schedule.Job.{Job, Fault}
use bothy.Daemon.Prompt.{Report}
use bothy.Daemon.Queue.{Wake, GivenUp}
use bothy.Daemon.Report.{
  is_refused_for_capacity, Target, goal_counted, out_of_attempts, is_drove, known_full, unverified,
  max_attempts_of, is_going,
}
use bothy.Daemon.Pass.{
  Limits, Pass, marked, called, counted, failed, retry_at, retry_delay, abandon, given_up, too_old,
  longest_gap, time_until,
}
use bothy.Daemon.Drain.{
  Outside, settle, conclude, start, begin, begin_goal, take_up, ready, held, live, visit, turn,
}
use bothy.Daemon.Waits.{
  Tries, current, most_of, left, time_until-le, until_gap, spent-attempts, Turned, Served,
}
use bothy.Daemon.Rows.{Keeps, marked-own}
use bothy.Daemon.Others.{Silent, after_run-Keeps}
use bothy.Daemon.Ends.{defer-own, put_off-own, close-own, weigh-own}

module _ (limits : Limits) (w : Wake) (t : ℕ) (waiting : w.processed ≡ false)
    (some_left : w.attempts < limits.max_wake_attempts) where
  module _ (out : Outside) (silent : Silent w.id out) where
    settle-own :
        (target : Option Target) (r : Option Report) (p : Pass)
        → Tries w target
        → Keeps w.id (current w target) t p
        → Served limits w t (settle out target w r p)
    unfolding settle conclude failed is_going
    settle-own target none p tries k going = cc
    settle-own none (some r) p tries k going =
        if_elim (Turned limits w t) (is_refused_for_capacity r) _ _
          (λ _. put_off-own limits w t waiting some_left none (value_or r.gate "") p k)
          (λ _. close-own limits w t waiting some_left out silent _ r r.status none p k)
    settle-own (some target) (some r) p tries k going =
        if_elim (Turned limits w t) (is_refused_for_capacity r) _ _
          (λ _. put_off-own limits w t waiting some_left (some target) (value_or r.gate "") p k)
          (λ _. weigh-own limits w t waiting some_left out silent target r _ p tries k)

    start-own :
        (target : Option Target) (job : Result Fault (Option Job)) (p : Pass)
        → Tries w target
        → Keeps w.id (current w target) t p
        → Served limits w t (start out target w job p)
    unfolding start failed is_going
    start-own target (err fault) p tries k going = cc
    start-own target (ok job) p tries k going =
        settle-own target _ _ tries (after_run-Keeps w.id _ t out _ p p silent k) going

    begin_goal-own :
        (goal : Json) (most : Option ℕ) (p : Pass)
        → most_of w.goal ≡ most
        → Keeps w.id w t p
        → Served limits w t (begin_goal out goal w most p)
    unfolding begin_goal begin failed is_going out_of_attempts unverified called counted current
        goal_counted
    begin_goal-own goal none p same k = λ going. cc
    begin_goal-own goal (some most) p same k =
        if_elim (Served limits w t) (leb most w.goal_attempts) _ _
          (λ _ _. (_, marked-own w.id w t _ p (λ u. refl) k, inl refl))
          (λ more.
            start-own (some _) _ _ (same, ground (arith, more))
              (marked-own w.id w t (goal_counted (w.goal_attempts + 1)) p (λ u. refl) k))

    take_up-own :
        (goal : Option Json) (p : Pass)
        → w.goal ≡ goal
        → Keeps w.id w t p
        → Served limits w t (take_up out w goal p)
    unfolding take_up begin current most_of
    take_up-own none p same k = start-own none _ p tt k
    take_up-own (some goal) p same k =
        begin_goal-own goal (max_attempts_of goal) p (ap most_of same) k

    ready-own :
        (gate : Option String) (p : Pass)
        → Keeps w.id w t p
        → Served limits w t (ready out w gate p)
    unfolding ready
    ready-own none p k = take_up-own w.goal p refl k
    ready-own (some gate) p k =
        λ _. defer-own limits w t waiting some_left w gate p waiting refl refl refl k

    -- where the wake is not due yet, it is left as it is
    kept-own :
        (p : Pass)
        → time_until w.next_attempt_at p.now ≤ longest_gap
        → 0 < time_until w.next_attempt_at t
        → Keeps w.id w t p
        → Turned limits w t p
    kept-own p near ahead k = (
      w,
      k,
      inr (record {
        unprocessed = waiting;
        same_drove = refl;
        same_goal = refl;
        soon = near;
        no_more = omega arith;
        fewer = λ due. omega (arith, due, ahead);
      }),
    )

    put_back-own :
        (p : Pass)
        → 0 < time_until w.next_attempt_at t
        → Keeps w.id w t p
        → Turned limits w t (marked w.id (retry_at (p.now + longest_gap)) p)
    unfolding retry_at left marked
    put_back-own p ahead k = (
      _,
      marked-own w.id w t _ p (λ u. refl) k,
      inr (record {
        unprocessed = waiting;
        same_drove = refl;
        same_goal = refl;
        soon = until_gap _ p.now (omega arith);
        no_more = omega arith;
        fewer = λ due. omega (arith, due, ahead);
      }),
    )

    ahead-at :
        (n : ℕ) (p : Pass)
        → ltb n (time_until w.next_attempt_at p.now) ≡ true
        → Keeps w.id w t p
        → 0 < time_until w.next_attempt_at t
    ahead-at n p h (found, at, time) =
        omega (arith, ltb→lt n _ h, time_until-le w.next_attempt_at t p.now time)

    delayed-own : (p : Pass) → Keeps w.id w t p → Served limits w t (held out w (retry_delay w p))
    unfolding retry_delay held
    delayed-own p k =
        let until = time_until w.next_attempt_at p.now in
        if_elim (λ d. Served limits w t (held out w d)) (ltb longest_gap until) _ _
          (λ far _. put_back-own p (ahead-at longest_gap p far k) k)
          (λ near.
            if_elim (Served limits w t) (ltb 0 until) _ _
              (λ ahead _. kept-own p (ltb-false→le longest_gap until near) (ahead-at 0 p ahead k) k)
              (λ _. ready-own (known_full w p) p k))

live-own :
    (limits : Limits) (w : Wake) (t : ℕ) (out : Outside) (why : Option GivenUp) (p : Pass)
    → w.processed ≡ false
    → Silent w.id out
    → (why ≡ none → w.attempts < limits.max_wake_attempts)
    → Keeps w.id w t p
    → Served limits w t (live out w why p)
unfolding live abandon given_up called
live-own limits w t out none p waiting silent some_left k =
    delayed-own limits w t waiting (some_left refl) out silent p k
live-own limits w t out (some why) p waiting silent some_left k =
    λ _. (_, marked-own w.id w t _ p (λ u. refl) k, inl refl)

-- the turn of a wake
pub turn-own :
    (limits : Limits) (w : Wake) (t : ℕ) (out : Outside) (p : Pass)
    → w.processed ≡ false
    → is_drove w ≡ false
    → Silent w.id out
    → Keeps w.id w t p
    → Served limits w t (turn out limits w p)
unfolding turn visit
turn-own limits w t out p waiting mine silent k =
    if_elim (Served limits w t) (is_drove w) _ _ (λ drove. cc)
      (λ _.
        live-own limits w t out _ p waiting silent
          (spent-attempts limits w (too_old limits w p.now)) k)
