-- ===== src/Daemon/Others.antt =====
-- bothy/daemon.py, drain: what the turn of one wake leaves of another.
use bothy.Common.{
  ℕ, ◌+◌, String, false, Option, none, some, List, [], ◌∷◌, ◌≡◌, refl, ◌∙◌, arith, str_eq, ◌&&◌,
  if_elim, leb, ltb, Result, ok, err, value_or,
}
use bothy.Json.{Json, find}
use bothy.Text.{Chars}
use bothy.Schedule.Job.{Job, Fault}
use bothy.Schedule.Reply.{strip_no_reply}
use bothy.Goal.Check.{Verdict}
use bothy.Daemon.Prompt.{Report}
use bothy.Daemon.Queue.{Wake, GivenUp}
use bothy.Daemon.Prompt.{Order}
use bothy.Daemon.Report.{
  is_refused_for_capacity, Target, goal_counted, out_of_attempts, closed, checked, alert_unmet,
  is_drove, is_route, is_retried, retry, put_off, known_full, give_back, noted, unverified,
  outcome_of, max_attempts_of,
}
use bothy.Daemon.Pass.{
  Limits, Pass, called, counted, failed, defer, deferred, retry_at, retry_delay, abandon, given_up,
  too_old, spent, longest_gap, time_until,
}
use bothy.Daemon.Drain.{
  Outside, is_marked, deliver, close, weigh, conclude, settle, after_run, start, begin, begin_goal,
  take_up, ready, held, live, visit, turn,
}
use bothy.Daemon.Rows.{row, Keeps, marked-other, row-append}

-- no wake that comes in during a run has the id
abbrev pub Silent : String → Outside → Type 0
Silent i out = (p : Pass) (o : Order) → row i (out.run p o).arrived ≡ []

module _ (i : String) (v : Wake) (t : ℕ) where
  pub deliver-Keeps :
      (out : Outside) (w : Wake) (said : List Chars) (p : Pass)
      → Keeps i v t p
      → Keeps i v t (deliver out w said p)
  unfolding deliver called
  deliver-Keeps out w [] p k = k
  deliver-Keeps out w (s ∷ said) p k =
      if_elim (Keeps i v t) (is_route w "slack" && out.has_slack) _ _ (λ _. k)
        (λ _.
          if_elim (Keeps i v t) (is_route w "discord" && out.has_discord) _ _ (λ _. k)
            (λ _.
              if_elim (Keeps i v t) (is_marked (find w.payload "heartbeat")) _ _ (λ _. k) (λ _. k)))

  pub alert_unmet-Keeps :
      (w : Wake) (verdict : Option Verdict) (p : Pass)
      → Keeps i v t p
      → Keeps i v t (alert_unmet w verdict p)
  unfolding alert_unmet called
  alert_unmet-Keeps w none p k = k
  alert_unmet-Keeps w (some verdict) p k =
      if_elim (Keeps i v t) verdict.passed _ _ (λ _. k) (λ _. k)

  pub noted-Keeps :
      (w : Wake) (gate : String) (p : Pass) → Keeps i v t p → Keeps i v t (noted w gate p)
  unfolding noted
  noted-Keeps w gate p k = if_elim (Keeps i v t) (str_eq gate "lane_busy") _ _ (λ _. k) (λ _. k)

  pub after_run-Keeps :
      (out : Outside) (order : Order) (p q : Pass)
      → Silent i out
      → Keeps i v t p
      → Keeps i v t (after_run out order (out.run q order) p)
  unfolding after_run
  after_run-Keeps out order p q silent (found, at, time) = (
    row-append i p.queue (out.run q order).arrived ∙ rw (found, silent q order) refl,
    at,
    omega (arith, time),
  )

  module _ (w : Wake) (other : str_eq i w.id ≡ false) where
    defer-other : (gate : String) (p : Pass) → Keeps i v t p → Keeps i v t (defer w gate p)
    unfolding defer deferred
    defer-other gate p k = marked-other i w.id v t (deferred w gate p.now) p (λ u. refl) other k

    abandon-other : (why : GivenUp) (p : Pass) → Keeps i v t p → Keeps i v t (abandon w why p)
    unfolding abandon given_up called
    abandon-other why p k = marked-other i w.id v t (given_up why p.now) p (λ u. refl) other k

    out_of_attempts-other : (p : Pass) → Keeps i v t p → Keeps i v t (out_of_attempts w p)
    unfolding out_of_attempts unverified called counted
    out_of_attempts-other p k = marked-other i w.id v t _ p (λ u. refl) other k

    give_back-other :
        (target : Option Target) (p : Pass) → Keeps i v t p → Keeps i v t (give_back target w p)
    unfolding give_back goal_counted
    give_back-other none p k = k
    give_back-other (some target) p k =
        marked-other i w.id v t (goal_counted w.goal_attempts) p (λ u. refl) other k

    put_off-other :
        (target : Option Target) (gate : String) (p : Pass)
        → Keeps i v t p
        → Keeps i v t (put_off target w gate p)
    unfolding put_off
    put_off-other target gate p k =
        defer-other gate _ (noted-Keeps w gate _ (give_back-other target p k))

    module _ (out : Outside) (silent : Silent i out) where
      close-other :
          (r : Report) (outcome : String) (verdict : Option Verdict) (p : Pass)
          → Keeps i v t p
          → Keeps i v t (close out w r outcome verdict p)
      unfolding close counted closed
      close-other r outcome verdict p k =
          deliver-Keeps out w (strip_no_reply r.messages) _
            (alert_unmet-Keeps w verdict _ (marked-other i w.id v t _ p (λ u. refl) other k))

      weigh-other :
          (target : Target) (r : Report) (verdict : Verdict) (p : Pass)
          → Keeps i v t p
          → Keeps i v t (weigh out target w r verdict p)
      unfolding weigh retry retry_at checked called counted
      weigh-other target r verdict p k =
          let q = marked-other i w.id v t (checked r verdict) _ (λ u. refl) other k in
          if_elim (Keeps i v t) (is_retried target w r verdict) _ _
            (λ _. marked-other i w.id v t _ _ (λ u. refl) other q)
            (λ _. close-other r (outcome_of verdict) (some verdict) _ q)

      settle-other :
          (target : Option Target) (r : Option Report) (p : Pass)
          → Keeps i v t p
          → Keeps i v t (settle out target w r p)
      unfolding settle conclude failed
      settle-other target none p k = k
      settle-other none (some r) p k =
          if_elim (Keeps i v t) (is_refused_for_capacity r) _ _
            (λ _. put_off-other none (value_or r.gate "") p k)
            (λ _. close-other r r.status none p k)
      settle-other (some target) (some r) p k =
          if_elim (Keeps i v t) (is_refused_for_capacity r) _ _
            (λ _. put_off-other (some target) (value_or r.gate "") p k)
            (λ _. weigh-other target r _ p k)

      start-other :
          (target : Option Target) (job : Result Fault (Option Job)) (p : Pass)
          → Keeps i v t p
          → Keeps i v t (start out target w job p)
      unfolding start failed
      start-other target (err fault) p k = k
      start-other target (ok job) p k = settle-other target _ _ (after_run-Keeps out _ p p silent k)

      begin_goal-other :
          (goal : Json) (most : Option ℕ) (p : Pass)
          → Keeps i v t p
          → Keeps i v t (begin_goal out goal w most p)
      unfolding begin_goal begin failed goal_counted
      begin_goal-other goal none p k = k
      begin_goal-other goal (some most) p k =
          if_elim (Keeps i v t) (leb most w.goal_attempts) _ _ (λ _. out_of_attempts-other p k)
            (λ _.
              start-other _ _ _ (
                marked-other i w.id v t (goal_counted (w.goal_attempts + 1)) p (λ u. refl) other k))

      take_up-other :
          (goal : Option Json) (p : Pass) → Keeps i v t p → Keeps i v t (take_up out w goal p)
      unfolding take_up begin
      take_up-other none p k = start-other none _ p k
      take_up-other (some goal) p k = begin_goal-other goal (max_attempts_of goal) p k

      ready-other :
          (gate : Option String) (p : Pass) → Keeps i v t p → Keeps i v t (ready out w gate p)
      unfolding ready
      ready-other none p k = take_up-other w.goal p k
      ready-other (some gate) p k = defer-other gate p k

      held-other : (p : Pass) (delay : ℕ) → Keeps i v t p → Keeps i v t (held out w (p, delay))
      unfolding held
      held-other p delay k =
          if_elim (Keeps i v t) (ltb 0 delay) _ _ (λ _. k) (λ _. ready-other (known_full w p) p k)

      delayed-other : (p : Pass) → Keeps i v t p → Keeps i v t (held out w (retry_delay w p))
      unfolding retry_delay retry_at
      delayed-other p k =
          if_elim (λ d. Keeps i v t (held out w d))
            (ltb longest_gap (time_until w.next_attempt_at p.now)) _ _
            (λ _. held-other _ longest_gap (marked-other i w.id v t _ p (λ u. refl) other k))
            (λ _. held-other p _ k)

      live-other :
          (why : Option GivenUp) (p : Pass) → Keeps i v t p → Keeps i v t (live out w why p)
      unfolding live
      live-other none p k = delayed-other p k
      live-other (some why) p k = abandon-other why p k

      -- the turn of a wake with another id
      pub turn-other :
          (limits : Limits) (p : Pass) → Keeps i v t p → Keeps i v t (turn out limits w p)
      unfolding turn visit
      turn-other limits p k =
          if_elim (Keeps i v t) (is_drove w) _ _ (λ _. k)
            (λ _. live-other (spent limits w (too_old limits w p.now)) p k)
