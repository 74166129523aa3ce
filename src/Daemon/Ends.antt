-- ===== src/Daemon/Ends.antt =====
-- bothy/daemon.py, drain: what the end of a run makes of the wake that it was for. Where the wake
-- still waits, it has an attempt less.
use bothy.Common.{
  ℕ, ◌+◌, ◌-◌, ◌<◌, String, false, Option, none, some, ◌≡◌, inl, inr, refl, arith, if_elim,
}
use bothy.Schedule.Reply.{strip_no_reply}
use bothy.Goal.Check.{Verdict}
use bothy.Daemon.Prompt.{Report}
use bothy.Daemon.Queue.{Wake}
use bothy.Daemon.Report.{
  Target, goal_counted, closed, checked, is_retried, retry, put_off, give_back, outcome_of,
}
use bothy.Daemon.Pass.{Limits, Pass, gap, marked, called, counted, defer, deferred, retry_at}
use bothy.Daemon.Drain.{Outside, close, weigh}
use bothy.Daemon.Waits.{Tries, current, goal_left, left, gap-le, until_gap, Turned}
use bothy.Daemon.Rows.{Keeps, marked-own}
use bothy.Daemon.Others.{Silent, deliver-Keeps, alert_unmet-Keeps, noted-Keeps}

module _ (limits : Limits) (w : Wake) (t : ℕ) (waiting : w.processed ≡ false)
    (some_left : w.attempts < limits.max_wake_attempts) where
  pub defer-own :
      (v : Wake) (gate : String) (p : Pass)
      → v.processed ≡ false
      → v.drove ≡ w.drove
      → v.goal ≡ w.goal
      → v.goal_attempts ≡ w.goal_attempts
      → Keeps w.id v t p
      → Turned limits w t (defer w gate p)
  unfolding defer deferred left marked
  defer-own v gate p unprocessed drove goal tries k = (
    deferred w gate p.now v,
    marked-own w.id v t (deferred w gate p.now) p (λ u. refl) k,
    inr (record {
      unprocessed = unprocessed;
      same_drove = drove;
      same_goal = goal;
      soon = until_gap _ p.now (gap-le (w.attempts + 1 - 1));
      no_more = rw (goal, tries) (omega (arith, some_left));
      fewer = λ _. rw (goal, tries) (omega (arith, some_left));
    }),
  )

  pub put_off-own :
      (target : Option Target) (gate : String) (p : Pass)
      → Keeps w.id (current w target) t p
      → Turned limits w t (put_off target w gate p)
  unfolding put_off give_back current goal_counted
  put_off-own none gate p k =
      defer-own w gate _ waiting refl refl refl (noted-Keeps w.id _ t w gate p k)
  put_off-own (some target) gate p k = defer-own _ gate _ waiting refl refl refl (
      noted-Keeps w.id _ t w gate _
        (marked-own w.id _ t (goal_counted w.goal_attempts) p (λ u. refl) k))

  module _ (out : Outside) (silent : Silent w.id out) where
    pub close-own :
        (v : Wake) (r : Report) (outcome : String) (verdict : Option Verdict) (p : Pass)
        → Keeps w.id v t p
        → Turned limits w t (close out w r outcome verdict p)
    unfolding close counted closed
    close-own v r outcome verdict p k = (
      _,
      deliver-Keeps w.id _ t out w (strip_no_reply r.messages) _
          (alert_unmet-Keeps w.id _ t w verdict _ (marked-own w.id v t _ p (λ u. refl) k)),
      inl refl,
    )

    retry-own :
        (target : Target) (r : Report) (verdict : Verdict) (p : Pass)
        → Tries w (some target)
        → Keeps w.id (checked r verdict (current w (some target))) t p
        → Turned limits w t (retry w p)
    unfolding retry retry_at checked current goal_counted counted left goal_left marked
    retry-own target r verdict p (most, tries) k = (
      _,
      marked-own w.id _ t (retry_at (p.now + gap w.goal_attempts)) p (λ u. refl) k,
      inr (record {
        unprocessed = waiting;
        same_drove = refl;
        same_goal = refl;
        soon = until_gap _ p.now (gap-le w.goal_attempts);
        no_more = rw most (omega (arith, tries));
        fewer = λ _. rw most (omega (arith, tries));
      }),
    )

    pub weigh-own :
        (target : Target) (r : Report) (verdict : Verdict) (p : Pass)
        → Tries w (some target)
        → Keeps w.id (current w (some target)) t p
        → Turned limits w t (weigh out target w r verdict p)
    unfolding weigh checked called
    weigh-own target r verdict p tries k =
        let q = marked-own w.id _ t (checked r verdict) _ (λ u. refl) k in
        if_elim (Turned limits w t) (is_retried target w r verdict) _ _
          (λ _. retry-own target r verdict _ tries q)
          (λ _. close-own _ r (outcome_of verdict) (some verdict) _ q)
