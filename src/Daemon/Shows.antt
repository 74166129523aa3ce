-- ===== src/Daemon/Shows.antt =====
-- bothy/daemon.py, drain: what the end of a run adds to what a pass shows.
use bothy.Common.{
  ℕ, ◌≤◌, String, Bool, true, Option, none, some, List, [], ◌∷◌, ◌≡◌, refl, arith, str_eq, ◌&&◌,
  if_elim, value_or,
}
use bothy.Json.{find}
use bothy.Text.{Chars}
use bothy.Schedule.Reply.{strip_no_reply}
use bothy.Goal.Check.{Verdict}
use bothy.Daemon.Queue.{Wake, subject_of}
use bothy.Daemon.Prompt.{Order, Report}
use bothy.Daemon.Report.{
  Target, is_refused_for_capacity, goal_counted, alert_unmet, is_route, is_retried, retry, put_off,
  give_back, noted,
}
use bothy.Daemon.Pass.{Pass, marked, called, counted, failed, defer}
use bothy.Daemon.Drain.{Outside, is_marked, deliver, close, weigh, conclude, settle}
use bothy.Daemon.Runs.{Run, runs_before, lanes_after, full_after}

-- the pass shows these runs, before those of `later`, and knows of these lanes and of a full pool
abbrev pub Shows : (List Run → List Run) → List String → Bool → ℕ → Pass → Type 0
Shows before lanes full now q =
    ((later : List Run) → runs_before q.calls later ≡ before later)
    × (q.busy_lanes ≡ lanes)
    × (q.pool_exhausted ≡ full)
    × (now ≤ q.now)

abbrev pub Quiet : Pass → Pass → Type 0
Quiet p q = Shows (λ later. runs_before p.calls later) p.busy_lanes p.pool_exhausted p.now q

abbrev pub Ran : Run → Pass → Pass → Type 0
Ran run p q =
    Shows (λ later. runs_before p.calls (run ∷ later)) (lanes_after run p.busy_lanes)
      (full_after run p.pool_exhausted) p.now q

pub quiet : (p : Pass) → Quiet p p
quiet p = (λ later. refl, refl, refl, omega arith)

module _ (before : List Run → List Run) (lanes : List String) (full : Bool) (now : ℕ) where
  deliver-Shows :
      (out : Outside) (w : Wake) (said : List Chars) (q : Pass)
      → Shows before lanes full now q
      → Shows before lanes full now (deliver out w said q)
  unfolding deliver called runs_before
  deliver-Shows out w [] q k = k
  deliver-Shows out w (s ∷ said) q k =
      let P = Shows before lanes full now in
      if_elim P (is_route w "slack" && out.has_slack) _ _ (λ _. k)
        (λ _.
          if_elim P (is_route w "discord" && out.has_discord) _ _ (λ _. k)
            (λ _. if_elim P (is_marked (find w.payload "heartbeat")) _ _ (λ _. k) (λ _. k)))

  close-Shows :
      (out : Outside) (w : Wake) (r : Report) (outcome : String) (verdict : Option Verdict)
      (q : Pass)
      → Shows before lanes full now q
      → Shows before lanes full now (close out w r outcome verdict q)
  unfolding close counted marked alert_unmet called runs_before
  close-Shows out w r outcome none q k = deliver-Shows out w (strip_no_reply r.messages) _ k
  close-Shows out w r outcome (some verdict) q k =
      deliver-Shows out w (strip_no_reply r.messages) _
        (if_elim (Shows before lanes full now) verdict.passed _ _ (λ _. k) (λ _. k))

  conclude-Shows :
      (out : Outside) (target : Option Target) (w : Wake) (r : Report) (q : Pass)
      → Shows before lanes full now q
      → Shows before lanes full now (conclude out target w r q)
  unfolding conclude weigh marked called retry counted runs_before
  conclude-Shows out none w r q k = close-Shows out w r r.status none q k
  conclude-Shows out (some target) w r q k =
      if_elim (Shows before lanes full now) (is_retried target w r _) _ _ (λ _. k)
        (λ _. close-Shows out w r _ _ _ k)

noted-Ran :
    (order : Order) (r : Report) (w : Wake) (p q : Pass)
    → order.subject ≡ subject_of w
    → is_refused_for_capacity r ≡ true
    → Shows
        (λ later. runs_before p.calls ((order, some r) ∷ later))
        p.busy_lanes
        p.pool_exhausted
        p.now
        q
    → Ran (order, some r) p (noted w (value_or r.gate "") q)
unfolding noted lanes_after full_after
noted-Ran order r w p q same h (calls, lanes, full, now) =
    if_elim (Ran (order, some r) p) (str_eq (value_or r.gate "") "lane_busy") _ _
      (λ e. (calls, rw (h, e, lanes, same) refl, rw (h, e, full) refl, now))
      (λ e. (calls, rw (h, e, lanes) refl, rw (h, e) refl, now))

pub settle-Ran :
    (out : Outside) (target : Option Target) (order : Order) (report : Option Report) (w : Wake)
    (p q : Pass)
    → order.subject ≡ subject_of w
    → Shows
        (λ later. runs_before p.calls ((order, report) ∷ later))
        p.busy_lanes
        p.pool_exhausted
        p.now
        q
    → Ran (order, report) p (settle out target w report q)
unfolding settle failed lanes_after full_after put_off defer marked give_back
settle-Ran out target order none w p q same k = k
settle-Ran out none order (some r) w p q same k =
    if_elim (Ran (order, some r) p) (is_refused_for_capacity r) _ _
      (λ h. noted-Ran order r w p q same h k)
      (λ h.
        let (calls, lanes, full, now) = conclude-Shows _ _ _ _ out none w r q k in
        (calls, rw h lanes, rw h full, now))
settle-Ran out (some goal) order (some r) w p q same k =
    if_elim (Ran (order, some r) p) (is_refused_for_capacity r) _ _
      (λ h. noted-Ran order r w p (marked w.id (goal_counted w.goal_attempts) q) same h k)
      (λ h.
        let (calls, lanes, full, now) = conclude-Shows _ _ _ _ out (some goal) w r q k in
        (calls, rw h lanes, rw h full, now))
