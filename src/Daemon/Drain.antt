-- ===== src/Daemon/Drain.antt =====
-- bothy/daemon.py, drain: one pass of the pending wakes through the runner.
use bothy.Common.{
  ℕ, ◌+◌, ◌++◌, String, Bool, false, Option, none, some, List, [], ◌∷◌, ltb, leb, value_or,
  if◌then◌else◌, ◌&&◌, Result, ok, err, take,
}
use bothy.Json.{Json, find}
use bothy.Text.{Chars}
use bothy.Schedule.Job.{Job, Fault}
use bothy.Schedule.Store.{Env, File}
use bothy.Schedule.Reply.{strip_no_reply}
use bothy.Goal.Check
use bothy.Goal.Check.{Verdict, RunResult, check, join_lines}
use bothy.Wake.Server.{is_truthy}
use bothy.Daemon.Prompt.{Report}
use bothy.Daemon.Queue.{Wake, GivenUp, pending, subject_of}
use bothy.Daemon.Prompt.{Words, Order, order_for, dream_job_for}
use bothy.Daemon.Report.{
  is_refused_for_capacity, Target, max_attempts_of, result_of, goal_counted, out_of_attempts,
  closed, checked, alert_unmet, is_drove, is_going, is_route, spoke, outcome_of, is_retried, retry,
  put_off, known_full,
}
use bothy.Daemon.Pass.{
  Limits, Pass, going, stopped, ran, audit_checked, slack_reply, discord_reply, tell_heartbeat,
  marked, called, counted, failed, defer, retry_delay, abandon, too_old, spent,
}

-- how Runner.run ended, the time that it took, and the wakes that came into the queue meanwhile
pub record Ended : Type 0 where
  pub report : Option Report
  pub took : ℕ
  pub arrived : List Wake

-- whether the lease is another's, whether the daemon is stopping, the runner, the jobs, and what the
-- goal's check and the prompts use
pub record Outside : Type 0 where
  pub lease_busy : Bool
  pub stopping : Pass → Bool
  pub run : Pass → Order → Ended
  pub env : Env
  pub jobs : Pass → File
  pub goal : Check.Outside
  pub words : Words
  pub has_slack : Bool
  pub has_discord : Bool

-- the truth of a key that may be missing
unfoldable pub is_marked : Option Json → Bool
is_marked none = false
is_marked (some v) = is_truthy v

module _ (out : Outside) where
  -- a report that has something to say goes where it was asked for
  unfoldable pub deliver : Wake → List Chars → Pass → Pass
  deliver w [] p = p
  deliver w (s ∷ said) p =
      if is_route w "slack" && out.has_slack
      then called (slack_reply w.id (join_lines (s ∷ said))) p
      else if is_route w "discord" && out.has_discord
      then called (discord_reply w.id (join_lines (s ∷ said))) p
      else if is_marked (find w.payload "heartbeat")
      then called (tell_heartbeat (subject_of w) (take 1500 (join_lines (s ∷ said)))) p
      else p

  unfoldable pub close : Wake → Report → String → Option Verdict → Pass → Pass
  close w r outcome verdict p =
      let said = strip_no_reply r.messages in
      counted (
        deliver w said
          (alert_unmet w verdict (marked w.id (closed r outcome (spoke said) p.now) p)))

  unfoldable pub weigh : Target → Wake → Report → Verdict → Pass → Pass
  weigh target w r verdict p =
      let again = is_retried target w r verdict in
      let audited =
        audit_checked w.id (w.goal_attempts + 1) (if again then "retry" else outcome_of verdict)
          r.run_id in
      let q = marked w.id (checked r verdict) (called audited p) in
      if again then retry w q else close w r (outcome_of verdict) (some verdict) q

  -- a run that took place, or was refused for good
  unfoldable pub conclude : Option Target → Wake → Report → Pass → Pass
  conclude none w r p = close w r r.status none p
  conclude (some target) w r p = weigh target w r (check out.goal target.definition (result_of r)) p

  unfoldable pub settle : Option Target → Wake → Option Report → Pass → Pass
  settle target w none p = failed p
  settle target w (some r) p =
      if is_refused_for_capacity r
      then put_off target w (value_or r.gate "") p
      else conclude target w r p

  -- the queue and the clock when a run is over
  unfoldable pub after_run : Order → Ended → Pass → Pass
  after_run order ended p = record p {
    queue = p.queue ++ ended.arrived;
    now = p.now + ended.took;
    calls = ran order ended.report ∷ p.calls;
  }

  unfoldable pub start : Option Target → Wake → Result Fault (Option Job) → Pass → Pass
  start target w (err fault) p = failed p
  start target w (ok job) p =
      let order = order_for out.words job w in
      let ended = out.run p order in settle target w ended.report (after_run order ended p)

  unfoldable pub begin : Option Target → Wake → Pass → Pass
  begin target w p = start target w (dream_job_for out.env (out.jobs p) w) p

  unfoldable pub begin_goal : Json → Wake → Option ℕ → Pass → Pass
  begin_goal goal w none p = failed p
  begin_goal goal w (some most) p =
      if leb most w.goal_attempts
      then out_of_attempts w p
      else begin (some (record { definition = goal; most = most })) w
          (marked w.id (goal_counted (w.goal_attempts + 1)) p)

  unfoldable pub take_up : Wake → Option Json → Pass → Pass
  take_up w none p = begin none w p
  take_up w (some goal) p = begin_goal goal w (max_attempts_of goal) p

  unfoldable pub ready : Wake → Option String → Pass → Pass
  ready w (some gate) p = defer w gate p
  ready w none p = take_up w w.goal p

  unfoldable pub held : Wake → Pass × ℕ → Pass
  held w (p, delay) = if ltb 0 delay then p else ready w (known_full w p) p

  unfoldable pub live : Wake → Option GivenUp → Pass → Pass
  live w (some why) p = abandon w why p
  live w none p = held w (retry_delay w p)

  -- the body of the loop, for a wake that is not Drove's
  unfoldable pub visit : Limits → Wake → Pass → Pass
  visit limits w p = live w (spent limits w (too_old limits w p.now)) p

  unfoldable pub turn : Limits → Wake → Pass → Pass
  turn limits w p = if is_drove w then p else visit limits w p

  unfoldable pub loop : Limits → List Wake → Pass → Pass
  loop limits [] p = p
  loop limits (w ∷ ws) p =
      if out.stopping p
      then record p { flow = stopped }
      else let q = turn limits w p in
        let rest = loop limits ws q in if is_going q.flow then rest else q

abbrev pub fresh : List Wake → ℕ → Pass
fresh queue now = record {
  queue = queue;
  now = now;
  calls = [];
  busy_lanes = [];
  pool_exhausted = false;
  handled = 0;
  flow = going;
}

-- a pass over the wakes that are pending as it begins
unfoldable pub drain : Outside → Limits → List Wake → ℕ → Pass
drain out limits queue now =
    if out.lease_busy then fresh queue now else loop out limits (pending queue) (fresh queue now)
