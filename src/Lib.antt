-- ===== src/Lib.antt =====
-- Bothy, a small agent harness: a model of the core that decides whether work may start, what it may
-- spend and do, and what is recorded of it.
--
-- The program's parts and their files. Paths are from the repository's root.
--   bothy/budget.py, BudgetLedger: Budget. Budget/Policy has prices and the policy,
--     Budget/Ledger the ledger file and a function for each call: a call takes the file as it is
--     and gives the file as it leaves it, with a result or the error that it raises.
--     Budget/Conservation, Budget/Cap, Budget/Gate and Budget/Reaping hold the theorems.
--   bothy/pool.py, Admission: Pool. Pool/Outcomes has the window of outcomes, Pool/Admission the
--     state and its calls, which call the ledger's functions; Pool/Lanes, Pool/Invariant,
--     Pool/History, Pool/Door and Pool/Recovery hold the theorems.
--   bothy/ratelimit.py, TokenBucket and RateLimiter: RateLimit/Bucket, RateLimit/Limiter and
--     RateLimit/Table.
--   bothy/audit.py, AuditLog: Audit. Audit/Log has the file, the cached tip, append and verify;
--     Audit/Rotation has rotate, and Audit/Chunks reads the last complete line out of the bytes;
--     Audit/Tip, Audit/Chain and Audit/Torn hold theorems.
--   bothy/policy.py, evaluate: Policy. Policy/Rules has the rules, identify and the reader of
--     human approvals, which reads the audit log's lines; Policy/Decision has evaluate;
--     Policy/Evidence has the theorems on the reader.
--   bothy/poll.py, PollState and Poller: Poll/Source and Poll/Replay.
--   bothy/wake.py, verify_signature and the handler: Wake/Signature and Wake/Server; Wake/Signed
--     and Wake/Durable have theorems.
--   bothy/retention.py, the sweep of the wake queue: Retention/Sweep.
--   bothy/cronspec.py: Cron. Cron/Field parses a field, Cron/Spec has the expression, matches
--     and next_after; Cron/Search and Cron/Values have theorems.
--   bothy/schedule.py: Schedule. Schedule/Reply has strip_no_reply, Schedule/Job compute_next
--     and the guards, Schedule/Store the file's operations; Firing, Due, Once, Interval, Door,
--     Hours and Calendar, beside them, have theorems.
--   bothy/goal.py: Goal/Definition, Goal/Check and, for theorems, Goal/Evidence.
--   bothy/drove.py: Drove/Action has the actions, with theorems in Drove/Build and Drove/Safe.
--     Drove/Cli has the client, and Drove/Runs, Watching and Tick the registry of runs, with
--     theorems in Fewer, Apart and Bounds.
--   bothy/interrupts.py, InterruptBoard: Interrupts/Board; Handed, Replay and Caps have
--     theorems.
--   bothy/alert.py: Alert/Chunks has the pieces of a message, Alert/Dedup the throttle and
--     Alert/Sink the sinks; Pieces, Limit and Quiet have theorems.
--   bothy/lifecycle.py: Lifecycle/Ledger and Lifecycle/Lock, with theorems in Lifecycle/Deaths.
--   bothy/proc.py: Proc/Group has process groups, Proc/Registry the registry; Proc/Reaping has
--     theorems.
--   bothy/capability.py: Capability/Profile and Capability/Tools, with theorems in
--     Capability/Grants. The rules of a profile are read by Policy/Parse, for bothy/policy.py's
--     parse_rules.
--   bothy/daemon.py and bothy/wake.py's WakeStore: Daemon. Daemon/Queue is the queue,
--     Daemon/Prompt what a wake asks of a run, Daemon/Pass the deferrals and the ends of a wait,
--     Daemon/Report what a run's end does, and Daemon/Drain the pass. Rows, Others, Waits, Ends,
--     Own, Loop and Liveness lead to the theorem on many passes; Runs, Shows, Asked and Order to
--     the one on the runs of a pass.
--   bothy/runner.py, Runner.run: Runner/Gates has its arguments and tests, Runner/Run the run;
--     Released and Tables lead to the theorem on what it leaves, and Started has the one on its
--     worker.
-- Most parts have a module Examples with runs on small inputs and an instance of each theorem.
-- Common has the shared names, Dict a Python dict with string keys, in the order of its rows, Json
-- the JSON values, and Text Python's operations on text, over the codes of ASCII text.
--
-- Interaction: a pass of the queue takes the runner by its reports; a run goes through Pool's
-- admit, report and release. Pool.admit asks Budget.reserve for the hold that the run spends from,
-- and Pool.release settles it; Policy.evaluate reads what Audit.append wrote; Wake's do_post asks
-- RateLimit's check first, and Drove's resolve_action for a route with an action. A job's next
-- time is Cron's, and put has Goal and Drove look at what a job asks for; Capability reads its
-- rules through Policy. A call is one step, and a history is a list of such steps. In the source a
-- call of the ledger, the pool, the audit log and the limiter holds its lock from its first read to
-- its last write. Three do not: Interrupts' receive lets its lock go for the client's callback,
-- Drove's start tests without it, and start and tick let it go for Drove's answer, and Poll's poll
-- for the source's answer; what is shown of these holds for calls that do not overlap.
--
-- Units: money is in millionths, and a count of tokens or of parts of a token is a whole number; a
-- time is in microseconds; a ratio is in ten-thousandths. They stand for the floats of the source,
-- whose rounding is not modelled. Every call reads the clock once, but where a second time is an
-- argument. Cron counts in minutes. Each loop goes down a list, with two exceptions: Cron's search runs
-- for as many rounds as its horizon has minutes, which is where the source's loop stops, and Alert's
-- cut for as many as a line has characters, which is enough since each round takes one off at least.
--
-- Parameters, for what is not the repository's code: the digests (SHA-256) of an audit record, a
-- job's id and an alert, the name of an archived segment, the HMAC, the JSON reader, the vendored
-- queue's append, the calendar and the zones of datetime, the processes of a goal's check and of
-- Drove's program, the token of a fence and a template's format, the table of processes, a
-- client's callback, what a chat service answers, and Python's substring test, regular
-- expressions, `str`, `int`, `float` and date parser (`strip` and `split` where a text is kept as
-- a String). The front door also takes the answer of bothy/tailnet.py as it comes, and a job's
-- checks whether bothy/capability.py grants a profile memory. A run takes what bothy/memory.py and
-- bothy/codex.py make of it as it ends.
--
-- Not modelled: the chat and process front ends (bothy/discord.py, bothy/slack.py, bothy/ws.py,
-- bothy/tailnet.py, bothy/codex.py), the attention list of Drove, a run's worker, which the runner
-- takes by how it ended, the daemon's other loops, memory, notices, configuration and the command
-- line; and bothy/vendor, which is another project's code.
mod Common
pub mod Dict
pub mod Budget
pub mod Pool
pub mod RateLimit
pub mod Json
pub mod Text
pub mod Cron
pub mod Audit
pub mod Policy
pub mod Poll
pub mod Drove
pub mod Goal
pub mod Schedule
pub mod Interrupts
pub mod Alert
pub mod Lifecycle
pub mod Proc
pub mod Capability
pub mod Wake
pub mod Retention
pub mod Runner
pub mod Daemon
