-- ===== src/Runner/Gates.antt =====
-- bothy/runner.py, Runner.run: its arguments, what is outside it, and the tests before the door.
use bothy.Common.{
  ℕ, ◌+◌, String, Bool, true, false, Option, none, some, List, [], ◌∷◌, ltb, not, value_or,
  if◌then◌else◌, Result, ok, err, ◌&&◌, ◌||◌, ◌==◌, str_eq,
}
use bothy.Text.{Chars}
use bothy.Capability.Profile.{Memory, write}
use bothy.Pool.Admission.{Admission, Env, Refused}

pub data Status : Type 0 where
  completed failed interrupted was_refused : Status

-- the gate of a refusal
pub data Gate : Type 0 where
  dream_invalid budget_unknown profile_gate limits memory_gate : Gate
  door : Refused → Gate

-- what run reads of a profile
pub record Active : Type 0 where
  pub name : String
  pub memory : Memory
  pub wall_clock : Option ℕ
  pub max_tokens : Option ℕ

-- the arguments of run, with the id that it draws
pub record Job : Type 0 where
  pub run_id : String
  pub subject : String
  pub profile : Option String
  pub wall_clock : Option ℕ
  pub max_tokens : Option ℕ
  pub untrusted : Bool
  pub heartbeat : Bool
  pub dream : Bool

-- memory.dream_prompt: a MemoryError, nothing since the last dream, or a prompt
pub data DreamPrompt : Type 0 where
  unfit nothing_new has_prompt : DreamPrompt

-- how a turn ended
pub data Turn : Type 0 where
  turn_completed turn_failed turn_interrupted : Turn

-- how the worker ended: its memory was refused before it started; an exception, before its start or
-- after it; or a turn, with whether a reason was given for its stop. `costs` are the meter's reports,
-- and `cancelled` is whether the run was cancelled.
pub data Work : Type 0 where
  memory_refused : Work
  broke : Bool → List (Env × ℕ) → Bool → Work
  turned : List (Env × ℕ) → Turn → Bool → Bool → List Chars → ℕ → Work

pub record World : Type 0 where
  pub default_profile : Option String
  -- the configured profile, and what Profile.from_dict makes of it
  pub profiles : String → Option (Option Active)
  pub dream_prompt : Active → DreamPrompt
  pub position : Option ℕ × Option String
  pub wall_clock : ℕ
  pub max_tokens : Option ℕ
  pub question_hold : ℕ
  pub audit_writable : Bool
  -- whether an exception ends the run after the door and before its profile is read (another one than
  -- CairnUnavailable out of the tracker), and whether one does between its limits and the `try`
  pub claim_breaks : Bool
  pub setup_breaks : Bool
  -- whether the worker's end, or the removal of an answer's file, raises in the `finally`
  pub close_breaks : Bool
  pub at_door : Env
  pub at_end : Env
  pub work : Option Active → ℕ → Option ℕ → Work

pub record RunResult : Type 0 where
  pub status : Status
  pub gate : Option Gate
  pub messages : List Chars
  pub cost : ℕ

pub data Event : Type 0 where
  refused_at : Gate → Event
  dream_skipped admitted budget_alert worker_started worker_closed unregistered : Event
  finished : Status → Event

pub record Office : Type 0 where
  pub admission : Admission
  pub tape : List Event

pub data Ending : Type 0 where
  returned : RunResult → Ending
  raised : Ending

unfoldable pub noted : Event → Office → Office
noted e o = record o { tape = e ∷ o.tape }

unfoldable pub refused_by : Gate → RunResult
refused_by g = record { status = was_refused; gate = some g; messages = []; cost = 0 }

unfoldable pub refuse : Gate → Office → Office × Ending
refuse g o = (noted (refused_at g) o, returned (refused_by g))

-- `name or self.config.default_profile`
unfoldable pub chosen : Option String → Option String → Option String
chosen none other = other
chosen (some name) other = if str_eq name "" then other else some name

unfoldable pub found : Option (Option Active) → Result (Unit {0}) (Option Active)
found none = err tt
found (some none) = err tt
found (some (some active)) = ok (some active)

-- Runner.profile: the KeyError, ValueError or TypeError is the unit
unfoldable pub lookup : World → Option String → Result (Unit {0}) (Option Active)
lookup w none = ok none
lookup w (some name) = if str_eq name "" then ok none else found (w.profiles name)

unfoldable pub profile : World → Option String → Result (Unit {0}) (Option Active)
profile w name = lookup w (chosen name w.default_profile)

unfoldable pub writes : Memory → Bool
writes write = true
writes _ = false

-- whether the run goes on as it is, has nothing to dream of, or must not dream
unfoldable pub dream_of : World → Job → Result (Unit {0}) (Option Active) → DreamPrompt
dream_of w job (err e) = unfit
dream_of w job (ok none) = unfit
dream_of w job (ok (some active)) =
    if job.untrusted || job.heartbeat || not (writes active.memory)
    then unfit
    else w.dream_prompt active

unfoldable pub dreaming : World → Job → DreamPrompt
dreaming w job = if job.dream then dream_of w job (profile w job.profile) else has_prompt

-- the clock and the tokens that the run may use
unfoldable pub wall_of : World → Job → Option Active → ℕ
wall_of w job none = value_or job.wall_clock w.wall_clock
wall_of w job (some active) = value_or job.wall_clock (value_or active.wall_clock w.wall_clock)

unfoldable pub or_tokens : Option ℕ → Option ℕ → Option ℕ
or_tokens none other = other
or_tokens (some n) other = some n

unfoldable pub tokens_of : World → Job → Option Active → Option ℕ
tokens_of w job none = or_tokens job.max_tokens w.max_tokens
tokens_of w job (some active) = or_tokens job.max_tokens (or_tokens active.max_tokens w.max_tokens)

unfoldable pub are_tokens : Option ℕ → Bool
are_tokens none = true
are_tokens (some n) = ltb 0 n

-- Config.validate_hold, and the run's own tests
unfoldable pub are_limits : ℕ → ℕ → ℕ → Option ℕ → Bool
are_limits ttl hold wall tokens =
    (hold == 0 || ltb 0 wall && ltb (hold + wall) ttl) && (ltb 0 wall && are_tokens tokens)
