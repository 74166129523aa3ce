-- ===== src/Daemon/Queue.antt =====
-- bothy/wake.py, WakeStore: the queue as a list of wakes, in the order of the file. A wake has the
-- keys that its producers and the daemon write; a text that the source tests with `or` is none where
-- it is empty. Times are in microseconds.
use bothy.Common.{
  ℕ, String, Bool, Option, List, [], ◌∷◌, ◌++◌, filter, map, not, str_eq, if◌then◌else◌, value_or,
}
use bothy.Json.{Json, Members}
use bothy.Text.{Chars}
use bothy.Schedule.Job.{Stamp}

-- why a wake was given up: its refusals and the last gate, or its age
pub data GivenUp : Type 0 where
  refused_times : ℕ → String → GivenUp
  waited : ℕ → GivenUp

pub record Wake : Type 0 where
  pub id : String
  pub route : Option String
  pub subject : Option String
  pub prompt : Option String
  pub payload : Members
  pub profile : Option String
  pub drove : Option Json
  pub goal : Option Json
  pub wall_clock : Option ℕ
  pub max_tokens : Option ℕ
  pub received_at : Option Stamp
  pub processed : Bool
  pub processed_at : Option Stamp
  pub attempts : ℕ
  pub last_gate : Option String
  pub last_deferred_at : Option Stamp
  pub next_attempt_at : Option Stamp
  pub waiting_since : Option Stamp
  pub goal_attempts : ℕ
  pub goal_feedback : Option Chars
  pub outcome : Option String
  pub abandoned_reason : Option GivenUp
  pub run_id : Option String
  pub spoke : Bool
  pub drove_run : Option String
  pub drove_code : Option String

-- `event.get("id") == wake_id`
unfoldable pub has_id : String → Wake → Bool
has_id i w = str_eq w.id i

unfoldable pub pending : List Wake → List Wake
pending queue = filter (λ w. not w.processed) queue

-- `event.update(fields)`, for the wakes with the id
unfoldable pub mark : String → (Wake → Wake) → List Wake → List Wake
mark i fields queue = map (λ w. if has_id i w then fields w else w) queue

unfoldable pub append : Wake → List Wake → List Wake
append w queue = queue ++ (w ∷ [])

-- str(event.get("subject") or event["id"])
unfoldable pub subject_of : Wake → String
subject_of w = value_or w.subject w.id
