-- ===== src/Lifecycle/Ledger.antt =====
-- bothy/lifecycle.py, LifecycleLedger. The file is none where it is not there or cannot be read; a
-- time is the text that clock.iso writes.
use bothy.Common.{ℕ, String, Bool, true, false, Option, none, some, str_eq, if◌then◌else◌}

pub data Phase : Type 0 where
  running stopped : Phase

-- the keys that a file of this program holds; `phase` is none in a file that says nothing of it
pub record State : Type 0 where
  pub phase : Option Phase
  pub pid : Option ℕ
  pub boot_id : Option String
  pub started_at : Option String
  pub last_seen_at : Option String
  pub reason : Option String
  pub stopped_at : Option String

abbrev pub File : Type 0
File = Option State

-- the process and the machine that a call runs on, the time, and whether a write comes through
pub record Env : Type 0 where
  pub pid : ℕ
  pub boot_id : Option String
  pub now : String
  pub writable : Bool

-- without the kernel's figures on memory, which are evidence only
pub record UncleanDeath : Type 0 where
  pub started_at : String
  pub last_seen_at : String
  pub pid : ℕ
  pub boot_id : Option String
  pub same_boot : Bool

unfoldable pub empty : State
empty = record {
  phase = none;
  pid = none;
  boot_id = none;
  started_at = none;
  last_seen_at = none;
  reason = none;
  stopped_at = none;
}

unfoldable pub read : File → State
read none = empty
read (some s) = s

unfoldable pub is_running : Option Phase → Bool
is_running (some running) = true
is_running (some stopped) = false
is_running none = false

-- `state.get(key, default)`
unfoldable pub or_text : Option String → String → String
or_text none d = d
or_text (some s) d = s

unfoldable pub or_zero : Option ℕ → ℕ
or_zero none = 0
or_zero (some n) = n

unfoldable pub same_id : Option String → Option String → Bool
same_id none none = true
same_id none (some b) = false
same_id (some a) none = false
same_id (some a) (some b) = str_eq a b

unfoldable pub death : Env → State → UncleanDeath
death env s = record {
  started_at = or_text s.started_at "unknown";
  last_seen_at = or_text s.last_seen_at (or_text s.started_at "unknown");
  pid = or_zero s.pid;
  boot_id = s.boot_id;
  same_boot = same_id s.boot_id env.boot_id;
}

unfoldable pub detect_unclean : Env → File → Option UncleanDeath
detect_unclean env f = if is_running (read f).phase then some (death env (read f)) else none

-- what a write leaves; a failed one is an OSError
unfoldable pub write : Env → File → State → File
write env f s = if env.writable then some s else f

unfoldable pub started : Env → State
started env = record empty {
  phase = some running;
  pid = some env.pid;
  boot_id = env.boot_id;
  started_at = some env.now;
  last_seen_at = some env.now;
}

-- the error of a write that fails is raised
unfoldable pub mark_running : Env → File → File × Bool
mark_running env f = (write env f (started env), env.writable)

unfoldable pub open_run : Env → File → (File × Bool) × Option UncleanDeath
open_run env f = (mark_running env f, detect_unclean env f)

unfoldable pub beat : Env → File → File
beat env f =
    if is_running (read f).phase
    then write env f (record (read f) { last_seen_at = some env.now })
    else f

unfoldable pub close_run : Env → String → File → File
close_run env reason f =
    write env f
      (record (read f) { phase = some stopped; reason = some reason; stopped_at = some env.now })
