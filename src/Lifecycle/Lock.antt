-- ===== src/Lifecycle/Lock.antt =====
-- bothy/lifecycle.py, InstanceLock: one process holds the state directory.
use bothy.Common.{ℕ, Option, none, some, ◌==◌, if◌then◌else◌}

-- the kernel's lock on the file, by its process, and the number that stands in the file, if it reads
-- as one
pub record LockFile : Type 0 where
  pub held_by : Option ℕ
  pub content : Option ℕ

pub data Answer : Type 0 where
  acquired : Answer
  already_running : Option ℕ → Answer

-- `pid` opens the file of its own: a lock that it has through another handle refuses it, too
unfoldable pub try_lock : LockFile → ℕ → Option ℕ → LockFile × Answer
try_lock f pid none = (record { held_by = some pid; content = some pid }, acquired)
try_lock f pid (some holder) = (f, already_running f.content)

unfoldable pub acquire : LockFile → ℕ → LockFile × Answer
acquire f pid = try_lock f pid f.held_by

unfoldable pub unlock : LockFile → ℕ → Option ℕ → LockFile
unlock f pid none = f
unlock f pid (some holder) = if holder == pid then record f { held_by = none } else f

-- release, and what the kernel does where the process ends
unfoldable pub release : LockFile → ℕ → LockFile
release f pid = unlock f pid f.held_by
