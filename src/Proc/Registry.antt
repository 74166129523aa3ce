-- ===== src/Proc/Registry.antt =====
-- bothy/proc.py, Worker and ProcessRegistry. The file is none where it is not there or cannot be
-- read.
use bothy.Common.{
  ℕ, String, Bool, true, false, Option, none, some, List, [], ◌∷◌, ◌++◌, ◌&&◌, filter, map, str_eq,
  if◌then◌else◌, is_some,
}
use bothy.Dict
use bothy.Dict.{Dict}
use bothy.Proc.Group.{Machine, group_alive, Signal, Outcome, stale_record, kill_group}

pub record Worker : Type 0 where
  pub run_id : String
  pub pid : ℕ
  pub pgid : ℕ
  pub argv : List String
  pub started_at : String
  pub start_ticks : Option String
  pub boot_id : Option String

unfoldable pub is_other_boot : Option String → Option String → Bool
is_other_boot none now = false
is_other_boot (some b) none = true
is_other_boot (some b) (some c) = if str_eq b c then false else true

unfoldable pub same_start : Option String → Option String → Bool
same_start none now = true
same_start (some t) none = false
same_start (some t) (some u) = str_eq u t

unfoldable pub still_ours : Machine → Worker → Bool
still_ours m w =
    if is_other_boot w.boot_id m.boot_id
    then false
    else group_alive m w.pgid && same_start w.start_ticks (m.start_time w.pid)

abbrev pub File : Type 0
File = Option (Dict Worker)

unfoldable pub load : File → Dict Worker
load none = []
load (some d) = d

unfoldable pub new_worker : Machine → String → ℕ → List String → String → Worker
new_worker m run_id pid argv now = record {
  run_id = run_id;
  pid = pid;
  pgid = pid;
  argv = argv;
  started_at = now;
  start_ticks = m.start_time pid;
  boot_id = m.boot_id;
}

unfoldable pub register : Machine → File → String → ℕ → List String → String → File
register m f run_id pid argv now =
    some (Dict.set (load f) run_id (new_worker m run_id pid argv now))

unfoldable pub unregister : File → String → File
unregister f run_id =
    if is_some (Dict.get (load f) run_id) then some (Dict.remove (load f) run_id) else f

unfoldable pub workers : File → List Worker
workers f = map (λ row. row.1) (load f)

unfoldable pub survivors : Machine → File → List Worker
survivors m f = filter (still_ours m) (workers f)

-- a machine as it is met at a worker's turn, and what the polls of its killing see
pub record Turn : Type 0 where
  pub before : Machine
  pub at_kill : Bool
  pub polls : List Bool
  pub later : List Bool

unfoldable pub reap_one : Turn → Worker → List Signal × Outcome
reap_one t w =
    if still_ours t.before w
    then kill_group w.pgid t.at_kill t.polls t.later
    else ([], stale_record)

-- `turn` is what each worker's turn meets
unfoldable pub reap_all : (Worker → Turn) → List Worker → List Signal × List (Worker × Outcome)
reap_all turn [] = ([], [])
reap_all turn (w ∷ ws) =
    let here = reap_one (turn w) w in
    let rest = reap_all turn ws in (here.0 ++ rest.0, (w, here.1) ∷ rest.1)

unfoldable pub reap : (Worker → Turn) → File → File × (List Signal × List (Worker × Outcome))
reap turn f = (some [], reap_all turn (workers f))
