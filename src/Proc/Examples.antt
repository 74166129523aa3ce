-- ===== src/Proc/Examples.antt =====
-- bothy/proc.py: a machine with one worker, and an instance of the theorem.
use bothy.Common.{Listed, true, false, some, none, [], ◌∷◌, ◌≡◌, refl, inl}
use bothy.Proc.Group.{
  Machine, terminate, terminated, stale_record, group_alive, group_members, members_in, is_member,
  sorted, insert, kill_group, wait,
}
use bothy.Proc.Registry.{
  Worker, File, Turn, is_other_boot, same_start, still_ours, load, workers, reap_one, reap_all,
  reap,
}
use bothy.Proc.Reaping.{IsOurs, group_of, reap-Listed}

abbrev codex : Worker
codex = record {
  run_id = "run_1";
  pid = 40;
  pgid = 40;
  argv = "codex" ∷ [];
  started_at = "T1";
  start_ticks = some "9000";
  boot_id = some "b1";
}

abbrev file : File
file = some (("run_1", codex) ∷ [])

abbrev alive : Machine
alive = record {
  table = some (
      record { pid = 40; pgid = 40; zombie = false }
      ∷ record { pid = 41; pgid = 40; zombie = false }
      ∷ []);
  answers_signal = λ pgid. false;
  start_time = λ pid. some "9000";
  boot_id = some "b1";
}

-- the leader has exited and its child lives on
abbrev leaderless : Machine
leaderless = record alive {
  table = some (record { pid = 41; pgid = 40; zombie = false } ∷ []);
  start_time = λ pid. none;
}

abbrev quick : Worker → Turn
quick w = record { before = alive; at_kill = true; polls = true ∷ false ∷ []; later = [] }

abbrev orphaned : Worker → Turn
orphaned w = record { before = leaderless; at_kill = true; polls = []; later = [] }

is_terminated : reap quick file ≡ (some [], (terminate 40 ∷ [], (codex, terminated) ∷ []))
unfolding reap reap_all reap_one still_ours is_other_boot same_start group_alive group_members
    members_in is_member sorted insert kill_group wait workers load
is_terminated = refl

-- nothing is signalled, and the record is gone, although the group is alive
child_is_missed : reap orphaned file ≡ (some [], ([], (codex, stale_record) ∷ []))
unfolding reap reap_all reap_one still_ours is_other_boot same_start group_alive group_members
    members_in is_member sorted insert workers load
child_is_missed = refl

sends : Listed (terminate 40) (reap quick file).1.0
unfolding reap reap_all reap_one still_ours is_other_boot same_start group_alive group_members
    members_in is_member sorted insert kill_group wait workers load
sends = inl refl

reap-Listed_example :
    (w : Worker) × Listed w (workers file)
    × (group_of (terminate 40) ≡ w.pgid)
    × IsOurs (quick w).before w
reap-Listed_example = reap-Listed quick file (terminate 40) sends
