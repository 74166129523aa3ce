-- ===== src/Lifecycle/Examples.antt =====
-- bothy/lifecycle.py: a run that died, and an instance of the theorem.
use bothy.Common.{some, none, [], ◌∷◌, true, false, ◌≡◌, refl}
use bothy.Lifecycle.Ledger.{
  Env, UncleanDeath, detect_unclean, is_running, read, death, or_text, or_zero, same_id, write,
  started, mark_running, beat, close_run, empty,
}
use bothy.Lifecycle.Deaths.{
  starts, refuses, lives, stops, dies, run, story, report, detect_unclean-run,
}

abbrev first : Env
first = record { pid = 7; boot_id = some "b1"; now = "T1"; writable = true }

abbrev second : Env
second = record { pid = 9; boot_id = some "b2"; now = "T3"; writable = true }

abbrev killed : UncleanDeath
killed = record {
  started_at = "T1";
  last_seen_at = "T2";
  pid = 7;
  boot_id = some "b1";
  same_boot = false;
}

reports_once :
    detect_unclean second
      (run none (starts first ∷ lives (record first { now = "T2" }) ∷ dies ∷ refuses second ∷ []))
    ≡ some killed
unfolding detect_unclean is_running read death or_text or_zero same_id write started mark_running
    beat empty
reports_once = refl

stopped_is_quiet :
    detect_unclean second (run none (starts first ∷ stops first "signal" ∷ [])) ≡ none
unfolding detect_unclean is_running read death or_text or_zero same_id write started mark_running
    close_run empty
stopped_is_quiet = refl

detect_unclean-run_example :
    detect_unclean second
      (run none (starts first ∷ lives (record first { now = "T2" }) ∷ dies ∷ []))
    ≡ report second (story none (starts first ∷ lives (record first { now = "T2" }) ∷ dies ∷ []))
detect_unclean-run_example =
    detect_unclean-run second (starts first ∷ lives (record first { now = "T2" }) ∷ dies ∷ [])
      (refl, (tt, (tt, tt)))
