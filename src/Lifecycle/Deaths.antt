-- ===== src/Lifecycle/Deaths.antt =====
-- bothy/lifecycle.py: what the ledger says of the past, against what happened.
use bothy.Common.{
  ℕ, String, true, false, Option, none, some, List, [], ◌∷◌, All, if◌then◌else◌, ◌≡◌, refl,
  Bool-cases, inl, inr,
}
use bothy.Lifecycle.Ledger.{
  Env, File, running, UncleanDeath, empty, read, is_running, detect_unclean, death, started, write,
  mark_running, beat, close_run, or_text, or_zero, same_id,
}

-- what happens to a machine with this program: a start that commits, one that is refused after its
-- look at the ledger, a sign of life, a clean stop, and an end of the process without one
pub data Event : Type 0 where
  starts refuses lives : Env → Event
  stops : Env → String → Event
  dies : Event

abbrev pub step : File → Event → File
step f (starts env) = (mark_running env f).0
step f (refuses env) = f
step f (lives env) = beat env f
step f (stops env reason) = close_run env reason f
step f dies = f

abbrev pub run : File → List Event → File
run f [] = f
run f (e ∷ es) = run (step f e) es

-- the run that has not been stopped, with its start, its last sign of life, and its process
pub record Run : Type 0 where
  pub pid : ℕ
  pub boot_id : Option String
  pub started_at : String
  pub last_seen_at : String

-- a sign of life that cannot be written changes nothing
abbrev pub seen : Env → Option Run → Option Run
seen env none = none
seen env (some r) = some (if env.writable then record r { last_seen_at = env.now } else r)

-- the abstract story
abbrev pub happens : Option Run → Event → Option Run
happens r (starts env) =
    some (record {
      pid = env.pid;
      boot_id = env.boot_id;
      started_at = env.now;
      last_seen_at = env.now;
    })
happens r (refuses env) = r
happens r (lives env) = seen env r
happens r (stops env reason) = none
happens r dies = r

abbrev pub story : Option Run → List Event → Option Run
story r [] = r
story r (e ∷ es) = story (happens r e) es

-- starts and stops are written
abbrev pub IsWritten : Event → Type 0
IsWritten (starts env) = env.writable ≡ true
IsWritten (stops env reason) = env.writable ≡ true
IsWritten _ = Unit

-- the file tells of exactly the run that has not been stopped
abbrev pub Tells : File → Option Run → Type 0
Tells f none = is_running (read f).phase ≡ false
Tells f (some r) =
    ((read f).phase ≡ some running)
    × ((read f).pid ≡ some r.pid)
    × ((read f).boot_id ≡ r.boot_id)
    × ((read f).started_at ≡ some r.started_at)
    × ((read f).last_seen_at ≡ some r.last_seen_at)

beat-Tells : (env : Env) (f : File) (r : Option Run) → Tells f r → Tells (beat env f) (seen env r)
unfolding beat write read is_running
beat-Tells env f none h = rw h h
beat-Tells env f (some r) h = elim (Bool-cases (env.writable)) [
  | inl kept ↦ rw (h.0, kept) (refl, h.1, h.2, h.3, refl)
  | inr lost ↦ rw (h.0, lost) h
]

step-Tells :
    (f : File) (r : Option Run) (e : Event)
    → IsWritten e
    → Tells f r
    → Tells (step f e) (happens r e)
unfolding mark_running write started close_run is_running read empty
step-Tells f r (starts env) w h = rw w (refl, refl, refl, refl, refl)
step-Tells f r (refuses env) w h = h
step-Tells f r (lives env) w h = beat-Tells env f r h
step-Tells f r (stops env reason) w h = rw w refl
step-Tells f r dies w h = h

run-Tells :
    (f : File) (r : Option Run) (es : List Event)
    → All IsWritten es
    → Tells f r
    → Tells (run f es) (story r es)
run-Tells f r [] w h = h
run-Tells f r (e ∷ es) w h = run-Tells (step f e) (happens r e) es w.1 (step-Tells f r e w.0 h)

-- the report that a run deserves that was never stopped
abbrev pub report : Env → Option Run → Option UncleanDeath
report env none = none
report env (some r) = some (record {
  started_at = r.started_at;
  last_seen_at = r.last_seen_at;
  pid = r.pid;
  boot_id = r.boot_id;
  same_boot = same_id r.boot_id env.boot_id;
})

Tells-report :
    (env : Env) (f : File) (r : Option Run) → Tells f r → detect_unclean env f ≡ report env r
unfolding detect_unclean is_running death or_text or_zero
Tells-report env f none h = rw h refl
Tells-report env f (some r) h = rw (h.0, h.1, h.2, h.3, h.4) refl

-- However a program starts, is refused, lives, stops and dies, and with whatever signs of life lost,
-- the next start's look at the ledger reports a death exactly if the last run that began was not
-- stopped, with that run's process, boot, start and last sign of life, where starts and stops can be
-- written.
pub detect_unclean-run :
    (env : Env) (es : List Event)
    → All IsWritten es
    → detect_unclean env (run none es) ≡ report env (story none es)
unfolding is_running read empty
detect_unclean-run env es w =
    Tells-report env (run none es) (story none es) (run-Tells none none es w refl)
