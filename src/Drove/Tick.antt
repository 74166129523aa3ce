-- ===== src/Drove/Tick.antt =====
-- bothy/drove.py, DroveRuns: tick and what it calls.
use bothy.Common.{
  ℕ, ◌+◌, ◌-◌, ◌==◌, String, str_eq, Bool, true, false, Option, none, some, List, [], ◌∷◌, filter,
  length, leb, not, if◌then◌else◌, ◌&&◌, take,
}
use bothy.Json.{Json, Members, text, find}
use bothy.Dict
use bothy.Dict.{Dict}
use bothy.Schedule.Job.{instant}
use bothy.Drove.Cli
use bothy.Drove.Cli.{Outcome, as_object}
use bothy.Drove.Runs.{
  Status, down, vanished, deadline, Watch, Call, audit_state, audit_finished, alert_unread,
  tell_finished, alert_deadline, alert_vanished, Drove, Config, Outside, is_watching, values,
  watched, noted,
}
use bothy.Drove.Watching.{is_after}

-- what `_update` writes
unfoldable pub updated : (Watch → Watch) → String → Option Watch → Dict Watch → Dict Watch
updated changes run none runs = runs
updated changes run (some w) runs = Dict.set runs run (changes w)

unfoldable pub update : String → (Watch → Watch) → Drove → Drove
update run changes d = record d { runs = updated changes run (Dict.get d.runs run) d.runs }

unfoldable pub finished_before : Watch → Watch → Bool
finished_before w v = elim w.finished_at [
  | none ↦ true
  | some t ↦ elim v.finished_at [ none ↦ false | some s ↦ leb t s ]
]

-- sorted by `finished_at`, stable
unfoldable pub insert_finished : Watch → List Watch → List Watch
insert_finished w [] = w ∷ []
insert_finished w (v ∷ vs) =
    let rest = insert_finished w vs in if finished_before w v then w ∷ v ∷ vs else v ∷ rest

unfoldable pub sort_finished : List Watch → List Watch
sort_finished [] = []
sort_finished (w ∷ ws) = insert_finished w (sort_finished ws)

abbrev pub keep_finished : ℕ
keep_finished = 50

unfoldable pub finished_of : Dict Watch → List Watch
finished_of runs = sort_finished (filter (λ w. not (is_watching w)) (values runs))

-- done[:-KEEP_FINISHED]
unfoldable pub stale_of : List Watch → List Watch
stale_of done = take (length done - keep_finished) done

unfoldable pub drop_runs : List Watch → Dict Watch → Dict Watch
drop_runs [] runs = runs
drop_runs (w ∷ ws) runs = drop_runs ws (Dict.remove runs w.run)

unfoldable pub prune : Drove → Drove
prune d = record d { runs = drop_runs (stale_of (finished_of d.runs)) d.runs }

unfoldable pub ended : Status → Option Members → ℕ → Watch → Watch
ended how last now w = record w {
  status = how;
  finished_at = some now;
  checked_at = some (instant now);
  last_report = last;
}

unfoldable pub told : Status → String → Call
told down run = tell_finished run
told deadline run = alert_deadline run
told _ run = alert_vanished run

unfoldable pub finish : Watch → Status → Option Members → ℕ → Drove → Drove
finish w how last now d =
    noted (told how w.run)
      (noted (audit_finished w.run how) (prune (update w.run (ended how last now) d)))

unfoldable pub is_text : Option Json → String → Bool
is_text (some (text s)) k = str_eq s k
is_text _ k = false

-- what a readable roster says: the status of the run, the planner's state and the last report
unfoldable pub part_of : Outcome → String → Option Members
part_of o key = if o.is_ok then as_object (find o.body key) else none

unfoldable pub field_of : Option Members → String → Option Json
field_of none key = none
field_of (some ms) key = find ms key

unfoldable pub run_status : Outcome → Option Json
run_status o = field_of (part_of o "run") "status"

unfoldable pub checked : ℕ → Watch → Watch
checked now w = record w { checked_at = some (instant now) }

unfoldable pub seen_up : ℕ → Watch → Watch
seen_up now w = record (checked now w) { unknown = 0 }

unfoldable pub seen_other : Option Json → ℕ → Watch → Watch
seen_other planner now w = record (seen_up now w) { planner_state = planner }

unfoldable pub unread : ℕ → ℕ → Watch → Watch
unread n now w = record (checked now w) { unknown = n }

abbrev pub unknown_alert_after : ℕ
unknown_alert_after = 5

module _ (out : Outside) (cfg : Config) where
  -- a run that is up
  unfoldable pub note_up : Watch → Option Json → ℕ → Drove → Drove
  note_up w planner now d =
      if out.same planner w.planner_state
      then update w.run (seen_up now) d
      else update w.run (seen_other planner now)
          (noted (audit_state w.run planner w.planner_state) d)

  -- a roster that cannot be read, or a status that is not known
  unfoldable pub note_unread : Watch → ℕ → Drove → Drove
  note_unread w now d =
      let n = w.unknown + 1 in
      update w.run (unread n now)
        (if n == unknown_alert_after then noted (alert_unread w.run) d else d)

  unfoldable pub close_if_over : Watch → Bool → ℕ → Drove → Drove
  close_if_over w over now d = if over then finish w deadline none now d else d

  unfoldable pub observe : Watch → Outcome → Bool → ℕ → Drove → Drove
  observe w o over now d =
      if not o.is_ok && str_eq o.code "no-run"
      then finish w vanished none now d
      else if is_text (run_status o) "down"
      then finish w down (part_of o "lastReport") now d
      else if is_text (run_status o) "up"
      then close_if_over w over now (note_up w (field_of (part_of o "planner") "state") now d)
      else close_if_over w over now (note_unread w now d)

  unfoldable pub roster : Watch → Outcome
  roster w =
      Cli.run out.shell (cfg.binary ∷ "roster" ∷ "--run" ∷ w.run ∷ "--json" ∷ []) none 60000000

  unfoldable pub look : Watch → ℕ → Drove → Drove
  look w now d =
      let over = is_after w.deadline_at 0 now in
      if not over && not (is_after w.checked_at cfg.poll_seconds now)
      then d
      else observe w (roster w) over now d

  unfoldable pub look_each : List Watch → ℕ → Drove → Drove
  look_each [] now d = d
  look_each (w ∷ ws) now d = look_each ws now (look w now d)

  unfoldable pub tick : ℕ → Drove → Drove
  tick now d = look_each (watched d) now d
