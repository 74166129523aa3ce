-- ===== src/Drove/Bounds.antt =====
-- bothy/drove.py, DroveRuns: how many runs are watched, and for what, after any calls.
use bothy.Common.{
  ℕ, ◌<◌, String, false, Option, none, some, List, [], ◌∷◌, ◌≡◌, arith, if◌then◌else◌, if_elim, any,
  length, leb,
}
use bothy.Json.{Json, Members, find}
use bothy.Dict
use bothy.Dict.{Dict, get-set, sum_values-set-le}
use bothy.Drove.Action
use bothy.Drove.Action.{Action, made, refused, assertion, parse_action, argv}
use bothy.Drove.Cli
use bothy.Drove.Cli.{Outcome}
use bothy.Drove.Runs.{
  Drove, Config, Outside, StartResult, watched, noted, record_start, target, is_failed, refusal,
  run_id_of,
}
use bothy.Drove.Watching.{
  new_watch, answered, read_start, has_target, ask, start_action, start_parsed, start,
}
use bothy.Drove.Tick.{tick}
use bothy.Drove.Fewer.{count, same_runs, tick-Within}
use bothy.Drove.Apart.{IsKept, length-watched, Fewer-AreApart, keep-IsKept}

module _ (cfg : Config) where
  abbrev Started : Drove × Option StartResult → Type 0
  Started r = IsKept cfg.max_runs r.0

  -- room for one more run of a target
  abbrev HasRoom : Action → Drove → Type 0
  HasRoom a d = (count d.runs < cfg.max_runs) × (any (has_target (target a)) (watched d) ≡ false)

  answered-Started :
      (a : Action) (wake : Option String) (source : String) (now : ℕ) (body : Members)
      (run : Option String) (d : Drove)
      → IsKept cfg.max_runs d
      → HasRoom a d
      → Started (answered cfg a wake source now body run d)
  unfolding answered record_start noted new_watch
  answered-Started a wake source now body none d h room = h
  answered-Started a wake source now body (some run) d h (room, free) =
      keep-IsKept cfg.max_runs (new_watch cfg a wake source now run body) d h room free

  read_start-Started :
      (a : Action) (wake : Option String) (source : String) (now : ℕ) (o : Outcome) (d : Drove)
      → IsKept cfg.max_runs d
      → HasRoom a d
      → Started (read_start cfg a wake source now o d)
  unfolding read_start record_start noted
  read_start-Started a wake source now o d h room =
      if_elim Started o.is_ok
        (answered cfg a wake source now o.body (run_id_of (find o.body "run")) d)
        (record_start (some (target a))
          (refusal (if is_failed o.code then "failed" else "refused") o.code o.error) d)
        (λ _. answered-Started a wake source now o.body _ d h room) (λ _. h)

  ask-Started :
      (out : Outside) (a : Action) (wake : Option String) (source : String) (now : ℕ)
      (repo : Option String) (d : Drove)
      → IsKept cfg.max_runs d
      → HasRoom a d
      → Started (ask out cfg a wake source now repo d)
  unfolding ask record_start noted
  ask-Started out a wake source now none d h room = h
  ask-Started out a wake source now (some repo) d h room =
      read_start-Started a wake source now
        (Cli.run out.shell (argv a cfg.binary) (some repo) cfg.timeout) d h room

  start-Started :
      (out : Outside) (raw : Action.Outcome) (wake : Option String) (source : String) (now : ℕ)
      (d : Drove)
      → IsKept cfg.max_runs d
      → Started (start_parsed out cfg raw wake source now d)
  unfolding start_parsed start_action record_start noted
  start-Started out (made a) wake source now d h =
      if_elim Started (any (has_target (target a)) (watched d)) _ _ (λ _. h)
        (λ free.
          if_elim Started (leb cfg.max_runs (length (watched d))) _ _ (λ _. h)
            (λ room.
              ask-Started out a wake source now _ d h
                (ground (arith, room, length-watched d), free)))
  start-Started out (refused why) wake source now d h = h
  start-Started out assertion wake source now d h = h

-- a call of the registry, with what is outside it at the time
pub data Op : Type 0 where
  starts : Outside → Json → Option String → String → ℕ → Op
  ticks : Outside → ℕ → Op

unfoldable pub step : Config → Op → Drove → Drove
step cfg (starts out raw wake source now) d = (start out cfg raw wake source now d).0
step cfg (ticks out now) d = tick out cfg now d

unfoldable pub history : Config → List Op → Drove → Drove
history cfg [] d = d
history cfg (op ∷ ops) d = history cfg ops (step cfg op d)

abbrev pub no_runs : Drove
no_runs = record { runs = []; calls = [] }

step-IsKept :
    (cfg : Config) (op : Op) (d : Drove)
    → IsKept cfg.max_runs d
    → IsKept cfg.max_runs (step cfg op d)
unfolding step start
step-IsKept cfg (starts out raw wake source now) d h =
    start-Started cfg out (parse_action out.dotted raw) wake source now d h
step-IsKept cfg (ticks out now) d (le, apart) =
    let fewer = tick-Within out cfg d.runs now d (same_runs d.runs) in
    (omega (arith, le, fewer.0), Fewer-AreApart (tick out cfg now d).runs d.runs fewer apart)

history-IsKept_from :
    (cfg : Config) (ops : List Op) (d : Drove)
    → IsKept cfg.max_runs d
    → IsKept cfg.max_runs (history cfg ops d)
unfolding history
history-IsKept_from cfg [] d h = h
history-IsKept_from cfg (op ∷ ops) d h =
    history-IsKept_from cfg ops (step cfg op d) (step-IsKept cfg op d h)

-- After any starts and ticks of a registry that began empty, one behind the other, so that none of them
-- runs between the tests of another and its write, and whatever the actions ask for and Drove answers,
-- no more runs are watched than the configured limit, and no two of them have one target.
pub history-IsKept : (cfg : Config) (ops : List Op) → IsKept cfg.max_runs (history cfg ops no_runs)
unfolding count Dict.sum_values Dict.get
history-IsKept cfg ops =
    history-IsKept_from cfg ops no_runs (omega arith, λ j k v w h there on still same. cc)
