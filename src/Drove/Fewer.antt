-- ===== src/Drove/Fewer.antt =====
-- bothy/drove.py, DroveRuns.tick: a pass over the watched runs adds none.
use bothy.Common.{
  ℕ, ◌+◌, ◌≤◌, String, str_eq, str_eq_iff, Bool, true, false, Option, none, some, List, [], ◌∷◌,
  ◌≡◌, refl, sym, ap, ◌∙◌, arith, not, if◌then◌else◌, if_elim, ◌&&◌, ◌==◌, Bool-cases, inl, inr,
  subst,
}
use bothy.Json.{Json, Members}
use bothy.Dict
use bothy.Dict.{Dict, get-set, get-remove, sum_values-set-present, sum_values-remove-le}
use bothy.Drove.Cli.{Outcome}
use bothy.Drove.Runs.{
  Status, down, vanished, deadline, Watch, Drove, Config, Outside, is_watching, noted, watched,
}
use bothy.Drove.Tick.{
  updated, update, stale_of, finished_of, drop_runs, prune, ended, finish, checked, seen_up,
  seen_other, unread, note_up, note_unread, close_if_over, observe, look, look_each, tick,
  unknown_alert_after, is_text, run_status,
}
use bothy.Drove.Watching.{is_after}

unfoldable pub weight : Watch → ℕ
weight w = if is_watching w then 1 else 0

-- the runs that are watched
unfoldable pub count : Dict Watch → ℕ
count runs = Dict.sum_values weight runs

-- no run is watched after that was not watched before, for the same target, and there are no more
abbrev pub Fewer : Dict Watch → Dict Watch → Type 0
Fewer after before =
    (count after ≤ count before)
    × ((k : String) (w : Watch)
        → Dict.get after k ≡ some w
        → is_watching w ≡ true
        → (v : Watch) × (Dict.get before k ≡ some v)
          × (is_watching v ≡ true)
          × (v.target ≡ w.target))

pub same_runs : (runs : Dict Watch) → Fewer runs runs
same_runs runs = (omega arith, λ k w h u. (w, h, u, refl))

pub then-Fewer : (c b a : Dict Watch) → Fewer c b → Fewer b a → Fewer c a
then-Fewer c b a (le, back) (le2, back2) = (
  omega (arith, le, le2),
  λ k w h u.
      let (v, here, on, same) = back k w h u in
      let (x, there, still, alike) = back2 k v here on in (x, there, still, alike ∙ same),
)

-- a change that starts no watch and leaves the target
abbrev pub Mild : (Watch → Watch) → Type 0
Mild changes =
    (w : Watch)
    → ((changes w).target ≡ w.target) × (is_watching (changes w) ≡ true → is_watching w ≡ true)

weight-le : (changes : Watch → Watch) (w : Watch) → Mild changes → weight (changes w) ≤ weight w
unfolding weight
weight-le changes w mild = ground (arith, (mild w).1)

updated-Fewer :
    (changes : Watch → Watch) (run : String) (found : Option Watch) (runs : Dict Watch)
    → Mild changes
    → Dict.get runs run ≡ found
    → Fewer (updated changes run found runs) runs
unfolding updated count
updated-Fewer changes run none runs mild h = same_runs runs
updated-Fewer changes run (some w) runs mild h = (
  omega (arith, sum_values-set-present weight runs run (changes w) w h, weight-le changes w mild),
  λ k v there on. elim (Bool-cases (str_eq run k)) [
    | inl own ↦
        let e : some v ≡ some (changes w) =
          sym there ∙ get-set runs run k (changes w) ∙ rw own refl in
        let same : v ≡ changes w = cc in
        let here : run ≡ k = ground (arith, own, str_eq_iff run k) in
        (
          w,
          subst (λ j. Dict.get runs j ≡ some w) here h,
          (mild w).1 (ap is_watching (sym same) ∙ on),
          sym (mild w).0 ∙ ap (λ x. x.target) (sym same),
        )
    | inr other ↦ (v, sym (get-set runs run k (changes w) ∙ rw other refl) ∙ there, on, refl)
  ],
)

remove-Fewer : (run : String) (runs : Dict Watch) → Fewer (Dict.remove runs run) runs
unfolding count
remove-Fewer run runs = (
  sum_values-remove-le weight runs run,
  λ k w there on. (w, ground (arith, get-remove runs run k, there), on, refl),
)

drop_runs-Fewer : (stale : List Watch) (runs : Dict Watch) → Fewer (drop_runs stale runs) runs
unfolding drop_runs
drop_runs-Fewer [] runs = same_runs runs
drop_runs-Fewer (w ∷ stale) runs =
    then-Fewer _ (Dict.remove runs w.run) runs (drop_runs-Fewer stale (Dict.remove runs w.run))
      (remove-Fewer w.run runs)

-- a registry with no more watched runs than a table
abbrev pub Within : Dict Watch → Drove → Type 0
Within before d = Fewer d.runs before

update-Within :
    (before : Dict Watch) (run : String) (changes : Watch → Watch) (d : Drove)
    → Mild changes
    → Within before d
    → Within before (update run changes d)
unfolding update
update-Within before run changes d mild h =
    then-Fewer _ d.runs before (updated-Fewer changes run (Dict.get d.runs run) d.runs mild refl) h

finish-Within :
    (before : Dict Watch) (w : Watch) (how : Status) (last : Option Members) (now : ℕ) (d : Drove)
    → is_watching (ended how last now w) ≡ false
    → Within before d
    → Within before (finish w how last now d)
unfolding finish noted prune ended is_watching
finish-Within before w how last now d over h =
    then-Fewer _ (update w.run (ended how last now) d).runs before
      (drop_runs-Fewer (stale_of (finished_of (update w.run (ended how last now) d).runs)) _)
      (update-Within before w.run (ended how last now) d
        (λ v. (refl, λ on. let x : true ≡ false = sym on ∙ over in cc)) h)

module _ (out : Outside) (cfg : Config) (before : Dict Watch) where
  close_if_over-Within :
      (w : Watch) (over : Bool) (now : ℕ) (d : Drove)
      → Within before d
      → Within before (close_if_over out cfg w over now d)
  unfolding close_if_over ended is_watching
  close_if_over-Within w over now d h =
      if_elim (Within before) over _ _ (λ _. finish-Within before w deadline none now d refl h)
        (λ _. h)

  note_up-Within :
      (w : Watch) (planner : Option Json) (now : ℕ) (d : Drove)
      → Within before d
      → Within before (note_up out cfg w planner now d)
  unfolding note_up noted seen_up seen_other checked is_watching
  note_up-Within w planner now d h =
      if_elim (Within before) (out.same planner w.planner_state) _ _
        (λ _. update-Within before w.run (seen_up now) d (λ v. (refl, λ on. on)) h)
        (λ _. update-Within before w.run (seen_other planner now) _ (λ v. (refl, λ on. on)) h)

  note_unread-Within :
      (w : Watch) (now : ℕ) (d : Drove)
      → Within before d
      → Within before (note_unread out cfg w now d)
  unfolding note_unread noted unread checked is_watching
  note_unread-Within w now d h =
      update-Within before w.run (unread (w.unknown + 1) now) _ (λ v. (refl, λ on. on))
        (if_elim (Within before) (w.unknown + 1 == unknown_alert_after) _ _ (λ _. h) (λ _. h))

  observe-Within :
      (w : Watch) (o : Outcome) (over : Bool) (now : ℕ) (d : Drove)
      → Within before d
      → Within before (observe out cfg w o over now d)
  unfolding observe ended is_watching
  observe-Within w o over now d h =
      let P = Within before in
      if_elim P (not o.is_ok && str_eq o.code "no-run") _ _
        (λ _. finish-Within before w vanished none now d refl h)
        (λ _.
          if_elim P (is_text (run_status o) "down") _ _
            (λ _. finish-Within before w down _ now d refl h)
            (λ _.
              if_elim P (is_text (run_status o) "up") _ _
                (λ _. close_if_over-Within w over now _ (note_up-Within w _ now d h))
                (λ _. close_if_over-Within w over now _ (note_unread-Within w now d h))))

  look-Within :
      (w : Watch) (now : ℕ) (d : Drove) → Within before d → Within before (look out cfg w now d)
  unfolding look
  look-Within w now d h =
      if_elim (Within before)
        (not (is_after w.deadline_at 0 now) && not (is_after w.checked_at cfg.poll_seconds now)) _ _
        (λ _. h) (λ _. observe-Within w _ _ now d h)

  look_each-Within :
      (ws : List Watch) (now : ℕ) (d : Drove)
      → Within before d
      → Within before (look_each out cfg ws now d)
  unfolding look_each
  look_each-Within [] now d h = h
  look_each-Within (w ∷ ws) now d h = look_each-Within ws now _ (look-Within w now d h)

  pub tick-Within : (now : ℕ) (d : Drove) → Within before d → Within before (tick out cfg now d)
  unfolding tick
  tick-Within now d h = look_each-Within (watched d) now d h
