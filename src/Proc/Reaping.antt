-- ===== src/Proc/Reaping.antt =====
-- bothy/proc.py, reap: which groups are signalled.
use bothy.Common.{
  Listed, and_true, ℕ, Bool, true, false, List, [], ◌∷◌, ◌++◌, not, if_elim, ◌≡◌, refl, ap, inl,
  inr, ◌⊎◌,
}
use bothy.Proc.Group.{Machine, group_alive, Signal, terminate, kill, Outcome, kill_group, wait}
use bothy.Proc.Registry.{
  Worker, File, Turn, is_other_boot, same_start, still_ours, workers, reap_one, reap_all, reap,
}

abbrev pub group_of : Signal → ℕ
group_of (terminate pgid) = pgid
group_of (kill pgid) = pgid

-- the group that has the worker's number is the one that was started for it
abbrev pub IsOurs : Machine → Worker → Type 0
IsOurs m w =
    (is_other_boot w.boot_id m.boot_id ≡ false)
    × (group_alive m w.pgid ≡ true)
    × (same_start w.start_ticks (m.start_time w.pid) ≡ true)

still_ours-IsOurs : (m : Machine) (w : Worker) → still_ours m w ≡ true → IsOurs m w
unfolding still_ours
still_ours-IsOurs m w =
    if_elim (λ b. b ≡ true → IsOurs m w) (is_other_boot w.boot_id m.boot_id) _ _
      (λ other h. absurd (cc))
      (λ same h. let (alive, start) = and_true _ _ h in (same, alive, start))

Listed-append : (s : Signal) (xs ys : List Signal) → Listed s (xs ++ ys) → Listed s xs ⊎ Listed s ys
Listed-append s [] ys h = inr h
Listed-append s (x ∷ xs) ys h = elim h [
  | inl here ↦ inl (inl here)
  | inr there ↦ elim (Listed-append s xs ys there) [
    | inl left ↦ inl (inr left)
    | inr right ↦ inr right
  ]
]

kill_group-Listed :
    (s : Signal) (pgid : ℕ) (alive : Bool) (polls later : List Bool)
    → Listed s (kill_group pgid alive polls later).0
    → group_of s ≡ pgid
unfolding kill_group
kill_group-Listed s pgid alive polls later =
    if_elim (λ (r : List Signal × Outcome). Listed s r.0 → group_of s ≡ pgid) (not alive) _ _
      (λ gone h. absurd h)
      (λ here.
        if_elim (λ (r : List Signal × Outcome). Listed s r.0 → group_of s ≡ pgid) (wait polls) _ _
          (λ ended h. elim h [ inl same ↦ ap group_of same | inr none_left ↦ absurd none_left ])
          (λ stayed h. elim h [
            | inl same ↦ ap group_of same
            | inr more ↦ elim more [
              | inl same ↦ ap group_of same
              | inr none_left ↦ absurd none_left
            ]
          ]))

reap_one-Listed :
    (t : Turn) (w : Worker) (s : Signal)
    → Listed s (reap_one t w).0
    → (group_of s ≡ w.pgid) × IsOurs t.before w
unfolding reap_one
reap_one-Listed t w s =
    if_elim
      (λ (r : List Signal × Outcome). Listed s r.0 → (group_of s ≡ w.pgid) × IsOurs t.before w)
      (still_ours t.before w) _ _
      (λ ours h.
        (kill_group-Listed s w.pgid t.at_kill t.polls t.later h, still_ours-IsOurs t.before w ours))
      (λ stale h. absurd h)

reap_all-Listed :
    (turn : Worker → Turn) (ws : List Worker) (s : Signal)
    → Listed s (reap_all turn ws).0
    → (w : Worker) × Listed w ws × (group_of s ≡ w.pgid) × IsOurs (turn w).before w
unfolding reap_all
reap_all-Listed turn [] s h = absurd h
reap_all-Listed turn (w ∷ ws) s h =
    elim (Listed-append s (reap_one (turn w) w).0 (reap_all turn ws).0 h) [
      | inl here ↦
          let (group, ours) = reap_one-Listed (turn w) w s here in (w, inl refl, group, ours)
      | inr later ↦
          let (v, there, group, ours) = reap_all-Listed turn ws s later in
          (v, inr there, group, ours)
    ]

-- The reaping of a predecessor's workers signals no group but that of a recorded worker which is,
-- when its turn comes, alive, of this boot, and led by a process with the recorded start time, where
-- one was recorded.
pub reap-Listed :
    (turn : Worker → Turn) (f : File) (s : Signal)
    → Listed s (reap turn f).1.0
    → (w : Worker) × Listed w (workers f) × (group_of s ≡ w.pgid) × IsOurs (turn w).before w
unfolding reap
reap-Listed turn f s h = reap_all-Listed turn (workers f) s h
