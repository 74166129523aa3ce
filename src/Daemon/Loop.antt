-- ===== src/Daemon/Loop.antt =====
-- bothy/daemon.py, drain and _drain_loop: what a pass does to one wake.
use bothy.Common.{
  ℕ, ◌≤◌, String, true, false, List, [], ◌∷◌, ◌≡◌, inl, inr, refl, ap, sym, ◌∙◌, arith, str_eq,
  str_eq_iff, if_elim, Bool-cases, not, subst, if◌then◌else◌,
}
use bothy.Daemon.Queue.{Wake, has_id, pending}
use bothy.Daemon.Report.{is_drove, is_going}
use bothy.Daemon.Pass.{Limits, Pass}
use bothy.Daemon.Drain.{Outside, turn, loop, drain, fresh}
use bothy.Daemon.Rows.{row, Keeps, row-pending}
use bothy.Daemon.Others.{Silent, turn-other}
use bothy.Daemon.Waits.{time_until-le, Waits, Turned, Served}
use bothy.Daemon.Own.{turn-own}

other_wake :
    (i : String) (w : Wake) (ws : List Wake)
    → has_id i w ≡ false
    → (str_eq i w.id ≡ false) × (row i (w ∷ ws) ≡ row i ws)
unfolding has_id
other_wake i w ws h = (ground (arith, h, str_eq_iff i w.id, str_eq_iff w.id i), rw h refl)

own_wake :
    (i : String) (w : Wake) (ws : List Wake) → has_id i w ≡ true → row i (w ∷ ws) ≡ w ∷ row i ws
own_wake i w ws h = rw h refl

Keeps-later : (i : String) (v : Wake) (t s : ℕ) (p : Pass) → t ≤ s → Keeps i v s p → Keeps i v t p
Keeps-later i v t s p h (found, at, time) = (found, at, omega (arith, h, time))

Waits-later :
    (limits : Limits) (w v : Wake) (t s now : ℕ)
    → s ≤ now
    → Waits limits w t v s
    → Waits limits w t v now
Waits-later limits w v t s now h x = record {
  unprocessed = x.unprocessed;
  same_drove = x.same_drove;
  same_goal = x.same_goal;
  soon = omega (arith, x.soon, time_until-le v.next_attempt_at s now h);
  no_more = x.no_more;
  fewer = x.fewer;
}

module _ (out : Outside) (limits : Limits) (i : String) (silent : Silent i out) where
  loop-other :
      (v : Wake) (t : ℕ) (ws : List Wake) (p : Pass)
      → row i ws ≡ []
      → Keeps i v t p
      → Keeps i v t (loop out limits ws p)
  unfolding loop
  loop-other v t [] p h k = k
  loop-other v t (w ∷ ws) p h k = elim (Bool-cases (has_id i w)) [
    | inl own ↦ let e : (w ∷ row i ws) ≡ [] = sym (own_wake i w ws own) ∙ h in cc
    | inr other ↦
        let (apart, same) = other_wake i w ws other in
        let next = turn-other i v t w apart out silent limits p k in
        if_elim (Keeps i v t) (out.stopping p) _ _ (λ _. k)
          (λ _.
            if_elim (Keeps i v t) (is_going (turn out limits w p).flow) _ _
              (λ _. loop-other v t ws _ (sym same ∙ h) next) (λ _. next))
  ]

module _ (out : Outside) (limits : Limits) (w : Wake) (t : ℕ) (silent : Silent w.id out)
    (waiting : w.processed ≡ false) (mine : is_drove w ≡ false) where
  -- the wake after its turn, at the end of the loop
  Turned-on :
      (ws : List Wake) (q : Pass)
      → row w.id ws ≡ []
      → Turned limits w t q
      → Turned limits w t (loop out limits ws q)
  Turned-on ws q h (v, (found, at, time), state) =
      let end = loop-other out limits w.id silent v q.now ws q h (found, at, omega arith) in
      (
        v,
        Keeps-later w.id v t q.now (loop out limits ws q) time end,
        elim state [
          | inl done ↦ inl done
          | inr waits ↦
              inr (Waits-later limits w v t q.now (loop out limits ws q).now (end.2) waits)
        ],
      )

  at_turn :
      (ws : List Wake) (p : Pass)
      → row w.id ws ≡ []
      → Keeps w.id w t p
      → Served limits w t (loop out limits (w ∷ ws) p)
  unfolding loop is_going
  at_turn ws p h k =
      if_elim (Served limits w t) (out.stopping p) _ _ (λ _ going. cc)
        (λ _.
          if_elim (Served limits w t) (is_going (turn out limits w p).flow) _ _
            (λ on _. Turned-on ws _ h (turn-own limits w t out p waiting mine silent k on))
            (λ off going. cc))

  loop-own :
      (ws : List Wake) (p : Pass)
      → row w.id ws ≡ (w ∷ [])
      → Keeps w.id w t p
      → Served limits w t (loop out limits ws p)
  unfolding loop is_going
  loop-own [] p h k = cc
  loop-own (u ∷ ws) p h k = elim (Bool-cases (has_id w.id u)) [
    | inl own ↦
        let e : (u ∷ row w.id ws) ≡ (w ∷ []) = sym (own_wake w.id u ws own) ∙ h in
        let first : w ≡ u = cc in
        let rest : row w.id ws ≡ [] = cc in
        subst (λ x. Served limits w t (loop out limits (x ∷ ws) p)) first (at_turn ws p rest k)
    | inr other ↦
        let (apart, same) = other_wake w.id u ws other in
        let next = turn-other w.id w t u apart out silent limits p k in
        if_elim (Served limits w t) (out.stopping p) _ _ (λ _ going. cc)
          (λ _.
            if_elim (Served limits w t) (is_going (turn out limits u p).flow) _ _
              (λ _. loop-own ws _ (sym same ∙ h) next) (λ off going. cc))
  ]

  pub drain-own :
      (queue : List Wake)
      → out.lease_busy ≡ false
      → row w.id queue ≡ (w ∷ [])
      → Served limits w t (drain out limits queue t)
  unfolding drain pending
  drain-own queue free h =
      if_elim (Served limits w t) out.lease_busy _ _ (λ busy going. cc)
        (λ _.
          loop-own (pending queue) (fresh queue t)
            (row-pending w.id queue ∙ ap pending h ∙ ap (λ b. if not b then w ∷ [] else []) waiting)
            (h, refl, omega arith))

-- a wake that is processed stays as it is
pub drain-other :
    (out : Outside) (limits : Limits) (i : String) (v : Wake) (queue : List Wake) (now : ℕ)
    → Silent i out
    → v.processed ≡ true
    → v.id ≡ i
    → row i queue ≡ (v ∷ [])
    → row i (drain out limits queue now).queue ≡ (v ∷ [])
unfolding drain pending
drain-other out limits i v queue now silent done at h =
    if_elim {A = Pass} (λ p. row i p.queue ≡ (v ∷ [])) out.lease_busy _ _ (λ _. h)
      (λ _.
        (loop-other out limits i silent v now (pending queue) (fresh queue now)
          (row-pending i queue ∙ ap pending h ∙ ap (λ b. if not b then v ∷ [] else []) done)
          (h, at, omega arith)).0)
