-- ===== src/Schedule/Due.antt =====
-- bothy/schedule.py, due: the jobs that are to fire now.
use bothy.Common.{
  Listed, ℕ, true, false, List, [], ◌∷◌, ok, bind_ok, ok_injective, if◌then◌else◌, ◌≡◌, sym, ◌∙◌,
  ap, subst, Bool-cases, inl, inr, ◌⊎◌, ◌↔◌,
}
use bothy.Dict.{Dict}
use bothy.Schedule.Job.{Job, Clockwork}
use bothy.Schedule.Store.{File, load, is_due, due_rows, due}
use bothy.Schedule.Firing.{IsReady, is_due-IsReady, is_due_complete}

-- a job of the file
abbrev pub Stored : Job → Dict Job → Type 0
Stored j [] = ⊥
Stored j ((id, k) ∷ d) = (j ≡ k) ⊎ Stored j d

module _ (env : Clockwork) (now : ℕ) where
  due_rows_iff :
      (d : Dict Job) (ready : List Job) (j : Job)
      → due_rows env d now ≡ ok ready
      → Listed j ready ↔ (Stored j d × (is_due env j now ≡ ok true))
  unfolding due_rows
  due_rows_iff [] ready j h =
      let same : [] ≡ ready = ok_injective _ _ h in
      ((λ l. absurd (subst (Listed j) (sym same) l)), λ s. absurd (s.0))
  due_rows_iff ((id, k) ∷ d) ready j h =
      let (here, asked, h') = bind_ok (is_due env k now) _ ready h in
      let (rest, others, h'') = bind_ok (due_rows env d now) _ ready h' in
      let same : (if here then k ∷ rest else rest) ≡ ready = ok_injective _ _ h'' in
      let ih = due_rows_iff d rest j others in
      elim (Bool-cases here) [
        | inl fires ↦
            let joined : k ∷ rest ≡ ready = rw fires at same in
            let yes_k : is_due env k now ≡ ok true = asked ∙ ap ok fires in
            (
              (λ l. elim (subst (Listed j) (sym joined) l) [
                | inl e ↦ (inl e, subst (λ i. is_due env i now ≡ ok true) (sym e) yes_k)
                | inr more ↦ (inr (ih.0 more).0, (ih.0 more).1)
              ]),
              λ s.
                  subst (Listed j) joined
                    (elim s.0 [ inl e ↦ inl e | inr more ↦ inr (ih.1 (more, s.1)) ]),
            )
        | inr waits ↦
            let joined : rest ≡ ready = rw waits at same in
            let no_k : is_due env k now ≡ ok false = asked ∙ ap ok waits in
            (
              (λ l. let found = ih.0 (subst (Listed j) (sym joined) l) in (inr found.0, found.1)),
              λ s. subst (Listed j) joined (elim s.0 [
                | inl e ↦
                    let clash : ok false ≡ ok true =
                      sym no_k ∙ sym (ap (λ i. is_due env i now) e) ∙ s.1 in
                    absurd (cc)
                | inr more ↦ ih.1 (more, s.1)
              ]),
            )
      ]

-- An answer of due lists exactly the jobs of the file that every guard lets through: enabled, with a
-- time that has come, in their active hours, and far enough from their last firing.
pub due_iff :
    (env : Clockwork) (f : File) (now : ℕ) (ready : List Job)
    → due env f now ≡ ok ready
    → (j : Job) → Listed j ready ↔ (Stored j (load f) × IsReady env j now)
unfolding due
due_iff env f now ready h j =
    let (there, back) = due_rows_iff env now (load f) ready j h in
    (
      (λ l. ((there l).0, is_due-IsReady env j now (there l).1)),
      λ s. back (s.0, is_due_complete env j now s.1),
    )
