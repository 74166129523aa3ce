-- ===== src/Policy/Evidence.antt =====
-- bothy/policy.py, _human_approved_age: which record of the audit log decides.
use bothy.Common.{
  ℕ, String, true, false, Option, none, some, List, [], ◌∷◌, ◌++◌, ◌≡◌, refl, inl, inr, ◌⊎◌,
  Bool-cases, Option-cases, All, arith, sym, ◌∙◌, subst,
}
use bothy.Audit.Log.{Line, junk, foreign, entry}
use bothy.Policy.Rules.{Python, newer, approved_age, is_approval, age}

-- a line that is a human's approval of the tool, of that age
abbrev pub ApprovesAt : Python → String → String → ℕ → ℕ → Line → Type 0
ApprovesAt py server tool now a (entry r) =
    is_approval server tool r.body ≡ true × age py now r.body ≡ some a
ApprovesAt py server tool now a junk = ⊥
ApprovesAt py server tool now a foreign = ⊥

pub data Within (P : Line → Type 0) : List Line → Type 0 where
  here : {l : Line} {ls : List Line} → P l → Within P (l ∷ ls)
  there : {l : Line} {ls : List Line} → Within P ls → Within P (l ∷ ls)

by_cc : (b a : ℕ) → some b ≡ some a → b ≡ a
by_cc b a h = cc

module _ (py : Python) (server tool : String) (now : ℕ) where
  newer-cases :
      (newest : Option ℕ) (l : Line)
      → (newer py server tool now newest l ≡ newest)
        ⊎ ((a : ℕ) × (newer py server tool now newest l ≡ some a
              × ApprovesAt py server tool now a l))
  unfolding newer
  newer-cases newest junk = inl refl
  newer-cases newest foreign = inl refl
  newer-cases newest (entry r) = elim (Bool-cases (is_approval server tool r.body)) [
    | inr other ↦ rw other (inl refl)
    | inl approval ↦ elim (Option-cases (age py now r.body)) [
      | inl undated ↦ rw (approval, undated) (inl refl)
      | inr (a, dated) ↦ rw (approval, dated) (inr (a, (refl, (refl, refl))))
    ]
  ]

  approved_age-from :
      (newest : Option ℕ) (ls : List Line) (a : ℕ)
      → approved_age py server tool now newest ls ≡ some a
      → (newest ≡ some a) ⊎ Within (ApprovesAt py server tool now a) ls
  unfolding approved_age
  approved_age-from newest [] a h = inl h
  approved_age-from newest (l ∷ ls) a h =
      elim (approved_age-from (newer py server tool now newest l) ls a h) [
        | inr later ↦ inr (there later)
        | inl e ↦ elim (newer-cases newest l) [
          | inl same ↦ inl (sym same ∙ e)
          | inr (b, (eq, approves)) ↦
              let same : some b ≡ some a = sym eq ∙ e in
              inr (here (subst (λ c. ApprovesAt py server tool now c l) (by_cc b a same) approves))
        ]
      ]

  -- An age that is found is the age of some approval in the log.
  pub approved_age-Within :
      (ls : List Line) (a : ℕ)
      → approved_age py server tool now none ls ≡ some a
      → Within (ApprovesAt py server tool now a) ls
  approved_age-Within ls a h = elim (approved_age-from none ls a h) [ inl e ↦ cc | inr w ↦ w ]

  pub approved_age-append :
      (newest : Option ℕ) (ls ms : List Line)
      → approved_age py server tool now newest (ls ++ ms)
        ≡ approved_age py server tool now (approved_age py server tool now newest ls) ms
  unfolding approved_age
  approved_age-append newest [] ms = refl
  approved_age-append newest (l ∷ ls) ms =
      approved_age-append (newer py server tool now newest l) ls ms

  newer-dated :
      (newest : Option ℕ) (l : Line) (a : ℕ)
      → ApprovesAt py server tool now a l
      → newer py server tool now newest l ≡ some a
  unfolding newer
  newer-dated newest junk a h = elim h [ ]
  newer-dated newest foreign a h = elim h [ ]
  newer-dated newest (entry r) a h = rw (h.0, h.1) refl

  -- a line that the reader passes over
  abbrev pub Passed : Line → Type 0
  Passed (entry r) = (is_approval server tool r.body ≡ false) ⊎ (age py now r.body ≡ none)
  Passed junk = Unit
  Passed foreign = Unit

  newer-Passed :
      (newest : Option ℕ) (l : Line) → Passed l → newer py server tool now newest l ≡ newest
  unfolding newer
  newer-Passed newest junk h = refl
  newer-Passed newest foreign h = refl
  newer-Passed newest (entry r) (inl other) = rw other refl
  newer-Passed newest (entry r) (inr undated) = ground (arith, undated)

  approved_age-Passed :
      (newest : Option ℕ) (ls : List Line)
      → All Passed ls
      → approved_age py server tool now newest ls ≡ newest
  unfolding approved_age
  approved_age-Passed newest [] h = refl
  approved_age-Passed newest (l ∷ ls) h =
      approved_age-Passed (newer py server tool now newest l) ls h.1 ∙ newer-Passed newest l h.0

  -- The last approval with an age decides: whatever stands before it in the log, and behind it where
  -- only lines follow that approve nothing, or are dated in the future or not at all.
  pub approved_age-last :
      (before after : List Line) (l : Line) (a : ℕ)
      → ApprovesAt py server tool now a l
      → All Passed after
      → approved_age py server tool now none (before ++ l ∷ after) ≡ some a
  unfolding approved_age
  approved_age-last before after l a h passed =
      approved_age-append none before (l ∷ after)
      ∙ approved_age-Passed _ after passed
      ∙ newer-dated (approved_age py server tool now none before) l a h
