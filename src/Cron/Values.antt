-- ===== src/Cron/Values.antt =====
-- bothy/cronspec.py: which numbers a field holds.
use bothy.Common.{
  and_true, pos, ℕ, zero, suc, ◌+◌, ◌-◌, ◌*◌, ◌/◌, ◌≤◌, ◌<◌, Bool, true, false, List, [], ◌∷◌, ◌++◌,
  ◌≡◌, refl, sym, ◌∙◌, ap, inl, inr, Bool-cases, arith, ◌==◌, ==_iff, ◌&&◌, ◌||◌, filter, length,
  subst, ltb-false→le, ◌↔◌, ◌⊎◌, leb, ltb, leb→le, ok, bind_ok, ok_injective,
}
use native.Mathlib.Nat.{le-div_iff_mul-le}
use bothy.Text.{Chars, within, split_on}
use bothy.Cron.Field.{
  Names, progression, steps, span, parse_field, parse_parts, parse_part, non_empty,
}
use bothy.Cron.Spec.{mem}

or_right : (a b : Bool) → b ≡ true → (a || b) ≡ true
or_right true b h = refl
or_right false b h = h

or_left : (a b : Bool) → a ≡ true → (a || b) ≡ true
or_left true b h = refl
or_left false b h = cc

le→leb : (a b : ℕ) → a ≤ b → leb a b ≡ true
le→leb a b h = ground arith

progression_sound :
    (count start step n : ℕ)
    → mem n (progression count start step) ≡ true
    → (k : ℕ) × (k < count) × (n ≡ start + k * step)
unfolding progression
progression_sound zero start step n h = cc
progression_sound (suc count) start step n h = elim (Bool-cases (start == n)) [
  | inl first ↦ (0, omega arith, ground (arith, first))
  | inr later ↦
      let (k, below, same) = progression_sound count (start + step) step n (rw later at h) in
      (suc k, omega arith, grind arith)
]

progression_complete :
    (count start step k : ℕ)
    → k < count
    → mem (start + k * step) (progression count start step) ≡ true
unfolding progression
progression_complete zero start step k h = elim h [ ]
progression_complete (suc count) start step zero h = ground arith
progression_complete (suc count) start step (suc k) h =
    let e : start + step + k * step ≡ start + suc k * step = grind arith in
    or_right (start == start + suc k * step) _ (
      subst (λ n. mem n (progression count (start + step) step) ≡ true) e
        (progression_complete count (start + step) step k (omega arith)))

-- the numbers of `start-end/step`
abbrev pub OnSteps : ℕ → ℕ → ℕ → ℕ → Type 0
OnSteps start end step n = (k : ℕ) × (n ≡ start + k * step) × (n ≤ end)

-- A range with a step holds exactly every `step`-th number from its start up to its end.
pub span-mem_iff :
    (start end step n : ℕ) (vs : List ℕ)
    → 1 ≤ step
    → span (pos start) (pos end) step ≡ ok vs
    → (mem n vs ≡ true) ↔ OnSteps start end step n
unfolding span
span-mem_iff start end step n vs h e = elim (Bool-cases (ltb end start)) [
  | inl back ↦ let g = rw back at e in cc
  | inr forth ↦
      let ordered : start ≤ end = ltb-false→le end start forth in
      let g : ok (progression (steps start end step) start step) ≡ ok vs = rw forth at e in
      let same : progression (steps start end step) start step ≡ vs = ok_injective _ _ g in
      subst (λ ws. (mem n ws ≡ true) ↔ OnSteps start end step n) same
        (
          (λ m.
              let (k, below, eq) = progression_sound (steps start end step) start step n m in
              let fits : k * step ≤ end - start = (le-div_iff_mul-le h).0 (omega arith) in
              (k, eq, omega arith)),
          λ on.
              let k = on.0 in
              let fits : k ≤ (end - start) / step =
                (le-div_iff_mul-le h).1 (omega (arith, on.1, on.2)) in
              subst (λ m. mem m (progression (steps start end step) start step) ≡ true) (sym on.1)
                (progression_complete (steps start end step) start step k (omega arith)),
        )
]

mem-append : (n : ℕ) (xs ys : List ℕ) → mem n (xs ++ ys) ≡ (mem n xs || mem n ys)
mem-append n [] ys = refl
mem-append n (x ∷ xs) ys = ground (arith, mem-append n xs ys)

mem-filter : (p : ℕ → Bool) (n : ℕ) (xs : List ℕ) → mem n (filter p xs) ≡ (p n && mem n xs)
mem-filter p n [] = ground arith
mem-filter p n (x ∷ xs) = elim (Bool-cases (x == n)) [
  | inl same ↦
      let x_is_n : x ≡ n = (==_iff x n).0 same in ground (arith, ap p x_is_n, mem-filter p n xs)
  | inr other ↦ ground (arith, mem-filter p n xs)
]

-- some part of the field holds the number
abbrev InPart : Names → ℕ → ℕ → ℕ → List Chars → Type 0
InPart names low high n [] = ⊥
InPart names low high n (part ∷ parts) =
    ((vs : List ℕ) × (parse_part names low high part ≡ ok vs) × (mem n vs ≡ true))
    ⊎ InPart names low high n parts

parse_parts-mem_iff :
    (names : Names) (low high n : ℕ) (parts : List Chars) (vs : List ℕ)
    → parse_parts names low high parts ≡ ok vs
    → (mem n vs ≡ true) ↔ InPart names low high n parts
unfolding parse_parts
parse_parts-mem_iff names low high n [] vs e =
    let none_at_all : [] ≡ vs = ok_injective _ _ e in
    ((λ m. absurd (cc (subst (λ ws. mem n ws ≡ true) (sym none_at_all) m))), λ i. absurd i)
parse_parts-mem_iff names low high n (part ∷ parts) vs e =
    let (here, parsed, e') = bind_ok (parse_part names low high part) _ vs e in
    let (more, later, e'') = bind_ok (parse_parts names low high parts) _ vs e' in
    let joined : here ++ more ≡ vs = ok_injective _ _ e'' in
    let ih = parse_parts-mem_iff names low high n parts more later in
    (
      (λ m.
          let split : (mem n here || mem n more) ≡ true =
            sym (mem-append n here more) ∙ ap (mem n) joined ∙ m in
          elim (Bool-cases (mem n here)) [
            | inl found ↦ inl (here, parsed, found)
            | inr missed ↦ inr (ih.0 (rw missed at split))
          ]),
      λ i. sym (ap (mem n) joined) ∙ mem-append n here more ∙ elim i [
        | inl (ws, parsed', found) ↦
            let same : ws ≡ here = ok_injective _ _ (sym parsed' ∙ parsed) in
            or_left (mem n here) (mem n more) (subst (λ us. mem n us ≡ true) same found)
        | inr later' ↦ or_right (mem n here) (mem n more) (ih.1 later')
      ],
    )

non_empty-ok : (vs ws : List ℕ) → non_empty vs ≡ ok ws → (vs ≡ ws) × (1 ≤ length ws)
unfolding non_empty
non_empty-ok [] ws h = cc
non_empty-ok (v ∷ vs) ws h =
    let same : v ∷ vs ≡ ws = ok_injective _ _ h in
    (same, subst (λ us. 1 ≤ length us) same (omega arith))

-- A field that parses holds some number, and exactly the numbers of its range that one of its
-- parts holds.
parse_field-mem_iff :
    (names : Names) (low high : ℕ) (raw : Chars) (vs : List ℕ)
    → parse_field names low high raw ≡ ok vs
    → (1 ≤ length vs)
      × ((n : ℕ)
          → (mem n vs ≡ true)
            ↔ ((low ≤ n) × (n ≤ high) × InPart names low high n (split_on b',' raw)))
unfolding parse_field
parse_field-mem_iff names low high raw vs e =
    let (all, parsed, e') = bind_ok (parse_parts names low high (split_on b',' raw)) _ vs e in
    let (same, some_held) = non_empty-ok (filter (within low high) all) vs e' in
    (
      some_held,
      λ n.
          let both : mem n vs ≡ (within low high n && mem n all) =
            sym (ap (mem n) same) ∙ mem-filter (within low high) n all in
          let parts = parse_parts-mem_iff names low high n (split_on b',' raw) all parsed in
          (
            (λ m.
                let held : (within low high n && mem n all) ≡ true = sym both ∙ m in
                let (inside, found) = and_true _ _ held in
                let (above, below) = and_true _ _ inside in
                (leb→le low n above, leb→le n high below, parts.0 found)),
            λ h. both ∙ rw (le→leb low n h.0, le→leb n high h.1, parts.1 h.2) refl,
          ),
    )
