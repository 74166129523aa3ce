-- ===== src/Drove/Apart.antt =====
-- bothy/drove.py, DroveRuns: how many runs a registry watches, and for what.
use bothy.Common.{
  ℕ, ◌≤◌, ◌<◌, ◌⊎◌, String, str_eq, str_eq_iff, Bool, true, false, some, List, [], ◌∷◌, ◌≡◌, refl,
  sym, ap, ◌∙◌, arith, Bool-cases, inl, inr, subst, any, filter, length,
}
use bothy.Dict
use bothy.Dict.{Dict, get-set, sum_values-set-le}
use bothy.Drove.Runs.{
  Watch, Drove, is_watching, values, insert_started, records_of, records, watched,
}
use bothy.Drove.Watching.{keep, has_target}
use bothy.Drove.Fewer.{weight, count, Fewer}

length-insert_started :
    (w : Watch) (ws : List Watch)
    → length (filter is_watching (insert_started w ws)) ≡ length (filter is_watching (w ∷ ws))
unfolding insert_started
length-insert_started w [] = refl
length-insert_started w (v ∷ vs) = ground (arith, length-insert_started w vs)

any-insert_started :
    (p : Watch → Bool) (w : Watch) (ws : List Watch)
    → any p (filter is_watching (insert_started w ws)) ≡ any p (filter is_watching (w ∷ ws))
unfolding insert_started
any-insert_started p w [] = refl
any-insert_started p w (v ∷ vs) = ground (arith, any-insert_started p w vs)

length-records_of :
    (ws : List Watch) → length (filter is_watching (records_of ws)) ≡ length (filter is_watching ws)
unfolding records_of
length-records_of [] = refl
length-records_of (w ∷ ws) =
    length-insert_started w (records_of ws) ∙ ground (arith, length-records_of ws)

any-records_of :
    (p : Watch → Bool) (ws : List Watch)
    → any p (filter is_watching (records_of ws)) ≡ any p (filter is_watching ws)
unfolding records_of
any-records_of p [] = refl
any-records_of p (w ∷ ws) =
    any-insert_started p w (records_of ws) ∙ ground (arith, any-records_of p ws)

length-values : (runs : Dict Watch) → length (filter is_watching (values runs)) ≡ count runs
unfolding values count weight Dict.sum_values
length-values [] = refl
length-values ((k, w) ∷ runs) = ground (arith, length-values runs)

any_none :
    (p : Watch → Bool) (v : Watch) (vs : List Watch)
    → any p (filter is_watching (v ∷ vs)) ≡ false
    → (is_watching v ≡ true → p v ≡ false) × (any p (filter is_watching vs) ≡ false)
any_none p v vs h = ground (arith, h)

-- a run that is watched is among those that are asked for their target
any-values :
    (p : Watch → Bool) (runs : Dict Watch) (k : String) (w : Watch)
    → any p (filter is_watching (values runs)) ≡ false
    → Dict.get runs k ≡ some w
    → is_watching w ≡ true
    → p w ≡ false
unfolding values Dict.get
any-values p [] k w none_here h on = cc
any-values p ((j, v) ∷ runs) k w none_here h on = elim (Bool-cases (str_eq j k)) [
  | inl own ↦
      let e : some v ≡ some w = sym (rw own refl) ∙ h in
      let same : v ≡ w = cc in
      subst (λ x. p x ≡ false) same
        ((any_none p v (values runs) none_here).0 (ap is_watching same ∙ on))
  | inr other ↦
      any-values p runs k w (any_none p v (values runs) none_here).1 (sym (rw other refl) ∙ h) on
]

pub length-watched : (d : Drove) → length (watched d) ≡ count d.runs
unfolding watched records
length-watched d = length-records_of (values d.runs) ∙ length-values d.runs

-- of the watched runs, no two are for one target
abbrev pub AreApart : Dict Watch → Type 0
AreApart runs =
    (j k : String) (v w : Watch)
    → Dict.get runs j ≡ some v
    → Dict.get runs k ≡ some w
    → is_watching v ≡ true
    → is_watching w ≡ true
    → v.target ≡ w.target
    → j ≡ k

pub Fewer-AreApart :
    (after before : Dict Watch) → Fewer after before → AreApart before → AreApart after
Fewer-AreApart after before (le, back) apart j k v w hv hw on still same =
    let (x, hx, on_x, alike_x) = back j v hv on in
    let (y, hy, on_y, alike_y) = back k w hw still in
    apart j k x y hx hy on_x on_y (alike_x ∙ same ∙ sym alike_y)

-- the registry keeps to the limit
abbrev pub IsKept : ℕ → Drove → Type 0
IsKept most d = (count d.runs ≤ most) × AreApart d.runs

weight-le-one : (w : Watch) → weight w ≤ 1
unfolding weight
weight-le-one w = ground arith

other_target : (v w : Watch) → v.target ≡ w.target → has_target w.target v ≡ false → ⊥
unfolding has_target
other_target v w same h = ground (arith, h, same, str_eq_iff v.target w.target)

get-set_cases :
    (runs : Dict Watch) (i : String) (w : Watch) (k : String) (v : Watch)
    → Dict.get (Dict.set runs i w) k ≡ some v
    → ((i ≡ k) × (v ≡ w)) ⊎ (Dict.get runs k ≡ some v)
get-set_cases runs i w k v h = elim (Bool-cases (str_eq i k)) [
  | inl own ↦
      let e : some v ≡ some w = sym h ∙ get-set runs i k w ∙ rw own refl in
      inl (ground (arith, own, str_eq_iff i k), cc)
  | inr other ↦ inr (sym (get-set runs i k w ∙ rw other refl) ∙ h)
]

-- a new watch where the limit leaves room and none is for its target
pub keep-IsKept :
    (most : ℕ) (w : Watch) (d : Drove)
    → IsKept most d
    → count d.runs < most
    → any (has_target w.target) (watched d) ≡ false
    → IsKept most (keep w d)
unfolding keep count weight watched records has_target
keep-IsKept most w d (le, apart) room free =
    let alone = any-values (has_target w.target) d.runs in
    let none_for = sym (any-records_of (has_target w.target) (values d.runs)) ∙ free in
    let absurd_for =
      λ (k : String) (v : Watch) (here : Dict.get d.runs k ≡ some v) (on : is_watching v ≡ true)
          (same : v.target ≡ w.target).
        other_target v w same (alone k v none_for here on) in
    (
      omega (arith, sum_values-set-le weight d.runs w.run w, weight-le-one w, room),
      λ j k u v hu hv on still same. elim (get-set_cases d.runs w.run w j u hu) [
        | inl (own_j, is_u) ↦ elim (get-set_cases d.runs w.run w k v hv) [
          | inl (own_k, is_v) ↦ sym own_j ∙ own_k
          | inr there ↦
              let bad = absurd_for k v there still (sym same ∙ ap (λ x. x.target) is_u) in
              elim bad [ ]
        ]
        | inr here ↦ elim (get-set_cases d.runs w.run w k v hv) [
          | inl (own_k, is_v) ↦
              let bad = absurd_for j u here on (same ∙ ap (λ x. x.target) is_v) in elim bad [ ]
          | inr there ↦ apart j k u v here there on still same
        ]
      ],
    )
