-- ===== src/Poll/Replay.antt =====
-- bothy/poll.py: an item that was woken for once is not woken for again.
use bothy.Common.{
  ℕ, zero, suc, ◌+◌, ◌-◌, ◌≤◌, String, Bool, true, false, Option, some, List, [], ◌∷◌, ◌++◌, ◌≡◌,
  refl, sym, ◌∙◌, ap, subst, arith, inl, inr, ◌⊎◌, All, map, length, take, drop, Bool-cases,
  Option-cases, str_eq, str_eq_iff, str_eq_refl, length-append, ◌||◌, if◌then◌else◌,
}
use bothy.Json.{Json}
use bothy.Poll.Source.{
  Source, SourceState, Fetched, answered, no_credential, broken, unchanged, not_json, mem, add_ids,
  bounded, remember, is_dict, at_path, next_cursor, collect, poll, items_of, dig,
}

mem-append : (k : String) (xs ys : List String) → mem k (xs ++ ys) ≡ (mem k xs || mem k ys)
unfolding mem
mem-append k [] ys = refl
mem-append k (x ∷ xs) ys = ground (arith, mem-append k xs ys)

-- `seen` after one turn of the loop
abbrev add_id : List String → String → List String
add_id seen j = if mem j seen then seen else seen ++ j ∷ []

add_id-keeps :
    (k j : String) (seen : List String) → mem k seen ≡ true → mem k (add_id seen j) ≡ true
add_id-keeps k j seen h = elim (Bool-cases (mem j seen)) [
  | inl old ↦ subst (λ b. mem k (if b then seen else seen ++ j ∷ []) ≡ true) (sym old) h
  | inr new ↦
      subst (λ b. mem k (if b then seen else seen ++ j ∷ []) ≡ true) (sym new)
        (rw (mem-append, h) refl)
]

add_id-has : (j : String) (seen : List String) → mem j (add_id seen j) ≡ true
unfolding mem
add_id-has j seen = elim (Bool-cases (mem j seen)) [
  | inl old ↦ subst (λ b. mem j (if b then seen else seen ++ j ∷ []) ≡ true) (sym old) old
  | inr new ↦
      subst (λ b. mem j (if b then seen else seen ++ j ∷ []) ≡ true) (sym new)
        (mem-append j seen (j ∷ []) ∙ ground (arith, str_eq_refl j))
]

add_ids-keeps :
    (ks seen : List String) (k : String) → mem k seen ≡ true → mem k (add_ids seen ks) ≡ true
unfolding add_ids
add_ids-keeps [] seen k h = h
add_ids-keeps (j ∷ ks) seen k h = add_ids-keeps ks (add_id seen j) k (add_id-keeps k j seen h)

add_ids-mem :
    (ks seen : List String) (k : String) → mem k ks ≡ true → mem k (add_ids seen ks) ≡ true
unfolding add_ids mem
add_ids-mem [] seen k h = cc
add_ids-mem (j ∷ ks) seen k h = elim (Bool-cases (str_eq k j)) [
  | inl same ↦ add_ids-keeps ks (add_id seen j) k (
      subst (λ x. mem x (add_id seen j) ≡ true) (sym ((str_eq_iff k j).0 same)) (add_id-has j seen))
  | inr other ↦ add_ids-mem ks (add_id seen j) k (rw other at h)
]

add_id-le : (seen : List String) (j : String) → length (add_id seen j) ≤ suc (length seen)
add_id-le seen j = ground (arith, length-append seen (j ∷ []))

add_ids-le : (ks seen : List String) → length (add_ids seen ks) ≤ length seen + length ks
unfolding add_ids
add_ids-le [] seen = omega arith
add_ids-le (k ∷ ks) seen = omega (arith, add_ids-le ks (add_id seen k), add_id-le seen k)

bounded-fits : (cap : ℕ) (ks : List String) → length ks ≤ cap → bounded cap ks ≡ ks
unfolding bounded
bounded-fits zero ks h = refl
bounded-fits (suc cap) ks h =
    let all : length ks - suc cap ≡ 0 = omega arith in ap (λ n. drop n ks) all

take-le {ℓ} : {A : Type ℓ} (n : ℕ) (xs : List A) → length (take n xs) ≤ n
take-le zero xs = omega arith
take-le (suc n) [] = omega arith
take-le (suc n) (x ∷ xs) = omega (arith, take-le n xs)

or_right : (a b : Bool) → b ≡ true → (a || b) ≡ true
or_right true b h = refl
or_right false b h = h

name_unique : (k j : String) → some k ≡ some j → k ≡ j
name_unique k j h = cc

module _ (index : String → Option ℕ) (shown : Json → String) where
  -- the item is none that a poll would wake for
  abbrev Known : Source → List String → Json → Type 0
  Known src seen item =
      (k : String)
      → is_dict item ≡ true
      → at_path index shown src.id_path item ≡ some k
      → mem k seen ≡ true

  collect-cases :
      (src : Source) (seen : List String) (cursor : Option String) (item : Json) (items : List Json)
      → (Known src seen item
          × (collect index shown src seen cursor (item ∷ items)).wakes
            ≡ (collect index shown src seen cursor items).wakes)
        ⊎ ((k : String) × (at_path index shown src.id_path item ≡ some k
              × (mem k seen ≡ false
                  × (collect index shown src seen cursor (item ∷ items)).wakes
                    ≡ record { item_id = k; item = item }
                      ∷ (collect index shown src seen
                          (next_cursor index shown src cursor item)
                          items).wakes)))
  unfolding collect
  collect-cases src seen cursor item items = elim (Bool-cases (is_dict item)) [
    | inr other ↦ inl (λ k object. cc, rw other refl)
    | inl object ↦ elim (Option-cases (at_path index shown src.id_path item)) [
      | inl nameless ↦ inl (λ k o named. cc, rw (object, nameless) refl)
      | inr (k, named) ↦ elim (Bool-cases (mem k seen)) [
        | inl old ↦ inl (
          λ j o also. subst (λ x. mem x seen ≡ true) (name_unique k j (sym named ∙ also)) old,
          rw (object, named, old) refl,
        )
        | inr new ↦ inr (k, (named, (new, rw (object, named, new) refl)))
      ]
    ]
  ]

  wake_ids : Source → List String → Option String → List Json → List String
  wake_ids src seen cursor items =
      map (λ w. w.item_id) (collect index shown src seen cursor items).wakes

  collect-le :
      (src : Source) (seen : List String) (cursor : Option String) (items : List Json)
      → length (wake_ids src seen cursor items) ≤ length items
  unfolding wake_ids collect
  collect-le src seen cursor [] = omega arith
  collect-le src seen cursor (item ∷ items) = elim (collect-cases src seen cursor item items) [
    | inl (_, same) ↦
        subst (λ ws. length (map (λ w. w.item_id) ws) ≤ suc (length items)) (sym same)
          (omega (arith, collect-le src seen cursor items))
    | inr (k, (_, (_, more))) ↦
        subst (λ ws. length (map (λ w. w.item_id) ws) ≤ suc (length items)) (sym more)
          (omega (arith, collect-le src seen (next_cursor index shown src cursor item) items))
  ]

  collect-fresh :
      (src : Source) (seen : List String) (cursor : Option String) (items : List Json)
      → All (λ w. mem w.item_id seen ≡ false) (collect index shown src seen cursor items).wakes
  unfolding collect
  collect-fresh src seen cursor [] = tt
  collect-fresh src seen cursor (item ∷ items) = elim (collect-cases src seen cursor item items) [
    | inl (_, same) ↦
        subst (All (λ w. mem w.item_id seen ≡ false)) (sym same)
          (collect-fresh src seen cursor items)
    | inr (k, (_, (new, more))) ↦
        subst (All (λ w. mem w.item_id seen ≡ false)) (sym more)
          (new, collect-fresh src seen (next_cursor index shown src cursor item) items)
  ]

  collect-Known :
      (src : Source) (seen : List String) (cursor : Option String) (items : List Json)
      → All (Known src seen) items
      → (collect index shown src seen cursor items).wakes ≡ []
  unfolding collect
  collect-Known src seen cursor [] h = refl
  collect-Known src seen cursor (item ∷ items) h = elim (Bool-cases (is_dict item)) [
    | inr other ↦ rw other (collect-Known src seen cursor items h.1)
    | inl object ↦ elim (Option-cases (at_path index shown src.id_path item)) [
      | inl nameless ↦ rw (object, nameless) (collect-Known src seen cursor items h.1)
      | inr (k, named) ↦
          rw (object, named, h.0 k object named) (collect-Known src seen cursor items h.1)
    ]
  ]

  wakes-Known :
      (src : Source) (seen final : List String) (cursor : Option String) (items : List Json)
      → ((k : String) → mem k seen ≡ true → mem k final ≡ true)
      → ((k : String) → mem k (wake_ids src seen cursor items) ≡ true → mem k final ≡ true)
      → All (Known src final) items
  unfolding wake_ids mem
  wakes-Known src seen final cursor [] old new = tt
  wakes-Known src seen final cursor (item ∷ items) old new =
      elim (collect-cases src seen cursor item items) [
        | inl (known, same) ↦ (
          λ k o named. old k (known k o named),
          wakes-Known src seen final cursor items old
              (λ k h. new k (subst (λ ws. mem k (map (λ w. w.item_id) ws) ≡ true) (sym same) h)),
        )
        | inr (k, (named, (_, more))) ↦
            let here : mem k
                  (map (λ w. w.item_id) (collect index shown src seen cursor (item ∷ items)).wakes)
                ≡ true =
              subst (λ ws. mem k (map (λ w. w.item_id) ws) ≡ true) (sym more)
                (ground (arith, str_eq_refl k)) in
            (
              λ j o also.
                  subst (λ x. mem x final ≡ true) (name_unique k j (sym named ∙ also)) (new k here),
              wakes-Known src seen final (next_cursor index shown src cursor item) items old (λ j h.
                  new j (
                    subst (λ ws. mem j (map (λ w. w.item_id) ws) ≡ true) (sym more)
                      (or_right (str_eq j k) _ h))),
            )
      ]

  -- However a fetch ends, no wake of the poll is for an item whose id was remembered.
  pub poll-fresh :
      (src : Source) (cap : ℕ) (e : SourceState) (f : Fetched)
      → All (λ w. mem w.item_id e.seen ≡ false) (poll index shown src cap e f).1.1
  unfolding poll
  poll-fresh src cap e no_credential = tt
  poll-fresh src cap e broken = tt
  poll-fresh src cap e unchanged = tt
  poll-fresh src cap e not_json = tt
  poll-fresh src cap e (answered payload etag modified) = collect-fresh src e.seen e.cursor _

  -- Polling again and getting the same items wakes for none of them, whatever validators come with
  -- them, where the ids remembered before and one batch fit the cap.
  pub poll-again :
      (src : Source) (cap : ℕ) (e : SourceState) (payload : Json)
      (etag modified etag' modified' : Option String)
      → length e.seen + src.max_items_per_poll ≤ cap
      → (poll index shown src cap
          (poll index shown src cap e (answered payload etag modified)).0
          (answered payload etag' modified')).1.1
        ≡ []
  unfolding poll remember wake_ids
  poll-again src cap e payload etag modified etag' modified' room =
      let items = take src.max_items_per_poll (items_of (dig index src.items_path payload)) in
      let ids = wake_ids src e.seen e.cursor items in
      let fits : length (add_ids e.seen ids) ≤ cap = omega (
        arith,
        add_ids-le ids e.seen,
        collect-le src e.seen e.cursor items,
        take-le src.max_items_per_poll (items_of (dig index src.items_path payload)),
      ) in
      collect-Known src _ _ items (
        subst (λ seen. All (Known src seen) items)
          (sym (bounded-fits cap (add_ids e.seen ids) fits))
          (wakes-Known src e.seen (add_ids e.seen ids) e.cursor items (add_ids-keeps ids e.seen)
            (add_ids-mem ids e.seen)))
