-- ===== src/Interrupts/Handed.antt =====
-- bothy/interrupts.py, receive: when an answer reaches the client that asked.
use bothy.Common.{
  Listed, and_true, if_elim, ℕ, ◌<◌, String, Bool, true, false, Option, List, [], ◌∷◌, ◌&&◌, any,
  not, leb, ltb, length, filter, str_eq, is_some, ◌≡◌, refl, Bool-cases, inl, inr, ◌⊎◌, arith, sym,
  ap, ◌∙◌, ltb→lt,
}
use bothy.Dict.{Dict}
use bothy.Text.{Chars}
use bothy.Interrupts.Board.{
  Entry, Board, Message, Effect, handed, no_live, handing, choose, receive, about, candidates,
  is_candidate, values, matches, is_explicit, reply_text,
}

-- the effects of a call hand an answer to the client that asked
abbrev pub Hands : Entry → Chars → String → List Effect → Type 0
Hands e text actor [] = ⊥
Hands e text actor (f ∷ fs) = (f ≡ handed e text actor) ⊎ Hands e text actor fs

-- a question of the board
abbrev pub Open : Entry → Dict Entry → Type 0
Open e [] = ⊥
Open e ((id, f) ∷ d) = (e ≡ f) ⊎ Open e d

candidates-Open :
    (m : Message) (now : ℕ) (d : Dict Entry) (e : Entry)
    → Listed e (filter (is_candidate m now) (values d))
    → Open e d × (is_candidate m now e ≡ true)
unfolding values
candidates-Open m now [] e h = absurd h
candidates-Open m now ((id, f) ∷ d) e h = elim (Bool-cases (is_candidate m now f)) [
  | inl live ↦ elim (rw live at h) [
    | inl same ↦ (inl same, ap (is_candidate m now) same ∙ live)
    | inr more ↦ let (there, good) = candidates-Open m now d e more in (inr there, good)
  ]
  | inr dead ↦ let (there, good) = candidates-Open m now d e (rw dead at h) in (inr there, good)
]

pub no_live-silent :
    (b : Board) (m : Message) (o : Option Entry) (e : Entry) (text : Chars) (actor : String)
    → Hands e text actor (no_live b m o).1
    → ⊥
unfolding no_live
no_live-silent b m o e text actor h =
    elim (Bool-cases (not (is_explicit m.body) && not (is_some o))) [
      | inl unknown ↦ rw unknown at h
      | inr known ↦ elim (Bool-cases (m.allowed)) [
        | inl free ↦ elim (rw (known, free) at h) [
          | inl f ↦ cc
          | inr g ↦ elim g [ inl f ↦ cc | inr none_left ↦ none_left ]
        ]
        | inr barred ↦ elim (rw (known, barred) at h) [ inl f ↦ cc | inr none_left ↦ none_left ]
      ]
    ]

handed_same :
    (e f : Entry) (s t : Chars) (a b : String)
    → handed e s a ≡ handed f t b
    → (e ≡ f) × (s ≡ t) × (a ≡ b)
handed_same e f s t a b h = (cc, cc, cc)

pub handing-Hands :
    (b : Board) (m : Message) (k e : Entry) (text : Chars) (actor : String) (taken expired : Bool)
    → Hands e text actor (handing b m k taken expired).1
    → (e ≡ k) × (text ≡ reply_text m.body) × (actor ≡ m.actor)
unfolding handing
handing-Hands b m k e text actor true expired h = elim h [
  | inl f ↦ let g = handed_same _ _ _ _ _ _ f in (sym g.0, sym g.1, sym g.2)
  | inr none_left ↦ absurd none_left
]
handing-Hands b m k e text actor false expired h = elim h [
  | inl f ↦ let g = handed_same _ _ _ _ _ _ f in (sym g.0, sym g.1, sym g.2)
  | inr more ↦ elim more [
    | inl f ↦ absurd (cc)
    | inr last ↦ elim last [ inl f ↦ absurd (cc) | inr none_left ↦ absurd none_left ]
  ]
]

unnegated : (b : Bool) → not b ≡ false → b ≡ true
unnegated true h = refl
unnegated false h = cc

none_behind : (es : List Entry) → leb 1 (length es) ≡ false → es ≡ []
none_behind [] h = refl
none_behind (e ∷ es) h = absurd (ground arith)

-- what is known where an answer is handed on
abbrev pub IsRightful : Message → List Entry → Entry → Chars → String → Type 0
IsRightful m es e text actor =
    (m.allowed ≡ true)
    × Listed e es
    × (text ≡ reply_text m.body)
    × (actor ≡ m.actor)
    × ((is_explicit m.body ≡ true) ⊎ (es ≡ e ∷ []))

-- an outcome that hands an answer on does so rightfully
abbrev Leads : Message → List Entry → Entry → Chars → String → Board × List Effect × Bool → Type 0
Leads m es e text actor r = Hands e text actor r.1 → IsRightful m es e text actor

-- who is answered, about what
abbrev pub IsAnswered : Board → Message → ℕ → Entry → Chars → String → Type 0
IsAnswered b m now e text actor =
    (m.allowed ≡ true)
    × (any (str_eq m.delivery) b.deliveries ≡ false)
    × Open e b.entries
    × (matches m e ≡ true)
    × (now < e.deadline)
    × (text ≡ reply_text m.body)
    × (actor ≡ m.actor)
    × ((is_explicit m.body ≡ true) ⊎ (candidates b m now ≡ e ∷ []))

module _ (answer : Entry → Chars → String → Bool) where
  explicit_or_alone :
      (explicit : Bool) (k e : Entry) (es : List Entry)
      → e ≡ k
      → (not explicit && leb 1 (length es)) ≡ false
      → (explicit ≡ true) ⊎ (k ∷ es ≡ e ∷ [])
  explicit_or_alone true k e es same h = inl refl
  explicit_or_alone false k e es same h = inr (let gone = none_behind es h in cc)

  choose-IsRightful :
      (b : Board) (m : Message) (after : ℕ) (es : List Entry) (e : Entry) (text : Chars)
      (actor : String)
      → Hands e text actor (choose answer b m after es).1
      → IsRightful m es e text actor
  unfolding choose
  choose-IsRightful b m after [] e text actor h =
      absurd (no_live-silent b m (about b m) e text actor h)
  choose-IsRightful b m after (k ∷ es) e text actor h =
      if_elim (Leads m (k ∷ es) e text actor) (not m.allowed) _ _
        (λ barred g. elim g [ inl f ↦ absurd (cc) | inr none_left ↦ absurd none_left ])
        (λ free.
          if_elim (Leads m (k ∷ es) e text actor) (not (is_explicit m.body) && leb 1 (length es)) _
            _
            (λ several g. elim g [
              | inl f ↦ absurd (cc)
              | inr more ↦ elim more [ inl f ↦ absurd (cc) | inr none_left ↦ absurd none_left ]
            ])
            (λ single g.
              let got =
                handing-Hands b m k e text actor (answer k (reply_text m.body) m.actor)
                  (leb k.deadline after) g in
              (
                unnegated m.allowed free,
                inl got.0,
                got.1,
                got.2,
                explicit_or_alone (is_explicit m.body) k e es got.0 single,
              )))
        h

  -- An answer is handed to a client only for a speaker on the allowlist, with a delivery that was not
  -- answered before, about a question of the board that the message matches and whose time has not
  -- run out; and the message names that question or no other live one matches it.
  pub receive-Hands :
      (b : Board) (m : Message) (now after : ℕ) (e : Entry) (text : Chars) (actor : String)
      → Hands e text actor (receive answer b m now after).1
      → IsAnswered b m now e text actor
  unfolding receive candidates is_candidate
  receive-Hands b m now after e text actor =
      if_elim
        (λ (r : Board × List Effect × Bool).
          Hands e text actor r.1 → IsAnswered b m now e text actor)
        (m.allowed && any (str_eq m.delivery) b.deliveries) _ _ (λ seen h. absurd h)
        (λ fresh h.
          let (free, listed, said, spoke, alone) =
            choose-IsRightful b m after (candidates b m now) e text actor h in
          let (there, live) = candidates-Open m now b.entries e listed in
          let (fits, early) = and_true (matches m e) (ltb now e.deadline) live in
          (free, rw free at fresh, there, fits, ltb→lt now e.deadline early, said, spoke, alone))
