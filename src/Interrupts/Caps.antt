-- ===== src/Interrupts/Caps.antt =====
-- bothy/interrupts.py: the closed questions and the deliveries that are remembered.
use bothy.Common.{
  ℕ, ◌-◌, ◌≤◌, String, Bool, true, false, Option, none, some, List, [], ◌∷◌, ◌++◌, ◌&&◌, any, not,
  leb, length, take_last, str_eq, if◌then◌else◌, is_some, Bool-cases, inl, inr, arith, length-drop,
}
use bothy.Dict
use bothy.Text.{Chars}
use bothy.Interrupts.Board.{
  Entry, Board, Message, max_kept, new_board, register, refer, references, close, remove,
  add_delivery, no_live, handing, choose, receive, about, candidates, is_explicit, reply_text,
}

-- a call of the board
pub data Call : Type 0 where
  registers : Entry → Call
  refers : String → List String → Call
  removes : String → Call
  receives : Message → ℕ → ℕ → Bool → Call

-- whether an answer is taken is part of the call
abbrev pub step : Board → Call → Board
step b (registers e) = register b e
step b (refers id refs) = references b id refs
step b (removes id) = remove b id
step b (receives m now after taken) = (receive (λ e text actor. taken) b m now after).0

abbrev pub run : Board → List Call → Board
run b [] = b
run b (c ∷ cs) = run (step b c) cs

abbrev pub IsBounded : Board → Type 0
IsBounded b = (length b.closed ≤ max_kept) × (length b.deliveries ≤ max_kept)

length-take_last {ℓ} : {A : Type ℓ} (n : ℕ) (xs : List A) → length (take_last n xs) ≤ n
length-take_last n xs = omega (arith, length-drop (length xs - n) xs)

refer-IsBounded :
    (b : Board) (refs : List String) (o : Option Entry) → IsBounded b → IsBounded (refer b refs o)
unfolding refer
refer-IsBounded b refs none h = h
refer-IsBounded b refs (some e) h = h

close-IsBounded :
    (b : Board) (id : String) (o : Option Entry) → IsBounded b → IsBounded (close b id o)
unfolding close
close-IsBounded b id none h = h
close-IsBounded b id (some e) h = (length-take_last max_kept (Dict.set b.closed id e), h.1)

no_live-IsBounded :
    (b : Board) (m : Message) (o : Option Entry) → IsBounded b → IsBounded (no_live b m o).0
unfolding no_live
no_live-IsBounded b m o h = elim (Bool-cases (not (is_explicit m.body) && not (is_some o))) [
  | inl unknown ↦ rw unknown h
  | inr known ↦ elim (Bool-cases (m.allowed)) [
    | inl free ↦ rw (known, free) h
    | inr barred ↦ rw (known, barred) h
  ]
]

handing-IsBounded :
    (b : Board) (m : Message) (e : Entry) (taken expired : Bool)
    → IsBounded b
    → IsBounded (handing b m e taken expired).0
unfolding handing add_delivery
handing-IsBounded b m e true expired h = (
  h.0,
  length-take_last max_kept (
      if any (str_eq m.delivery) b.deliveries
      then b.deliveries
      else b.deliveries ++ m.delivery ∷ []),
)
handing-IsBounded b m e false expired h = h

choose-IsBounded :
    (answer : Entry → Chars → String → Bool) (b : Board) (m : Message) (after : ℕ) (es : List Entry)
    → IsBounded b
    → IsBounded (choose answer b m after es).0
unfolding choose handing
choose-IsBounded answer b m after [] h = no_live-IsBounded b m (about b m) h
choose-IsBounded answer b m after (e ∷ es) h = elim (Bool-cases (m.allowed)) [
  | inr barred ↦ rw barred h
  | inl free ↦ elim (Bool-cases (not (is_explicit m.body) && leb 1 (length es))) [
    | inl several ↦ rw (free, several) h
    | inr single ↦
        rw (free, single)
          (handing-IsBounded b m e (answer e (reply_text m.body) m.actor) (leb e.deadline after) h)
  ]
]

receive-IsBounded :
    (answer : Entry → Chars → String → Bool) (b : Board) (m : Message) (now after : ℕ)
    → IsBounded b
    → IsBounded (receive answer b m now after).0
unfolding receive
receive-IsBounded answer b m now after h =
    elim (Bool-cases (m.allowed && any (str_eq m.delivery) b.deliveries)) [
      | inl seen ↦ rw seen h
      | inr fresh ↦ rw fresh (choose-IsBounded answer b m after (candidates b m now) h)
    ]

step-IsBounded : (b : Board) (c : Call) → IsBounded b → IsBounded (step b c)
unfolding register references remove
step-IsBounded b (registers e) h = h
step-IsBounded b (refers id refs) h = refer-IsBounded b refs (Dict.get b.entries id) h
step-IsBounded b (removes id) h = close-IsBounded b id (Dict.get b.entries id) h
step-IsBounded b (receives m now after taken) h =
    receive-IsBounded (λ e text actor. taken) b m now after h

run-IsBounded_from : (b : Board) (cs : List Call) → IsBounded b → IsBounded (run b cs)
run-IsBounded_from b [] h = h
run-IsBounded_from b (c ∷ cs) h = run-IsBounded_from (step b c) cs (step-IsBounded b c h)

-- Whatever calls a new board gets, it remembers at most 1024 closed questions and 1024 deliveries.
pub run-IsBounded : (cs : List Call) → IsBounded (run new_board cs)
unfolding new_board
run-IsBounded cs = run-IsBounded_from new_board cs (omega arith, omega arith)
