-- ===== src/Interrupts/Examples.antt =====
-- bothy/interrupts.py: a question in a thread, and instances of the theorems.
use bothy.Common.{arith, String, Bool, true, false, [], ◌∷◌, ◌≡◌, refl, inl}
use bothy.Dict
use bothy.Text.{
  Chars, codes, lower, lower_char, lstrip_by, is_space, is_digit, all_chars, same_chars,
}
use bothy.Interrupts.Board.{
  Entry, Board, Message, handed, noted, ignored, replied_choose, ambiguous, handing, choose,
  receive, candidates, is_candidate, values, matches, in_place, is_explicit, valid_id, is_hex,
  first_part, second_part, third_part, without_first, take_word, drop_word, reply_text,
  add_delivery,
}
use bothy.Interrupts.Handed.{Hands, IsAnswered, receive-Hands}
use bothy.Interrupts.Replay.{receive_all, receive-again}

abbrev deploy : Entry
deploy = record {
  id = "int_0123456789abcdef0123456789abcdef";
  deadline = 900;
  run_id = "run_1";
  subject = "deploy";
  origin = ("slack", record { channel = "C1"; thread_ts = "17.5" }) ∷ [];
  refs = [];
}

abbrev rollback : Entry
rollback = record deploy { id = "int_fedcba9876543210fedcba9876543210" }

abbrev board : Board
board = record {
  entries = ("int_0123456789abcdef0123456789abcdef", deploy) ∷ [];
  closed = [];
  deliveries = [];
}

abbrev two_questions : Board
two_questions = record board {
  entries =
      ("int_0123456789abcdef0123456789abcdef", deploy)
      ∷ ("int_fedcba9876543210fedcba9876543210", rollback)
      ∷ [];
}

abbrev go_ahead : Message
go_ahead = record {
  source = "slack";
  channel = "C1";
  reference = "17.5";
  body = codes "go ahead";
  actor = "U7";
  allowed = true;
  delivery = "Ev1";
}

abbrev named : Message
named = record go_ahead {
  body = codes "Answer int_fedcba9876543210fedcba9876543210 not yet";
  delivery = "Ev2";
}

abbrev takes : Entry → Chars → String → Bool
takes e text actor = true

answers :
    receive takes board go_ahead 100 101
    ≡ (record board { deliveries = "Ev1" ∷ [] }, handed deploy (codes "go ahead") "U7" ∷ [], true)
unfolding receive choose handing candidates is_candidate values matches in_place is_explicit
    first_part second_part without_first take_word drop_word reply_text add_delivery same_chars
    lower lower_char lstrip_by is_space Dict.get
answers = refl

-- a stranger's message is noted, and goes no further
stranger :
    receive takes board (record go_ahead { allowed = false }) 100 101
    ≡ (board, noted ignored (codes deploy.id) ∷ [], true)
unfolding receive choose handing candidates is_candidate values matches in_place is_explicit
    first_part second_part without_first take_word drop_word reply_text add_delivery same_chars
    lower lower_char lstrip_by is_space Dict.get
stranger = refl

two_are_ambiguous :
    (receive takes two_questions go_ahead 100 101).1
    ≡ noted ambiguous (codes deploy.id) ∷ replied_choose (deploy.id ∷ rollback.id ∷ []) ∷ []
unfolding receive choose handing candidates is_candidate values matches in_place is_explicit
    first_part second_part without_first take_word drop_word reply_text add_delivery same_chars
    lower lower_char lstrip_by is_space Dict.get
two_are_ambiguous = refl

a_name_decides :
    (receive takes two_questions named 100 101).1 ≡ handed rollback (codes "not yet") "U7" ∷ []
unfolding receive choose handing candidates is_candidate values matches in_place is_explicit
    first_part second_part third_part without_first take_word drop_word reply_text add_delivery
    same_chars lower lower_char lstrip_by is_space valid_id is_hex is_digit all_chars
a_name_decides = refl

answers_hand : Hands deploy (codes "go ahead") "U7" (receive takes board go_ahead 100 101).1
unfolding receive choose handing candidates is_candidate values matches in_place is_explicit
    first_part second_part without_first take_word drop_word reply_text add_delivery same_chars
    lower lower_char lstrip_by is_space Dict.get
answers_hand = inl refl

receive-Hands_example : IsAnswered board go_ahead 100 deploy (codes "go ahead") "U7"
receive-Hands_example =
    receive-Hands takes board go_ahead 100 101 deploy (codes "go ahead") "U7" answers_hand

receive-again_example :
    let b' =
      receive_all takes ((go_ahead, 150, 151) ∷ []) (receive takes board go_ahead 100 101).0 in
    receive takes b' go_ahead 200 201 ≡ (b', [], true)
receive-again_example =
    receive-again takes board go_ahead go_ahead 100 101 200 201 deploy (codes "go ahead") "U7"
      ((go_ahead, 150, 151) ∷ []) answers_hand refl refl refl (omega arith)
