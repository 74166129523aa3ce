-- ===== src/Poll/Examples.antt =====
-- bothy/poll.py: polls of a small source, and instances of the theorems.
use bothy.Common.{ℕ, ◌≡◌, refl, String, none, some, Option, [], ◌∷◌, length, arith}
use bothy.Json.{Json, element, no_elements, list, get, find, text, dict, member, no_members}
use bothy.Poll.Source.{
  Source, SourceState, answered, broken, mem, poll, dig, follow, nth, not_null, not_null?, items_of,
  to_list, is_dict, collect, at_path, next_cursor, remember, add_ids, bounded,
}
use bothy.Poll.Replay.{poll-again}

abbrev no_index : String → Option ℕ
no_index s = none

abbrev dots : Json → String
dots v = "..."

abbrev issues : Source
issues = record {
  name = "issues";
  items_path = "items" ∷ [];
  id_path = "id" ∷ [];
  cursor_from = none;
  max_items_per_poll = 2;
}

abbrev fresh_state : SourceState
fresh_state = record {
  etag = none;
  modified = none;
  cursor = none;
  failures = 3;
  last_status = "failed";
  seen = "a" ∷ [];
}

abbrev issue : String → Json
issue id = dict (member "id" (text id) no_members)

abbrev three : Json
three = dict (
    member "items"
      (list (element (issue "a") (element (issue "b") (element (issue "c") no_elements))))
      no_members)

abbrev twins : Json
twins =
    dict (member "items" (list (element (issue "b") (element (issue "b") no_elements))) no_members)

-- the batch ends before the third item
batch_of_two : poll no_index dots issues 10 fresh_state (answered three (some "v1") none) ≡ (
  record {
    etag = some "v1";
    modified = none;
    cursor = none;
    failures = 0;
    last_status = "ok";
    seen = "a" ∷ "b" ∷ [];
  },
  (
    record { status = "ok"; fetched = 3; new = 1; duplicates = 1 },
    record { item_id = "b"; item = issue "b" } ∷ [],
  ),
)
unfolding poll dig follow nth not_null not_null? items_of to_list is_dict collect at_path
    next_cursor remember add_ids bounded mem get find
batch_of_two = refl

-- two items with one id wake twice
two_wakes : length (poll no_index dots issues 10 fresh_state (answered twins none none)).1.1 ≡ 2
unfolding poll dig follow nth not_null not_null? items_of to_list is_dict collect at_path
    next_cursor mem get find
two_wakes = refl

one_more_failure : (poll no_index dots issues 10 fresh_state broken).0.failures ≡ 4
unfolding poll remember
one_more_failure = refl

poll-again_example :
    (poll no_index dots issues 10
      (poll no_index dots issues 10 fresh_state (answered three (some "v1") none)).0
      (answered three (some "v1") none)).1.1
    ≡ []
poll-again_example =
    poll-again no_index dots issues 10 fresh_state three (some "v1") none (some "v1") none
      (omega arith)
