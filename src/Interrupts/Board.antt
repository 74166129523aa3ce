-- ===== src/Interrupts/Board.antt =====
-- bothy/interrupts.py, InterruptBoard. A call's effects outside the board are listed in their order:
-- the records of the audit log, the replies and the answers handed to a client.
use bothy.Common.{
  ℕ, String, Bool, true, false, Option, none, some, List, [], ◌∷◌, ◌++◌, ◌==◌, ◌&&◌, ◌||◌, not, ltb,
  leb, filter, any, map, length, take_last, take, drop, is_some, str_eq, if◌then◌else◌,
}
use bothy.Dict
use bothy.Dict.{Dict}
use bothy.Text.{Chars, codes, lower, lstrip_by, is_space, is_digit, all_chars, same_chars, within}

-- where a question was asked, in one service
pub record Place : Type 0 where
  pub channel : String
  pub thread_ts : String

-- `origin` has a place for each service that the question was asked in
pub record Entry : Type 0 where
  pub id : String
  pub deadline : ℕ
  pub run_id : String
  pub subject : String
  pub origin : Dict Place
  pub refs : List String

-- deliveries in the order of their answers; an entry of `closed` has lost its callback
pub record Board : Type 0 where
  pub entries : Dict Entry
  pub closed : Dict Entry
  pub deliveries : List String

-- what a message is
pub record Message : Type 0 where
  pub source : String
  pub channel : String
  pub reference : String
  pub body : Chars
  pub actor : String
  pub allowed : Bool
  pub delivery : String

pub data Action : Type 0 where
  late ignored ambiguous failed : Action

-- a record of the audit log names its question; a reply is one that is asked for, sent or not
pub data Effect : Type 0 where
  noted : Action → Chars → Effect
  replied_closed replied_not_recorded : Effect
  replied_choose : List String → Effect
  handed : Entry → Chars → String → Effect

abbrev pub max_kept : ℕ
max_kept = 1024

unfoldable pub new_board : Board
new_board = record { entries = []; closed = []; deliveries = [] }

unfoldable pub register : Board → Entry → Board
register b e = record b { entries = Dict.set b.entries e.id e }

unfoldable pub add_refs : List String → List String → List String
add_refs [] old = old
add_refs (r ∷ rs) old = add_refs rs (if any (str_eq r) old then old else old ++ r ∷ [])

unfoldable pub refer : Board → List String → Option Entry → Board
refer b refs none = b
refer b refs (some e) = record b {
  entries = Dict.set b.entries e.id (record e { refs = add_refs refs e.refs });
}

unfoldable pub references : Board → String → List String → Board
references b id refs = refer b refs (Dict.get b.entries id)

unfoldable pub close : Board → String → Option Entry → Board
close b id none = b
close b id (some e) = record b {
  entries = Dict.remove b.entries id;
  closed = take_last max_kept (Dict.set b.closed id e);
}

unfoldable pub remove : Board → String → Board
remove b id = close b id (Dict.get b.entries id)

-- the first word of a text that has no space in front, and the text behind it
unfoldable pub take_word : Chars → Chars
take_word [] = []
take_word (c ∷ cs) = let rest = take_word cs in if is_space c then [] else c ∷ rest

unfoldable pub drop_word : Chars → Chars
drop_word [] = []
drop_word (c ∷ cs) = let rest = drop_word cs in if is_space c then c ∷ cs else rest

unfoldable pub without_first : Chars → Chars
without_first s = lstrip_by is_space (drop_word (lstrip_by is_space s))

-- the parts of text.split(maxsplit=2), empty where there is none
unfoldable pub first_part : Chars → Chars
first_part s = take_word (lstrip_by is_space s)

unfoldable pub second_part : Chars → Chars
second_part s = take_word (without_first s)

unfoldable pub third_part : Chars → Chars
third_part s = lstrip_by is_space (drop_word (without_first s))

unfoldable pub is_hex : ℕ → Bool
is_hex c = is_digit c || within b'a' b'f' c

-- int_[0-9a-f]{32}
unfoldable pub valid_id : Chars → Bool
valid_id s =
    same_chars (take 4 s) (codes "int_") && (length (drop 4 s) == 32 && all_chars is_hex (drop 4 s))

unfoldable pub is_explicit : Chars → Bool
is_explicit s = same_chars (lower (first_part s)) (codes "answer") && valid_id (second_part s)

unfoldable pub in_place : Message → Entry → Option Place → Bool
in_place m e none =
    not (str_eq m.reference "") && (str_eq "" m.channel && any (str_eq m.reference) e.refs)
in_place m e (some spot) =
    not (str_eq m.reference "")
    && (str_eq spot.channel m.channel
        && (any (str_eq m.reference) e.refs
            || str_eq m.source "slack" && str_eq m.reference spot.thread_ts))

unfoldable pub matches : Message → Entry → Bool
matches m e =
    if is_explicit m.body
    then same_chars (second_part m.body) (codes e.id)
    else in_place m e (Dict.get e.origin m.source)

unfoldable pub values : Dict Entry → List Entry
values = map (λ row. row.1)

unfoldable pub is_candidate : Message → ℕ → Entry → Bool
is_candidate m now e = matches m e && ltb now e.deadline

unfoldable pub candidates : Board → Message → ℕ → List Entry
candidates b m now = filter (is_candidate m now) (values b.entries)

unfoldable pub first_of : List Entry → Option Entry
first_of [] = none
first_of (e ∷ es) = some e

-- the question, open or closed, that the message would be about
unfoldable pub about : Board → Message → Option Entry
about b m = first_of (filter (matches m) (values b.entries ++ values b.closed))

-- the question that a late message is recorded with
unfoldable pub named_id : Message → Option Entry → Chars
named_id m none = second_part m.body
named_id m (some e) = if is_explicit m.body then second_part m.body else codes e.id

unfoldable pub no_live : Board → Message → Option Entry → Board × List Effect × Bool
no_live b m closed =
    if not (is_explicit m.body) && not (is_some closed)
    then (b, [], false)
    else if m.allowed
    then (b, noted late (named_id m closed) ∷ replied_closed ∷ [], true)
    else (b, noted ignored (named_id m closed) ∷ [], true)

unfoldable pub reply_text : Chars → Chars
reply_text s = if is_explicit s then third_part s else s

unfoldable pub add_delivery : List String → String → List String
add_delivery old d = take_last max_kept (if any (str_eq d) old then old else old ++ d ∷ [])

unfoldable pub handing : Board → Message → Entry → Bool → Bool → Board × List Effect × Bool
handing b m e true expired = (
  record b { deliveries = add_delivery b.deliveries m.delivery },
  handed e (reply_text m.body) m.actor ∷ [],
  true,
)
handing b m e false expired = (
  b,
  handed e (reply_text m.body) m.actor
      ∷ noted (if expired then late else failed) (codes e.id)
      ∷ replied_not_recorded
      ∷ [],
  true,
)

-- `answer` is the client's callback, and `after` the clock behind its call
module _ (answer : Entry → Chars → String → Bool) where
  unfoldable pub choose : Board → Message → ℕ → List Entry → Board × List Effect × Bool
  choose b m after [] = no_live b m (about b m)
  choose b m after (e ∷ es) =
      if not m.allowed
      then (b, noted ignored (codes e.id) ∷ [], true)
      else if not (is_explicit m.body) && leb 1 (length es)
      then (b, noted ambiguous (codes e.id) ∷ replied_choose (map (λ i. i.id) (e ∷ es)) ∷ [], true)
      else handing b m e (answer e (reply_text m.body) m.actor) (leb e.deadline after)

  -- One step here: the source lets its lock go for the callback, and takes it again to record the
  -- delivery.
  unfoldable pub receive : Board → Message → ℕ → ℕ → Board × List Effect × Bool
  receive b m now after =
      if m.allowed && any (str_eq m.delivery) b.deliveries
      then (b, [], true)
      else choose b m after (candidates b m now)
