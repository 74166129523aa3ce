-- ===== src/Schedule/Reply.antt =====
-- bothy/schedule.py, strip_no_reply: the messages of a run that are worth sending.
use bothy.Common.{
  ◌-◌, Bool, Option, none, some, List, [], ◌∷◌, ◌&&◌, ◌||◌, leb, length, take, drop, if◌then◌else◌,
  ◌≡◌, refl,
}
use bothy.Text.{Chars, codes, strip, is_nil, same_chars, lstrip_by, rstrip_by, is_space}

abbrev pub no_reply : Chars
no_reply = codes "NO_REPLY"

unfoldable pub has_prefix : Chars → Chars → Bool
has_prefix mark s = same_chars (take (length mark) s) mark

unfoldable pub has_suffix : Chars → Chars → Bool
has_suffix mark s =
    leb (length mark) (length s) && same_chars (drop (length s - length mark) s) mark

unfoldable pub remove_prefix : Chars → Chars → Chars
remove_prefix mark s = if has_prefix mark s then drop (length mark) s else s

unfoldable pub remove_suffix : Chars → Chars → Chars
remove_suffix mark s = if has_suffix mark s then take (length s - length mark) s else s

unfoldable pub if_long : Chars → Option Chars
if_long remainder = if leb (length remainder) 300 then none else some remainder

-- of a message without the space around it
unfoldable pub worth_saying : Chars → Option Chars
worth_saying s =
    if is_nil s || same_chars s no_reply
    then none
    else if has_prefix no_reply s || has_suffix no_reply s
    then if_long (strip (remove_suffix no_reply (remove_prefix no_reply s)))
    else some s

unfoldable pub keep : Option Chars → List Chars → List Chars
keep none kept = kept
keep (some s) kept = s ∷ kept

unfoldable pub strip_no_reply : List Chars → List Chars
strip_no_reply [] = []
strip_no_reply (message ∷ messages) = keep (worth_saying (strip message)) (strip_no_reply messages)

-- a report is sent, and one that was nothing to say is not, with a sentence or without
says_only_news :
    strip_no_reply (
      codes " NO_REPLY "
      ∷ codes "All is well. NO_REPLY"
      ∷ codes " disk full"
      ∷ codes "NO_REPLY is for quiet days"
      ∷ codes " "
      ∷ [])
    ≡ codes "disk full" ∷ []
unfolding strip_no_reply keep worth_saying if_long remove_prefix remove_suffix has_prefix has_suffix
    is_nil same_chars strip lstrip_by rstrip_by is_space
says_only_news = refl

-- a message that speaks of the mark inside it is sent
says_what_it_discusses :
    strip_no_reply (codes "the NO_REPLY rule" ∷ []) ≡ codes "the NO_REPLY rule" ∷ []
unfolding strip_no_reply keep worth_saying has_prefix has_suffix is_nil same_chars strip lstrip_by
    rstrip_by is_space
says_what_it_discusses = refl
