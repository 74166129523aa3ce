-- ===== src/Alert/Chunks.antt =====
-- bothy/alert.py, _chunks: a text cut into messages that a chat takes.
use bothy.Common.{
  ℕ, ◌+◌, zero, suc, Bool, List, [], ◌∷◌, ◌++◌, ◌==◌, ◌&&◌, ◌||◌, not, ltb, length, take, drop,
  if◌then◌else◌,
}
use bothy.Text.{Chars, within, starts_with, push_first}

-- what ends a line for str.splitlines
unfoldable pub is_break : ℕ → Bool
is_break c = within 10 13 c || within 28 30 c || c == 133 || within 8232 8233 c

-- text.splitlines(keepends=True); a return and a newline behind it end one line
unfoldable pub lines_of : Chars → List Chars
lines_of [] = []
lines_of (c ∷ cs) =
    let rest = lines_of cs in
    if is_break c && not (c == b'\r' && starts_with b'\n' cs)
    then (c ∷ []) ∷ rest
    else push_first c rest

-- the inner loop: the full pieces of a long line, and what is left of it
unfoldable pub cut : ℕ → ℕ → Chars → List Chars × Chars
cut zero limit line = ([], line)
cut (suc rounds) limit line =
    let rest = cut rounds limit (drop limit line) in
    if ltb limit (length line) then (take limit line ∷ rest.0, rest.1) else ([], line)

unfoldable pub if_any : Chars → List Chars
if_any [] = []
if_any (c ∷ cs) = (c ∷ cs) ∷ []

-- the pieces of a line go behind the current message
unfoldable pub flush : Chars → List Chars → List Chars × Chars
flush current [] = ([], current)
flush current (piece ∷ pieces) = (if_any current ++ piece ∷ pieces, [])

unfoldable pub extend : ℕ → List Chars × Chars → Chars → List Chars × Chars
extend limit (out, current) line =
    if ltb limit (length current + length line)
    then (out ++ current ∷ [], line)
    else (out, current ++ line)

-- as many rounds as the line has characters are enough
unfoldable pub add_line : ℕ → Chars → Chars → List Chars × Chars
add_line limit current line =
    let pieces = cut (length line) limit line in extend limit (flush current pieces.0) pieces.1

unfoldable pub chunk_lines : ℕ → Chars → List Chars → List Chars
chunk_lines limit current [] = if_any current
chunk_lines limit current (line ∷ lines) =
    let added = add_line limit current line in added.0 ++ chunk_lines limit added.1 lines

unfoldable pub or_blank : List Chars → List Chars
or_blank [] = [] ∷ []
or_blank (piece ∷ pieces) = piece ∷ pieces

unfoldable pub chunks : Chars → ℕ → List Chars
chunks body limit = or_blank (chunk_lines limit [] (lines_of body))
