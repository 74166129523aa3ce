-- ===== src/Alert/Limit.antt =====
-- bothy/alert.py, _chunks: no piece is longer than the limit.
use bothy.Common.{
  length-take-le, ℕ, ◌+◌, ◌≤◌, zero, suc, List, [], ◌∷◌, ◌++◌, ltb, length, length-append,
  length-drop, drop, All, if_elim, arith, ltb-false→le,
}
use bothy.Text.{Chars}
use bothy.Alert.Chunks.{
  lines_of, cut, if_any, flush, extend, add_line, chunk_lines, or_blank, chunks,
}

module _ (limit : ℕ) (room : 1 ≤ limit) where
  abbrev Fits : Chars → Type 0
  Fits p = length p ≤ limit

  abbrev AllFit : List Chars × Chars → Type 0
  AllFit p = All Fits p.0 × Fits p.1

  All-append : (ps qs : List Chars) → All Fits ps → All Fits qs → All Fits (ps ++ qs)
  All-append [] qs a b = b
  All-append (p ∷ ps) qs a b = (a.0, All-append ps qs a.1 b)

  -- as many rounds as characters bring the rest of a line under the limit
  cut-AllFit : (rounds : ℕ) (line : Chars) → length line ≤ rounds → AllFit (cut rounds limit line)
  unfolding cut
  cut-AllFit zero line h = (tt, omega (arith, h))
  cut-AllFit (suc rounds) line h =
      if_elim AllFit (ltb limit (length line)) _ _
        (λ long.
          let rest =
            cut-AllFit rounds (drop limit line) (omega (arith, length-drop limit line, h, room)) in
          ((length-take-le limit line, rest.0), rest.1))
        (λ short. (tt, ltb-false→le limit (length line) short))

  if_any-AllFit : (current : Chars) → Fits current → All Fits (if_any current)
  unfolding if_any
  if_any-AllFit [] h = tt
  if_any-AllFit (c ∷ cs) h = (h, tt)

  flush-AllFit :
      (current : Chars) (pieces : List Chars)
      → Fits current
      → All Fits pieces
      → AllFit (flush current pieces)
  unfolding flush
  flush-AllFit current [] h a = (tt, h)
  flush-AllFit current (p ∷ ps) h a =
      (All-append (if_any current) (p ∷ ps) (if_any-AllFit current h) a, omega arith)

  extend-AllFit :
      (p : List Chars × Chars) (line : Chars) → AllFit p → Fits line → AllFit (extend limit p line)
  unfolding extend
  extend-AllFit (out, current) line a h =
      if_elim AllFit (ltb limit (length current + length line)) _ _
        (λ over. (All-append out (current ∷ []) a.0 (a.1, tt), h))
        (λ fits. (
          a.0,
          omega (
            arith,
            length-append current line,
            ltb-false→le limit (length current + length line) fits,
          ),
        ))

  add_line-AllFit : (current line : Chars) → Fits current → AllFit (add_line limit current line)
  unfolding add_line
  add_line-AllFit current line h =
      let pieces = cut-AllFit (length line) line (omega arith) in
      extend-AllFit (flush current (cut (length line) limit line).0)
        (cut (length line) limit line).1
        (flush-AllFit current (cut (length line) limit line).0 h pieces.0) pieces.1

  chunk_lines-AllFit :
      (current : Chars) (lines : List Chars)
      → Fits current
      → All Fits (chunk_lines limit current lines)
  unfolding chunk_lines
  chunk_lines-AllFit current [] h = if_any-AllFit current h
  chunk_lines-AllFit current (line ∷ lines) h =
      let added = add_line-AllFit current line h in
      All-append (add_line limit current line).0 _ added.0
        (chunk_lines-AllFit (add_line limit current line).1 lines added.1)

  or_blank-AllFit : (ps : List Chars) → All Fits ps → All Fits (or_blank ps)
  unfolding or_blank
  or_blank-AllFit [] a = (omega arith, tt)
  or_blank-AllFit (p ∷ ps) a = a

  -- Every piece of a text, however long its lines are, keeps within a limit of at least one
  -- character.
  pub chunks-All : (body : Chars) → All (λ piece. length piece ≤ limit) (chunks body limit)
  unfolding chunks
  chunks-All body = or_blank-AllFit _ (chunk_lines-AllFit [] (lines_of body) (omega arith))
