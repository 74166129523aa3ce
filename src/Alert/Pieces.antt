-- ===== src/Alert/Pieces.antt =====
-- bothy/alert.py, _chunks: the pieces make up the text, and each fits.
use bothy.Common.{
  ℕ, ◌+◌, zero, suc, List, [], ◌∷◌, ◌++◌, ◌==◌, ◌&&◌, not, ltb, length, take, drop, if_elim, ◌≡◌,
  refl, sym, ap, ◌∙◌,
}
use bothy.Text.{Chars, starts_with, push_first}
use bothy.Alert.Chunks.{
  is_break, lines_of, cut, if_any, flush, extend, add_line, chunk_lines, or_blank, chunks,
}

-- "".join(pieces)
abbrev pub concat : List Chars → Chars
concat [] = []
concat (p ∷ ps) = p ++ concat ps

append_assoc : (xs ys zs : Chars) → (xs ++ ys) ++ zs ≡ xs ++ (ys ++ zs)
append_assoc [] ys zs = refl
append_assoc (x ∷ xs) ys zs = ap (λ ys. x ∷ ys) (append_assoc xs ys zs)

append_nil : (ws : Chars) → ws ++ [] ≡ ws
append_nil [] = refl
append_nil (x ∷ xs) = ap (λ ys. x ∷ ys) (append_nil xs)

concat-append : (ps qs : List Chars) → concat (ps ++ qs) ≡ concat ps ++ concat qs
concat-append [] qs = refl
concat-append (p ∷ ps) qs =
    ap (λ ys. p ++ ys) (concat-append ps qs) ∙ sym (append_assoc p (concat ps) (concat qs))

append-take-drop : (n : ℕ) (xs : Chars) → take n xs ++ drop n xs ≡ xs
append-take-drop zero xs = refl
append-take-drop (suc n) [] = refl
append-take-drop (suc n) (x ∷ xs) = ap (λ ys. x ∷ ys) (append-take-drop n xs)

concat-push_first : (c : ℕ) (ps : List Chars) → concat (push_first c ps) ≡ c ∷ concat ps
unfolding push_first
concat-push_first c [] = refl
concat-push_first c (p ∷ ps) = refl

concat-lines_of : (s : Chars) → concat (lines_of s) ≡ s
unfolding lines_of
concat-lines_of [] = refl
concat-lines_of (c ∷ cs) =
    if_elim (λ ps. concat ps ≡ c ∷ cs) (is_break c && not (c == b'\r' && starts_with b'\n' cs)) _ _
      (λ ends. ap (λ ys. c ∷ ys) (concat-lines_of cs))
      (λ on. concat-push_first c (lines_of cs) ∙ ap (λ ys. c ∷ ys) (concat-lines_of cs))

-- what a pair of finished pieces and a current message holds
abbrev whole : List Chars × Chars → Chars
whole p = concat p.0 ++ p.1

whole-cut : (rounds limit : ℕ) (line : Chars) → whole (cut rounds limit line) ≡ line
unfolding cut
whole-cut zero limit line = refl
whole-cut (suc rounds) limit line =
    if_elim (λ p. whole p ≡ line) (ltb limit (length line)) _ _
      (λ long.
        append_assoc (take limit line) (concat (cut rounds limit (drop limit line)).0)
          (cut rounds limit (drop limit line)).1
        ∙ ap (λ ys. take limit line ++ ys) (whole-cut rounds limit (drop limit line))
        ∙ append-take-drop limit line)
      (λ short. refl)

concat-if_any : (current : Chars) → concat (if_any current) ≡ current
unfolding if_any
concat-if_any [] = refl
concat-if_any (c ∷ cs) = append_nil (c ∷ cs)

whole-flush :
    (current : Chars) (pieces : List Chars)
    → whole (flush current pieces) ≡ current ++ concat pieces
unfolding flush
whole-flush current [] = sym (append_nil current)
whole-flush current (p ∷ ps) =
    append_nil _
    ∙ concat-append (if_any current) (p ∷ ps)
    ∙ ap (λ ys. ys ++ (p ++ concat ps)) (concat-if_any current)

whole-extend :
    (limit : ℕ) (out : List Chars) (current line : Chars)
    → whole (extend limit (out, current) line) ≡ (concat out ++ current) ++ line
unfolding extend
whole-extend limit out current line =
    if_elim (λ p. whole p ≡ (concat out ++ current) ++ line)
      (ltb limit (length current + length line)) _ _
      (λ over.
        ap (λ ys. ys ++ line)
          (concat-append out (current ∷ []) ∙ ap (λ ys. concat out ++ ys) (append_nil current)))
      (λ fits. sym (append_assoc (concat out) current line))

whole-extend-pair :
    (limit : ℕ) (p : List Chars × Chars) (line : Chars)
    → whole (extend limit p line) ≡ whole p ++ line
whole-extend-pair limit (out, current) line = whole-extend limit out current line

whole-add_line :
    (limit : ℕ) (current line : Chars) → whole (add_line limit current line) ≡ current ++ line
unfolding add_line
whole-add_line limit current line =
    let pieces = cut (length line) limit line in
    whole-extend-pair limit (flush current pieces.0) pieces.1
    ∙ ap (λ ys. ys ++ pieces.1) (whole-flush current pieces.0)
    ∙ append_assoc current (concat pieces.0) pieces.1
    ∙ ap (λ ys. current ++ ys) (whole-cut (length line) limit line)

concat-chunk_lines :
    (limit : ℕ) (current : Chars) (lines : List Chars)
    → concat (chunk_lines limit current lines) ≡ current ++ concat lines
unfolding chunk_lines
concat-chunk_lines limit current [] = concat-if_any current ∙ sym (append_nil current)
concat-chunk_lines limit current (line ∷ lines) =
    let added = add_line limit current line in
    concat-append added.0 (chunk_lines limit added.1 lines)
    ∙ ap (λ ys. concat added.0 ++ ys) (concat-chunk_lines limit added.1 lines)
    ∙ sym (append_assoc (concat added.0) added.1 (concat lines))
    ∙ ap (λ ys. ys ++ concat lines) (whole-add_line limit current line)
    ∙ append_assoc current line (concat lines)

concat-or_blank : (ps : List Chars) → concat (or_blank ps) ≡ concat ps
unfolding or_blank
concat-or_blank [] = refl
concat-or_blank (p ∷ ps) = refl

-- Nothing of a text is lost, repeated or moved by cutting it: the pieces, one behind the other, are
-- the text.
pub concat-chunks : (body : Chars) (limit : ℕ) → concat (chunks body limit) ≡ body
unfolding chunks
concat-chunks body limit =
    concat-or_blank (chunk_lines limit [] (lines_of body))
    ∙ concat-chunk_lines limit [] (lines_of body)
    ∙ concat-lines_of body
