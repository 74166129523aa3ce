-- ===== src/Cron/Field.antt =====
-- bothy/cronspec.py, _parse_field and _single. A field is ASCII text; the values of one are a list
-- that stands for the set.
use bothy.Common.{
  ℤ, pos, negsuc, minus, ℕ, zero, suc, ◌+◌, ◌-◌, ◌/◌, ◌%◌, Option, none, some, List, [], ◌∷◌, ◌++◌,
  ◌==◌, ◌&&◌, not, ltb, leb, filter, if◌then◌else◌, Result, ok, err, ◌>>=◌,
}
use bothy.Text.{
  Chars, strip, lower, lstrip_by, all_digits, int_from, contains_char, starts_with, before, after,
  same_chars, split_on, is_nil, within,
}

-- CronError; `not_int` is the ValueError that int() raises behind the check of _single
pub data CronError : Type 0 where
  empty_element bad_step not_number backwards matches_nothing five_fields not_int : CronError

-- name -> number
abbrev pub Names : Type 0
Names = List (Chars × ℕ)

unfoldable pub named : Names → Chars → Option ℕ
unfolding same_chars
named [] text = none
named ((name, n) ∷ names) text =
    let rest = named names text in if same_chars name text then some n else rest

unfoldable pub minuses : Chars → ℕ
minuses [] = 0
minuses (c ∷ cs) = let rest = minuses cs in if c == b'-' then suc rest else 0

-- int(text), where the text behind its minus signs is digits
unfoldable pub to_int : ℕ → Chars → Result CronError ℤ
to_int zero digits = ok (pos (int_from 0 digits))
to_int (suc zero) digits = ok (minus (int_from 0 digits))
to_int (suc (suc n)) digits = err not_int

unfoldable pub single : Names → Chars → Result CronError ℤ
single names raw =
    let text = lower (strip raw) in
    let digits = lstrip_by (λ c. c == b'-') text in
    elim (named names text) [
      | some n ↦ ok (pos n)
      | none ↦ if all_digits digits then to_int (minuses text) digits else err not_number
    ]

-- range(start, start + step * count, step)
unfoldable pub progression : ℕ → ℕ → ℕ → List ℕ
progression zero start step = []
progression (suc count) start step = start ∷ progression count (start + step) step

-- range(start, end + 1, step), for a step of at least one
abbrev pub steps : ℕ → ℕ → ℕ → ℕ
steps start end step = (end - start) / step + 1

-- values.update(range(start, end + 1, step)), without the negative values, which no field holds
unfoldable pub span : ℤ → ℤ → ℕ → Result CronError (List ℕ)
span (pos start) (pos end) step =
    if ltb end start then err backwards else ok (progression (steps start end step) start step)
span (pos start) (negsuc n) step = err backwards
span (negsuc m) (pos end) step =
    let first = (step - suc m % step) % step in
    if ltb end first then ok [] else ok (progression (steps first end step) first step)
span (negsuc m) (negsuc n) step = if ltb m n then err backwards else ok []

-- a part with its step taken off: the text before the slash, and the step
unfoldable pub take_step : Chars → Result CronError (Chars × ℕ)
take_step part =
    let step = after b'/' part in
    let rest = strip (before b'/' part) in
    if contains_char b'/' part
    then (if all_digits step && leb 1 (int_from 0 step)
        then ok (if is_nil rest then b'*' ∷ [] else rest, int_from 0 step)
        else err bad_step)
    else ok (part, 1)

unfoldable pub range_span : Names → ℕ → Chars → Chars → Result CronError (List ℕ)
range_span names step start_text end_text = do
  start ← single names start_text
  end ← single names end_text
  span start end step

unfoldable pub value_span : Names → ℕ → Chars → Result CronError (List ℕ)
value_span names step text = do value ← single names text; span value value step

unfoldable pub part_span : Names → ℕ → ℕ → Chars × ℕ → Result CronError (List ℕ)
part_span names low high (part, step) =
    if same_chars part (b'*' ∷ [])
    then span (pos low) (pos high) step
    else if contains_char b'-' part && not (starts_with b'-' part)
    then range_span names step (before b'-' part) (after b'-' part)
    else value_span names step part

unfoldable pub parse_part : Names → ℕ → ℕ → Chars → Result CronError (List ℕ)
parse_part names low high raw =
    let part = lower (strip raw) in
    if is_nil part then err empty_element else take_step part >>= part_span names low high

unfoldable pub parse_parts : Names → ℕ → ℕ → List Chars → Result CronError (List ℕ)
parse_parts names low high [] = ok []
parse_parts names low high (part ∷ parts) = do
  here ← parse_part names low high part
  rest ← parse_parts names low high parts
  ok (here ++ rest)

unfoldable pub non_empty : List ℕ → Result CronError (List ℕ)
non_empty [] = err matches_nothing
non_empty (v ∷ vs) = ok (v ∷ vs)

unfoldable pub parse_field : Names → ℕ → ℕ → Chars → Result CronError (List ℕ)
parse_field names low high raw = do
  values ← parse_parts names low high (split_on b',' raw)
  non_empty (filter (within low high) values)
