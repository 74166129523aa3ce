-- ===== src/Cron/Examples.antt =====
-- bothy/cronspec.py: a few expressions, and instances of the theorems.
use bothy.Common.{arith, pos, ◌+◌, ◌*◌, ◌/◌, ◌%◌, true, some, [], ◌∷◌, ◌≡◌, refl, ◌↔◌, ok, err}
use bothy.Text.{
  codes, strip, lstrip_by, rstrip_by, is_space, lower, lower_char, is_nil, all_chars, all_digits,
  is_digit, int_from, contains_char, starts_with, before, after, same_chars, push_first, split_by,
  split_on, words,
}
use bothy.Cron.Field.{
  backwards, five_fields, not_int, named, minuses, to_int, single, progression, span, take_step,
  range_span, value_span, part_span, parse_part, parse_parts, non_empty, parse_field,
}
use bothy.Cron.Spec.{
  Zone, CronSpec, create, parse, mem, day_names, day_matches, matches, search_from, next_after,
}
use bothy.Cron.Search.{Finds, next_after-Finds}
use bothy.Cron.Values.{OnSteps, span-mem_iff}

quarters : parse_field [] 0 59 (codes "*/15, 7") ≡ ok (0 ∷ 15 ∷ 30 ∷ 45 ∷ 7 ∷ [])
unfolding parse_field parse_parts parse_part part_span range_span value_span take_step span
    progression single named to_int minuses non_empty strip lstrip_by rstrip_by is_space lower
    lower_char is_nil all_chars all_digits is_digit int_from contains_char starts_with before after
    same_chars push_first split_by split_on
quarters = refl

weekdays : parse_field day_names 0 7 (codes "Mon-fri") ≡ ok (1 ∷ 2 ∷ 3 ∷ 4 ∷ 5 ∷ [])
unfolding parse_field parse_parts parse_part part_span range_span value_span take_step span
    progression single named to_int minuses non_empty strip lstrip_by rstrip_by is_space lower
    lower_char is_nil all_chars all_digits is_digit int_from contains_char starts_with before after
    same_chars push_first split_by split_on
weekdays = refl

runs_backwards : parse_field [] 0 23 (codes "9-5") ≡ err backwards
unfolding parse_field parse_parts parse_part part_span range_span value_span take_step span
    progression single named to_int minuses non_empty strip lstrip_by rstrip_by is_space lower
    lower_char is_nil all_chars all_digits is_digit int_from contains_char starts_with before after
    same_chars push_first split_by split_on
runs_backwards = refl

-- two minus signs pass the check of _single, and int() raises its own ValueError
two_signs : parse_field [] 0 23 (codes "--5") ≡ err not_int
unfolding parse_field parse_parts parse_part part_span range_span value_span take_step span
    progression single named to_int minuses non_empty strip lstrip_by rstrip_by is_space lower
    lower_char is_nil all_chars all_digits is_digit int_from contains_char starts_with before after
    same_chars push_first split_by split_on
two_signs = refl

four_fields : parse (codes " 0 9  * *") ≡ err five_fields
unfolding parse create words split_by is_nil is_space push_first
four_fields = refl

abbrev plain_days : Zone
plain_days = record {
  local = λ m. m;
  utc = λ m. m;
  civil = λ m. record {
    minute = m % 60;
    hour = m / 60 % 24;
    day = m / 1440 % 30 + 1;
    month = 1;
    weekday = m / 1440 % 7;
  };
}

-- ten past midnight on the first, or on any Tuesday
abbrev ten_past : CronSpec
ten_past = record {
  minutes = 10 ∷ [];
  hours = 0 ∷ [];
  days = 1 ∷ [];
  months = 1 ∷ [];
  weekdays = 2 ∷ [];
  dom_restricted = true;
  dow_restricted = true;
}

fires_on_tuesday : next_after plain_days ten_past 2 10 ≡ some 1450
unfolding next_after search_from matches day_matches
fires_on_tuesday = refl

next_after-Finds_example :
    Finds
      (λ m. matches ten_past (plain_days.civil m))
      11
      (11 + 2 * 1440)
      (next_after plain_days ten_past 2 10)
next_after-Finds_example = next_after-Finds plain_days ten_past 2 10

third_numbers : span (pos 1) (pos 8) 3 ≡ ok (1 ∷ 4 ∷ 7 ∷ [])
unfolding span progression
third_numbers = refl

span-mem_iff_example : (mem 4 (1 ∷ 4 ∷ 7 ∷ []) ≡ true) ↔ OnSteps 1 8 3 4
span-mem_iff_example = span-mem_iff 1 8 3 4 (1 ∷ 4 ∷ 7 ∷ []) (omega arith) third_numbers
