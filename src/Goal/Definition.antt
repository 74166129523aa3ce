-- ===== src/Goal/Definition.antt =====
-- bothy/goal.py, validate_definition. The goal is read from JSON, with whole numbers.
use bothy.Common.{
  ℕ, String, Bool, true, false, Option, none, some, [], ◌∷◌, ◌&&◌, ◌==◌, not, ltb, leb, str_eq,
  Result, err, ◌>>◌, guard, is_some, if◌then◌else◌,
}
use bothy.Json.{
  Json, dict, list, text, number, truth, nothing, Members, Elements, no_elements, element, find,
  keys, all_known,
}
use bothy.Text.{codes, contains_char}

-- the ValueErrors of validate_definition
pub data GoalError : Type 0 where
  bad_attempts attempts_need_check not_object bad_argv bad_timeout empty_pattern invalid_pattern :
      GoalError
  not_one_check missing : GoalError

abbrev pub max_timeout_seconds : ℕ
max_timeout_seconds = 600

unfoldable pub attempts_in_range : Json → Bool
attempts_in_range (number n) = leb 1 n && leb n 5
attempts_in_range _ = false

unfoldable pub is_single : Json → Bool
is_single (number n) = n == 1
is_single _ = false

unfoldable pub are_args : Elements → Bool
are_args no_elements = true
are_args (element (text s) vs) = not (contains_char 0 (codes s)) && are_args vs
are_args (element _ vs) = false

unfoldable pub is_argv : Option Json → Bool
is_argv (some (list (element (text s) vs))) = not (str_eq s "") && are_args (element (text s) vs)
is_argv _ = false

-- `timeout_seconds`, with its default
unfoldable pub is_timeout : Option Json → Bool
is_timeout none = true
is_timeout (some (number n)) = ltb 0 n && leb n max_timeout_seconds
is_timeout (some _) = false

unfoldable pub has_command : Members → Bool
has_command ms =
    is_some (find ms "command") && all_known ("command" ∷ "timeout_seconds" ∷ []) (keys ms)

unfoldable pub has_pattern : Members → Bool
has_pattern ms = is_some (find ms "output_regex") && all_known ("output_regex" ∷ []) (keys ms)

unfoldable pub pattern_of : Members → Option String
pattern_of ms = elim (find ms "output_regex") [ some (text s) ↦ some s | _ ↦ none ]

-- `compiles` is whether re.compile takes the pattern
module _ (compiles : String → Bool) where
  unfoldable pub check_pattern : Option String → Result GoalError (Unit {0})
  check_pattern none = err empty_pattern
  check_pattern (some s) =
      if str_eq s "" then err empty_pattern else guard (compiles s) invalid_pattern

  unfoldable pub check_members : Members → Result GoalError (Unit {0})
  check_members ms =
      if has_command ms
      then guard (is_argv (find ms "command")) bad_argv
        >> guard (is_timeout (find ms "timeout_seconds")) bad_timeout
      else if has_pattern ms
      then check_pattern (pattern_of ms)
      else err not_one_check

  unfoldable pub check_kind : Json → Json → Result GoalError (Unit {0})
  check_kind nothing max_attempts = guard (is_single max_attempts) attempts_need_check
  check_kind (dict ms) max_attempts = check_members ms
  check_kind (text s) max_attempts = err not_object
  check_kind (number n) max_attempts = err not_object
  check_kind (truth b) max_attempts = err not_object
  check_kind (list vs) max_attempts = err not_object

  unfoldable pub validate_definition : Json → Json → Result GoalError (Unit {0})
  validate_definition validate max_attempts = do
    guard (attempts_in_range max_attempts) bad_attempts
    check_kind validate max_attempts
