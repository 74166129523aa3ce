-- ===== src/Goal/Examples.antt =====
-- bothy/goal.py: a goal with a command, and instances of the theorems.
use bothy.Common.{pos, true, false, [], ◌∷◌, ok, err, ◌≡◌, refl, value_or}
use bothy.Json.{
  Members, Json, dict, list, text, number, nothing, member, no_members, element, no_elements, get,
  find, keys, all_known,
}
use bothy.Text.{codes, strip, lstrip_by, rstrip_by, is_space, is_nil, contains_char}
use bothy.Goal.Definition.{
  bad_argv, attempts_need_check, validate_definition, check_kind, check_members, attempts_in_range,
  is_single, has_command, is_argv, are_args, is_timeout, pattern_of,
}
use bothy.Goal.Check.{
  Outside, RunResult, exited, check, judge, verdict_of, command_verdict, is_blank, is_zero,
}
use bothy.Goal.Evidence.{Found, check-passed}

abbrev test_passes : Outside
test_passes = record {
  compiles = λ pattern. true;
  search = λ pattern output. false;
  str_int = λ n. b'0' ∷ [];
  message = λ why. codes "refused";
  run = λ args deadline. exited (pos 0) (codes "4 passed");
}

abbrev tests : Json
tests = dict (member "command" (list (element (text "pytest") no_elements)) no_members)

abbrev goal : Json
goal = dict (member "validate" tests (member "max_attempts" (number 3) no_members))

abbrev finished : RunResult
finished = record { completed = true; reason = []; messages = [] }

-- the first argument names the program
no_program :
    validate_definition
      (λ p. true)
      (dict (member "command" (list (element (text "") no_elements)) no_members))
      (number 1)
    ≡ err bad_argv
unfolding validate_definition check_kind check_members attempts_in_range has_command is_argv find
    keys all_known
no_program = refl

retries_without_check : validate_definition (λ p. true) nothing (number 2) ≡ err attempts_need_check
unfolding validate_definition check_kind attempts_in_range is_single
retries_without_check = refl

tests_pass : (check test_passes goal finished).passed ≡ true
unfolding check judge verdict_of command_verdict validate_definition check_kind check_members
    attempts_in_range has_command is_argv are_args is_timeout pattern_of find keys all_known get
    is_blank is_zero strip lstrip_by rstrip_by is_space is_nil contains_char
tests_pass = refl

check-passed_example :
    (ms : Members) × (value_or (get goal "validate") nothing ≡ dict ms)
    × (validate_definition test_passes.compiles
          (value_or (get goal "validate") nothing)
          (value_or (get goal "max_attempts") (number 1))
        ≡ ok tt)
    × (finished.completed ≡ true)
    × Found test_passes ms finished (pattern_of ms)
check-passed_example = check-passed test_passes goal finished tests_pass
