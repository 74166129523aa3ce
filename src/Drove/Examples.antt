-- ===== src/Drove/Examples.antt =====
-- bothy/drove.py: actions, and instances of the theorems.
use bothy.Common.{true, String, pos, false, none, some, List, [], ◌∷◌, ◌≡◌, refl, ok}
use bothy.Json.{keys, all_known, Json, Members, get, find, text, dict, member, no_members, nothing}
use bothy.Text.{
  codes, is_letter, is_digit, all_chars, is_nil, starts_with, strip, lstrip_by, rstrip_by, is_space,
}
use bothy.Poll.Source
use bothy.Drove.Action.{
  next, Action, invalid_value, build, build_shape, value_of, finish, checked, from_payload, repo_of,
  fits, is_alnum, is_project_key, shape_in, is_text, placeholder, outcome, made, refused, assertion,
  as_dict, check_action, resolve_action, parse_action,
}
use bothy.Drove.Build.{IsValid}
use bothy.Drove.Cli.{exited}
use bothy.Drove.Runs.{Outside, Config}
use bothy.Drove.Apart.{IsKept}
use bothy.Drove.Bounds.{Op, starts, ticks, history, no_runs, history-IsKept}
use bothy.Drove.Safe.{resolve_action-made, parse_action-as_dict}

-- a path of one part
abbrev one_part : String → List String
one_part path = path ∷ []

abbrev planned : Json
planned = dict (
    member "action" (text "plan")
      (member "next" (dict (member "payload" (text "project") no_members)) no_members))

abbrev delivery : Json
delivery = dict (member "project" (text "BOTHY") no_members)

abbrev injected : Json
injected = dict (member "project" (text "--detached") no_members)

abbrev next_bothy : Action
next_bothy = record { shape = next; value = "BOTHY"; repo = none }

resolves : resolve_action one_part planned delivery ≡ made next_bothy
unfolding resolve_action build build_shape value_of finish checked from_payload repo_of fits
    is_alnum is_project_key keys all_known shape_in is_text placeholder outcome find get codes
    is_letter is_digit all_chars is_nil strip lstrip_by rstrip_by is_space Source.dig Source.follow
    Source.not_null Source.not_null?
resolves = refl

refuses_an_option : resolve_action one_part planned injected ≡ refused invalid_value
unfolding resolve_action build build_shape value_of finish checked from_payload repo_of fits
    is_alnum is_project_key keys all_known shape_in is_text placeholder outcome find get codes
    is_letter is_digit all_chars is_nil strip lstrip_by rstrip_by is_space Source.dig Source.follow
    Source.not_null Source.not_null?
refuses_an_option = refl

abbrev null_literal : Json
null_literal = dict (member "action" (text "plan") (member "next" nothing no_members))

-- a null literal passes the check of the configuration, and fails an assertion when it is used
null_is_accepted : check_action one_part null_literal ≡ none
unfolding check_action build build_shape value_of finish repo_of keys all_known shape_in is_text
    find
null_is_accepted = refl

null_asserts : resolve_action one_part null_literal delivery ≡ assertion
unfolding resolve_action build build_shape value_of finish repo_of keys all_known shape_in is_text
    find outcome
null_asserts = refl

next_bothy-IsValid : IsValid next_bothy
unfolding fits is_project_key is_alnum is_letter is_digit all_chars
next_bothy-IsValid = (refl, tt)

resolve_action-made_example :
    IsValid next_bothy
    × (starts_with b'-' (codes "BOTHY") ≡ false)
    × ((ms : Members) × (planned ≡ dict ms)
        × (shape_in ms ≡ some next)
        × (repo_of (find ms "repo") ≡ ok none))
resolve_action-made_example = resolve_action-made one_part planned delivery next_bothy resolves

parse_action-as_dict_example : parse_action one_part (as_dict next_bothy) ≡ made next_bothy
parse_action-as_dict_example = parse_action-as_dict one_part next_bothy next_bothy-IsValid

-- a program that starts the run `r1`, whatever it is asked for
abbrev starts_r1 : Outside
starts_r1 = record {
  shell = record {
    loads = λ s. some (dict (member "run" (text "r1") no_members));
    splitlines = λ s. s ∷ [];
    show = λ n. "1";
    spawn = λ argv cwd timeout. exited (pos 0) (codes "{}") [];
  };
  dotted = one_part;
  same = λ a b. true;
}

abbrev one_run : Config
one_run = record {
  max_runs = 1;
  deadline_seconds = 21600000000;
  poll_seconds = 60000000;
  repo = some "/repo";
  binary = "drove";
  timeout = 120000000;
}

abbrev two_starts : List Op
two_starts =
    starts starts_r1 (as_dict next_bothy) none "manual" 1000
    ∷ starts starts_r1 (as_dict next_bothy) none "manual" 2000
    ∷ ticks starts_r1 90000000
    ∷ []

history-IsKept_example : IsKept 1 (history one_run two_starts no_runs)
history-IsKept_example = history-IsKept one_run two_starts
