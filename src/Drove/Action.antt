-- ===== src/Drove/Action.antt =====
-- bothy/drove.py: Action, its patterns, and _build, which every action goes through. Texts are ASCII.
use bothy.Common.{
  ℕ, String, Bool, true, false, Option, none, some, List, [], ◌∷◌, ◌&&◌, ◌||◌, not, leb, length,
  if◌then◌else◌, str_eq, Result, ok, err, ◌>>=◌, ◌>>◌, guard, is_some, value_or, ◌==◌,
}
use bothy.Json.{
  keys, all_known, Json, Members, find, text, dict, list, number, truth, nothing, member,
  no_members,
}
use bothy.Poll.Source
use bothy.Text.{
  Chars, codes, is_letter, is_digit, all_chars, all_digits, int_from, contains_char, starts_with,
  before, after, strip, is_nil,
}

-- which value an action carries: the three rows of _SHAPES
pub data Shape : Type 0 where
  from_cairn next run : Shape

pub record Action : Type 0 where
  pub shape : Shape
  pub value : String
  pub repo : Option String

pub data ActionError : Type 0 where
  not_object unknown_key not_one_shape wrong_verb bad_placeholder no_string invalid_value :
      ActionError
  bad_repo : ActionError

abbrev pub key_of : Shape → String
key_of from_cairn = "from_cairn"
key_of next = "next"
key_of run = "run"

abbrev pub verb_of : Shape → String
verb_of from_cairn = "plan"
verb_of next = "plan"
verb_of run = "up"

abbrev pub flag_of : Shape → String
flag_of from_cairn = "--from-cairn"
flag_of next = "--next"
flag_of run = "--run"

unfoldable pub is_alnum : ℕ → Bool
is_alnum c = is_letter c || is_digit c

-- [A-Za-z][A-Za-z0-9]{0,31}
unfoldable pub is_project_key : Chars → Bool
is_project_key [] = false
is_project_key (c ∷ cs) = is_letter c && (all_chars is_alnum cs && leb (length cs) 31)

-- a key, a hyphen and [0-9]{1,9}
unfoldable pub is_cairn_ref : Chars → Bool
is_cairn_ref s =
    let digits = after b'-' s in
    contains_char b'-' s
    && (is_project_key (before b'-' s) && (all_digits digits && leb (length digits) 9))

-- [A-Za-z0-9][A-Za-z0-9._-]{0,127}
unfoldable pub is_run_id : Chars → Bool
is_run_id [] = false
is_run_id (c ∷ cs) =
    is_alnum c
    && (all_chars (λ d. is_alnum d || d == b'.' || d == b'_' || d == b'-') cs
        && leb (length cs) 127)

unfoldable pub fits : Shape → String → Bool
fits from_cairn s = is_cairn_ref (codes s)
fits next s = is_project_key (codes s)
fits run s = is_run_id (codes s)

abbrev pub known_keys : List String
known_keys = "action" ∷ "repo" ∷ "from_cairn" ∷ "next" ∷ "run" ∷ []

-- `[key for key in _SHAPES if key in raw]`, where it has one element
unfoldable pub shape_in : Members → Option Shape
shape_in ms =
    let c = is_some (find ms "from_cairn") in
    let n = is_some (find ms "next") in
    let r = is_some (find ms "run") in
    if c && (not n && not r)
    then some from_cairn
    else if not c && (n && not r)
    then some next
    else if not c && (not n && r)
    then some run
    else none

unfoldable pub is_text : Option Json → String → Bool
is_text (some (text s)) t = str_eq s t
is_text _ t = false

-- Python's isdigit and int on a part of a path
unfoldable pub index : String → Option ℕ
index s = if all_digits (codes s) then some (int_from 0 (codes s)) else none

-- `{"payload": "dotted.path"}`, its path not blank
unfoldable pub placeholder : Members → Option String
placeholder ms = elim (find ms "payload") [
  | some (text path) ↦
      if all_known ("payload" ∷ []) (keys ms) && not (is_nil (strip (codes path)))
      then some path
      else none
  | _ ↦ none
]

unfoldable pub checked : Shape → String → Result ActionError (Option String)
checked shape s = if fits shape s then ok (some s) else err invalid_value

-- what the placeholder's path leads to
unfoldable pub from_payload : Shape → Option Json → Result ActionError (Option String)
from_payload shape (some (text s)) = checked shape s
from_payload shape _ = err no_string

-- A repo that is null counts as none.
unfoldable pub repo_of : Option Json → Result ActionError (Option String)
repo_of none = ok none
repo_of (some nothing) = ok none
repo_of (some (text s)) =
    if starts_with b'/' (codes s) && not (contains_char 0 (codes s))
    then ok (some s)
    else err bad_repo
repo_of (some (truth b)) = err bad_repo
repo_of (some (number n)) = err bad_repo
repo_of (some (list vs)) = err bad_repo
repo_of (some (dict ms)) = err bad_repo

-- `dotted` is Python's `path.strip().split(".")`
module _ (dotted : String → List String) where
  -- the value under the shape's key; none for a placeholder of a template, or for a null
  unfoldable pub value_of : Bool → Json → Shape → Json → Result ActionError (Option String)
  value_of template payload shape (dict ms) = elim (placeholder ms) [
    | none ↦ err bad_placeholder
    | some path ↦
        if template then ok none else from_payload shape (Source.dig index (dotted path) payload)
  ]
  value_of template payload shape (text s) = checked shape s
  value_of template payload shape nothing = ok none
  value_of template payload shape (truth b) = err invalid_value
  value_of template payload shape (number n) = err invalid_value
  value_of template payload shape (list vs) = err invalid_value

  unfoldable pub finish : Shape → Option String → Option String → Option Action
  finish shape none repo = none
  finish shape (some value) repo = some (record { shape = shape; value = value; repo = repo })

  unfoldable pub build_shape : Bool → Json → Members → Shape → Result ActionError (Option Action)
  build_shape template payload ms shape = do
    guard (is_text (find ms "action") (verb_of shape)) wrong_verb
    value ← value_of template payload shape (value_or (find ms (key_of shape)) nothing)
    repo ← repo_of (find ms "repo")
    ok (finish shape value repo)

  unfoldable pub build : Bool → Json → Json → Result ActionError (Option Action)
  build template payload (dict ms) =
      if all_known known_keys (keys ms)
      then elim (shape_in ms) [
        | none ↦ err not_one_shape
        | some shape ↦ build_shape template payload ms shape
      ]
      else err unknown_key
  build template payload (text s) = err not_object
  build template payload nothing = err not_object
  build template payload (truth b) = err not_object
  build template payload (number n) = err not_object
  build template payload (list vs) = err not_object

-- how a call ends that wants an action: `assertion` is the failed `assert action is not None`
pub data Outcome : Type 0 where
  made : Action → Outcome
  refused : ActionError → Outcome
  assertion : Outcome

unfoldable pub outcome : Result ActionError (Option Action) → Outcome
outcome (ok (some a)) = made a
outcome (ok none) = assertion
outcome (err e) = refused e

unfoldable pub as_dict : Action → Json
as_dict a = dict (
    member "action" (text (verb_of a.shape)) (
      member (key_of a.shape) (text a.value) (elim a.repo [
        | none ↦ no_members
        | some r ↦ if str_eq r "" then no_members else member "repo" (text r) no_members
      ])))

abbrev pub argv : Action → String → List String
argv a binary = binary ∷ verb_of a.shape ∷ flag_of a.shape ∷ a.value ∷ "--detached" ∷ "--json" ∷ []

module _ (dotted : String → List String) where
  -- `none` accepts the action
  unfoldable pub check_action : Json → Option ActionError
  check_action raw = elim (build dotted true (dict no_members) raw) [ ok a ↦ none | err e ↦ some e ]

  unfoldable pub resolve_action : Json → Json → Outcome
  resolve_action raw payload = outcome (build dotted false payload raw)

  unfoldable pub parse_action : Json → Outcome
  parse_action raw = outcome (build dotted false (dict no_members) raw)
