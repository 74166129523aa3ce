-- ===== src/Drove/Cli.antt =====
-- bothy/drove.py, DroveCli: what a run of Drove's program amounted to. The process and the reader of
-- JSON are parameters.
use bothy.Common.{
  ℕ, ℤ, pos, negsuc, zero, suc, String, str_append, Bool, true, false, Option, none, some, List, [],
  ◌∷◌, ◌++◌, filter, not, value_or, take,
}
use bothy.Json.{Json, Members, no_members, dict, text, find}
use bothy.Text.{Chars, codes, strip, is_nil}

-- how the process ended: it was not there, it could not be started, it did not answer in time, or
-- with a status, its output and its errors
pub data Child : Type 0 where
  not_there : Child
  no_start : Chars → Child
  no_answer : Child
  exited : ℤ → Chars → Chars → Child

pub record Outcome : Type 0 where
  pub is_ok : Bool
  pub code : String
  pub body : Members
  pub error : Chars

-- json.loads, str.splitlines, str() of a return code, the process for an argv, a folder and a time
pub record Shell : Type 0 where
  pub loads : Chars → Option Json
  pub splitlines : Chars → List Chars
  pub show : ℤ → String
  pub spawn : List String → Option String → ℕ → Child

abbrev pub stderr_limit : ℕ
stderr_limit = 300

unfoldable pub as_object : Option Json → Option Members
as_object (some (dict ms)) = some ms
as_object _ = none

unfoldable pub or_else : Option Members → Option Members → Option Members
or_else (some ms) other = some ms
or_else none other = other

unfoldable pub first_object : (Chars → Option Json) → List Chars → Option Members
first_object loads [] = none
first_object loads (s ∷ rest) = or_else (as_object (loads s)) (first_object loads rest)

unfoldable pub reversed : List Chars → List Chars → List Chars
reversed [] later = later
reversed (s ∷ rest) later = reversed rest (s ∷ later)

-- the whole of a text, or its last line that is one
unfoldable pub json_object : Shell → Chars → Option Members
json_object sh s =
    first_object sh.loads
      (strip s ∷ reversed (filter (λ line. not (is_nil (strip line))) (sh.splitlines s)) [])

unfoldable pub text_or : Option Json → String → String
text_or (some (text s)) other = s
text_or _ other = other

unfoldable pub chars_or : Option Json → Chars → Chars
chars_or (some (text s)) other = codes s
chars_or _ other = other

unfoldable pub no_outcome : String → Chars → Outcome
no_outcome code error = record { is_ok = false; code = code; body = no_members; error = error }

unfoldable pub parsed : Chars → Option Members → Outcome
parsed output (some ms) = record { is_ok = true; code = ""; body = ms; error = [] }
parsed output none =
    no_outcome "unparsed"
      (codes "exit 0 but stdout was not JSON: " ++ take stderr_limit (strip output))

unfoldable pub failure : Shell → ℤ → Chars → Members → Outcome
failure sh status errors ms =
    no_outcome (text_or (find ms "code") (str_append "exit-" (sh.show status)))
      (take stderr_limit (chars_or (find ms "error") (strip errors)))

unfoldable pub read_child : Shell → Child → Outcome
read_child sh not_there =
    no_outcome "not-found" (codes "the program was not found; set drove_binary or fix PATH")
read_child sh (no_start why) = no_outcome "spawn-failed" why
read_child sh no_answer = no_outcome "timeout" (codes "no answer in time")
read_child sh (exited (pos zero) output errors) = parsed output (json_object sh output)
read_child sh (exited (pos (suc n)) output errors) =
    failure sh (pos (suc n)) errors (value_or (json_object sh errors) no_members)
read_child sh (exited (negsuc n) output errors) =
    failure sh (negsuc n) errors (value_or (json_object sh errors) no_members)

-- DroveCli.run
unfoldable pub run : Shell → List String → Option String → ℕ → Outcome
run sh argv cwd timeout = read_child sh (sh.spawn argv cwd timeout)
