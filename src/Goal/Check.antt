-- ===== src/Goal/Check.antt =====
-- bothy/goal.py, bounded and check. The process of a check is a parameter, by how it ended.
use bothy.Common.{
  ℕ, ◌-◌, ℤ, pos, negsuc, zero, suc, String, Bool, true, false, Option, none, some, List, [], ◌∷◌,
  ◌++◌, leb, length, take, value_or, if◌then◌else◌, Result, ok, err,
}
use bothy.Json.{
  Json, dict, list, text, nothing, number, Members, Elements, no_elements, element, find, get,
}
use bothy.Text.{Chars, codes, strip, is_nil}
use bothy.Goal.Definition.{GoalError, missing, validate_definition, pattern_of}

abbrev pub evidence_bytes : ℕ
evidence_bytes = 4096

-- "\n[truncated]"
abbrev pub suffix : Chars
suffix = b'\n' ∷ codes "[truncated]"

-- of ASCII text, a byte to the character
unfoldable pub bounded : Chars → Chars
bounded s =
    if leb (length s) evidence_bytes then s else take (evidence_bytes - length suffix) s ++ suffix

pub data Command : Type 0 where
  argv : List String → Command
  output_regex : String → Command

pub record Verdict : Type 0 where
  pub passed : Bool
  pub command : Option Command
  pub evidence : Chars

-- what a check reads of a run's result
pub record RunResult : Type 0 where
  pub completed : Bool
  pub reason : Chars
  pub messages : List Chars

-- how the process of a check ended: with an OSError at its start, past its deadline without being
-- reaped, past its deadline, or by itself
pub data Child : Type 0 where
  no_start : Chars → Child
  not_reaped : Child
  timed_out : Chars → Child
  exited : ℤ → Chars → Child

unfoldable pub strings_of : Elements → List String
strings_of no_elements = []
strings_of (element (text s) vs) = s ∷ strings_of vs
strings_of (element _ vs) = strings_of vs

unfoldable pub argv_of : Members → List String
argv_of ms = elim (find ms "command") [ some (list vs) ↦ strings_of vs | _ ↦ [] ]

unfoldable pub timeout_of : Members → ℕ
timeout_of ms = elim (find ms "timeout_seconds") [ some (number n) ↦ n | _ ↦ 120 ]

-- "\n".join(messages)
unfoldable pub join_lines : List Chars → Chars
join_lines [] = []
join_lines (m ∷ []) = m
join_lines (m ∷ n ∷ ms) = m ++ b'\n' ∷ join_lines (n ∷ ms)

unfoldable pub is_blank : Chars → Bool
is_blank s = is_nil (strip s)

unfoldable pub is_zero : ℤ → Bool
is_zero (pos zero) = true
is_zero (pos (suc n)) = false
is_zero (negsuc n) = false

-- Python's re.compile and re.search, str() of an int and of an exception, and the process that the
-- check starts for an argv and a deadline
pub record Outside : Type 0 where
  pub compiles : String → Bool
  pub search : String → Chars → Bool
  pub str_int : ℤ → Chars
  pub message : GoalError → Chars
  pub run : List String → ℕ → Child

unfoldable pub command_verdict : (ℤ → Chars) → List String → Child → Verdict
command_verdict str_int args (no_start why) = record {
  passed = false;
  command = some (argv args);
  evidence = bounded (codes "Check could not start: " ++ why);
}
command_verdict str_int args not_reaped = record {
  passed = false;
  command = some (argv args);
  evidence = codes "Check process group could not be reaped after its deadline";
}
command_verdict str_int args (timed_out output) = record {
  passed = false;
  command = some (argv args);
  evidence = bounded (codes "Check timed out:" ++ b'\n' ∷ take (suc evidence_bytes) output);
}
command_verdict str_int args (exited code output) =
    let evidence = take (suc evidence_bytes) output in
    if is_blank evidence
    then record {
      passed = false;
      command = some (argv args);
      evidence = codes "Check exited " ++ str_int code ++ codes " with empty output";
    }
    else record {
      passed = is_zero code;
      command = some (argv args);
      evidence = bounded (codes "Check exited " ++ str_int code ++ codes ":" ++ b'\n' ∷ evidence);
    }

module _ (out : Outside) where
  unfoldable pub regex_verdict : String → Chars → Verdict
  regex_verdict pattern output =
      if is_blank output
      then record {
        passed = false;
        command = some (output_regex pattern);
        evidence = codes "Run produced no final output";
      }
      else record {
        passed = out.search pattern output;
        command = some (output_regex pattern);
        evidence = bounded (
            codes (if out.search pattern output then "Regex matched:" else "Regex did not match:")
            ++ b'\n' ∷ output);
      }

  -- the check that a valid goal asks for, behind the test of the run's status
  unfoldable pub verdict_of : Members → RunResult → Option String → Verdict
  verdict_of ms result none =
      if result.completed
      then command_verdict out.str_int (argv_of ms) (out.run (argv_of ms) (timeout_of ms))
      else record {
        passed = false;
        command = some (argv (argv_of ms));
        evidence = bounded (codes "Run did not complete" ++ result.reason);
      }
  verdict_of ms result (some pattern) =
      if result.completed then regex_verdict pattern (join_lines result.messages) else record {
        passed = false;
        command = some (output_regex pattern);
        evidence = bounded (codes "Run did not complete" ++ result.reason);
      }

  unfoldable pub refusal : GoalError → Verdict
  refusal why = record { passed = false; command = none; evidence = bounded (out.message why) }

  unfoldable pub judge : Json → RunResult → Result GoalError (Unit {0}) → Verdict
  judge validate result (err why) = refusal why
  judge (dict ms) result (ok u) = verdict_of ms result (pattern_of ms)
  judge _ result (ok u) = refusal missing

  unfoldable pub check : Json → RunResult → Verdict
  check goal result =
      let validate = value_or (get goal "validate") nothing in
      judge validate result
        (validate_definition out.compiles validate (value_or (get goal "max_attempts") (number 1)))
