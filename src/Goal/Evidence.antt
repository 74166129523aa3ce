-- ===== src/Goal/Evidence.antt =====
-- bothy/goal.py: what a passed check rests on, and the size of what it reports.
use bothy.Common.{
  length-take-le, ◌-◌, ◌≤◌, ℤ, pos, negsuc, zero, suc, String, true, false, Option, none, some,
  List, ◌++◌, leb, length, take, length-append, value_or, Result, ok, err, ◌≡◌, refl, ap,
  Bool-cases, inl, inr, arith, leb→le,
}
use bothy.Json.{Json, dict, list, text, nothing, number, truth, Members, get}
use bothy.Text.{Chars, codes}
use bothy.Goal.Definition.{GoalError, validate_definition, pattern_of}
use bothy.Goal.Check.{
  Outside, RunResult, Child, no_start, not_reaped, timed_out, exited, bounded, suffix,
  evidence_bytes, check, judge, verdict_of, regex_verdict, command_verdict, refusal, is_blank,
  is_zero, argv_of, timeout_of, join_lines,
}

-- what the check of a goal found
abbrev pub Found : Outside → Members → RunResult → Option String → Type 0
Found out ms result (some pattern) =
    (is_blank (join_lines result.messages) ≡ false)
    × (out.search pattern (join_lines result.messages) ≡ true)
Found out ms result none =
    (output : Chars) × (out.run (argv_of ms) (timeout_of ms) ≡ exited (pos 0) output)
    × (is_blank (take (suc evidence_bytes) output) ≡ false)

zero_code : (code : ℤ) → is_zero code ≡ true → code ≡ pos 0
unfolding is_zero
zero_code (pos zero) h = refl
zero_code (pos (suc n)) h = cc
zero_code (negsuc n) h = cc

module _ (out : Outside) where
  command_verdict-passed :
      (args : List String) (child : Child)
      → (command_verdict out.str_int args child).passed ≡ true
      → (output : Chars) × (child ≡ exited (pos 0) output)
        × (is_blank (take (suc evidence_bytes) output) ≡ false)
  unfolding command_verdict
  command_verdict-passed args (no_start why) h = cc
  command_verdict-passed args not_reaped h = cc
  command_verdict-passed args (timed_out output) h = cc
  command_verdict-passed args (exited code output) h =
      elim (Bool-cases (is_blank (take (suc evidence_bytes) output))) [
        | inl blank ↦ let g = rw blank at h in cc
        | inr written ↦
            let g = rw written at h in
            (output, ap (λ c. exited c output) (zero_code code g), written)
      ]

  regex_verdict-passed :
      (pattern : String) (output : Chars)
      → (regex_verdict out pattern output).passed ≡ true
      → (is_blank output ≡ false) × (out.search pattern output ≡ true)
  unfolding regex_verdict
  regex_verdict-passed pattern output h = elim (Bool-cases (is_blank output)) [
    | inl blank ↦ let g = rw blank at h in cc
    | inr written ↦ (written, rw written at h)
  ]

  verdict_of-passed :
      (ms : Members) (result : RunResult) (pattern : Option String)
      → (verdict_of out ms result pattern).passed ≡ true
      → (result.completed ≡ true) × Found out ms result pattern
  unfolding verdict_of
  verdict_of-passed ms result none h = elim (Bool-cases (result.completed)) [
    | inl done ↦ (
      done,
      command_verdict-passed (argv_of ms) (out.run (argv_of ms) (timeout_of ms)) (rw done at h),
    )
    | inr stopped ↦ let g = rw stopped at h in cc
  ]
  verdict_of-passed ms result (some pattern) h = elim (Bool-cases (result.completed)) [
    | inl done ↦ (done, regex_verdict-passed pattern (join_lines result.messages) (rw done at h))
    | inr stopped ↦ let g = rw stopped at h in cc
  ]

  judge-passed :
      (validate : Json) (result : RunResult) (r : Result GoalError (Unit {0}))
      → (judge out validate result r).passed ≡ true
      → (ms : Members) × (validate ≡ dict ms)
        × (r ≡ ok tt)
        × (result.completed ≡ true)
        × Found out ms result (pattern_of ms)
  unfolding judge refusal
  judge-passed (dict ms) result (ok u) h =
      let (done, found) = verdict_of-passed ms result (pattern_of ms) h in
      (ms, refl, refl, done, found)
  judge-passed validate result (err why) h = cc
  judge-passed nothing result (ok u) h = cc
  judge-passed (text s) result (ok u) h = cc
  judge-passed (number n) result (ok u) h = cc
  judge-passed (truth b) result (ok u) h = cc
  judge-passed (list vs) result (ok u) h = cc

  -- A check passes only for a goal that is well formed and a run that completed, with its evidence:
  -- a final output that is not blank and that the pattern is found in, or a process that ended by
  -- itself with exit code 0 and wrote something.
  pub check-passed :
      (goal : Json) (result : RunResult)
      → (check out goal result).passed ≡ true
      → (ms : Members) × (value_or (get goal "validate") nothing ≡ dict ms)
        × (validate_definition out.compiles
              (value_or (get goal "validate") nothing)
              (value_or (get goal "max_attempts") (number 1))
            ≡ ok tt)
        × (result.completed ≡ true)
        × Found out ms result (pattern_of ms)
  unfolding check
  check-passed goal result h = judge-passed (value_or (get goal "validate") nothing) result _ h

length-bounded : (s : Chars) → length (bounded s) ≤ evidence_bytes
unfolding bounded
length-bounded s = elim (Bool-cases (leb (length s) evidence_bytes)) [
  | inl short ↦ rw short (leb→le (length s) evidence_bytes short)
  | inr long ↦ rw long (
      omega (
        arith,
        length-append (take (evidence_bytes - length suffix) s) suffix,
        length-take-le (evidence_bytes - length suffix) s,
      ))
]

module _ (out : Outside) (short : (n : ℤ) → length (out.str_int n) ≤ 20) where
  exited-bound :
      (args : List String) (child : Child)
      → length (command_verdict out.str_int args child).evidence ≤ evidence_bytes
  unfolding command_verdict
  exited-bound args (no_start why) = length-bounded _
  exited-bound args not_reaped = omega arith
  exited-bound args (timed_out output) = length-bounded _
  exited-bound args (exited code output) =
      elim (Bool-cases (is_blank (take (suc evidence_bytes) output))) [
        | inl blank ↦ rw blank (
            omega (
              arith,
              length-append (codes "Check exited ")
                  (out.str_int code ++ codes " with empty output"),
              length-append (out.str_int code) (codes " with empty output"),
              short code,
            ))
        | inr written ↦ rw written (length-bounded _)
      ]

  regex-bound :
      (pattern : String) (output : Chars)
      → length (regex_verdict out pattern output).evidence ≤ evidence_bytes
  unfolding regex_verdict
  regex-bound pattern output = elim (Bool-cases (is_blank output)) [
    | inl blank ↦ rw blank (omega arith)
    | inr written ↦ rw written (length-bounded _)
  ]

  verdict_of-bound :
      (ms : Members) (result : RunResult) (pattern : Option String)
      → length (verdict_of out ms result pattern).evidence ≤ evidence_bytes
  unfolding verdict_of
  verdict_of-bound ms result none = elim (Bool-cases (result.completed)) [
    | inl done ↦ rw done (exited-bound _ (out.run (argv_of ms) (timeout_of ms)))
    | inr stopped ↦ rw stopped (length-bounded _)
  ]
  verdict_of-bound ms result (some pattern) = elim (Bool-cases (result.completed)) [
    | inl done ↦ rw done (regex-bound pattern (join_lines result.messages))
    | inr stopped ↦ rw stopped (length-bounded _)
  ]

  judge-bound :
      (validate : Json) (result : RunResult) (r : Result GoalError (Unit {0}))
      → length (judge out validate result r).evidence ≤ evidence_bytes
  unfolding judge refusal
  judge-bound (dict ms) result (ok u) = verdict_of-bound ms result (pattern_of ms)
  judge-bound validate result (err why) = length-bounded _
  judge-bound nothing result (ok u) = length-bounded _
  judge-bound (text s) result (ok u) = length-bounded _
  judge-bound (number n) result (ok u) = length-bounded _
  judge-bound (truth b) result (ok u) = length-bounded _
  judge-bound (list vs) result (ok u) = length-bounded _

  -- Where an exit code is written in at most twenty characters, the evidence of a verdict takes at
  -- most 4096 bytes, whatever the run and its check wrote.
  pub check-bound :
      (goal : Json) (result : RunResult) → length (check out goal result).evidence ≤ evidence_bytes
  unfolding check
  check-bound goal result = judge-bound (value_or (get goal "validate") nothing) result _
