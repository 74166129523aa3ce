-- ===== src/Policy/Parse.antt =====
-- bothy/policy.py, parse_rules. A window is a whole number of seconds.
use bothy.Common.{
  ℕ, ◌*◌, String, Bool, true, false, Option, none, some, List, [], ◌∷◌, ◌++◌, ◌&&◌, not, any, ltb,
  str_eq, Result, ok, err, ◌>>=◌, ◌>>◌, guard, if◌then◌else◌,
}
use bothy.Json.{
  Json, dict, list, text, number, truth, nothing, Members, Elements, no_elements, element, find,
  keys, all_known,
}
use bothy.Policy.Rules.{Verdict, proceed, deny, guide, confirm, ApprovalRule}

pub data RuleError : Type 0 where
  not_list not_object unknown_key no_text unknown_verdict bad_reason no_guidance window_misplaced :
      RuleError
  bad_window duplicate : RuleError

abbrev pub rule_keys : List String
rule_keys = "server" ∷ "tool" ∷ "verdict" ∷ "reason" ∷ "unless_approved_within" ∷ []

unfoldable pub verdict_named : String → Result RuleError Verdict
verdict_named s =
    if str_eq s "proceed"
    then ok proceed
    else if str_eq s "deny"
    then ok deny
    else if str_eq s "guide"
    then ok guide
    else if str_eq s "confirm"
    then ok confirm
    else err unknown_verdict

unfoldable pub is_guide : Verdict → Bool
is_guide guide = true
is_guide _ = false

unfoldable pub is_confirm : Verdict → Bool
is_confirm confirm = true
is_confirm _ = false

unfoldable pub reason_of : Option Json → Result RuleError String
reason_of none = ok ""
reason_of (some (text s)) = ok s
reason_of (some _) = err bad_reason

-- the window, in microseconds
unfoldable pub window_of : Verdict → Option Json → Result RuleError (Option ℕ)
window_of v none = ok none
window_of v (some nothing) = ok none
window_of v (some (number n)) =
    if is_confirm v
    then (if ltb 0 n then ok (some (n * 1000000)) else err bad_window)
    else err window_misplaced
window_of v (some (text s)) = if is_confirm v then err bad_window else err window_misplaced
window_of v (some (truth b)) = if is_confirm v then err bad_window else err window_misplaced
window_of v (some (list vs)) = if is_confirm v then err bad_window else err window_misplaced
window_of v (some (dict ms)) = if is_confirm v then err bad_window else err window_misplaced

unfoldable pub same_tool : String → String → ApprovalRule → Bool
same_tool server tool r = str_eq r.server server && str_eq r.tool tool

-- `strip` is Python's
module _ (strip : String → String) where
  unfoldable pub is_blank : String → Bool
  is_blank s = str_eq (strip s) ""

  unfoldable pub text_at : Option Json → Result RuleError String
  text_at (some (text s)) = if is_blank s then err no_text else ok s
  text_at _ = err no_text

  -- a rule, among those before it
  unfoldable pub parse_members : List ApprovalRule → Members → Result RuleError ApprovalRule
  parse_members before ms = do
    guard (all_known rule_keys (keys ms)) unknown_key
    server ← text_at (find ms "server")
    tool ← text_at (find ms "tool")
    named ← text_at (find ms "verdict")
    verdict ← verdict_named named
    reason ← reason_of (find ms "reason")
    guard (not (is_guide verdict && is_blank reason)) no_guidance
    window ← window_of verdict (find ms "unless_approved_within")
    guard (not (any (same_tool server tool) before)) duplicate
    ok (record {
      server = server;
      tool = tool;
      verdict = verdict;
      reason = strip reason;
      unless_approved_within = window;
    })

  unfoldable pub parse_entry : List ApprovalRule → Json → Result RuleError ApprovalRule
  parse_entry before (dict ms) = parse_members before ms
  parse_entry before _ = err not_object

  unfoldable pub parse_entries : List ApprovalRule → Elements → Result RuleError (List ApprovalRule)
  parse_entries before no_elements = ok before
  parse_entries before (element v vs) = do
    r ← parse_entry before v
    parse_entries (before ++ r ∷ []) vs

  unfoldable pub parse_rules : Json → Result RuleError (List ApprovalRule)
  parse_rules (list vs) = parse_entries [] vs
  parse_rules _ = err not_list
