-- ===== src/Policy/Examples.antt =====
-- bothy/policy.py: decisions on a small log, and instances of the theorems.
use bothy.Common.{ℕ, ◌≡◌, refl, false, none, some, [], ◌∷◌, ◌⊎◌, str_eq, if◌then◌else◌}
use bothy.Dict
use bothy.Json.{Json, get, find, text, dict, member, no_members}
use bothy.Audit.Log.{Line, entry, junk}
use bothy.Policy.Rules.{
  proceed, confirm, deny, ApprovalRule, AuditView, readable, unreadable, Facts, Python,
  hosted_method, mcp_tool_approval, identify, approved_age, rule_for, find_rule, dig, first_text,
  is_text, is_approval, age, newer,
}
use bothy.Policy.Evidence.{ApprovesAt}
use bothy.Policy.Decision.{
  evaluate, evaluate-proceed, by_rule, windowed, awaiting, Allows, no_evidence,
}

abbrev little_python : Python
little_python = record {
  contains = λ needle hay. false;
  quoted_tool = λ s. none;
  shown = λ v. "?";
  seconds = λ a. "a few";
  instant = λ s. if str_eq s "noon" then some 100 else none;
}

abbrev approval : Line
approval = entry (record {
  body = record {
    seq = 1;
    ts = "noon";
    kind = "interrupt";
    action = "answered";
    status = "ok";
    run_id = none;
    subject = none;
    actor = some "alice";
    data_field = dict (
        member "decision" (text "approve")
          (member "server" (text "mail") (member "tool" (text "send") no_members)));
    prev = "";
    span = none;
  };
  hash = "";
})

abbrev ask_first : ApprovalRule
ask_first = record {
  server = "mail";
  tool = "send";
  verdict = confirm;
  reason = "";
  unless_approved_within = some 50;
}

abbrev facts_at : ℕ → AuditView → Facts
facts_at now view = record { rules = ask_first ∷ []; mcp_ask = []; audit = view; now = now }

abbrev call : Json
call = dict (member "server" (text "mail") (member "tool" (text "send") no_members))

proceeds_soon :
    (evaluate little_python "item/mcp/requestApproval" call
      (facts_at 140 (readable (approval ∷ junk ∷ [])))).verdict
    ≡ proceed
unfolding evaluate identify dig first_text mcp_tool_approval rule_for find_rule by_rule windowed
    approved_age newer is_approval is_text age get find Dict.get
proceeds_soon = refl

asks_later :
    (evaluate little_python "item/mcp/requestApproval" call
      (facts_at 151 (readable (approval ∷ junk ∷ [])))).verdict
    ≡ confirm
unfolding evaluate identify dig first_text mcp_tool_approval rule_for find_rule by_rule windowed
    awaiting approved_age newer is_approval is_text age get find Dict.get
asks_later = refl

denies_blind :
    (evaluate little_python "item/mcp/requestApproval" call (facts_at 140 unreadable)).verdict
    ≡ deny
unfolding evaluate identify dig first_text mcp_tool_approval rule_for find_rule by_rule windowed
    no_evidence get find Dict.get
denies_blind = refl

evaluate-proceed_example :
    (let facts = facts_at 140 (readable (approval ∷ junk ∷ [])) in
      let named = identify little_python "item/mcp/requestApproval" call in
      ("item/mcp/requestApproval" ≡ hosted_method × rule_for facts named.0 named.1 ≡ none)
      ⊎ ((r : ApprovalRule) × (rule_for facts named.0 named.1 ≡ some r
            × Allows little_python facts named r)))
evaluate-proceed_example =
    evaluate-proceed little_python "item/mcp/requestApproval" call
      (facts_at 140 (readable (approval ∷ junk ∷ []))) proceeds_soon

approves : ApprovesAt little_python "mail" "send" 140 40 approval
unfolding is_approval is_text get find age
approves = (refl, refl)
