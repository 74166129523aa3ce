-- ===== src/Capability/Examples.antt =====
-- bothy/capability.py: a profile with a gated tool, a selection of tools, and instances of the theorems.
use bothy.Common.{
  String, true, false, Option, some, none, [], ◌∷◌, ◌&&◌, not, any, str_eq, ok, err, ◌≡◌, refl,
}
use bothy.Dict
use bothy.Dict.{Dict}
use bothy.Json.{
  Json, list, dict, text, element, no_elements, member, no_members, find, keys, all_known,
}
use bothy.Policy.Parse.{
  parse_rules, parse_entries, parse_entry, parse_members, text_at, is_blank, verdict_named,
  reason_of, is_guide, is_confirm, window_of, same_tool,
}
use bothy.Capability.Profile.{
  Profile, off, rule_not_listed, validate, asked_tools, rules, rule_fault, check_memory, check_asks,
  check_servers, check_rules, check_rule, is_within, all_of, gated, is_gating,
}
use bothy.Capability.Grants.{asked_tools-granted}
use bothy.Capability.Tools.{
  ToolRegistry, allows, answered, select, pick, take_tool, blocked, call, call_found, behind_gate,
  ask_gate, run_tool, arguments_of, call-select, not_given,
}

abbrev same_text : String → String
same_text s = s

abbrev send_asks : Json
send_asks = list (
    element
      (dict (
        member "server" (text "gmail")
          (member "tool" (text "send") (member "verdict" (text "confirm") no_members))))
      no_elements)

abbrev mail : Profile
mail = record {
  name = "mail";
  mcp_servers = "gmail" ∷ [];
  mcp_tools = ("gmail", "read" ∷ "send" ∷ []) ∷ [];
  mcp_ask = ("gmail", "read" ∷ []) ∷ [];
  tools = [];
  allow_from_untrusted = false;
  memory = off;
  approvals = send_asks;
}

mail_validates : validate same_text mail ≡ ok tt
unfolding validate check_memory check_asks check_servers rules rule_fault check_rules check_rule
    is_within all_of Dict.get parse_rules parse_entries parse_entry parse_members text_at is_blank
    verdict_named reason_of is_guide is_confirm window_of same_tool find keys all_known
mail_validates = refl

-- a rule does not grant what it gates
gate_is_no_grant :
    validate same_text (record mail { mcp_tools = ("gmail", "read" ∷ []) ∷ [] })
    ≡ err rule_not_listed
unfolding validate check_memory check_asks check_servers rules rule_fault check_rules check_rule
    is_within all_of Dict.get parse_rules parse_entries parse_entry parse_members text_at is_blank
    verdict_named reason_of is_guide is_confirm window_of same_tool find keys all_known
gate_is_no_grant = refl

mail_asks : asked_tools same_text mail "gmail" ≡ ok ("read" ∷ "send" ∷ [])
unfolding asked_tools rules rule_fault gated is_gating Dict.get parse_rules parse_entries
    parse_entry parse_members text_at is_blank verdict_named reason_of is_guide is_confirm window_of
    same_tool find keys all_known
mail_asks = refl

mail_tools : Dict.get mail.mcp_tools "gmail" ≡ some ("read" ∷ "send" ∷ [])
unfolding Dict.get
mail_tools = refl

asked_tools-granted_example : all_of ("read" ∷ "send" ∷ []) ("read" ∷ "send" ∷ []) ≡ true
asked_tools-granted_example =
    asked_tools-granted same_text mail "gmail" ("read" ∷ "send" ∷ []) ("read" ∷ "send" ∷ [])
      mail_validates refl mail_tools mail_asks

abbrev hosted : ToolRegistry
hosted = record {
  tools =
      ("bothy_status", λ arguments. answered "calm")
      ∷ ("bothy_note", λ arguments. answered "recorded")
      ∷ [];
  gate = some (λ name arguments. allows);
}

abbrev unread : String → Option Json
unread s = none

status_runs :
    (call unread
      (select hosted ("bothy_status" ∷ "bothy_note" ∷ []) true false)
      "bothy_status"
      (dict no_members)).1
    ≡ true
unfolding call call_found behind_gate ask_gate run_tool select pick take_tool blocked arguments_of
    Dict.get Dict.set
status_runs = refl

a_note_is_kept_back :
    call unread
      (select hosted ("bothy_status" ∷ "bothy_note" ∷ []) true false)
      "bothy_note"
      (dict no_members)
    ≡ (not_given, false)
unfolding call call_found select pick take_tool blocked Dict.get Dict.set
a_note_is_kept_back = refl

call-select_example :
    (any (str_eq "bothy_status") ("bothy_status" ∷ "bothy_note" ∷ []) ≡ true)
    × (blocked (true && not false) "bothy_status" ≡ false)
    × (ask_gate hosted.gate "bothy_status" (dict no_members) ≡ allows)
call-select_example =
    call-select unread hosted ("bothy_status" ∷ "bothy_note" ∷ []) true false "bothy_status"
      (dict no_members) status_runs
