-- ===== src/Policy/Rules.antt =====
-- bothy/policy.py: the data of a decision, and `identify` and `evaluate`.
use bothy.Common.{
  ℕ, zero, suc, ◌-◌, String, str_append, Bool, true, false, Option, none, some, List, [], ◌∷◌, ◌&&◌,
  map, if◌then◌else◌, str_eq, leb, value_or,
}
use bothy.Dict.{Dict}
use bothy.Json.{
  Json, get, text, nothing, truth, number, list, dict, no_elements, element, no_members, member,
}
use bothy.Audit.Log.{Line, junk, foreign, entry, Body}

pub data Verdict : Type 0 where
  proceed deny guide confirm : Verdict

pub data Status : Type 0 where
  fine refused awaiting_human : Status

-- `unless_approved_within` in microseconds
pub record ApprovalRule : Type 0 where
  pub server : String
  pub tool : String
  pub verdict : Verdict
  pub reason : String
  pub unless_approved_within : Option ℕ

-- no log handed over, one that cannot be read, or one with these lines
pub data AuditView : Type 0 where
  absent unreadable : AuditView
  readable : List Line → AuditView

pub record Facts : Type 0 where
  pub rules : List ApprovalRule
  pub mcp_ask : Dict (List String)
  pub audit : AuditView
  pub now : ℕ

pub record ApprovalDecision : Type 0 where
  pub verdict : Verdict
  pub reason : String
  pub rule : String
  pub status : Status
  pub method : String
  pub server : String
  pub tool : String
  pub gated : Bool

-- What the code takes from Python: `in` on strings, the regular expression for a quoted tool name,
-- `str` of a value that is no string, an age in whole seconds as text, and the instant, in
-- microseconds, that a time stamp with a zone names.
pub record Python : Type 0 where
  pub contains : String → String → Bool
  pub quoted_tool : String → Option String
  pub shown : Json → String
  pub seconds : ℕ → String
  pub instant : String → Option ℕ

abbrev pub hosted_method : String
hosted_method = "item/tool/call"

abbrev pub elicitation : String
elicitation = "mcpServer/elicitation/request"

abbrev pub permissions : String
permissions = "item/permissions/requestApproval"

abbrev pub label : String → String → String
label server tool = str_append server (str_append "." tool)

abbrev pub get_or_nothing : Json → String → Json
get_or_nothing v k = value_or (get v k) nothing

-- the first non-empty string of one container under the keys
unfoldable pub first_text : List String → Json → String
first_text [] c = ""
first_text (k ∷ ks) c =
    let rest = first_text ks c in
    elim (get c k) [ some (text s) ↦ if str_eq s "" then rest else s | _ ↦ rest ]

unfoldable pub dig : List String → List Json → String
dig keys [] = ""
dig keys (c ∷ cs) =
    let rest = dig keys cs in let here = first_text keys c in if str_eq here "" then rest else here

unfoldable pub is_text : Option Json → String → Bool
is_text (some (text s)) t = str_eq s t
is_text _ t = false

unfoldable pub mcp_tool_approval : Json → Bool
mcp_tool_approval params =
    is_text (get (get_or_nothing params "_meta") "codex_approval_kind") "mcp_tool_call"

abbrev pub nests : Json → List Json
nests params =
    params
    ∷ map (get_or_nothing params)
        ("item" ∷ "invocation" ∷ "call" ∷ "toolCall" ∷ "request" ∷ "_meta" ∷ [])

-- str(value or "")
unfoldable pub str_or_empty : (Json → String) → Json → String
str_or_empty shown (text s) = s
str_or_empty shown nothing = ""
str_or_empty shown (truth false) = ""
str_or_empty shown (truth true) = shown (truth true)
str_or_empty shown (number zero) = ""
str_or_empty shown (number (suc n)) = shown (number (suc n))
str_or_empty shown (list no_elements) = ""
str_or_empty shown (list (element v vs)) = shown (list (element v vs))
str_or_empty shown (dict no_members) = ""
str_or_empty shown (dict (member k v ms)) = shown (dict (member k v ms))

unfoldable pub hosted_tool : Python → Json → String
hosted_tool py params = str_or_empty py.shown (get_or_nothing params "tool")

unfoldable pub elicited_tool : Python → Json → String
elicited_tool py params =
    let named = dig ("tool_name" ∷ "tool_title" ∷ []) (get_or_nothing params "_meta" ∷ []) in
    let quoted : String = elim (get params "message") [
      | some (text s) ↦ value_or (py.quoted_tool s) ""
      | _ ↦ ""
    ] in
    if str_eq named "" then quoted else named

unfoldable pub identify : Python → String → Json → String × String
identify py method params =
    if str_eq method hosted_method
    then ("bothy", hosted_tool py params)
    else if str_eq method elicitation
    then (
      dig ("serverName" ∷ []) (params ∷ []),
      if mcp_tool_approval params then elicited_tool py params else "",
    )
    else (
      dig ("server" ∷ "serverName" ∷ "server_name" ∷ "mcpServer" ∷ "mcp_server" ∷ [])
          (nests params),
      dig ("tool" ∷ "toolName" ∷ "tool_name" ∷ []) (nests params),
    )

unfoldable pub is_approval : String → String → Body → Bool
is_approval server tool b =
    str_eq b.kind "interrupt"
    && (str_eq b.action "answered"
        && (is_text (get b.data_field "decision") "approve"
            && (is_text (get b.data_field "server") server
                && is_text (get b.data_field "tool") tool)))

-- how long ago a record was written, unless it is dated in the future or names no instant
unfoldable pub age : Python → ℕ → Body → Option ℕ
age py now b = elim (py.instant b.ts) [
  | none ↦ none
  | some at ↦ if leb at now then some (now - at) else none
]

-- one turn of the loop of `_human_approved_age`
unfoldable pub newer : Python → String → String → ℕ → Option ℕ → Line → Option ℕ
newer py server tool now newest (entry r) =
    if is_approval server tool r.body
    then elim (age py now r.body) [ some a ↦ some a | none ↦ newest ]
    else newest
newer py server tool now newest junk = newest
newer py server tool now newest foreign = newest

unfoldable pub approved_age : Python → String → String → ℕ → Option ℕ → List Line → Option ℕ
approved_age py server tool now newest [] = newest
approved_age py server tool now newest (l ∷ ls) =
    approved_age py server tool now (newer py server tool now newest l) ls

unfoldable pub find_rule : List ApprovalRule → String → String → Option ApprovalRule
find_rule [] server tool = none
find_rule (r ∷ rs) server tool =
    let rest = find_rule rs server tool in
    if str_eq r.server server && str_eq r.tool tool then some r else rest

-- `next(…) if tool else None`
unfoldable pub rule_for : Facts → String → String → Option ApprovalRule
rule_for facts server tool =
    let found = find_rule facts.rules server tool in if str_eq tool "" then none else found
