-- ===== src/Capability/Profile.antt =====
-- bothy/capability.py, Profile: the checks of a profile, and the tools that must ask.
use bothy.Common.{
  ℕ, String, Bool, true, false, Option, none, some, List, [], ◌∷◌, ◌++◌, ◌&&◌, ◌||◌, any, leb,
  length, str_eq, Result, ok, err, ◌>>=◌, ◌>>◌, guard, if◌then◌else◌, value_or, ◌==◌,
}
use bothy.Dict
use bothy.Dict.{Dict}
use bothy.Json.{Json}
use bothy.Text.{Chars, codes, is_digit, all_chars, within}
use bothy.Policy.Rules.{Verdict, proceed, ApprovalRule}
use bothy.Policy.Parse.{RuleError, parse_rules}

pub data Memory : Type 0 where
  off read write : Memory

-- the fields that grant or gate; a server's own table is copied to the worker's configuration
pub record Profile : Type 0 where
  pub name : String
  pub mcp_servers : List String
  pub mcp_tools : Dict (List String)
  pub mcp_ask : Dict (List String)
  pub tools : List String
  pub allow_from_untrusted : Bool
  pub memory : Memory
  pub approvals : Json

pub data ProfileError : Type 0 where
  bad_name ask_of_no_server ask_not_listed tools_of_no_server rule_of_no_server rule_not_listed :
      ProfileError
  bad_rule : RuleError → ProfileError

abbrev pub one_of : List String → String → Bool
one_of names s = any (str_eq s) names

unfoldable pub is_name_char : ℕ → Bool
is_name_char c = within b'a' b'z' c || is_digit c

-- [a-z0-9][a-z0-9_-]{0,63}
unfoldable pub is_memory_name : Chars → Bool
is_memory_name [] = false
is_memory_name (c ∷ cs) =
    is_name_char c
    && (all_chars (λ d. is_name_char d || d == b'_' || d == b'-') cs && leb (length cs) 63)

unfoldable pub check_memory : Memory → String → Result ProfileError (Unit {0})
check_memory off name = ok tt
check_memory _ name = guard (is_memory_name (codes name)) bad_name

unfoldable pub all_of : List String → List String → Bool
all_of allowed [] = true
all_of allowed (s ∷ ss) = one_of allowed s && all_of allowed ss

-- `set(ask) - set(allowed)` is empty, where there is a list
unfoldable pub is_within : List String → Option (List String) → Bool
is_within ask none = true
is_within ask (some allowed) = all_of allowed ask

unfoldable pub check_asks : Profile → Dict (List String) → Result ProfileError (Unit {0})
check_asks p [] = ok tt
check_asks p ((server, ask) ∷ d) = do
  guard (one_of p.mcp_servers server) ask_of_no_server
  guard (is_within ask (Dict.get p.mcp_tools server)) ask_not_listed
  check_asks p d

unfoldable pub check_servers : Profile → Dict (List String) → Result ProfileError (Unit {0})
check_servers p [] = ok tt
check_servers p ((server, allowed) ∷ d) = do
  guard (one_of p.mcp_servers server) tools_of_no_server
  check_servers p d

abbrev pub hosted_server : String
hosted_server = "bothy"

unfoldable pub check_rule : Profile → ApprovalRule → Result ProfileError (Unit {0})
check_rule p r =
    if str_eq r.server hosted_server
    then guard (one_of p.tools r.tool) rule_not_listed
    else guard (one_of p.mcp_servers r.server) rule_of_no_server
      >> guard (is_within (r.tool ∷ []) (Dict.get p.mcp_tools r.server)) rule_not_listed

unfoldable pub check_rules : Profile → List ApprovalRule → Result ProfileError (Unit {0})
check_rules p [] = ok tt
check_rules p (r ∷ rs) = check_rule p r >> check_rules p rs

unfoldable pub rule_fault :
    Result RuleError (List ApprovalRule) → Result ProfileError (List ApprovalRule)
rule_fault (ok rs) = ok rs
rule_fault (err e) = err (bad_rule e)

unfoldable pub is_gating : Verdict → Bool
is_gating proceed = false
is_gating _ = true

-- the tools of a server that a rule gates
unfoldable pub gated : String → List ApprovalRule → List String
gated server [] = []
gated server (r ∷ rs) =
    let rest = gated server rs in
    if str_eq r.server server && is_gating r.verdict then r.tool ∷ rest else rest

module _ (strip : String → String) where
  unfoldable pub rules : Profile → Result ProfileError (List ApprovalRule)
  rules p = rule_fault (parse_rules strip p.approvals)

  unfoldable pub validate : Profile → Result ProfileError (Unit {0})
  validate p = do
    check_memory p.memory p.name
    check_asks p p.mcp_ask
    check_servers p p.mcp_tools
    rs ← rules p
    check_rules p rs

  -- the tools that Codex must ask about, without the order and with repetitions
  unfoldable pub asked_tools : Profile → String → Result ProfileError (List String)
  asked_tools p server = do
    rs ← rules p
    ok (value_or (Dict.get p.mcp_ask server) [] ++ gated server rs)
