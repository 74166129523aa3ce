-- ===== src/Capability/Grants.antt =====
-- bothy/capability.py: a tool that must ask is one that is granted.
use bothy.Common.{
  and_true, String, Bool, true, false, Option, some, List, [], ◌∷◌, ◌++◌, ◌&&◌, str_eq, str_eq_iff,
  Result, ok, ◌>>◌, guard, if_elim, value_or, bind_ok, ok_injective, ◌≡◌, refl, sym, ap, ◌∙◌, subst,
}
use bothy.Dict
use bothy.Dict.{Dict}
use bothy.Policy.Rules.{ApprovalRule}
use bothy.Capability.Profile.{
  Profile, hosted_server, one_of, all_of, is_within, check_memory, check_asks, check_servers,
  check_rule, check_rules, rules, is_gating, gated, validate, asked_tools,
}

-- a check that has let a chain through
guard_ok {ℓ κ} :
    {E : Type ℓ} {B : Type κ} (b : Bool) (e : E) (rest : Result E B) (r : B)
    → (guard b e >> rest) ≡ ok r
    → (b ≡ true) × (rest ≡ ok r)
guard_ok true e rest r h = (refl, h)
guard_ok false e rest r h = cc

guard_alone {ℓ} : {E : Type ℓ} (b : Bool) (e : E) → guard b e ≡ ok tt → b ≡ true
guard_alone true e h = refl
guard_alone false e h = cc

all_of-append :
    (allowed xs ys : List String)
    → all_of allowed xs ≡ true
    → all_of allowed ys ≡ true
    → all_of allowed (xs ++ ys) ≡ true
unfolding all_of
all_of-append allowed [] ys a b = b
all_of-append allowed (x ∷ xs) ys a b =
    let (here, more) = and_true (one_of allowed x) (all_of allowed xs) a in
    rw here (all_of-append allowed xs ys more b)

module _ (p : Profile) (server : String) (allowed : List String)
    (listed : Dict.get p.mcp_tools server ≡ some allowed) where
  within_listed :
      (other : String) (ask : List String)
      → str_eq other server ≡ true
      → is_within ask (Dict.get p.mcp_tools other) ≡ true
      → all_of allowed ask ≡ true
  unfolding is_within
  within_listed other ask same inside =
      let e : other ≡ server = (str_eq_iff other server).0 same in
      let found : Dict.get p.mcp_tools other ≡ some allowed =
        ap (Dict.get p.mcp_tools) e ∙ listed in
      subst (λ o. is_within ask o ≡ true) found inside

  -- the tools that a server must ask about, by the profile's own list
  asks_within :
      (d : Dict (List String))
      → check_asks p d ≡ ok tt
      → all_of allowed (value_or (Dict.get d server) []) ≡ true
  unfolding check_asks Dict.get all_of
  asks_within [] h = refl
  asks_within ((other, ask) ∷ d) h =
      let (granted, rest) = guard_ok (one_of p.mcp_servers other) _ _ tt h in
      let (inside, more) = guard_ok (is_within ask (Dict.get p.mcp_tools other)) _ _ tt rest in
      if_elim (λ (o : Option (List String)). all_of allowed (value_or o []) ≡ true)
        (str_eq other server) _ _ (λ same. within_listed other ask same inside)
        (λ differs. asks_within d more)

  -- and by its rules
  rule_within :
      (r : ApprovalRule)
      → str_eq server hosted_server ≡ false
      → str_eq r.server server ≡ true
      → check_rule p r ≡ ok tt
      → one_of allowed r.tool ≡ true
  unfolding check_rule all_of
  rule_within r other same h =
      let e : server ≡ r.server = sym ((str_eq_iff r.server server).0 same) in
      let elsewhere : str_eq r.server hosted_server ≡ false =
        subst (λ s. str_eq s hosted_server ≡ false) e other in
      let h' = rw elsewhere at h in
      let (granted, rest) = guard_ok (one_of p.mcp_servers r.server) _ _ tt h' in
      let inside = guard_alone (is_within (r.tool ∷ []) (Dict.get p.mcp_tools r.server)) _ rest in
      (and_true (one_of allowed r.tool) true (within_listed r.server (r.tool ∷ []) same inside)).0

  rules_within :
      (rs : List ApprovalRule)
      → str_eq server hosted_server ≡ false
      → check_rules p rs ≡ ok tt
      → all_of allowed (gated server rs) ≡ true
  unfolding check_rules gated all_of
  rules_within [] other h = refl
  rules_within (r ∷ rs) other h =
      let (u, here, more) = bind_ok (check_rule p r) _ tt h in
      let rest = rules_within rs other more in
      if_elim (λ ts. all_of allowed ts ≡ true) (str_eq r.server server && is_gating r.verdict) _ _
        (λ gates. rw (rule_within r other (and_true _ _ gates).0 here) rest) (λ passes. rest)

-- In a profile that validates, a tool that must ask, by the profile's list or by a rule, is one of
-- the tools listed for its server, where the server has such a list and is not Bothy itself: gating a
-- tool never grants it.
pub asked_tools-granted :
    (strip : String → String) (p : Profile) (server : String) (allowed asked : List String)
    → validate strip p ≡ ok tt
    → str_eq server hosted_server ≡ false
    → Dict.get p.mcp_tools server ≡ some allowed
    → asked_tools strip p server ≡ ok asked
    → all_of allowed asked ≡ true
unfolding validate asked_tools
asked_tools-granted strip p server allowed asked h other listed e =
    let (u, name, h1) = bind_ok (check_memory p.memory p.name) _ tt h in
    let (v, asks, h2) = bind_ok (check_asks p p.mcp_ask) _ tt h1 in
    let (w, servers, h3) = bind_ok (check_servers p p.mcp_tools) _ tt h2 in
    let (rs, parsed, checked) = bind_ok (rules strip p) _ tt h3 in
    let (rs', parsed', e') = bind_ok (rules strip p) _ asked e in
    let same : rs ≡ rs' = ok_injective _ _ (sym parsed ∙ parsed') in
    let within_rules =
      subst (λ qs. all_of allowed (gated server qs) ≡ true) same
        (rules_within p server allowed listed rs other checked) in
    subst (λ ts. all_of allowed ts ≡ true) (ok_injective _ _ e')
      (all_of-append allowed (value_or (Dict.get p.mcp_ask server) []) (gated server rs')
        (asks_within p server allowed listed p.mcp_ask asks) within_rules)
