-- ===== src/Policy/Decision.antt =====
-- bothy/policy.py, evaluate: the ladder of tests, and that only a stated ground lets a call proceed.
use bothy.Common.{
  arith, ℕ, ◌≤◌, String, str_append, Bool, true, false, Option, none, some, List, [], ◌≡◌, refl,
  inl, inr, ◌⊎◌, Bool-cases, Option-cases, any, if◌then◌else◌, str_eq, str_eq_iff, leb, leb→le,
  value_or, not, ◌&&◌,
}
use bothy.Dict
use bothy.Json.{Json}
use bothy.Audit.Log.{Line}
use bothy.Policy.Rules.{
  Verdict, proceed, deny, guide, confirm, Status, fine, refused, awaiting_human, ApprovalRule,
  AuditView, absent, unreadable, readable, Facts, ApprovalDecision, Python, hosted_method,
  elicitation, permissions, label, mcp_tool_approval, identify, approved_age, rule_for,
}
use bothy.Policy.Evidence.{ApprovesAt, Within, approved_age-Within}

-- ApprovalDecision(verdict, reason, rule, status, gated=gated, **base)
abbrev pub decision :
    String → String × String → Bool → Verdict → String → String → Status → ApprovalDecision
decision method named gated verdict reason rule status = record {
  verdict = verdict;
  reason = reason;
  rule = rule;
  status = status;
  method = method;
  server = named.0;
  tool = named.1;
  gated = gated;
}

module _ (py : Python) where
  -- where no rule matches
  unfoldable pub without_rule : String → String × String → Bool → ApprovalDecision
  without_rule method named gated =
      if str_eq method hosted_method
      then decision method named false proceed "" "default" fine
      else if gated
      then decision method named true deny
          (str_append (label named.0 named.1)
            " is pinned to ask for approval and no approvals rule allows it")
          "mcp_ask" refused
      else decision method named false deny
          (if py.contains "requestApproval" method
            then str_append "no approval policy configured for " method
            else str_append method " is not a request Bothy answers")
          "default" refused

  unfoldable pub awaiting : String → String × String → Bool → ApprovalRule → ApprovalDecision
  awaiting method named gated r =
      decision method named gated confirm
        (if str_eq r.reason ""
          then "awaiting human confirmation"
          else str_append "awaiting human confirmation: " r.reason)
        (label r.server r.tool) awaiting_human

  unfoldable pub no_evidence : String → String × String → Bool → ApprovalRule → ApprovalDecision
  no_evidence method named gated r =
      decision method named gated deny
        "the audit log could not be read, so a human approval cannot be confirmed"
        (label r.server r.tool) refused

  -- a confirm rule with a window
  unfoldable pub windowed :
      Facts → String → String × String → Bool → ApprovalRule → ℕ → ApprovalDecision
  windowed facts method named gated r window = elim facts.audit [
    | absent ↦ no_evidence method named gated r
    | unreadable ↦ no_evidence method named gated r
    | readable ls ↦ elim (approved_age py named.0 named.1 facts.now none ls) [
      | none ↦ awaiting method named gated r
      | some a ↦
          if leb a window
          then decision method named gated proceed
              (str_append "approved by a human " (py.seconds a)) (label r.server r.tool) fine
          else awaiting method named gated r
    ]
  ]

  unfoldable pub by_rule : Facts → String → String × String → Bool → ApprovalRule → ApprovalDecision
  by_rule facts method named gated r = elim r.verdict [
    | proceed ↦ decision method named gated proceed r.reason (label r.server r.tool) fine
    | deny ↦
        decision method named gated deny
          (if str_eq r.reason ""
            then str_append (label r.server r.tool) " is denied by policy"
            else r.reason)
          (label r.server r.tool) refused
    | guide ↦ decision method named gated guide r.reason (label r.server r.tool) refused
    | confirm ↦ elim r.unless_approved_within [
      | none ↦ awaiting method named gated r
      | some window ↦ windowed facts method named gated r window
    ]
  ]

  unfoldable pub evaluate : String → Json → Facts → ApprovalDecision
  evaluate method params facts =
      let named = identify py method params in
      let gated = any (λ t. str_eq t named.1) (value_or (Dict.get facts.mcp_ask named.0) []) in
      if str_eq method permissions
      then decision method named false deny "Bothy does not grant additional permissions" "default"
          refused
      else if str_eq method elicitation && not (mcp_tool_approval params)
      then decision method named false deny "MCP forms and URL elicitations are unsupported"
          "default" refused
      else elim (rule_for facts named.0 named.1) [
        | none ↦ without_rule method named gated
        | some r ↦ by_rule facts method named gated r
      ]

  -- what a window's approval rests on
  abbrev pub Approved : AuditView → ℕ → String × String → ℕ → Type 0
  Approved view now named window =
      (a : ℕ) × ((ls : List Line) × (view ≡ readable ls
          × (a ≤ window × Within (ApprovesAt py named.0 named.1 now a) ls)))

  windowed-proceed :
      (facts : Facts) (view : AuditView) (method : String) (named : String × String) (gated : Bool)
      (r : ApprovalRule) (window : ℕ)
      → (windowed (record facts { audit = view }) method named gated r window).verdict ≡ proceed
      → Approved view facts.now named window
  unfolding windowed awaiting no_evidence
  windowed-proceed facts absent method named gated r window h = cc
  windowed-proceed facts unreadable method named gated r window h = cc
  windowed-proceed facts (readable ls) method named gated r window h =
      elim (Option-cases (approved_age py named.0 named.1 facts.now none ls)) [
        | inl none_yet ↦ let g = rw (none_yet, windowed) at h in cc
        | inr (a, found) ↦ elim (Bool-cases (leb a window)) [
          | inl recent ↦ (
            a,
            (
              ls,
              (
                refl,
                (
                  leb→le a window recent,
                  approved_age-Within py named.0 named.1 facts.now ls a found,
                ),
              ),
            ),
          )
          | inr old ↦ let g = rw (found, windowed, old) at h in cc
        ]
      ]

  abbrev pub Allows : Facts → String × String → ApprovalRule → Type 0
  Allows facts named r =
      (r.verdict ≡ proceed)
      ⊎ (r.verdict ≡ confirm
          × ((window : ℕ) × (r.unless_approved_within ≡ some window
                × Approved facts.audit facts.now named window)))

  by_rule-proceed :
      (facts : Facts) (method : String) (named : String × String) (gated : Bool) (r : ApprovalRule)
      (v : Verdict) (w : Option ℕ)
      → (by_rule facts method named gated
          (record r { verdict = v; unless_approved_within = w })).verdict
        ≡ proceed
      → Allows facts named (record r { verdict = v; unless_approved_within = w })
  unfolding by_rule awaiting
  by_rule-proceed facts method named gated r proceed w h = inl refl
  by_rule-proceed facts method named gated r deny w h = cc
  by_rule-proceed facts method named gated r guide w h = cc
  by_rule-proceed facts method named gated r confirm none h = cc
  by_rule-proceed facts method named gated r confirm (some window) h = inr (
    refl,
    (
      window,
      (
        refl,
        windowed-proceed facts facts.audit method named gated
            (record r { verdict = confirm; unless_approved_within = some window }) window h,
      ),
    ),
  )

  without_rule-proceed :
      (method : String) (named : String × String) (gated : Bool)
      → (without_rule method named gated).verdict ≡ proceed
      → method ≡ hosted_method
  unfolding without_rule
  without_rule-proceed method named gated h = elim (Bool-cases (str_eq method hosted_method)) [
    | inl hosted ↦ (str_eq_iff method hosted_method).0 hosted
    | inr other ↦ elim (Bool-cases gated) [
      | inl asked ↦ let g = rw (other, asked) at h in cc
      | inr free ↦ let g = rw (other, free) at h in cc
    ]
  ]

  -- A request proceeds only if it is for a tool that Bothy hosts and that no rule is about, or the
  -- first rule about the tool says so, or that rule asks for confirmation within a time and the audit
  -- log can be read and has a human's approval of this tool in it that is no older.
  pub evaluate-proceed :
      (method : String) (params : Json) (facts : Facts)
      → (evaluate method params facts).verdict ≡ proceed
      → (method ≡ hosted_method
          × rule_for facts (identify py method params).0 (identify py method params).1 ≡ none)
        ⊎ ((r : ApprovalRule) × (rule_for facts
                  (identify py method params).0
                  (identify py method params).1
                ≡ some r
              × Allows facts (identify py method params) r))
  unfolding evaluate
  evaluate-proceed method params facts h =
      let named = identify py method params in
      elim (Bool-cases (str_eq method permissions)) [
        | inl asks ↦ let g = rw asks at h in cc
        | inr other ↦
            elim (Bool-cases (str_eq method elicitation && not (mcp_tool_approval params))) [
              | inl form ↦ let g = rw (other, form) at h in cc
              | inr call ↦ elim (Option-cases (rule_for facts named.0 named.1)) [
                | inl unruled ↦
                    let g = rw (other, call, unruled) at h in
                    inl (without_rule-proceed method named _ g, unruled)
                | inr (r, ruled) ↦
                    let g = rw (other, call, ruled) at h in
                    inr (
                      r,
                      (
                        ruled,
                        by_rule-proceed facts method named _ r r.verdict r.unless_approved_within g,
                      ),
                    )
              ]
            ]
      ]

  -- the audit status that goes with a verdict
  abbrev pub status_of : Verdict → Status
  status_of proceed = fine
  status_of deny = refused
  status_of guide = refused
  status_of confirm = awaiting_human

  windowed-status :
      (facts : Facts) (view : AuditView) (method : String) (named : String × String) (gated : Bool)
      (r : ApprovalRule) (window : ℕ)
      → (let d = windowed (record facts { audit = view }) method named gated r window in
          d.status ≡ status_of d.verdict)
  unfolding windowed awaiting no_evidence
  windowed-status facts absent method named gated r window = refl
  windowed-status facts unreadable method named gated r window = refl
  windowed-status facts (readable ls) method named gated r window = ground arith

  by_rule-status :
      (facts : Facts) (method : String) (named : String × String) (gated : Bool) (r : ApprovalRule)
      (v : Verdict) (w : Option ℕ)
      → (let d =
            by_rule facts method named gated
              (record r { verdict = v; unless_approved_within = w }) in
          d.status ≡ status_of d.verdict)
  unfolding by_rule awaiting
  by_rule-status facts method named gated r proceed w = refl
  by_rule-status facts method named gated r deny w = refl
  by_rule-status facts method named gated r guide w = refl
  by_rule-status facts method named gated r confirm none = refl
  by_rule-status facts method named gated r confirm (some window) =
      windowed-status facts facts.audit method named gated
        (record r { verdict = confirm; unless_approved_within = some window }) window

  without_rule-status :
      (method : String) (named : String × String) (gated : Bool)
      → (without_rule method named gated).status
        ≡ status_of (without_rule method named gated).verdict
  unfolding without_rule
  without_rule-status method named gated = ground arith

  ladder-status :
      (facts : Facts) (method : String) (named : String × String) (gated : Bool)
      (o : Option ApprovalRule)
      → (let d : ApprovalDecision = elim o [
        | none ↦ without_rule method named gated
        | some r ↦ by_rule facts method named gated r
      ] in
          d.status ≡ status_of d.verdict)
  ladder-status facts method named gated none = without_rule-status method named gated
  ladder-status facts method named gated (some r) =
      by_rule-status facts method named gated r r.verdict r.unless_approved_within

  -- Every answer's audit status is the one of its verdict: only a call that proceeds is recorded as
  -- fine, and only one that asks for confirmation as awaiting a human.
  pub evaluate-status :
      (method : String) (params : Json) (facts : Facts)
      → (evaluate method params facts).status ≡ status_of (evaluate method params facts).verdict
  unfolding evaluate
  evaluate-status method params facts = elim (Bool-cases (str_eq method permissions)) [
    | inl asks ↦ rw asks refl
    | inr other ↦ elim (Bool-cases (str_eq method elicitation && not (mcp_tool_approval params))) [
      | inl form ↦ rw (other, form) refl
      | inr call ↦
          rw (other, call)
            (ladder-status facts method (identify py method params) _
              (rule_for facts (identify py method params).0 (identify py method params).1))
    ]
  ]
