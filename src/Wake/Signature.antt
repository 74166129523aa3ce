-- ===== src/Wake/Signature.antt =====
-- bothy/wake.py, verify_signature. A body and a secret are strings; what Python's library answers is
-- a parameter.
use bothy.Common.{
  ℕ, String, str_append, Option, none, some, List, [], ◌∷◌, ◌++◌, any, ltb, value_or, if◌then◌else◌,
  str_eq,
}

-- The HMAC as hex digits; `json.dumps(json.loads(body))` in canonical form, if the body is JSON;
-- `str.strip`; what is left behind a prefix; and how far a time stamp is from now, in microseconds.
pub record Crypto : Type 0 where
  pub hmac : String → String → String
  pub canonical : String → Option String
  pub strip : String → String
  pub behind : String → String → Option String
  pub skew : String → Option ℕ

pub data Reason : Type 0 where
  missing_signature unparseable_timestamp stale_timestamp mismatch : Reason

unfoldable pub canonical_candidate : Crypto → String → String → List String
canonical_candidate c secret body = elim (c.canonical body) [
  | none ↦ []
  | some form ↦ if str_eq form body then [] else c.hmac secret form ∷ []
]

-- `if timestamp`: an empty one adds no scheme
unfoldable pub stamped_candidates :
    Crypto → String → String → Option String → Option String → List String
stamped_candidates c secret body none event_id = []
stamped_candidates c secret body (some t) event_id =
    let signed = str_append t (str_append "." body) in
    if str_eq t ""
    then []
    else c.hmac secret (str_append (value_or event_id "") (str_append "." signed))
      ∷ c.hmac secret signed
      ∷ []

unfoldable pub candidates : Crypto → String → String → Option String → Option String → List String
candidates c secret body timestamp event_id =
    c.hmac secret body ∷ canonical_candidate c secret body
    ++ stamped_candidates c secret body timestamp event_id

unfoldable pub presented : Crypto → String → String
presented c signature =
    let drop_prefix = λ (s : String) (prefix : String). value_or (c.behind prefix s) s in
    c.strip (drop_prefix (drop_prefix (drop_prefix (c.strip signature) "sha256=") "v1,") "v1=")

-- `None` is a time stamp that passes
unfoldable pub timestamp_fault : Crypto → ℕ → Option String → Option Reason
timestamp_fault c max_skew none = none
timestamp_fault c max_skew (some t) = elim (c.skew t) [
  | none ↦ some unparseable_timestamp
  | some away ↦ if ltb max_skew away then some stale_timestamp else none
]

-- `None` is a signature that holds
unfoldable pub verify_signature :
    Crypto → String → String → Option String → Option String → Option String → ℕ → Option Reason
verify_signature c secret body none timestamp event_id max_skew = some missing_signature
verify_signature c secret body (some signature) timestamp event_id max_skew =
    if str_eq signature ""
    then some missing_signature
    else elim (timestamp_fault c max_skew timestamp) [
      | some fault ↦ some fault
      | none ↦
          if any (str_eq (presented c signature)) (candidates c secret body timestamp event_id)
          then none
          else some mismatch
    ]
