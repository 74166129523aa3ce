-- ===== src/Wake/Server.antt =====
-- bothy/wake.py: WakeStore's replay record, and the handler of a POST.
use bothy.Common.{
  ℕ, ◌+◌, String, str_append, Bool, true, false, Option, none, some, List, [], ◌∷◌, ltb, leb,
  filter, value_or, if◌then◌else◌, str_eq, ◌||◌, not,
}
use bothy.Dict
use bothy.Dict.{Dict}
use bothy.Json.{
  Json, get, dict, list, text, number, truth, nothing, member, no_members, no_elements, element,
}
use bothy.RateLimit.Limiter
use bothy.RateLimit.Limiter.{RateLimiter, Limit}
use bothy.Drove.Action.{Outcome, made, refused, assertion, resolve_action, as_dict}
use bothy.Wake.Signature.{Crypto, Reason, verify_signature}

pub record Route : Type 0 where
  pub path : String
  pub secret : String
  pub subject_from : Option (List String)
  pub subject_prefix : String
  pub profile : Option String
  pub is_public : Bool
  pub signature_header : String
  pub timestamp_header : String
  pub drove : Option Json
  pub delivery_headers : List String

pub record Event : Type 0 where
  pub id : String
  pub received_at : ℕ
  pub route : String
  pub subject : String
  pub delivery_key : Option String
  pub payload : Json
  pub peer : Option String
  pub profile : Option String
  pub drove : Option Json

-- int(self.headers.get("Content-Length") or 0)
pub data Length : Type 0 where
  no_number negative : Length
  bytes : ℕ → Length

-- `body` is what `rfile.read` gives for the length
pub record Request : Type 0 where
  pub path : String
  pub headers : Dict String
  pub hop : String
  pub length : Length
  pub body : String

pub data Answer : Type 0 where
  rate_limited : ℕ → Limit → Answer
  forbidden no_such_route bad_length too_large unauthorized duplicate : Answer
  bad_json unprocessable not_persisted no_answer : Answer
  accepted : String → String → Answer

abbrev pub max_body_bytes : ℕ
max_body_bytes = 1000000

-- the truth of a JSON value
unfoldable pub is_truthy : Json → Bool
is_truthy nothing = false
is_truthy (truth b) = b
is_truthy (number n) = ltb 0 n
is_truthy (text s) = not (str_eq s "")
is_truthy (list no_elements) = false
is_truthy (list (element v vs)) = true
is_truthy (dict no_members) = false
is_truthy (dict (member k v ms)) = true

-- one part of `subject_from`: none where the cursor is no object
unfoldable pub down : Json → String → Option Json
down (dict ms) part = some (value_or (get (dict ms) part) nothing)
down (list vs) part = none
down (text s) part = none
down (number n) part = none
down (truth b) part = none
down nothing part = none

unfoldable pub descend : Json → List String → Option Json
descend v [] = some v
descend v (part ∷ parts) = elim (down v part) [ none ↦ none | some w ↦ descend w parts ]

-- the text of a value, where it is no string, is Python's `str`
unfoldable pub text_of : (Json → String) → Json → String
text_of shown (text s) = s
text_of shown nothing = shown nothing
text_of shown (truth b) = shown (truth b)
text_of shown (number n) = shown (number n)
text_of shown (list vs) = shown (list vs)
text_of shown (dict ms) = shown (dict ms)

unfoldable pub subject : (Json → String) → Route → Json → String → String
subject shown r payload fallback = elim r.subject_from [
  | none ↦ str_append r.subject_prefix fallback
  | some parts ↦ elim (descend payload parts) [
    | none ↦ str_append r.subject_prefix fallback
    | some v ↦ str_append r.subject_prefix (if is_truthy v then text_of shown v else fallback)
  ]
]

-- the record of delivery keys; a key that was used is recorded with its instant
unfoldable pub seen_before : ℕ → ℕ → Dict ℕ → String → Dict ℕ × Bool
seen_before ttl now seen key = elim (Dict.get seen key) [
  | some at ↦ (seen, true)
  | none ↦ (filter (λ row. leb now (row.1 + ttl)) (Dict.set seen key now), false)
]

unfoldable pub delivery_key : Route → Dict String → List String → Option String
delivery_key r headers [] = none
delivery_key r headers (h ∷ hs) =
    let rest = delivery_key r headers hs in
    elim (Dict.get headers h) [
      | none ↦ rest
      | some v ↦ if str_eq v "" then rest else some (str_append r.path (str_append ":" v))
    ]

abbrev pub non_empty : Option String → Option String
non_empty none = none
non_empty (some s) = if str_eq s "" then none else some s

-- `payload = {"value": payload}` where it is no object
unfoldable pub as_object : Json → Json
as_object (dict ms) = dict ms
as_object nothing = dict (member "value" nothing no_members)
as_object (truth b) = dict (member "value" (truth b) no_members)
as_object (number n) = dict (member "value" (number n) no_members)
as_object (text s) = dict (member "value" (text s) no_members)
as_object (list vs) = dict (member "value" (list vs) no_members)

-- What stands outside: the library calls of the signature, `json.loads`, `str`, the parts of a dotted
-- path, the peer that bothy/tailnet.py finds behind a forwarded address, and the vendored queue's
-- append, with what it leaves of the queue and whether it returned: an append that raises may have
-- written the event or not.
pub record Outside (Q : Type 0) : Type 0 where
  pub crypto : Crypto
  pub loads : String → Option Json
  pub shown : Json → String
  pub first_forwarded : String → String
  pub tailnet_peer : String → Option String
  pub dotted : String → List String
  pub append_event : Q → Event → Q × Bool

pub record Server (Q : Type 0) : Type 0 where
  pub routes : Dict Route
  pub limiter : Option RateLimiter
  pub require_tailnet : Bool
  pub max_skew : ℕ
  pub dedupe_ttl : ℕ
  pub seen : Dict ℕ
  pub queue : Q

-- one reading of the clocks and one fresh id for a request
pub record Env : Type 0 where
  pub mono : ℕ
  pub now : ℕ
  pub wake_id : String

abbrev pub is_loopback : String → Bool
is_loopback a = str_eq a "127.0.0.1" || str_eq a "::1"

module _ {Q : Type 0} (out : Outside Q) where
  abbrev pub forwarded : Request → String
  forwarded req = out.first_forwarded (value_or (Dict.get req.headers "X-Forwarded-For") "")

  -- `_peer`: none raises TailnetError
  unfoldable pub peer_of : Server Q → Request → Option Route → Option (Option String)
  peer_of s req route =
      let funnelled = not (
        str_eq (out.crypto.strip (value_or (Dict.get req.headers "Tailscale-Funnel-Request") ""))
          "") in
      let unguarded : Bool = elim route [ none ↦ false | some r ↦ r.is_public ] in
      if unguarded
      then some none
      else if funnelled
      then none
      else if not s.require_tailnet
      then some none
      else if not (is_loopback req.hop)
      then none
      else if str_eq (forwarded req) "" || is_loopback (forwarded req)
      then none
      else elim (out.tailnet_peer (forwarded req)) [ none ↦ none | some p ↦ some (some p) ]

  unfoldable pub persist : Server Q → Event → Server Q × Answer
  persist s e =
      let (q, stored) = out.append_event s.queue e in
      (record s { queue = q }, if stored then accepted e.id e.subject else not_persisted)

  abbrev pub event : Env → Route → Option String → Json → Option String → Option Json → Event
  event env r key payload peer drove = record {
    id = env.wake_id;
    received_at = env.now;
    route = r.path;
    subject = subject out.shown r payload env.wake_id;
    delivery_key = key;
    payload = payload;
    peer = peer;
    profile = r.profile;
    drove = drove;
  }

  -- with the answer of resolve_action, whose failed assertion ends the handler without an answer
  unfoldable pub act_on :
      Server Q → Env → Route → Option String → Json → Option String → Outcome → Server Q × Answer
  act_on s env r key payload peer (made action) =
      persist s (event env r key payload peer (some (as_dict action)))
  act_on s env r key payload peer (refused why) = (s, unprocessable)
  act_on s env r key payload peer assertion = (s, no_answer)

  unfoldable pub act :
      Server Q → Env → Route → Option String → Json → Option String → Server Q × Answer
  act s env r key payload peer = elim r.drove [
    | none ↦ persist s (event env r key payload peer none)
    | some raw ↦ act_on s env r key payload peer (resolve_action out.dotted raw payload)
  ]

  -- from the body on
  unfoldable pub read_body :
      Server Q → Env → Route → Option String → String → Option String → Server Q × Answer
  read_body s env r key body peer =
      let parsed = if str_eq body "" then some (dict no_members) else out.loads body in
      elim parsed [ none ↦ (s, bad_json) | some payload ↦ act s env r key (as_object payload) peer ]

  -- behind the signature: the replay check
  unfoldable pub deliver :
      Server Q → Env → Route → Option String → String → Option String → Server Q × Answer
  deliver s env r none body peer = read_body s env r none body peer
  deliver s env r (some key) body peer =
      let (seen, known) = seen_before s.dedupe_ttl env.now s.seen key in
      if known
      then (s, duplicate)
      else read_body (record s { seen = seen }) env r (some key) body peer

  unfoldable pub if_signed :
      Server Q → Env → Request → Route → Option String → Option Reason → Server Q × Answer
  if_signed s env req r peer (some reason) = (s, unauthorized)
  if_signed s env req r peer none =
      deliver s env r (delivery_key r req.headers r.delivery_headers) req.body peer

  -- `headers.get("svix-id") or headers.get("X-Webhook-Delivery-Id")`
  unfoldable pub event_id : Request → Option String
  event_id req = elim (non_empty (Dict.get req.headers "svix-id")) [
    | some i ↦ some i
    | none ↦ Dict.get req.headers "X-Webhook-Delivery-Id"
  ]

  -- the answer of verify_signature on the route's headers
  unfoldable pub signature_fault : Server Q → Request → Route → Option Reason
  signature_fault s req r =
      let header = λ (h : String). Dict.get req.headers h in
      verify_signature out.crypto r.secret req.body (header r.signature_header)
        (header r.timestamp_header) (event_id req) s.max_skew

  unfoldable pub authenticate : Server Q → Env → Request → Route → Option String → Server Q × Answer
  authenticate s env req r peer = if_signed s env req r peer (signature_fault s req r)

  -- a negative length passes the test of the bound
  unfoldable pub check_length :
      Server Q → Env → Request → Route → Option String → Length → Server Q × Answer
  check_length s env req r peer no_number = (s, bad_length)
  check_length s env req r peer negative = authenticate s env req r peer
  check_length s env req r peer (bytes n) =
      if ltb max_body_bytes n then (s, too_large) else authenticate s env req r peer

  -- behind the peer's check, whose refusal comes before that of an unknown route
  unfoldable pub enter_route :
      Server Q → Env → Request → Option Route → Option (Option String) → Server Q × Answer
  enter_route s env req route none = (s, forbidden)
  enter_route s env req none (some peer) = (s, no_such_route)
  enter_route s env req (some r) (some peer) = check_length s env req r peer req.length

  unfoldable pub admit_route : Server Q → Env → Request → Server Q × Answer
  admit_route s env req =
      let route = Dict.get s.routes req.path in enter_route s env req route (peer_of s req route)

  unfoldable pub do_post : Server Q → Env → Request → Server Q × Answer
  do_post s env req =
      let caller = if str_eq (forwarded req) "" then req.hop else forwarded req in
      elim s.limiter [
        | none ↦ admit_route s env req
        | some l ↦
            let (l', v) = Limiter.check l env.mono req.path caller in
            if v.allowed
            then admit_route (record s { limiter = some l' }) env req
            else (record s { limiter = some l' }, rate_limited v.retry_after v.which)
      ]
