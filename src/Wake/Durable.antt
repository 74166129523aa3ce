-- ===== src/Wake/Durable.antt =====
-- bothy/wake.py: what an answer says of the queue, and a redelivery.
use bothy.Common.{
  String, Bool, true, false, Option, none, some, ◌≡◌, refl, ap, inl, inr, Bool-cases, Option-cases,
  ltb, str_eq, if◌then◌else◌,
}
use bothy.Dict
use bothy.Dict.{Dict}
use bothy.Json.{Json}
use bothy.RateLimit.Limiter
use bothy.Drove.Action.{Outcome, made, refused, assertion}
use bothy.Wake.Signature.{Reason}
use bothy.Wake.Server.{
  Route, Event, Request, Length, no_number, negative, bytes, Answer, rate_limited, forbidden,
  no_such_route, bad_length, too_large, unauthorized, duplicate, bad_json, unprocessable,
  not_persisted, no_answer, accepted, Outside, Server, Env, seen_before, persist, act_on, act,
  read_body, deliver, authenticate, if_signed, check_length, enter_route, forwarded, admit_route,
  do_post, max_body_bytes,
}

module _ {Q : Type 0} (out : Outside Q) where
  pair_at : (r : Q × Bool) (b : Bool) → r.1 ≡ b → r ≡ (r.0, b)
  pair_at r b h = ap (λ c. (r.0, c)) h

  -- what an answer says of the queue before and the server after
  abbrev pub Keeps : Q → Answer → Q → Type 0
  Keeps q (accepted id subject) q' =
      (e : Event) × (out.append_event q e ≡ (q', true) × (e.id ≡ id × e.subject ≡ subject))
  Keeps q (rate_limited n l) q' = q' ≡ q
  Keeps q forbidden q' = q' ≡ q
  Keeps q no_such_route q' = q' ≡ q
  Keeps q bad_length q' = q' ≡ q
  Keeps q too_large q' = q' ≡ q
  Keeps q unauthorized q' = q' ≡ q
  Keeps q duplicate q' = q' ≡ q
  Keeps q bad_json q' = q' ≡ q
  Keeps q unprocessable q' = q' ≡ q
  Keeps q not_persisted q' = (e : Event) × (out.append_event q e ≡ (q', false))
  Keeps q no_answer q' = q' ≡ q

  abbrev pub IsDurable : Q → Server Q × Answer → Type 0
  IsDurable q (s', a) = Keeps q a s'.queue

  persist-IsDurable : (s : Server Q) (e : Event) → IsDurable s.queue (persist out s e)
  unfolding persist
  persist-IsDurable s e =
      let after = record s { queue = (out.append_event s.queue e).0 } in
      elim (Bool-cases (out.append_event s.queue e).1) [
        | inl stored ↦ rw (stored, persist) (e, (pair_at _ true stored, (refl, refl)))
        | inr raised ↦ rw (raised, persist) (e, pair_at _ false raised)
      ]

  act_on-IsDurable :
      (s : Server Q) (env : Env) (r : Route) (key : Option String) (payload : Json)
      (peer : Option String) (o : Outcome)
      → IsDurable s.queue (act_on out s env r key payload peer o)
  unfolding act_on
  act_on-IsDurable s env r key payload peer (made a) = persist-IsDurable s _
  act_on-IsDurable s env r key payload peer (refused why) = refl
  act_on-IsDurable s env r key payload peer assertion = refl

  act-IsDurable :
      (s : Server Q) (env : Env) (r : Route) (key : Option String) (payload : Json)
      (peer : Option String) (d : Option Json)
      → IsDurable s.queue (act out s env (record r { drove = d }) key payload peer)
  unfolding act
  act-IsDurable s env r key payload peer none = persist-IsDurable s _
  act-IsDurable s env r key payload peer (some raw) =
      act_on-IsDurable s env (record r { drove = some raw }) key payload peer _

  read_body-IsDurable :
      (s : Server Q) (env : Env) (r : Route) (key : Option String) (body : String)
      (peer : Option String)
      → IsDurable s.queue (read_body out s env r key body peer)
  unfolding read_body
  read_body-IsDurable s env r key body peer = elim (Bool-cases (str_eq body "")) [
    | inl empty ↦ rw (empty, read_body) (act-IsDurable s env r key _ peer r.drove)
    | inr full ↦ elim (Option-cases (out.loads body)) [
      | inl junk ↦ rw (full, junk, read_body) refl
      | inr (v, parsed) ↦ rw (full, parsed, read_body) (act-IsDurable s env r key _ peer r.drove)
    ]
  ]

  deliver-IsDurable :
      (s : Server Q) (env : Env) (r : Route) (key : Option String) (body : String)
      (peer : Option String)
      → IsDurable s.queue (deliver out s env r key body peer)
  unfolding deliver
  deliver-IsDurable s env r none body peer = read_body-IsDurable s env r none body peer
  deliver-IsDurable s env r (some key) body peer =
      elim (Bool-cases (seen_before s.dedupe_ttl env.now s.seen key).1) [
        | inl known ↦ rw (known, deliver) refl
        | inr new ↦
            rw (new, deliver)
              (read_body-IsDurable
                (record s { seen = (seen_before s.dedupe_ttl env.now s.seen key).0 }) env r
                (some key) body peer)
      ]

  if_signed-IsDurable :
      (s : Server Q) (env : Env) (req : Request) (r : Route) (peer : Option String)
      (fault : Option Reason)
      → IsDurable s.queue (if_signed out s env req r peer fault)
  unfolding if_signed
  if_signed-IsDurable s env req r peer (some reason) = refl
  if_signed-IsDurable s env req r peer none = deliver-IsDurable s env r _ req.body peer

  check_length-IsDurable :
      (s : Server Q) (env : Env) (req : Request) (r : Route) (peer : Option String) (n : Length)
      → IsDurable s.queue (check_length out s env req r peer n)
  unfolding check_length authenticate
  check_length-IsDurable s env req r peer no_number = refl
  check_length-IsDurable s env req r peer negative = if_signed-IsDurable s env req r peer _
  check_length-IsDurable s env req r peer (bytes n) = elim (Bool-cases (ltb max_body_bytes n)) [
    | inl large ↦ rw (large, check_length) refl
    | inr fits ↦ rw (fits, check_length) (if_signed-IsDurable s env req r peer _)
  ]

  enter_route-IsDurable :
      (s : Server Q) (env : Env) (req : Request) (route : Option Route)
      (peer : Option (Option String))
      → IsDurable s.queue (enter_route out s env req route peer)
  unfolding enter_route
  enter_route-IsDurable s env req route none = refl
  enter_route-IsDurable s env req none (some peer) = refl
  enter_route-IsDurable s env req (some r) (some peer) =
      check_length-IsDurable s env req r peer req.length

  limited-IsDurable :
      (s : Server Q) (env : Env) (req : Request) (l : Option Limiter.RateLimiter)
      → IsDurable s.queue (do_post out (record s { limiter = l }) env req)
  unfolding do_post admit_route
  limited-IsDurable s env req none = enter_route-IsDurable (record s { limiter = none }) env req _ _
  limited-IsDurable s env req (some l) =
      let caller = if str_eq (forwarded out req) "" then req.hop else forwarded out req in
      elim (Bool-cases (Limiter.check l env.mono req.path caller).1.allowed) [
        | inl allowed ↦
            rw (allowed, do_post)
              (enter_route-IsDurable
                (record s { limiter = some (Limiter.check l env.mono req.path caller).0 }) env req _
                _)
        | inr held ↦ rw (held, do_post) refl
      ]

  -- A POST is answered as accepted only where the queue's append of an event with the answer's id and
  -- subject has returned, and the queue is what that append left. The answer that a wake could not be
  -- persisted comes only from an append that raised, with the queue that it left; and any other answer
  -- leaves the queue as it was.
  pub do_post-IsDurable :
      (s : Server Q) (env : Env) (req : Request) → IsDurable s.queue (do_post out s env req)
  do_post-IsDurable s env req = limited-IsDurable s env req s.limiter
