-- ===== src/Wake/Examples.antt =====
-- bothy/wake.py: requests to a small server, and instances of the theorems.
use bothy.Common.{◌≡◌, refl, String, str_append, true, false, none, some, List, [], ◌∷◌}
use bothy.Dict
use bothy.Dict.{Dict}
use bothy.Json.{dict, no_members}
use bothy.Wake.Signature.{
  Crypto, verify_signature, candidates, canonical_candidate, stamped_candidates, presented,
  timestamp_fault,
}
use bothy.Wake.Server.{
  Route, Event, Request, bytes, unauthorized, not_persisted, Outside, Server, Env, do_post, deliver,
  peer_of, delivery_key, seen_before, admit_route, enter_route, check_length, authenticate,
  signature_fault, event_id, if_signed, read_body, act, persist, as_object, subject,
}
use bothy.Wake.Durable.{IsDurable, do_post-IsDurable}

abbrev toy_crypto : Crypto
toy_crypto = record {
  hmac = str_append;
  canonical = λ body. none;
  strip = λ s. s;
  behind = λ prefix s. none;
  skew = λ t. none;
}

-- a queue with room for one event, whose append writes another and raises
abbrev outside : Outside (List Event)
outside = record {
  crypto = toy_crypto;
  loads = λ body. some (dict no_members);
  shown = λ v. "?";
  first_forwarded = λ header. "";
  tailnet_peer = λ address. none;
  dotted = λ path. path ∷ [];
  append_event = λ q e. elim q [ [] ↦ (e ∷ [], true) | x ∷ xs ↦ (e ∷ x ∷ xs, false) ];
}

abbrev hook : Route
hook = record {
  path = "/hook";
  secret = "key";
  subject_from = none;
  subject_prefix = "hook:";
  profile = none;
  is_public = true;
  signature_header = "sig";
  timestamp_header = "at";
  drove = none;
  delivery_headers = "id" ∷ [];
}

abbrev server_with : List Event → Server (List Event)
server_with q = record {
  routes = ("/hook", hook) ∷ [];
  limiter = none;
  require_tailnet = true;
  max_skew = 300000000;
  dedupe_ttl = 1000;
  seen = [];
  queue = q;
}

abbrev env : Env
env = record { mono = 1; now = 2; wake_id = "w1" }

abbrev signed_by : String → Request
signed_by signature = record {
  path = "/hook";
  headers = ("sig", signature) ∷ ("id", "d1") ∷ [];
  hop = "127.0.0.1";
  length = bytes 2;
  body = "{}";
}

abbrev first_event : Event
first_event = record {
  id = "w1";
  received_at = 2;
  route = "/hook";
  subject = "hook:w1";
  delivery_key = some "/hook:d1";
  payload = dict no_members;
  peer = none;
  profile = none;
  drove = none;
}

refuses_unsigned :
    do_post outside (server_with []) env (signed_by "no") ≡ (server_with [], unauthorized)
unfolding do_post admit_route enter_route check_length authenticate signature_fault event_id
    if_signed peer_of verify_signature candidates canonical_candidate stamped_candidates presented
    timestamp_fault Dict.get
refuses_unsigned = refl

-- the append fails, and the key is on record all the same
loses_the_wake :
    (deliver outside (server_with (first_event ∷ [])) env hook (some "d2") "{}" none).1
    ≡ not_persisted
unfolding deliver seen_before read_body act persist as_object Dict.get Dict.set
loses_the_wake = refl

do_post-IsDurable_example :
    IsDurable outside [] (do_post outside (server_with []) env (signed_by "key{}"))
do_post-IsDurable_example = do_post-IsDurable outside (server_with []) env (signed_by "key{}")

-- the server behind one signed request
abbrev held : Server (List Event)
held = (deliver outside (server_with []) env hook (some "/hook:d1") "{}" none).0
