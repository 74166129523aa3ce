-- ===== src/Audit/Examples.antt =====
-- bothy/audit.py: the operations on small logs, and instances of the theorems.
use bothy.Common.{
  List, arith, ℕ, String, ◌≡◌, refl, true, false, none, some, [], ◌∷◌, ok, err, str_append,
}
use bothy.Json.{dict, no_members}
use bothy.Audit.Log.{
  genesis, junk, entry, Record, AuditLog, Entry, written, Body, records, is_junk, append, add_line,
  tip, read_tip, tail_tip, scan, sealed, verify, verify_from, start, is_rotated, one_more, altered,
}
use bothy.Audit.Chunks.{last_line, read_back, look, rfind, rstrip, start_of, last_line-look}
use bothy.Audit.Tip.{append-IsCoherent, IsCoherent}
use bothy.Audit.Chain.{verify-append}
use bothy.Audit.Rotation.{Store, rotate, put_segment, keep_segments, is_empty, is_empty_list}

-- a digest that one can read
abbrev sketch : Body → String
sketch b = str_append b.prev b.action

abbrev wake_entry : Entry
wake_entry = record {
  kind = "wake";
  action = "received";
  status = "ok";
  run_id = none;
  subject = some "alice";
  actor = none;
  data_field = dict no_members;
  span = none;
}

abbrev no_log : AuditLog
no_log = record { file = record { lines = []; torn = false; stamp = 0 }; cached = none }

-- one record on disk, and its tip in the cache
abbrev one_record : Record
one_record = record {
  body = record {
    seq = 1;
    ts = "noon";
    kind = "wake";
    action = "received";
    status = "ok";
    run_id = none;
    subject = some "alice";
    actor = none;
    data_field = dict no_members;
    prev = genesis;
    span = none;
  };
  hash = str_append genesis "received";
}

abbrev one_log : AuditLog
one_log = record {
  file = record { lines = entry one_record ∷ []; torn = false; stamp = 1 };
  cached = some ((1, str_append genesis "received"), 1);
}

abbrev torn_log : AuditLog
torn_log = record {
  file = record { lines = entry one_record ∷ []; torn = true; stamp = 2 };
  cached = none;
}

abbrev names : ℕ → String
names n = "audit-1.jsonl"

abbrev one_store : Store
one_store = record { archived = (5, []) ∷ (7, []) ∷ []; log = one_log }

append_first : append sketch no_log written "noon" wake_entry ≡ (one_log, ok one_record)
unfolding append tip read_tip tail_tip scan add_line sealed
append_first = refl

verify_one : verify sketch one_log.file ≡ ok 1
unfolding verify verify_from start is_rotated records is_junk one_more
verify_one = refl

verify_altered :
    verify sketch (record {
      lines =
          entry (record one_record {
            body = record one_record.body { status = "failed"; action = "sent" };
          })
          ∷ [];
      torn = false;
      stamp = 1;
    })
    ≡ err (altered 1)
unfolding verify verify_from start is_rotated records is_junk one_more
verify_altered = refl

tail_of_junk : read_tip (entry one_record ∷ junk ∷ []) ≡ (1, str_append genesis "received")
unfolding read_tip tail_tip scan
tail_of_junk = refl

-- two lines and a piece of a third
abbrev torn_bytes : List ℕ
torn_bytes = 97 ∷ 10 ∷ 98 ∷ 99 ∷ 10 ∷ 100 ∷ []

finds_the_second : last_line 2 torn_bytes ≡ some (98 ∷ 99 ∷ [])
unfolding last_line read_back look rfind rstrip start_of
finds_the_second = refl

last_line-look_example : last_line 2 torn_bytes ≡ look 0 torn_bytes
last_line-look_example = last_line-look 2 torn_bytes (omega arith)

one_log-IsCoherent : IsCoherent one_log
unfolding scan
one_log-IsCoherent = λ _. refl

append-IsCoherent_example : IsCoherent (append sketch one_log written "one" wake_entry).0
append-IsCoherent_example =
    append-IsCoherent sketch one_log written "one" wake_entry one_log-IsCoherent refl

verify-append_example : verify sketch (append sketch one_log written "one" wake_entry).0.file ≡ ok 2
unfolding is_rotated
verify-append_example =
    verify-append sketch one_log 1 "one" wake_entry verify_one refl one_log-IsCoherent refl

not_empty : is_empty one_store.log.file ≡ false
unfolding is_empty is_empty_list
not_empty = refl

rotate_prunes :
    (rotate sketch names one_store written 2 9 "nine").0.archived
    ≡ (7, []) ∷ (9, entry one_record ∷ []) ∷ []
unfolding rotate is_empty is_empty_list put_segment keep_segments
rotate_prunes = refl
