-- ===== src/Audit/Log.antt =====
-- bothy/audit.py, AuditLog: the live file, the reader's cache of its tip, and the calls. The digest
-- of a record, SHA-256 over its canonical JSON, is a parameter of the calls that compute one.
use bothy.Common.{
  ℕ, suc, String, Bool, true, false, Option, none, some, List, [], ◌∷◌, ◌++◌, ◌==◌, ◌&&◌,
  if◌then◌else◌, str_eq, Result, ok, err,
}
use bothy.Json.{get, Json, text}

abbrev pub genesis : String
genesis = "0000000000000000000000000000000000000000000000000000000000000000"

-- a record without its hash
pub record Body : Type 0 where
  pub seq : ℕ
  pub ts : String
  pub kind : String
  pub action : String
  pub status : String
  pub run_id : Option String
  pub subject : Option String
  pub actor : Option String
  pub data_field : Json
  pub prev : String
  pub span : Option Json

pub record Record : Type 0 where
  pub body : Body
  pub hash : String

-- A complete line: no JSON object, an object with none of a record's fields, or a record. An object with
-- some of the fields, or with one of another type, and bytes that are no UTF-8 are not modelled.
pub data Line : Type 0 where
  junk foreign : Line
  entry : Record → Line

-- `torn` says that the file ends in a piece of a line that is no JSON object yet, with no newline. `stamp` stands for the
-- inode and the size, which every write changes.
pub record File : Type 0 where
  pub lines : List Line
  pub torn : Bool
  pub stamp : ℕ

abbrev pub Tip : Type 0
Tip = ℕ × String

-- `_tip` with the `_tip_stat` that it was read under
pub record AuditLog : Type 0 where
  pub file : File
  pub cached : Option (Tip × ℕ)

-- what the caller of `append` hands over
pub record Entry : Type 0 where
  pub kind : String
  pub action : String
  pub status : String
  pub run_id : Option String
  pub subject : Option String
  pub actor : Option String
  pub data_field : Json
  pub span : Option Json

-- how a write ends: all of it on disk, nothing, or a piece
pub data Write : Type 0 where
  written lost partial : Write

-- the chain breaks at this sequence number
pub data ChainBreak : Type 0 where
  jumped unlinked altered : ℕ → ChainBreak

pub data AuditError : Type 0 where
  audit_error : AuditError

unfoldable pub is_junk : Line → Bool
is_junk junk = true
is_junk foreign = false
is_junk (entry r) = false

-- every well-formed object, oldest first; a bad line is skipped
unfoldable pub records : List Line → List Line
records [] = []
records (l ∷ ls) = let rest = records ls in if is_junk l then rest else l ∷ rest

-- the tolerant reader: the last sequence number and hash among the records
unfoldable pub scan : Tip → List Line → Tip
scan t [] = t
scan t (junk ∷ ls) = scan t ls
scan t (foreign ∷ ls) = scan t ls
scan t (entry r ∷ ls) = scan (r.body.seq, r.hash) ls

-- what `_tail_tip` makes of the last complete line, which Audit/Chunks finds in the bytes
unfoldable pub tail_tip : List Line → Option Tip
tail_tip [] = none
tail_tip (l ∷ m ∷ ls) = tail_tip (m ∷ ls)
tail_tip (entry r ∷ []) = some (r.body.seq, r.hash)
tail_tip (junk ∷ []) = none
tail_tip (foreign ∷ []) = none

unfoldable pub read_tip : List Line → Tip
read_tip ls = elim (tail_tip ls) [ some t ↦ t | none ↦ scan (0, genesis) ls ]

unfoldable pub tip : AuditLog → Tip
tip log = elim log.cached [
  | none ↦ read_tip log.file.lines
  | some (t, stamp) ↦ if stamp == log.file.stamp then t else read_tip log.file.lines
]

abbrev pub body_of : ℕ → String → String → Entry → Body
body_of seq prev ts e = record {
  seq = seq;
  ts = ts;
  kind = e.kind;
  action = e.action;
  status = e.status;
  run_id = e.run_id;
  subject = e.subject;
  actor = e.actor;
  data_field = e.data_field;
  prev = prev;
  span = e.span;
}

-- a new line at the file's end: after a torn piece it only completes a bad line
unfoldable pub add_line : Bool → List Line → Line → List Line
add_line true ls l = ls ++ junk ∷ []
add_line false ls l = ls ++ l ∷ []

-- a rotated segment's first record names the hash that it continues
unfoldable pub is_rotated : Body → Bool
is_rotated b = str_eq b.action "rotated" && str_eq b.kind "audit"

-- str((first.get("data") or {}).get("previous_hash", GENESIS)): a marker has a string there
unfoldable pub previous_hash : Json → String
previous_hash data_field = elim (get data_field "previous_hash") [ some (text s) ↦ s | _ ↦ genesis ]

-- what `verify` expects of the first record: its number, and the hash before it
unfoldable pub start : List Line → ℕ × String
start (entry r ∷ ls) =
    if is_rotated r.body then (r.body.seq, previous_hash r.body.data_field) else (1, genesis)
start (junk ∷ ls) = (1, genesis)
start (foreign ∷ ls) = (1, genesis)
start [] = (1, genesis)

-- `count += 1`, where the rest of the loop returns
unfoldable pub one_more : Result ChainBreak ℕ → Result ChainBreak ℕ
one_more (ok n) = ok (suc n)
one_more (err b) = err b

module _ (digest : Body → String) where
  unfoldable pub sealed : ℕ → String → String → Entry → Record
  sealed seq prev ts e = record {
    body = body_of seq prev ts e;
    hash = digest (body_of seq prev ts e);
  }

  unfoldable pub append : AuditLog → Write → String → Entry → AuditLog × Result AuditError Record
  append log w ts e =
      let (seq, prev) = tip log in
      let r = sealed (suc seq) prev ts e in
      let stamp = suc log.file.stamp in
      elim w [
        | written ↦ (
          record {
            file = record {
              lines = add_line log.file.torn log.file.lines (entry r);
              torn = false;
              stamp = stamp;
            };
            cached = some ((r.body.seq, r.hash), stamp);
          },
          ok r,
        )
        | lost ↦ (record log { cached = none }, err audit_error)
        | partial ↦ (
          record {
            file = record { lines = log.file.lines; torn = true; stamp = stamp };
            cached = none;
          },
          err audit_error,
        )
      ]

  -- the loop of `verify`, from an expected number and the hash before it
  unfoldable pub verify_from : ℕ → String → List Line → Result ChainBreak ℕ
  verify_from expected previous [] = ok 0
  verify_from expected previous (junk ∷ ls) = err (jumped expected)
  verify_from expected previous (foreign ∷ ls) = err (jumped expected)
  verify_from expected previous (entry r ∷ ls) =
      let rest = verify_from (suc expected) (digest r.body) ls in
      if r.body.seq == expected
      then (if str_eq r.body.prev previous
          then (if str_eq r.hash (digest r.body) then one_more rest else err (altered r.body.seq))
          else err (unlinked r.body.seq))
      else err (jumped expected)

  unfoldable pub verify : File → Result ChainBreak ℕ
  verify f =
      let rs = records f.lines in
      let (expected, previous) = start rs in verify_from expected previous rs
