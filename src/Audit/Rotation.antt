-- ===== src/Audit/Rotation.antt =====
-- bothy/audit.py, rotate: a new segment that carries the chain across the boundary. An archived
-- segment is known by the second that its name ends in; the names sort as the seconds do.
use bothy.Common.{
  ℕ, zero, suc, ◌≤◌, String, ◌≡◌, refl, ◌∙◌, sym, Bool, true, false, Option, none, some, List, [],
  ◌∷◌, ◌++◌, ◌==◌, ltb, Result, ok, err, ap, if◌then◌else◌, subst, arith, length, take_last, not,
  ◌&&◌, length-append, length-drop, ltb→lt, All, ◌-◌, drop,
}
use bothy.Json.{get, find, text, dict, member, no_members}
use bothy.Audit.Log.{
  genesis, Record, Line, entry, File, AuditLog, Entry, Write, written, lost, partial, Body, records,
  is_junk, scan, tip, sealed, append, verify, verify_from, start, is_rotated, body_of, AuditError,
  audit_error, read_tip, tail_tip, previous_hash,
}
use bothy.Audit.Tip.{records-append, tip-eq-scan, IsCoherent, scan-records}
use bothy.Audit.Chain.{
  Verifies, Follows, verify-append, verify-snoc, next_record, next_record-Follows, verify_from-link,
}

abbrev pub Segments : Type 0
Segments = List (ℕ × List Line)

pub record Store : Type 0 where
  pub archived : Segments
  pub log : AuditLog

-- `os.replace` onto the segment's name, among the sorted names: it replaces a segment of that name
unfoldable pub put_segment : ℕ → List Line → Segments → Segments
put_segment now ls [] = (now, ls) ∷ []
put_segment now ls ((at, ms) ∷ rest) =
    let more = put_segment now ls rest in
    if ltb now at
    then (now, ls) ∷ (at, ms) ∷ rest
    else if now == at
    then (now, ls) ∷ rest
    else (at, ms) ∷ more

-- what is left after `segments[:-keep] if keep > 0 else segments` is unlinked
unfoldable pub keep_segments : ℕ → Segments → Segments
keep_segments zero ss = []
keep_segments (suc k) ss = take_last (suc k) ss

unfoldable pub is_empty_list : List Line → Bool
is_empty_list [] = true
is_empty_list (l ∷ ls) = false

-- `st_size == 0`
unfoldable pub is_empty : File → Bool
is_empty f = is_empty_list f.lines && not f.torn

abbrev pub marker : String → String → Entry
marker name previous = record {
  kind = "audit";
  action = "rotated";
  status = "ok";
  run_id = none;
  subject = none;
  actor = none;
  data_field =
      dict (member "previous_file" (text name) (member "previous_hash" (text previous) no_members));
  span = none;
}

keep_segments-le : (k : ℕ) (ss : Segments) → length (keep_segments k ss) ≤ k
unfolding keep_segments
keep_segments-le zero ss = ground arith
keep_segments-le (suc k) ss = rw (length-drop (length ss - suc k) ss) (omega arith)

drop-last :
    (n : ℕ) (ss : Segments) (s : ℕ × List Line)
    → n ≤ length ss
    → (older : Segments) × (drop n (ss ++ s ∷ []) ≡ older ++ s ∷ [])
drop-last zero ss s h = (ss, refl)
drop-last (suc n) [] s h = ground arith
drop-last (suc n) (r ∷ ss) s h = drop-last n ss s (omega arith)

keep_segments-last :
    (k : ℕ) (ss : Segments) (s : ℕ × List Line)
    → 1 ≤ k
    → (older : Segments) × (keep_segments k (ss ++ s ∷ []) ≡ older ++ s ∷ [])
unfolding keep_segments
keep_segments-last zero ss s h = ground arith
keep_segments-last (suc k) ss s h =
    drop-last (length (ss ++ s ∷ []) - suc k) ss s (omega (arith, length-append ss (s ∷ [])))

put_segment-latest :
    (now : ℕ) (ls : List Line) (ss : Segments)
    → All (λ s. ltb s.0 now ≡ true) ss
    → put_segment now ls ss ≡ ss ++ (now, ls) ∷ []
unfolding put_segment
put_segment-latest now ls [] h = refl
put_segment-latest now ls ((at, ms) ∷ rest) h =
    ground (arith, ltb→lt at now h.0, put_segment-latest now ls rest h.1)

module _ (digest : Body → String) (segment_name : ℕ → String) where
  -- the marker that `rotate` writes
  abbrev pub marker_record : AuditLog → ℕ → String → Record
  marker_record log now ts =
      sealed digest (suc (tip log).0) (tip log).1 ts (marker (segment_name now) (tip log).1)

  unfoldable pub rotate : Store → Write → ℕ → ℕ → String → Store × Result AuditError (Option ℕ)
  rotate store w keep now ts =
      let log = store.log in
      let archived = put_segment now log.file.lines store.archived in
      let r = marker_record log now ts in
      let stamp = suc log.file.stamp in
      if is_empty log.file then (store, ok none) else elim w [
        | written ↦ (
          record {
            archived = keep_segments keep archived;
            log = record {
              file = record { lines = entry r ∷ []; torn = false; stamp = stamp };
              cached = some ((r.body.seq, r.hash), stamp);
            };
          },
          ok (some now),
        )
        | lost ↦ (
          record {
            archived = archived;
            log = record {
              file = record { lines = []; torn = false; stamp = stamp };
              cached = none;
            };
          },
          err audit_error,
        )
        | partial ↦ (
          record {
            archived = archived;
            log = record {
              file = record { lines = []; torn = true; stamp = stamp };
              cached = none;
            };
          },
          err audit_error,
        )
      ]

  live_after :
      (store : Store) (keep now : ℕ) (ts : String)
      → is_empty store.log.file ≡ false
      → (rotate store written keep now ts).0.log.file.lines
        ≡ entry (marker_record store.log now ts) ∷ []
  unfolding rotate
  live_after store keep now ts h = rw h refl

  marker-start :
      (log : AuditLog) (now : ℕ) (ts : String)
      → start (entry (marker_record log now ts) ∷ []) ≡ (suc (tip log).0, (tip log).1)
  unfolding start sealed is_rotated previous_hash get find
  marker-start log now ts = refl

  -- The segment that a rotation opens verifies on its own, whatever the segment before it holds.
  pub verify-rotate :
      (store : Store) (keep now : ℕ) (ts : String)
      → is_empty store.log.file ≡ false
      → verify digest (rotate store written keep now ts).0.log.file ≡ ok 1
  unfolding verify Verifies records is_junk sealed verify_from
  verify-rotate store keep now ts h =
      subst (Verifies digest 1) (sym (ap records (live_after store keep now ts h))) (
        subst (λ s. verify_from digest s.0 s.1 (entry (marker_record store.log now ts) ∷ []) ≡ ok 1)
          (sym (marker-start store.log now ts))
          (verify_from-link digest (suc (tip store.log).0) 0 (tip store.log).1
            (marker_record store.log now ts) [] (refl, refl, refl) refl))

  first_tip :
      (log : AuditLog)
      → IsCoherent log
      → records log.file.lines ≡ []
      → ◌≡◌ {A = ℕ × String} (suc (tip log).0, (tip log).1) (1, genesis)
  unfolding scan
  first_tip log coherent h =
      let at : tip log ≡ (0, genesis) =
        tip-eq-scan log coherent
        ∙ sym (scan-records (0, genesis) log.file.lines)
        ∙ ap (scan (0, genesis)) h in
      λ i. (suc (at i).0, (at i).1)

  -- The old segment and the new one join: the archived lines, followed by those of the live file,
  -- verify as one chain with one record more.
  pub verify-join :
      (store : Store) (n keep now : ℕ) (ts : String)
      → is_empty store.log.file ≡ false
      → IsCoherent store.log
      → verify digest store.log.file ≡ ok n
      → verify digest (record {
        lines = store.log.file.lines ++ (rotate store written keep now ts).0.log.file.lines;
        torn = false;
        stamp = 0;
      })
        ≡ ok (suc n)
  unfolding verify Verifies records is_junk sealed Follows next_record
  verify-join store n keep now ts full coherent h =
      let r = marker_record store.log now ts in
      let rs = records store.log.file.lines in
      let follows =
        next_record-Follows digest store.log ts (marker (segment_name now) (tip store.log).1)
          coherent in
      let lines =
        ap (λ ls. records (store.log.file.lines ++ ls)) (live_after store keep now ts full)
        ∙ records-append store.log.file.lines (entry r ∷ []) in
      subst (Verifies digest (suc n)) (sym lines) (
        verify-snoc digest rs n r h
          (λ none_yet. marker-start store.log now ts ∙ first_tip store.log coherent none_yet)
          follows)

  -- A rotation leaves at most `keep` archived segments.
  pub rotate-bound :
      (store : Store) (keep now : ℕ) (ts : String)
      → is_empty store.log.file ≡ false
      → length (rotate store written keep now ts).0.archived ≤ keep
  unfolding rotate
  rotate-bound store keep now ts h =
      rw h (keep_segments-le keep (put_segment now store.log.file.lines store.archived))

  -- The segment just closed is among them, as the last, where `keep` is not zero and no segment is
  -- as late.
  pub rotate-closed :
      (store : Store) (keep now : ℕ) (ts : String)
      → is_empty store.log.file ≡ false
      → All (λ s. ltb s.0 now ≡ true) store.archived
      → 1 ≤ keep
      → (older : Segments) × ((rotate store written keep now ts).0.archived
          ≡ older ++ (now, store.log.file.lines) ∷ [])
  unfolding rotate
  rotate-closed store keep now ts h late some_kept =
      rw (h, put_segment-latest now store.log.file.lines store.archived late)
        (keep_segments-last keep store.archived (now, store.log.file.lines) some_kept)

  -- Where a rotation fails between the rename and the marker, the next append starts a chain anew:
  -- it writes record 1 after the genesis hash, whatever the chain's tip was, and the live file
  -- verifies.
  pub rotate-restart :
      (store : Store) (keep now : ℕ) (ts later : String) (e : Entry)
      → is_empty store.log.file ≡ false
      → is_rotated (body_of 0 genesis later e) ≡ false
      → (let log = (rotate store lost keep now ts).0.log in
          (append digest log written later e).1 ≡ ok (sealed digest 1 genesis later e)
          × verify digest (append digest log written later e).0.file ≡ ok 1)
  unfolding rotate append tip read_tip tail_tip scan verify verify_from records
  rotate-restart store keep now ts later e h plain = rw h (
    refl,
    verify-append digest
        (record {
          file = record { lines = []; torn = false; stamp = suc store.log.file.stamp };
          cached = none;
        })
        0 later e refl refl tt plain,
  )
