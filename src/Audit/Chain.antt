-- ===== src/Audit/Chain.antt =====
-- bothy/audit.py: a chain that `append` extends still verifies.
use bothy.Common.{
  ℕ, suc, String, ◌≡◌, refl, ◌∙◌, sym, Bool, true, false, List, [], ◌∷◌, ◌++◌, ==_iff, str_eq_iff,
  Result, ok, err, ap, if◌then◌else◌, subst,
}
use bothy.Audit.Log.{
  is_junk, genesis, Record, Line, junk, foreign, entry, AuditLog, Entry, written, Body, records,
  scan, tip, add_line, sealed, append, verify, verify_from, start, one_more, is_rotated, ChainBreak,
  body_of,
}
use bothy.Audit.Tip.{records-append, tip-eq-scan, IsCoherent, scan-records}

-- one link of the chain: the three tests of the loop
abbrev pub Linked : (Body → String) → ℕ → String → Record → Type 0
Linked digest expected previous r =
    r.body.seq ≡ expected × r.body.prev ≡ previous × r.hash ≡ digest r.body

one_more-ok :
    (n : ℕ) (x : Result ChainBreak ℕ) → one_more x ≡ ok n → (m : ℕ) × (n ≡ suc m × x ≡ ok m)
unfolding one_more
one_more-ok n (ok m) h = (m, (cc, refl))
one_more-ok n (err b) h = cc

nested-ok :
    (a b c : Bool) (n : ℕ) (i j k : ChainBreak) (x : Result ChainBreak ℕ)
    → (if a then (if b then (if c then one_more x else err i) else err j) else err k) ≡ ok n
    → (a ≡ true × b ≡ true × c ≡ true) × ((m : ℕ) × (n ≡ suc m × x ≡ ok m))
nested-ok true true true n i j k x h = ((refl, refl, refl), one_more-ok n x h)
nested-ok true true false n i j k x h = cc
nested-ok true false c n i j k x h = cc
nested-ok false b c n i j k x h = cc

module _ (digest : Body → String) where
  pub verify_from-inv :
      (expected n : ℕ) (previous : String) (r : Record) (ls : List Line)
      → verify_from digest expected previous (entry r ∷ ls) ≡ ok n
      → Linked digest expected previous r
        × ((m : ℕ) × (n ≡ suc m × verify_from digest (suc expected) (digest r.body) ls ≡ ok m))
  unfolding verify_from
  verify_from-inv expected n previous r ls h =
      let (tests, rest) = nested-ok _ _ _ n _ _ _ _ h in
      (
        (
          (==_iff r.body.seq expected).0 tests.0,
          (str_eq_iff r.body.prev previous).0 tests.1,
          (str_eq_iff r.hash (digest r.body)).0 tests.2,
        ),
        rest,
      )

  pub verify_from-link :
      (expected n : ℕ) (previous : String) (r : Record) (ls : List Line)
      → Linked digest expected previous r
      → verify_from digest (suc expected) (digest r.body) ls ≡ ok n
      → verify_from digest expected previous (entry r ∷ ls) ≡ ok (suc n)
  unfolding verify_from one_more
  verify_from-link expected n previous r ls h g =
      rw
        (
          (==_iff r.body.seq expected).1 h.0,
          (str_eq_iff r.body.prev previous).1 h.1,
          (str_eq_iff r.hash (digest r.body)).1 h.2,
          g,
        )
        refl

  -- after a link, the loop expects what the linked record says
  at_link :
      (expected : ℕ) (previous : String) (r : Record) (ls : List Line)
      → Linked digest expected previous r
      → verify_from digest (suc r.body.seq) r.hash ls
        ≡ verify_from digest (suc expected) (digest r.body) ls
  at_link expected previous r ls h = λ i. verify_from digest (suc (h.0 i)) (h.2 i) ls

  -- what an extension of the rest of a chain does to the whole chain
  verify_from-under :
      (expected n : ℕ) (previous : String) (s : Record) (ls ms : List Line)
      → ((m : ℕ)
          → verify_from digest (suc s.body.seq) s.hash ls ≡ ok m
          → verify_from digest (suc s.body.seq) s.hash ms ≡ ok (suc m))
      → verify_from digest expected previous (entry s ∷ ls) ≡ ok n
      → verify_from digest expected previous (entry s ∷ ms) ≡ ok (suc n)
  verify_from-under expected n previous s ls ms longer h =
      let (first, (m, (same, rest))) = verify_from-inv expected n previous s ls h in
      verify_from-link expected (suc m) previous s ms first (
        sym (at_link expected previous s ms first)
        ∙ longer m (at_link expected previous s ls first ∙ rest))
      ∙ ap (λ k. ok (suc k)) (sym same)

  -- a verified chain, extended by a record that links to where it ends
  pub verify_from-snoc :
      (seq n : ℕ) (hash : String) (ls : List Line) (r : Record)
      → verify_from digest (suc seq) hash ls ≡ ok n
      → Linked digest (suc (scan (seq, hash) ls).0) (scan (seq, hash) ls).1 r
      → verify_from digest (suc seq) hash (ls ++ entry r ∷ []) ≡ ok (suc n)
  unfolding scan verify_from
  verify_from-snoc seq n hash [] r h link = verify_from-link (suc seq) n hash r [] link h
  verify_from-snoc seq n hash (junk ∷ ls) r h link = cc
  verify_from-snoc seq n hash (foreign ∷ ls) r h link = cc
  verify_from-snoc seq n hash (entry s ∷ ls) r h link =
      verify_from-under (suc seq) n hash s ls (ls ++ entry r ∷ [])
        (λ m g. verify_from-snoc s.body.seq m s.hash ls r g link) h

  unfoldable pub Verifies : ℕ → List Line → Type 0
  Verifies n rs = verify_from digest (start rs).0 (start rs).1 rs ≡ ok n

  unfoldable pub Follows : Record → List Line → Type 0
  Follows r ls = Linked digest (suc (scan (0, genesis) ls).0) (scan (0, genesis) ls).1 r

  -- the same for `verify`, on the records of a file
  pub verify-snoc :
      (rs : List Line) (n : ℕ) (r : Record)
      → Verifies n rs
      → (rs ≡ [] → start (entry r ∷ []) ≡ (1, genesis))
      → Follows r rs
      → Verifies (suc n) (rs ++ entry r ∷ [])
  unfolding Verifies Follows start scan verify_from
  verify-snoc [] n r h plain link =
      subst (λ s. verify_from digest s.0 s.1 (entry r ∷ []) ≡ ok (suc n)) (sym (plain refl))
        (verify_from-link 1 n genesis r [] link h)
  verify-snoc (junk ∷ ls) n r h plain link = cc
  verify-snoc (foreign ∷ ls) n r h plain link = cc
  verify-snoc (entry s ∷ ls) n r h plain link =
      verify_from-under _ n _ s ls (ls ++ entry r ∷ [])
        (λ m g. verify_from-snoc s.body.seq m s.hash ls r g link) h

  plain_start : (r : Record) → is_rotated r.body ≡ false → start (entry r ∷ []) ≡ (1, genesis)
  unfolding start
  plain_start r h = rw h refl

  -- the record that `append` writes
  unfoldable pub next_record : AuditLog → String → Entry → Record
  next_record log ts e = sealed digest (suc (tip log).0) (tip log).1 ts e

  pub append-records :
      (log : AuditLog) (ts : String) (e : Entry)
      → log.file.torn ≡ false
      → records (append digest log written ts e).0.file.lines
        ≡ records log.file.lines ++ entry (next_record log ts e) ∷ []
  unfolding append next_record records is_junk add_line
  append-records log ts e whole =
      ap (λ t. records (add_line t log.file.lines (entry (next_record log ts e)))) whole
      ∙ records-append log.file.lines (entry (next_record log ts e) ∷ [])

  pub next_record-Follows :
      (log : AuditLog) (ts : String) (e : Entry)
      → IsCoherent log
      → Follows (next_record log ts e) (records log.file.lines)
  unfolding next_record Follows sealed
  next_record-Follows log ts e coherent =
      let same : tip log ≡ scan (0, genesis) (records log.file.lines) =
        tip-eq-scan log coherent ∙ sym (scan-records (0, genesis) log.file.lines) in
      (λ i. suc (same i).0, λ i. (same i).1, refl)

  -- Appending to a log that verifies leaves a log that verifies, with one record more: for every
  -- log whose file ends in a whole line and whose cached tip is the file's, and every entry but a
  -- hand-made rotation marker.
  pub verify-append :
      (log : AuditLog) (n : ℕ) (ts : String) (e : Entry)
      → verify digest log.file ≡ ok n
      → log.file.torn ≡ false
      → IsCoherent log
      → is_rotated (body_of 0 genesis ts e) ≡ false
      → verify digest (append digest log written ts e).0.file ≡ ok (suc n)
  unfolding verify Verifies next_record sealed is_rotated
  verify-append log n ts e h whole coherent plain =
      subst (Verifies (suc n)) (sym (append-records log ts e whole)) (
        verify-snoc (records log.file.lines) n (next_record log ts e) h
          (λ _. plain_start (next_record log ts e) plain) (next_record-Follows log ts e coherent))
