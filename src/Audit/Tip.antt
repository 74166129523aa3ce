-- ===== src/Audit/Tip.antt =====
-- bothy/audit.py: the tip that the next record is chained to.
use bothy.Common.{
  ℕ, String, ◌≡◌, refl, sym, false, Option, none, some, List, [], ◌∷◌, ◌++◌, inl, inr, Bool-cases,
  Option-cases, ◌==◌, ==_iff,
}
use bothy.Audit.Log.{
  genesis, Line, junk, foreign, entry, File, Tip, AuditLog, Entry, Write, written, lost, partial,
  Body, is_junk, records, scan, tail_tip, read_tip, tip, add_line, append,
}

pub scan-append : (t : Tip) (ls ms : List Line) → scan t (ls ++ ms) ≡ scan (scan t ls) ms
unfolding scan
scan-append t [] ms = refl
scan-append t (junk ∷ ls) ms = scan-append t ls ms
scan-append t (foreign ∷ ls) ms = scan-append t ls ms
scan-append t (entry r ∷ ls) ms = scan-append (r.body.seq, r.hash) ls ms

pub scan-records : (t : Tip) (ls : List Line) → scan t (records ls) ≡ scan t ls
unfolding scan records is_junk
scan-records t [] = refl
scan-records t (junk ∷ ls) = scan-records t ls
scan-records t (foreign ∷ ls) = scan-records t ls
scan-records t (entry r ∷ ls) = scan-records (r.body.seq, r.hash) ls

pub records-append : (ls ms : List Line) → records (ls ++ ms) ≡ records ls ++ records ms
unfolding records is_junk
records-append [] ms = refl
records-append (junk ∷ ls) ms = records-append ls ms
records-append (foreign ∷ ls) ms = λ i. foreign ∷ records-append ls ms i
records-append (entry r ∷ ls) ms = λ i. entry r ∷ records-append ls ms i

tail_tip-scan : (t u : Tip) (ls : List Line) → tail_tip ls ≡ some t → scan u ls ≡ t
unfolding tail_tip scan
tail_tip-scan t u [] h = cc
tail_tip-scan t u (junk ∷ []) h = cc
tail_tip-scan t u (foreign ∷ []) h = cc
tail_tip-scan t u (entry r ∷ []) h = cc
tail_tip-scan t u (junk ∷ m ∷ ls) h = tail_tip-scan t u (m ∷ ls) h
tail_tip-scan t u (foreign ∷ m ∷ ls) h = tail_tip-scan t u (m ∷ ls) h
tail_tip-scan t u (entry r ∷ m ∷ ls) h = tail_tip-scan t (r.body.seq, r.hash) (m ∷ ls) h

-- the tip of the last line, where it is a record, is the one that a walk over all lines finds
read_tip-eq-scan : (ls : List Line) → read_tip ls ≡ scan (0, genesis) ls
unfolding read_tip
read_tip-eq-scan ls = elim (Option-cases (tail_tip ls)) [
  | inl slow ↦ rw (slow, read_tip)
  | inr (t, fast) ↦ rw (fast, read_tip) (sym (tail_tip-scan t (0, genesis) ls fast))
]

-- What is cached under the file's present stamp is what the file says.
abbrev pub Agrees : File → Option (Tip × ℕ) → Type 0
Agrees f none = Unit {0}
Agrees f (some (t, stamp)) = stamp ≡ f.stamp → scan (0, genesis) f.lines ≡ t

abbrev pub IsCoherent : AuditLog → Type 0
IsCoherent log = Agrees log.file log.cached

cached_tip :
    (f : File) (c : Option (Tip × ℕ))
    → Agrees f c
    → tip (record { file = f; cached = c }) ≡ scan (0, genesis) f.lines
unfolding tip
cached_tip f none h = read_tip-eq-scan f.lines
cached_tip f (some (t, stamp)) h = elim (Bool-cases (stamp == f.stamp)) [
  | inl same ↦ rw same (sym (h ((==_iff stamp f.stamp).0 same)))
  | inr moved ↦ rw moved (read_tip-eq-scan f.lines)
]

pub tip-eq-scan : (log : AuditLog) → IsCoherent log → tip log ≡ scan (0, genesis) log.file.lines
tip-eq-scan log h = cached_tip log.file log.cached h

pub append-IsCoherent :
    (digest : Body → String) (log : AuditLog) (w : Write) (ts : String) (e : Entry)
    → IsCoherent log
    → log.file.torn ≡ false
    → IsCoherent (append digest log w ts e).0
unfolding append add_line scan
append-IsCoherent digest log written ts e h whole = λ _. rw (whole, add_line, scan-append) refl
append-IsCoherent digest log lost ts e h whole = tt
append-IsCoherent digest log partial ts e h whole = tt
