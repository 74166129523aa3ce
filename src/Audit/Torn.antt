-- ===== src/Audit/Torn.antt =====
-- bothy/audit.py, append: a log whose last write stopped in the middle of a line.
use bothy.Common.{String, ◌≡◌, refl, ◌∙◌, ap, true, [], ◌∷◌, ◌++◌, List, ok}
use bothy.Audit.Log.{
  Line, junk, entry, AuditLog, Entry, written, Body, records, is_junk, append, add_line,
}
use bothy.Audit.Tip.{records-append}
use bothy.Audit.Chain.{next_record}

append_nil : (ls : List Line) → ls ++ [] ≡ ls
append_nil [] = refl
append_nil (l ∷ ls) = λ i. l ∷ append_nil ls i

-- The first append after a torn write is acknowledged, and its record is in no reader's sight: the
-- line completes the piece that was there, and the readers skip it.
pub append-torn :
    (digest : Body → String) (log : AuditLog) (ts : String) (e : Entry)
    → log.file.torn ≡ true
    → (append digest log written ts e).1 ≡ ok (next_record digest log ts e)
      × records (append digest log written ts e).0.file.lines ≡ records log.file.lines
unfolding append next_record add_line records is_junk
append-torn digest log ts e torn = (
  refl,
  ap (λ t. records (add_line t log.file.lines (entry (next_record digest log ts e)))) torn
      ∙ records-append log.file.lines (junk ∷ [])
      ∙ append_nil (records log.file.lines),
)
