-- ===== src/Alert/Examples.antt =====
-- bothy/alert.py: a short text in pieces, an incident that comes again, and instances of the theorems.
use bothy.Common.{ℕ, ◌+◌, ◌≤◌, ◌<◌, true, false, some, [], ◌∷◌, ◌≡◌, refl, arith}
use bothy.Dict
use bothy.Text.{Chars, codes, push_first, starts_with}
use bothy.Alert.Chunks.{
  is_break, lines_of, cut, if_any, flush, extend, add_line, chunk_lines, or_blank, chunks,
}
use bothy.Alert.Pieces.{concat, concat-chunks}
use bothy.Alert.Dedup.{Deduplicator, decide, should_send}
use bothy.Alert.Quiet.{asks, clears, run, run-quiet}
use bothy.Alert.Sink.{
  said, raised, result_of, is_yes, is_no, combine, composite_alert, post_all, webhook_alert,
}

-- "ab", "cdefgh" and "i", in lines
abbrev three_lines : Chars
three_lines = b'a' ∷ b'b' ∷ b'\n' ∷ b'c' ∷ b'd' ∷ b'e' ∷ b'f' ∷ b'g' ∷ b'h' ∷ b'\n' ∷ b'i' ∷ []

pieces_of_four :
    chunks three_lines 4
    ≡ (b'a' ∷ b'b' ∷ b'\n' ∷ []) ∷ codes "cdef" ∷ (b'g' ∷ b'h' ∷ b'\n' ∷ b'i' ∷ []) ∷ []
unfolding chunks or_blank chunk_lines add_line extend flush if_any cut lines_of is_break push_first
    starts_with
pieces_of_four = refl

concat-chunks_example : concat (chunks three_lines 4) ≡ three_lines
concat-chunks_example = concat-chunks three_lines 4

one_of_two : composite_alert ((λ m. raised) ∷ (λ m. said (some true)) ∷ []) three_lines ≡ some true
unfolding composite_alert combine result_of is_yes is_no
one_of_two = refl

arrives : (webhook_alert 4 (λ piece. true) three_lines).1 ≡ true
unfolding webhook_alert post_all chunks or_blank chunk_lines add_line extend flush if_any cut
    lines_of is_break push_first starts_with
arrives = refl

abbrev fresh : Deduplicator
fresh = record { cooldown = 3600; seen = [] }

first_time : (should_send fresh "disk" 100).1 ≡ true
unfolding should_send decide Dict.get
first_time = refl

run-quiet_example :
    ((later : ℕ)
      → later < 100 + 3600
      → should_send
          (run (should_send fresh "disk" 100).0 (asks "disk" 200 ∷ clears "cpu" ∷ []))
          "disk"
          later
        ≡ (run (should_send fresh "disk" 100).0 (asks "disk" 200 ∷ clears "cpu" ∷ []), false))
    × ((later : ℕ)
        → 100 + 3600 ≤ later
        → (should_send
            (run (should_send fresh "disk" 100).0 (asks "disk" 200 ∷ clears "cpu" ∷ []))
            "disk"
            later).1
          ≡ true)
run-quiet_example =
    run-quiet fresh "disk" 100 (asks "disk" 200 ∷ clears "cpu" ∷ []) (omega arith) first_time
      (omega arith, (refl, tt))
