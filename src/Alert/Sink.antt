-- ===== src/Alert/Sink.antt =====
-- bothy/alert.py, the sinks: what arrives of a message, and what several sinks answer together.
use bothy.Common.{
  ℕ, Bool, true, false, Option, none, some, List, [], ◌∷◌, any, map, not, if◌then◌else◌, ◌≡◌, refl,
  ap, ◌∙◌, Bool-cases, inl, inr,
}
use bothy.Text.{Chars}
use bothy.Alert.Chunks.{chunks}
use bothy.Alert.Pieces.{concat, concat-chunks}

-- an answer of a sink: it delivered or not, or it has no opinion; or it raised
pub data Attempt : Type 0 where
  said : Option Bool → Attempt
  raised : Attempt

abbrev pub discord_limit : ℕ
discord_limit = 1900

abbrev pub slack_limit : ℕ
slack_limit = 7900

-- the pieces that the service took, up to the first that it did not; `post` is its answer
unfoldable pub post_all : (Chars → Bool) → List Chars → List Chars × Bool
post_all post [] = ([], true)
post_all post (piece ∷ pieces) =
    let rest = post_all post pieces in if post piece then (piece ∷ rest.0, rest.1) else ([], false)

-- alert of a webhook's sink
unfoldable pub webhook_alert : ℕ → (Chars → Bool) → Chars → List Chars × Bool
webhook_alert limit post message = post_all post (chunks message limit)

unfoldable pub result_of : Attempt → Option Bool
result_of (said r) = r
result_of raised = some false

unfoldable pub is_yes : Option Bool → Bool
is_yes (some true) = true
is_yes (some false) = false
is_yes none = false

unfoldable pub is_no : Option Bool → Bool
is_no (some true) = false
is_no (some false) = true
is_no none = false

unfoldable pub combine : List (Option Bool) → Option Bool
combine results =
    if any is_yes results then some true else if any is_no results then some false else none

-- alert of a CompositeSink: every sink is asked
unfoldable pub composite_alert : List (Chars → Attempt) → Chars → Option Bool
composite_alert sinks message = combine (map (λ sink. result_of (sink message)) sinks)

-- Alerter.deliver
unfoldable pub deliver : List (Chars → Attempt) → Chars → Bool
deliver sinks message = not (is_no (composite_alert sinks message))

post_all-whole :
    (post : Chars → Bool) (pieces : List Chars)
    → (post_all post pieces).1 ≡ true
    → (post_all post pieces).0 ≡ pieces
unfolding post_all
post_all-whole post [] h = refl
post_all-whole post (piece ∷ pieces) h = elim (Bool-cases (post piece)) [
  | inl taken ↦
      rw (taken, post_all)
        (ap (λ ps. piece ∷ ps) (post_all-whole post pieces (rw (taken, post_all) at h)))
  | inr lost ↦ let g = rw (lost, post_all) at h in cc
]

-- A webhook's alert that answers that it delivered has delivered the message: the pieces that the
-- service took, one behind the other, are the message.
pub webhook_alert-whole :
    (limit : ℕ) (post : Chars → Bool) (message : Chars)
    → (webhook_alert limit post message).1 ≡ true
    → concat (webhook_alert limit post message).0 ≡ message
unfolding webhook_alert
webhook_alert-whole limit post message h =
    ap concat (post_all-whole post (chunks message limit) h) ∙ concat-chunks message limit
