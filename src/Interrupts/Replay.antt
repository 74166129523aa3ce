-- ===== src/Interrupts/Replay.antt =====
-- bothy/interrupts.py, receive: a delivery that comes again.
use bothy.Common.{
  ℕ, ◌+◌, ◌-◌, ◌≤◌, ◌<◌, ◌⊎◌, Option, is_some, take_last, if◌then◌else◌, drop-append, sym, subst,
  suc, String, Bool, true, false, List, [], ◌∷◌, ◌++◌, ◌&&◌, any, not, leb, length, length-append,
  append_assoc, drop, str_eq, str_eq_refl, if_elim, ◌≡◌, refl, inl, inr, arith, ap, ◌∙◌,
}
use bothy.Text.{Chars}
use bothy.Interrupts.Board.{
  Entry, Board, Message, Effect, max_kept, handing, no_live, choose, receive, about, candidates,
  is_explicit, reply_text, add_delivery,
}
use bothy.Interrupts.Handed.{Hands, receive-Hands, no_live-silent, handing-Hands}

-- the delivery is recorded, with at most so many behind it
abbrev IsRecent : String → ℕ → List String → Type 0
IsRecent d n xs =
    (front : List String) × ((back : List String) × (xs ≡ front ++ d ∷ back × length back ≤ n))

-- the cut in front leaves what is recent
take_last-IsRecent :
    (d : String) (n : ℕ) (xs : List String)
    → suc n ≤ max_kept
    → IsRecent d n xs
    → IsRecent d n (take_last max_kept xs)
take_last-IsRecent d n xs few (front, (back, (e, short))) =
    let k = length (front ++ d ∷ back) - max_kept in
    (
      drop k front,
      (
        back,
        (
          ap (take_last max_kept) e
              ∙ drop-append k front (d ∷ back) (omega (arith, length-append front (d ∷ back))),
          short,
        ),
      ),
    )

add_delivery-IsRecent :
    (d new : String) (n : ℕ) (xs : List String)
    → suc (suc n) ≤ max_kept
    → IsRecent d n xs
    → IsRecent d (suc n) (add_delivery xs new)
unfolding add_delivery
add_delivery-IsRecent d new n xs few (front, (back, (e, short))) =
    take_last-IsRecent d (suc n) (if any (str_eq new) xs then xs else xs ++ new ∷ []) few (
      if_elim (IsRecent d (suc n)) (any (str_eq new) xs) xs (xs ++ new ∷ [])
        (λ _. (front, (back, (e, omega arith))))
        (λ _. (
          front,
          (
            back ++ new ∷ [],
            (
              ap (λ ys. ys ++ new ∷ []) e ∙ append_assoc front (d ∷ back) (new ∷ []),
              omega (arith, length-append back (new ∷ [])),
            ),
          ),
        )))

new-IsRecent :
    (d : String) (xs : List String) → any (str_eq d) xs ≡ false → IsRecent d 0 (add_delivery xs d)
unfolding add_delivery
new-IsRecent d xs fresh =
    rw fresh (take_last-IsRecent d 0 (xs ++ d ∷ []) (omega arith) (xs, ([], (refl, omega arith))))

any-recent : (d : String) (front back : List String) → any (str_eq d) (front ++ d ∷ back) ≡ true
any-recent d [] back = rw (str_eq_refl d) refl
any-recent d (x ∷ front) back = ground (arith, any-recent d front back)

-- an outcome that hands an answer on puts its delivery on record
abbrev Records : Board → Message → Entry → Chars → String → Board × List Effect × Bool → Type 0
Records b m e text actor r =
    Hands e text actor r.1 → r.0.deliveries ≡ add_delivery b.deliveries m.delivery

handing-recorded :
    (b : Board) (m : Message) (k : Entry) (taken expired : Bool)
    → taken ≡ true
    → (handing b m k taken expired).0.deliveries ≡ add_delivery b.deliveries m.delivery
unfolding handing
handing-recorded b m k true expired h = refl
handing-recorded b m k false expired h = cc

-- what a call does to the record of deliveries
abbrev Adds : Board → Message → Board × List Effect × Bool → Type 0
Adds b m r =
    (r.0.deliveries ≡ b.deliveries) ⊎ (r.0.deliveries ≡ add_delivery b.deliveries m.delivery)

handing-Adds :
    (b : Board) (m : Message) (k : Entry) (taken expired : Bool)
    → Adds b m (handing b m k taken expired)
unfolding handing
handing-Adds b m k true expired = inr refl
handing-Adds b m k false expired = inl refl

no_live-Adds : (b : Board) (m : Message) (k : Option Entry) → Adds b m (no_live b m k)
unfolding no_live
no_live-Adds b m k =
    if_elim (Adds b m) (not (is_explicit m.body) && not (is_some k)) _ _ (λ _. inl refl)
      (λ _. if_elim (Adds b m) m.allowed _ _ (λ _. inl refl) (λ _. inl refl))

module _ (answer : Entry → Chars → String → Bool) where
  same_answer :
      (k e : Entry) (text said : Chars) (actor spoke : String)
      → e ≡ k
      → text ≡ said
      → actor ≡ spoke
      → answer e text actor ≡ true
      → answer k said spoke ≡ true
  same_answer k e text said actor spoke a b c h = cc

  choose-Records :
      (b : Board) (m : Message) (after : ℕ) (es : List Entry) (e : Entry) (text : Chars)
      (actor : String)
      → answer e text actor ≡ true
      → Records b m e text actor (choose answer b m after es)
  unfolding choose
  choose-Records b m after [] e text actor taken h =
      absurd (no_live-silent b m (about b m) e text actor h)
  choose-Records b m after (k ∷ es) e text actor taken h =
      if_elim (Records b m e text actor) (not m.allowed) _ _
        (λ barred g. elim g [ inl f ↦ absurd (cc) | inr none_left ↦ absurd none_left ])
        (λ free.
          if_elim (Records b m e text actor) (not (is_explicit m.body) && leb 1 (length es)) _ _
            (λ several g. elim g [
              | inl f ↦ absurd (cc)
              | inr more ↦ elim more [ inl f ↦ absurd (cc) | inr none_left ↦ absurd none_left ]
            ])
            (λ single g.
              let got =
                handing-Hands b m k e text actor (answer k (reply_text m.body) m.actor)
                  (leb k.deadline after) g in
              handing-recorded b m k (answer k (reply_text m.body) m.actor) (leb k.deadline after)
                (same_answer k e text (reply_text m.body) actor m.actor got.0 got.1 got.2 taken)))
        h

  receive-recorded :
      (b : Board) (m : Message) (now after : ℕ) (e : Entry) (text : Chars) (actor : String)
      → answer e text actor ≡ true
      → Records b m e text actor (receive answer b m now after)
  unfolding receive
  receive-recorded b m now after e text actor taken =
      if_elim (Records b m e text actor) (m.allowed && any (str_eq m.delivery) b.deliveries) _ _
        (λ seen h. absurd h)
        (λ new. choose-Records b m after (candidates b m now) e text actor taken)

  swallowed :
      (b : Board) (m : Message) (now after : ℕ)
      → m.allowed ≡ true
      → any (str_eq m.delivery) b.deliveries ≡ true
      → receive answer b m now after ≡ (b, [], true)
  unfolding receive
  swallowed b m now after free seen =
      if_elim (λ (r : Board × List Effect × Bool). r ≡ (b, [], true))
        (m.allowed && any (str_eq m.delivery) b.deliveries) _ _ (λ both. refl)
        (λ neither. absurd (cc (rw (free, seen) at neither)))

  choose-Adds :
      (b : Board) (m : Message) (after : ℕ) (es : List Entry)
      → Adds b m (choose answer b m after es)
  unfolding choose
  choose-Adds b m after [] = no_live-Adds b m (about b m)
  choose-Adds b m after (k ∷ es) =
      if_elim (Adds b m) (not m.allowed) _ _ (λ _. inl refl)
        (λ _.
          if_elim (Adds b m) (not (is_explicit m.body) && leb 1 (length es)) _ _ (λ _. inl refl)
            (λ _. handing-Adds b m k _ _))

  receive-Adds : (b : Board) (m : Message) (now after : ℕ) → Adds b m (receive answer b m now after)
  unfolding receive
  receive-Adds b m now after =
      if_elim (Adds b m) (m.allowed && any (str_eq m.delivery) b.deliveries) _ _ (λ _. inl refl)
        (λ _. choose-Adds b m after (candidates b m now))

  -- the calls of receive one after another, each with its clock before and behind the callback
  unfoldable pub receive_all : List (Message × ℕ × ℕ) → Board → Board
  receive_all [] b = b
  receive_all ((m, now, after) ∷ calls) b = receive_all calls (receive answer b m now after).0

  receive_all-recent :
      (d : String) (calls : List (Message × ℕ × ℕ)) (b : Board) (n : ℕ)
      → suc (n + length calls) ≤ max_kept
      → IsRecent d n b.deliveries
      → any (str_eq d) (receive_all calls b).deliveries ≡ true
  unfolding receive_all
  receive_all-recent d [] b n few (front, (back, (e, short))) =
      ap (any (str_eq d)) e ∙ any-recent d front back
  receive_all-recent d ((m, now, after) ∷ calls) b n few recent =
      receive_all-recent d calls _ (suc n) (omega arith) (elim (receive-Adds b m now after) [
        | inl same ↦
            let (front, (back, (e, short))) = recent in (front, (back, (same ∙ e, omega arith)))
        | inr added ↦
            subst (IsRecent d (suc n)) (sym added)
              (add_delivery-IsRecent d m.delivery n b.deliveries (omega arith) recent)
      ])

  -- Once a client has taken an answer, and as long as fewer than 1024 calls of receive came since,
  -- the same delivery from a speaker on the allowlist is swallowed: nothing is handed on, recorded or
  -- replied, and the board stays as it is.
  pub receive-again :
      (b : Board) (m again : Message) (now after now' after' : ℕ) (e : Entry) (text : Chars)
      (actor : String) (calls : List (Message × ℕ × ℕ))
      → Hands e text actor (receive answer b m now after).1
      → answer e text actor ≡ true
      → again.allowed ≡ true
      → again.delivery ≡ m.delivery
      → length calls < 1024
      → let b' = receive_all calls (receive answer b m now after).0 in
        receive answer b' again now' after' ≡ (b', [], true)
  receive-again b m again now after now' after' e text actor calls h taken free same few =
      let fresh = (receive-Hands answer b m now after e text actor h).1 in
      let added = receive-recorded b m now after e text actor taken h in
      let recent =
        subst (IsRecent m.delivery 0) (sym added) (new-IsRecent m.delivery b.deliveries fresh) in
      swallowed (receive_all calls (receive answer b m now after).0) again now' after' free (
        ap (λ d. any (str_eq d) (receive_all calls (receive answer b m now after).0).deliveries)
          same
        ∙ receive_all-recent m.delivery calls _ 0 (omega arith) recent)
