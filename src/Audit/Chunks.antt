-- ===== src/Audit/Chunks.antt =====
-- bothy/audit.py, AuditLog._tail_tip: the live file's bytes, read backwards in chunks until the last
-- complete line is in hand. The source's chunk has 4096 bytes; a byte is its code.
use bothy.Common.{
  ℕ, zero, suc, ◌-◌, ◌≤◌, min, true, false, Option, none, some, List, [], ◌∷◌, ◌++◌, ◌==◌, ◌&&◌,
  ◌||◌, ltb, take, drop, length, length-drop, append_assoc, append_nil, drop-append, if◌then◌else◌,
  ◌≡◌, refl, sym, subst, ap, ◌∙◌, inl, inr, Option-cases, arith,
}

-- `tail.rfind(b"\n")`
unfoldable pub rfind : List ℕ → Option ℕ
rfind [] = none
rfind (b ∷ bs) = elim (rfind bs) [ some n ↦ some (suc n) | none ↦ if b == 10 then some 0 else none ]

-- `.rstrip(b"\r\n")`
unfoldable pub rstrip : List ℕ → List ℕ
rstrip [] = []
rstrip (b ∷ bs) = elim (rstrip bs) [
  | [] ↦ if b == 10 || b == 13 then [] else b ∷ []
  | c ∷ cs ↦ b ∷ c ∷ cs
]

-- `complete.rfind(b"\n") + 1`
unfoldable pub start_of : Option ℕ → ℕ
start_of none = 0
start_of (some n) = suc n

-- one turn's look at the bytes from `position` on: the last complete line, if it is all there
unfoldable pub look : ℕ → List ℕ → Option (List ℕ)
look position tail = elim (rfind tail) [
  | none ↦ none
  | some end ↦
      let complete = rstrip (take end tail) in
      let start = start_of (rfind complete) in
      if start == 0 && ltb 0 position then none else some (drop start complete)
]

-- the loop, with a turn of fuel for each byte; a file with no complete line has no last one
unfoldable pub read_back : ℕ → ℕ → List ℕ → ℕ → List ℕ → Option (List ℕ)
read_back zero chunk file position tail = none
read_back (suc fuel) chunk file position tail =
    let size = min position chunk in
    let below = position - size in
    let longer = take size (drop below file) ++ tail in
    let rest = read_back fuel chunk file below longer in
    if position == 0 then none else elim (look below longer) [ none ↦ rest | some line ↦ some line ]

-- the last complete line of a file that is read in chunks
unfoldable pub last_line : ℕ → List ℕ → Option (List ℕ)
last_line chunk file = read_back (length file) chunk file (length file) []

-- an index behind a list that is put in front
abbrev past : List ℕ → ℕ → ℕ
past [] n = n
past (x ∷ xs) n = suc (past xs n)

rfind-append : (xs ys : List ℕ) (n : ℕ) → rfind ys ≡ some n → rfind (xs ++ ys) ≡ some (past xs n)
unfolding rfind
rfind-append [] ys n h = h
rfind-append (x ∷ xs) ys n h = rw (rfind-append xs ys n h) refl

rstrip-append :
    (xs ys : List ℕ) (c : ℕ) (cs : List ℕ) → rstrip ys ≡ c ∷ cs → rstrip (xs ++ ys) ≡ xs ++ c ∷ cs
unfolding rstrip
rstrip-append [] ys c cs h = h
rstrip-append (x ∷ []) ys c cs h = rw h refl
rstrip-append (x ∷ y ∷ xs) ys c cs h = rw (rstrip-append (y ∷ xs) ys c cs h) refl

take-past : (xs ys : List ℕ) (n : ℕ) → take (past xs n) (xs ++ ys) ≡ xs ++ take n ys
take-past [] ys n = refl
take-past (x ∷ xs) ys n = ap (λ zs. x ∷ zs) (take-past xs ys n)

drop-past : (xs ys : List ℕ) (n : ℕ) → drop (past xs n) (xs ++ ys) ≡ drop n ys
drop-past [] ys n = refl
drop-past (x ∷ xs) ys n = drop-past xs ys n

past-suc : (xs : List ℕ) (n : ℕ) → past xs (suc n) ≡ suc (past xs n)
past-suc [] n = refl
past-suc (x ∷ xs) n = ap suc (past-suc xs n)

some_at : {A : Type 0} (x y : A) → some x ≡ some y → x ≡ y
some_at x y h = cc

suc-is_not_zero : (n : ℕ) → (suc n == 0) ≡ false
suc-is_not_zero n = ground arith

zero-lt_suc : (n : ℕ) → ltb 0 (suc n) ≡ true
zero-lt_suc n = ground arith

-- a stripped text that has a line's end is not empty, and stands behind what is put in front
stripped-append :
    (xs ys : List ℕ) (n : ℕ) → rfind (rstrip ys) ≡ some n → rstrip (xs ++ ys) ≡ xs ++ rstrip ys
unfolding rfind
stripped-append xs ys n h = go (rstrip ys) refl h
  where
    go : (cs : List ℕ) → rstrip ys ≡ cs → rfind cs ≡ some n → rstrip (xs ++ ys) ≡ xs ++ cs
    go [] e g = cc
    go (c ∷ cs) e g = rstrip-append xs ys c cs e

module _ (x : ℕ) (xs ys line : List ℕ) (end n : ℕ) (ends : rfind ys ≡ some end)
    (starts : rfind (rstrip (take end ys)) ≡ some n) where
  look-inside : look (suc (length xs)) ys ≡ some line → drop (suc n) (rstrip (take end ys)) ≡ line
  unfolding look start_of
  look-inside h = some_at _ _ (rw (ends, starts, suc-is_not_zero n, look, start_of) at h)

  look-lifted : look 0 (x ∷ xs ++ ys) ≡ some (drop (suc n) (rstrip (take end ys)))
  unfolding look start_of rfind rstrip
  look-lifted =
      let cut_off =
        ap rstrip (take-past (x ∷ xs) ys end) ∙ stripped-append (x ∷ xs) (take end ys) n starts in
      let found = rfind-append (x ∷ xs) (rstrip (take end ys)) n starts in
      let behind =
        ap (λ k. drop k (x ∷ xs ++ rstrip (take end ys))) (sym (past-suc (x ∷ xs) n))
        ∙ drop-past (x ∷ xs) (rstrip (take end ys)) (suc n) in
      rw (rfind-append (x ∷ xs) ys end ends, cut_off, found, suc-is_not_zero (past (x ∷ xs) n))
        (ap some behind)

-- what lies in front of the bytes at hand makes no difference to what is found in them
look-append :
    (xs ys line : List ℕ) → look (length xs) ys ≡ some line → look 0 (xs ++ ys) ≡ some line
unfolding look start_of
look-append [] ys line h = h
look-append (x ∷ xs) ys line h = elim (Option-cases (rfind ys)) [
  | inl no_end ↦ let g = rw (no_end, look) at h in cc
  | inr (end, e) ↦ elim (Option-cases (rfind (rstrip (take end ys)))) [
    | inl no_start ↦ let g = rw (e, no_start, zero-lt_suc (length xs), look, start_of) at h in cc
    | inr (n, s) ↦
        look-lifted x xs ys line end n e s ∙ ap some (look-inside x xs ys line end n e s h)
  ]
]

take-drop : (k : ℕ) (xs : List ℕ) → take k xs ++ drop k xs ≡ xs
take-drop zero xs = refl
take-drop (suc k) [] = refl
take-drop (suc k) (x ∷ xs) = ap (λ zs. x ∷ zs) (take-drop k xs)

length-take : (k : ℕ) (xs : List ℕ) → k ≤ length xs → length (take k xs) ≡ k
length-take zero xs h = refl
length-take (suc k) [] h = absurd (omega arith)
length-take (suc k) (x ∷ xs) h = ap suc (length-take k xs (omega arith))

take-append : (k : ℕ) (xs ys : List ℕ) → k ≡ length xs → take k (xs ++ ys) ≡ xs
take-append zero [] ys h = refl
take-append zero (x ∷ xs) ys h = absurd (omega arith)
take-append (suc k) [] ys h = absurd (omega arith)
take-append (suc k) (x ∷ xs) ys h = ap (λ zs. x ∷ zs) (take-append k xs ys (omega arith))

-- the bytes at hand with one chunk more
chunk-append :
    (p size : ℕ) (file front tail : List ℕ)
    → file ≡ front ++ tail
    → p ≡ length front
    → size ≤ p
    → take size (drop (p - size) file) ++ tail ≡ drop (p - size) front ++ tail
chunk-append p size file front tail whole at fits =
    ap (λ xs. take size (drop (p - size) xs) ++ tail) whole
    ∙ ap (λ xs. take size xs ++ tail) (drop-append (p - size) front tail (omega arith))
    ∙ ap (λ xs. xs ++ tail)
        (take-append size (drop (p - size) front) tail
          (omega (arith, length-drop (p - size) front)))

read_back-look :
    (fuel chunk p : ℕ) (file front tail : List ℕ)
    → file ≡ front ++ tail
    → p ≡ length front
    → p ≤ fuel
    → 1 ≤ chunk
    → look p tail ≡ none
    → read_back fuel chunk file p tail ≡ look 0 file
unfolding read_back
read_back-look zero chunk zero file [] tail whole at enough positive not_yet =
    sym (ap (look 0) whole ∙ not_yet)
read_back-look (suc fuel) chunk zero file [] tail whole at enough positive not_yet =
    sym (ap (look 0) whole ∙ not_yet)
read_back-look fuel chunk zero file (x ∷ xs) tail whole at enough positive not_yet =
    absurd (omega arith)
read_back-look zero chunk (suc p) file front tail whole at enough positive not_yet =
    absurd (omega arith)
read_back-look (suc fuel) chunk (suc p) file front tail whole at enough positive not_yet =
    let size = min (suc p) chunk in
    let below = suc p - size in
    let near = drop below front ++ tail in
    let longer = chunk-append (suc p) size file front tail whole at (omega arith) in
    let in_front = length-take below front (omega arith) in
    let split : file ≡ take below front ++ near =
      whole
      ∙ ap (λ xs. xs ++ tail) (sym (take-drop below front))
      ∙ append_assoc (take below front) (drop below front) tail in
    let next : (elim (look below near) [
      | none ↦ read_back fuel chunk file below near
      | some line ↦ some line
    ])
        ≡ look 0 file =
      elim (Option-cases (look below near)) [
        | inl more ↦ rw more (
            read_back-look fuel chunk below file (take below front) near split (sym in_front)
              (omega arith) positive more)
        | inr (line, found) ↦
            let here = subst (λ k. look k near ≡ some line) (sym in_front) found in
            rw found (sym (ap (look 0) split ∙ look-append (take below front) near line here))
      ] in
    rw (suc-is_not_zero p, read_back)
      (subst
        (λ l.
          (elim (look below l) [ none ↦ read_back fuel chunk file below l | some line ↦ some line ])
          ≡ look 0 file)
        (sym longer) next)

-- Whatever the size of the chunks, at least one byte, the loop that reads a file backwards stops with
-- the last complete line that a single look at the whole file finds, or with none where that finds none.
pub last_line-look : (chunk : ℕ) (file : List ℕ) → 1 ≤ chunk → last_line chunk file ≡ look 0 file
unfolding last_line look rfind
last_line-look chunk file positive =
    read_back-look (length file) chunk (length file) file file [] (sym (append_nil file)) refl
      (omega arith) positive refl
