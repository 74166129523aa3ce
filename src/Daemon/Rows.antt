-- ===== src/Daemon/Rows.antt =====
-- bothy/wake.py, WakeStore: what a mark and an append do to the one wake with an id.
use bothy.Common.{
  ℕ, ◌≤◌, String, false, List, [], ◌∷◌, ◌++◌, ◌≡◌, refl, ap, ◌∙◌, arith, filter, str_eq,
  str_eq_refl, if◌then◌else◌,
}
use bothy.Daemon.Queue.{Wake, has_id, mark, pending}
use bothy.Daemon.Pass.{Pass, marked}

-- the wakes with the id
abbrev pub row : String → List Wake → List Wake
row i queue = filter (has_id i) queue

-- an update that leaves the id
abbrev pub Fixes : (Wake → Wake) → Type 0
Fixes fields = (v : Wake) → (fields v).id ≡ v.id

pub row-mark :
    (i j : String) (fields : Wake → Wake) (queue : List Wake)
    → Fixes fields
    → row i (mark j fields queue) ≡ mark j fields (row i queue)
unfolding mark has_id
row-mark i j fields [] same = refl
row-mark i j fields (w ∷ queue) same = ground (arith, row-mark i j fields queue same, same w)

pub row-append : (i : String) (xs ys : List Wake) → row i (xs ++ ys) ≡ row i xs ++ row i ys
unfolding has_id
row-append i [] ys = refl
row-append i (w ∷ xs) ys = ground (arith, row-append i xs ys)

pub row-pending : (i : String) (queue : List Wake) → row i (pending queue) ≡ pending (row i queue)
unfolding pending has_id
row-pending i [] = refl
row-pending i (w ∷ queue) = ground (arith, row-pending i queue)

-- the queue has one wake with the id, and the clock has come to `t`
abbrev pub Keeps : String → Wake → ℕ → Pass → Type 0
Keeps i v t p = (row i p.queue ≡ (v ∷ [])) × (v.id ≡ i) × (t ≤ p.now)

mark-one :
    (i j : String) (v : Wake) (fields : Wake → Wake)
    → v.id ≡ i
    → mark j fields (v ∷ []) ≡ ((if str_eq i j then fields v else v) ∷ [])
unfolding mark has_id
mark-one i j v fields at = ap (λ k. (if str_eq k j then fields v else v) ∷ []) at

pub marked-other :
    (i j : String) (v : Wake) (t : ℕ) (fields : Wake → Wake) (p : Pass)
    → Fixes fields
    → str_eq i j ≡ false
    → Keeps i v t p
    → Keeps i v t (marked j fields p)
unfolding marked
marked-other i j v t fields p same other (found, at, time) = (
  row-mark i j fields p.queue same
      ∙ ap (mark j fields) found
      ∙ mark-one i j v fields at
      ∙ ap (λ b. (if b then fields v else v) ∷ []) other,
  at,
  time,
)

pub marked-own :
    (i : String) (v : Wake) (t : ℕ) (fields : Wake → Wake) (p : Pass)
    → Fixes fields
    → Keeps i v t p
    → Keeps i (fields v) t (marked i fields p)
unfolding marked
marked-own i v t fields p same (found, at, time) = (
  row-mark i i fields p.queue same
      ∙ ap (mark i fields) found
      ∙ mark-one i i v fields at
      ∙ ap (λ b. (if b then fields v else v) ∷ []) (str_eq_refl i),
  same v ∙ at,
  time,
)
