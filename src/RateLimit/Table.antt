-- ===== src/RateLimit/Table.antt =====
-- bothy/ratelimit.py: how many callers the limiter tracks.
use bothy.Common.{
  ℕ, suc, ◌+◌, ◌/◌, ◌≤◌, ◌<◌, String, ◌≡◌, refl, true, none, some, List, [], ◌∷◌, arith, leb,
  length, take as take_first, inl, inr, Bool-cases, Option-cases, zero, str_eq_refl, leb→le,
}
use bothy.Dict
use bothy.Dict.{Dict}
use bothy.RateLimit.Bucket.{TokenBucket, create, take}
use bothy.RateLimit.Limiter.{
  RateLimiter, token, insert_by_last, sort_by_last, drop_all, make_room, caller_bucket, caller_key,
  check,
}

length-drop_all-le : (stale d : Dict TokenBucket) → length (drop_all stale d) ≤ length d
unfolding drop_all
length-drop_all-le [] d = omega arith
length-drop_all-le ((name, b) ∷ stale) d =
    omega (arith, length-drop_all-le stale (Dict.remove d name), Dict.length-remove-le d name)

-- the first of the sorted entries stands in the table
abbrev HeadIn : Dict TokenBucket → Dict TokenBucket → Type 0
HeadIn [] d = length d ≡ 0
HeadIn ((k, b) ∷ es) d = Dict.contains d k ≡ true

insert_by_last-HeadIn :
    (k : String) (b : TokenBucket) (es d : Dict TokenBucket)
    → HeadIn es d
    → HeadIn (insert_by_last (k, b) es) ((k, b) ∷ d)
unfolding insert_by_last Dict.contains Dict.get
insert_by_last-HeadIn k b [] d h = ground (arith, str_eq_refl k)
insert_by_last-HeadIn k b ((j, c) ∷ es) d h = elim (Bool-cases (leb b.last c.last)) [
  | inl e ↦ rw e (ground (arith, str_eq_refl k))
  | inr e ↦ rw e (ground (arith, str_eq_refl k))
]

sort_by_last-HeadIn : (d : Dict TokenBucket) → HeadIn (sort_by_last d) d
unfolding sort_by_last
sort_by_last-HeadIn [] = refl
sort_by_last-HeadIn ((k, b) ∷ d) =
    insert_by_last-HeadIn k b (sort_by_last d) d (sort_by_last-HeadIn d)

contains-get :
    (d : Dict TokenBucket) (k : String)
    → Dict.contains d k ≡ true
    → (v : TokenBucket) × (Dict.get d k ≡ some v)
unfolding Dict.contains
contains-get d k h = ground arith

-- Dropping at least one of the sorted entries makes room for one.
drop_all-room :
    (n : ℕ) (es d : Dict TokenBucket)
    → HeadIn es d
    → 0 < length d
    → 0 < n
    → length (drop_all (take_first n es) d) + 1 ≤ length d
unfolding drop_all
drop_all-room zero es d h some_d some_n = absurd (omega arith)
drop_all-room (suc n) [] d h some_d some_n = absurd (omega arith)
drop_all-room (suc n) ((k, b) ∷ es) d h some_d some_n =
    let (v, there) = contains-get d k h in
    omega (
      arith,
      length-drop_all-le (take_first n es) (Dict.remove d k),
      Dict.length-remove-present d k v there,
    )

length-make_room :
    (max_callers : ℕ) (callers : Dict TokenBucket)
    → 4 ≤ max_callers
    → length callers ≤ max_callers
    → length (make_room max_callers callers) + 1 ≤ max_callers
unfolding make_room
length-make_room max_callers callers four bounded =
    elim (Bool-cases (leb max_callers (length callers))) [
      | inl full ↦ rw full (
          omega (
            arith,
            drop_all-room (max_callers / 4) (sort_by_last callers) callers
                (sort_by_last-HeadIn callers) (omega (arith, leb→le _ _ full)) (omega arith),
          ))
      | inr room ↦ rw room (ground arith)
    ]

length-caller_bucket :
    (l : RateLimiter) (now : ℕ) (key : String)
    → 4 ≤ l.max_callers
    → length l.callers ≤ l.max_callers
    → length (caller_bucket l now key).0 ≤ l.max_callers
unfolding caller_bucket
length-caller_bucket l now key four bounded = elim (Option-cases (Dict.get l.callers key)) [
  | inl fresh ↦
      rw (fresh, caller_bucket)
        (omega (
          arith,
          length-make_room l.max_callers l.callers four bounded,
          Dict.length-set-le (make_room l.max_callers l.callers) key
              (create l.caller_burst l.caller_rate now),
        ))
  | inr (b, known) ↦ rw (known, caller_bucket) bounded
]

-- the caller's bucket is in the table that `caller_bucket` leaves
caller_bucket-present :
    (l : RateLimiter) (now : ℕ) (key : String)
    → Dict.get (caller_bucket l now key).0 key ≡ some (caller_bucket l now key).1
unfolding caller_bucket
caller_bucket-present l now key = elim (Option-cases (Dict.get l.callers key)) [
  | inl fresh ↦ rw (fresh, caller_bucket, Dict.get-set, str_eq_refl)
  | inr (b, known) ↦ rw (known, caller_bucket, known)
]

make_room-small :
    (max_callers : ℕ) (callers : Dict TokenBucket)
    → max_callers < 4
    → make_room max_callers callers ≡ callers
unfolding make_room drop_all
make_room-small max_callers callers small =
    let e : max_callers / 4 ≡ 0 = omega arith in rw e (ground arith)

length-small_bucket :
    (l : RateLimiter) (now : ℕ) (key : String)
    → l.max_callers < 4
    → Dict.get l.callers key ≡ none
    → length (caller_bucket l now key).0 ≡ length l.callers + 1
unfolding caller_bucket
length-small_bucket l now key small unknown =
    rw (unknown, caller_bucket, make_room-small l.max_callers l.callers small)
      (Dict.length-set_absent l.callers key _ unknown)

module _ (l : RateLimiter) (now : ℕ) (route caller : String) where
  max_callers-check : (check l now route caller).0.max_callers ≡ l.max_callers
  unfolding check
  max_callers-check = ground arith

  length-check :
      4 ≤ l.max_callers
      → length l.callers ≤ l.max_callers
      → length (check l now route caller).0.callers ≤ l.max_callers
  unfolding check
  length-check four bounded =
      let key = caller_key route caller in
      let found = caller_bucket l now key in
      ground (
        arith,
        length-caller_bucket l now key four bounded,
        Dict.length-set_present found.0 key (take found.1 now token).0 found.1
            (caller_bucket-present l now key),
      )

  -- With a bound below four nothing is ever dropped: a request of a caller that is not tracked makes
  -- the table longer by one, however full it is.
  pub check-grows_small_table :
      l.max_callers < 4
      → Dict.get l.callers (caller_key route caller) ≡ none
      → length (check l now route caller).0.callers ≡ length l.callers + 1
  unfolding check
  check-grows_small_table small unknown =
      let key = caller_key route caller in
      let found = caller_bucket l now key in
      ground (
        arith,
        length-small_bucket l now key small unknown,
        Dict.length-set_present found.0 key (take found.1 now token).0 found.1
            (caller_bucket-present l now key),
      )

-- Requests in a row: a time, a route and a caller each.
unfoldable pub check_all : RateLimiter → List (ℕ × String × String) → RateLimiter
check_all l [] = l
check_all l ((now, route, caller) ∷ rest) = check_all (check l now route caller).0 rest

-- With room for four callers at least, the table of callers never outgrows its bound, whatever the
-- flood of requests.
pub check_all-bounded :
    (l : RateLimiter) (requests : List (ℕ × String × String))
    → 4 ≤ l.max_callers
    → length l.callers ≤ l.max_callers
    → length (check_all l requests).callers ≤ l.max_callers
unfolding check_all
check_all-bounded l [] four bounded = bounded
check_all-bounded l ((now, route, caller) ∷ rest) four bounded =
    let l' = (check l now route caller).0 in
    let same = max_callers-check l now route caller in
    rw same at (
      check_all-bounded l' rest (rw same four)
        (rw same (length-check l now route caller four bounded)))
