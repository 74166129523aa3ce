-- ===== src/RateLimit/Limiter.antt =====
-- bothy/ratelimit.py, RateLimiter: a bucket for each route and one for each caller of a route.
-- Each call holds the lock and reads the clock once.
use bothy.Common.{
  ℕ, ◌/◌, String, Bool, true, false, none, some, [], ◌∷◌, leb, if◌then◌else◌, length,
  take as take_first, value_or, str_append,
}
use bothy.Dict
use bothy.Dict.{Dict}
use bothy.RateLimit.Bucket.{TokenBucket, create, take, retry_after}

pub record RateLimiter : Type 0 where
  pub route_burst : ℕ
  pub route_rate : ℕ
  pub caller_burst : ℕ
  pub caller_rate : ℕ
  pub max_callers : ℕ
  pub routes : Dict TokenBucket
  pub callers : Dict TokenBucket

-- one token, in parts
abbrev pub token : ℕ
token = 1000000000

pub data Limit : Type 0 where
  unlimited by_route by_caller : Limit

pub record Verdict : Type 0 where
  pub allowed : Bool
  pub retry_after : ℕ
  pub which : Limit

-- `sorted(items, key=lambda item: item[1]._last)`: stable, oldest touched first
unfoldable pub insert_by_last : String × TokenBucket → Dict TokenBucket → Dict TokenBucket
insert_by_last e [] = e ∷ []
insert_by_last e (x ∷ xs) = if leb e.1.last x.1.last then e ∷ x ∷ xs else x ∷ insert_by_last e xs

unfoldable pub sort_by_last : Dict TokenBucket → Dict TokenBucket
unfolding insert_by_last
sort_by_last [] = []
sort_by_last (e ∷ es) = insert_by_last e (sort_by_last es)

-- `for name, _ in stale: self._callers.pop(name, None)`
unfoldable pub drop_all : Dict TokenBucket → Dict TokenBucket → Dict TokenBucket
drop_all [] d = d
drop_all ((name, b) ∷ stale) d = drop_all stale (Dict.remove d name)

unfoldable pub make_room : ℕ → Dict TokenBucket → Dict TokenBucket
make_room max_callers callers =
    if leb max_callers (length callers)
    then drop_all (take_first (max_callers / 4) (sort_by_last callers)) callers
    else callers

-- `_caller_bucket`: the table that it leaves, and the bucket under the key
unfoldable pub caller_bucket : RateLimiter → ℕ → String → Dict TokenBucket × TokenBucket
caller_bucket l now key = elim (Dict.get l.callers key) [
  | some b ↦ (l.callers, b)
  | none ↦
      let b = create l.caller_burst l.caller_rate now in
      (Dict.set (make_room l.max_callers l.callers) key b, b)
]

-- f"{route}|{caller}"
unfoldable pub caller_key : String → String → String
caller_key route caller = str_append route (str_append "|" caller)

unfoldable pub check : RateLimiter → ℕ → String → String → RateLimiter × Verdict
check l now route caller =
    let key = caller_key route caller in
    let route_bucket = value_or (Dict.get l.routes route) (create l.route_burst l.route_rate now) in
    let found = caller_bucket l now key in
    let (route_left, route_ok) = take route_bucket now token in
    let (caller_left, caller_ok) = take found.1 now token in
    let routes = Dict.set l.routes route route_left in
    if route_ok
    then (if caller_ok
        then (
          record l { routes = routes; callers = Dict.set found.0 key caller_left },
          record { allowed = true; retry_after = 0; which = unlimited },
        )
        else (
          record l { routes = routes; callers = Dict.set found.0 key caller_left },
          record {
            allowed = false;
            retry_after = retry_after caller_left token;
            which = by_caller;
          },
        ))
    else (
      record l { routes = routes; callers = found.0 },
      record { allowed = false; retry_after = retry_after route_left token; which = by_route },
    )
