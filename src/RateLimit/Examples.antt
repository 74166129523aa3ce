-- ===== src/RateLimit/Examples.antt =====
-- bothy/ratelimit.py: tests, and the theorems at concrete buckets.
use bothy.Common.{ℕ, String, ◌+◌, ◌-◌, ◌*◌, ◌≤◌, ◌<◌, ◌≡◌, refl, false, List, [], ◌∷◌, arith, none}
use bothy.Dict
use bothy.RateLimit.Bucket.{TokenBucket, create, take, retry_after, take_all, take_all-granted-le}
use bothy.RateLimit.Limiter.{RateLimiter, caller_key}

abbrev three_asks : List (ℕ × ℕ)
three_asks = (10, 4) ∷ (11, 4) ∷ (15, 4) ∷ []

three_granted : (take_all (create 8 1 10) three_asks).granted ≡ 12
unfolding take_all create take
three_granted = refl

take_all-granted-le_example :
    (take_all (create 8 1 10) three_asks).granted
    ≤ 8 + ((take_all (create 8 1 10) three_asks).bucket.last - 10) * 1
take_all-granted-le_example = take_all-granted-le 8 1 10 three_asks (omega arith)

abbrev drained : TokenBucket
drained = record { capacity = 8; rate = 2; tokens = 1; last = 10 }

refused_at_ten : (take drained 10 4).1 ≡ false
unfolding take
refused_at_ten = refl

long_enough : 10 + retry_after (take drained 10 4).0 4 < 12
unfolding take retry_after
long_enough = omega arith

abbrev limiter : ℕ → RateLimiter
limiter n = record {
  route_burst = 60000000000;
  route_rate = 2000;
  caller_burst = 20000000000;
  caller_rate = 500;
  max_callers = n;
  routes = [];
  callers = [];
}

abbrev flood : List (ℕ × String × String)
flood = (1, "/a", "x") ∷ (2, "/a", "y") ∷ []

nobody_known : Dict.get (limiter 0).callers (caller_key "/a" "x") ≡ none
unfolding Dict.get
nobody_known = refl
