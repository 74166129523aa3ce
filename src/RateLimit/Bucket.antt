-- ===== src/RateLimit/Bucket.antt =====
-- bothy/ratelimit.py, TokenBucket. A token is counted in whole parts, so that a rate, in parts for
-- a tick of the monotonic clock, is a whole number too.
use bothy.Common.{
  ℕ, ◌+◌, ◌-◌, ◌*◌, ◌/◌, ◌≤◌, ◌<◌, min, ◌≡◌, refl, Bool, true, false, List, [], ◌∷◌, arith, leb,
  ◌==◌, if◌then◌else◌,
}

pub record TokenBucket : Type 0 where
  pub capacity : ℕ
  pub rate : ℕ
  pub tokens : ℕ
  pub last : ℕ

-- TokenBucket.__init__
unfoldable pub create : ℕ → ℕ → ℕ → TokenBucket
create capacity rate now = record {
  capacity = capacity;
  rate = rate;
  tokens = capacity;
  last = now;
}

unfoldable pub refill : TokenBucket → ℕ → TokenBucket
refill b now = record b { tokens = min b.capacity (b.tokens + (now - b.last) * b.rate); last = now }

unfoldable pub take : TokenBucket → ℕ → ℕ → TokenBucket × Bool
unfolding refill
take b now cost =
    let r = refill b now in
    if leb cost r.tokens then (record r { tokens = r.tokens - cost }, true) else (r, false)

-- the wait, in whole ticks, rounded down
unfoldable pub retry_after : TokenBucket → ℕ → ℕ
retry_after b cost = if b.rate == 0 then 0 else (cost - b.tokens) / b.rate

-- Takes in a row: a time and a cost each. What was granted is summed.
unfoldable pub take_all : TokenBucket → List (ℕ × ℕ) → record { bucket : TokenBucket; granted : ℕ }
take_all b [] = record { bucket = b; granted = 0 }
take_all b ((now, cost) ∷ rest) =
    let t = take b now cost in
    let later = take_all t.0 rest in
    record { bucket = later.bucket; granted = (if t.1 then cost else 0) + later.granted }

-- The monotonic clock never runs back.
abbrev pub IsForward : ℕ → List (ℕ × ℕ) → Type 0
IsForward last [] = Unit {0}
IsForward last ((now, cost) ∷ rest) = (last ≤ now) × IsForward now rest

take_accounts :
    (b : TokenBucket) (now cost : ℕ)
    → (if (take b now cost).1 then cost else 0) + (take b now cost).0.tokens
      ≤ b.tokens + (now - b.last) * b.rate
unfolding take
take_accounts b now cost = ground arith

last-take : (b : TokenBucket) (now cost : ℕ) → (take b now cost).0.last ≡ now
unfolding take
last-take b now cost = ground arith

rate-take : (b : TokenBucket) (now cost : ℕ) → (take b now cost).0.rate ≡ b.rate
unfolding take
rate-take b now cost = ground arith

span_sum : (a b c r : ℕ) → a ≤ b → b ≤ c → (b - a) * r + (c - b) * r ≡ (c - a) * r
span_sum a b c r h k = grind arith

last_le :
    (b : TokenBucket) (calls : List (ℕ × ℕ))
    → IsForward b.last calls
    → b.last ≤ (take_all b calls).bucket.last
unfolding take_all
last_le b [] f = omega arith
last_le b ((now, cost) ∷ rest) f =
    let t = last-take b now cost in
    omega (arith, t, last_le (take b now cost).0 rest (rw last-take f.1))

granted_accounts :
    (b : TokenBucket) (calls : List (ℕ × ℕ))
    → IsForward b.last calls
    → (take_all b calls).granted + (take_all b calls).bucket.tokens
      ≤ b.tokens + ((take_all b calls).bucket.last - b.last) * b.rate
unfolding take_all
granted_accounts b [] f = omega arith
granted_accounts b ((now, cost) ∷ rest) f =
    let b' = (take b now cost).0 in
    let f' : IsForward b'.last rest = rw last-take f.1 in
    let rest_accounts =
      rw (last-take b now cost, rate-take b now cost) at (granted_accounts b' rest f') in
    omega (
      arith,
      take_accounts b now cost,
      rest_accounts,
      span_sum b.last now (take_all b' rest).bucket.last b.rate f.0
          (rw last-take at (last_le b' rest f')),
    )

-- From a fresh bucket, whatever is asked and whenever, what is granted is at most the burst and
-- what the rate brings from the bucket's making to the last call.
pub take_all-granted-le :
    (capacity rate start : ℕ) (calls : List (ℕ × ℕ))
    → IsForward start calls
    → (take_all (create capacity rate start) calls).granted
      ≤ capacity + ((take_all (create capacity rate start) calls).bucket.last - start) * rate
unfolding create
take_all-granted-le capacity rate start calls f =
    omega (arith, granted_accounts (create capacity rate start) calls f)

div_bound : (n r : ℕ) → 0 < r → n ≤ (n / r + 1) * r
div_bound n r h = grind arith

take_refused :
    (b : TokenBucket) (now cost : ℕ)
    → (take b now cost).1 ≡ false
    → (take b now cost).0 ≡ refill b now
unfolding take
take_refused b now cost h = ground arith

take_enough :
    (b : TokenBucket) (now cost : ℕ)
    → cost ≤ b.capacity
    → cost ≤ b.tokens + (now - b.last) * b.rate
    → (take b now cost).1 ≡ true
unfolding take
take_enough b now cost fits enough = ground arith

capacity-refill : (b : TokenBucket) (now : ℕ) → (refill b now).capacity ≡ b.capacity
unfolding refill
capacity-refill b now = refl

rate-refill : (b : TokenBucket) (now : ℕ) → (refill b now).rate ≡ b.rate
unfolding refill
rate-refill b now = refl

last-refill : (b : TokenBucket) (now : ℕ) → (refill b now).last ≡ now
unfolding refill
last-refill b now = refl

mul_mono : (m n r : ℕ) → m ≤ n → m * r ≤ n * r
mul_mono m n r h = grind arith

retry_after-positive :
    (b : TokenBucket) (cost : ℕ) → 0 < b.rate → retry_after b cost ≡ (cost - b.tokens) / b.rate
unfolding retry_after
retry_after-positive b cost h = ground arith

wait_enough :
    (b : TokenBucket) (now later cost : ℕ)
    → b.last ≡ now
    → 0 < b.rate
    → now + retry_after b cost < later
    → cost ≤ b.tokens + (later - b.last) * b.rate
wait_enough b now later cost at positive waited =
    let wait = (cost - b.tokens) / b.rate in
    omega (
      arith,
      div_bound (cost - b.tokens) b.rate positive,
      mul_mono (wait + 1) (later - b.last) b.rate
          (omega (arith, retry_after-positive b cost positive)),
    )

-- A caller that is refused, and comes back later than the wait that it is told, is granted: the
-- same cost, within the burst, at a positive rate.
pub take_after_wait :
    (b : TokenBucket) (now later cost : ℕ)
    → (take b now cost).1 ≡ false
    → 0 < b.rate
    → cost ≤ b.capacity
    → now + retry_after (take b now cost).0 cost < later
    → (take (take b now cost).0 later cost).1 ≡ true
take_after_wait b now later cost refused positive fits waited =
    let r = refill b now in
    rw (take_refused b now cost refused) (
      take_enough r later cost (rw capacity-refill fits) (
        wait_enough r now later cost (last-refill b now) (rw rate-refill positive)
          (rw (take_refused b now cost refused) at waited)))
