-- ===== src/Alert/Dedup.antt =====
-- bothy/alert.py, Deduplicator and Alerter: what is said again, and what is not. A time is the
-- monotonic clock's, in microseconds.
use bothy.Common.{ℕ, ◌-◌, String, Bool, true, false, Option, none, some, [], ltb, if◌then◌else◌}
use bothy.Dict
use bothy.Dict.{Dict}

pub record Deduplicator : Type 0 where
  pub cooldown : ℕ
  pub seen : Dict ℕ

unfoldable pub new_deduplicator : ℕ → Deduplicator
new_deduplicator cooldown = record { cooldown = cooldown; seen = [] }

unfoldable pub noted : Deduplicator → String → ℕ → Deduplicator
noted d key now = record d { seen = Dict.set d.seen key now }

unfoldable pub decide : Deduplicator → String → ℕ → Option ℕ → Deduplicator × Bool
decide d key now none = (noted d key now, true)
decide d key now (some last) =
    if ltb (now - last) d.cooldown then (d, false) else (noted d key now, true)

unfoldable pub should_send : Deduplicator → String → ℕ → Deduplicator × Bool
should_send d key now = decide d key now (Dict.get d.seen key)

unfoldable pub clear : Deduplicator → String → Deduplicator
clear d key = record d { seen = Dict.remove d.seen key }

-- `fingerprint` is the key of a job and an error: Python's regular expressions and SHA-256
module _ (fingerprint : String → String → String) where
  -- the answer is whether a notice goes out; whether it arrives is not asked
  unfoldable pub incident : Deduplicator → String → String → ℕ → Deduplicator × Bool
  incident d job error now = should_send d (fingerprint job error) now

  unfoldable pub resolved : Deduplicator → String → String → Deduplicator
  resolved d job error = clear d (fingerprint job error)
