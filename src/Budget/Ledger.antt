-- ===== src/Budget/Ledger.antt =====
-- bothy/budget.py, BudgetLedger: reservations and spend, durable across a crash. One call is one
-- transaction under the ledger's lock. It reads the clock once, at `Env.now`, in microseconds.
use bothy.Common.{
  ℕ, ◌+◌, ◌/◌, max, String, Bool, true, false, Option, none, some, List, [], ◌∷◌, ltb, ◌==◌, str_eq,
  if◌then◌else◌, length, Result, ok, err, value_or,
}
use bothy.Dict
use bothy.Dict.{Dict}
use bothy.Budget.Policy.{api, subscription, BudgetPolicy, unit, per_run, ceiling, cap_name}

pub record Reservation : Type 0 where
  pub id : String
  pub run_id : String
  pub amount : ℕ
  pub unit : String
  pub reserved_at : ℕ
  pub expires_at : ℕ
  pub actual : ℕ

-- the larger of promise and spend
unfoldable pub held : Reservation → ℕ
held r = max r.amount r.actual

-- what the JSON file holds
pub record State : Type 0 where
  pub day : ℕ
  pub accrued : ℕ
  pub reservations : Dict Reservation
  pub recovered : Bool

-- the file: not there, not readable as an object, or a state
pub data File : Type 0 where
  missing corrupt : File
  saved : State → File

-- what a call meets: the clock, the id that `ids.reservation_id` mints, and whether the disk takes
-- the write
pub record Env : Type 0 where
  pub now : ℕ
  pub fresh_id : String
  pub disk_ok : Bool

pub record BudgetRefused : Type 0 where
  pub cap : String
  pub limit : ℕ
  pub current : ℕ
  pub requested : ℕ
  pub unit : String
  pub resets_at : Option String

pub data LedgerError : Type 0 where
  refused : BudgetRefused → LedgerError
  needs_observed_used : LedgerError
  os_error : LedgerError

abbrev pub Call : Type 0 → Type 0
Call A = File × Result LedgerError A

-- the UTC day of an instant
unfoldable pub today : ℕ → ℕ
today now = now / 86400000000

unfoldable pub load : ℕ → File → State
unfolding today
load now missing = record { day = today now; accrued = 0; reservations = []; recovered = false }
load now corrupt = record { day = today now; accrued = 0; reservations = []; recovered = true }
load now (saved s) = s

-- the temporary file is fsynced and then replaces the old one; a failure leaves the old one
unfoldable pub save : {A : Type 0} → Env → File → State → A → Call A
save env f s a = if env.disk_ok then (saved s, ok a) else (f, err os_error)

unfoldable pub roll_day : ℕ → State → State
unfolding today
roll_day now s = if s.day == today now then s else record s { day = today now; accrued = 0 }

unfoldable pub outstanding : State → ℕ
unfolding held Dict.sum_values
outstanding s = Dict.sum_values held s.reservations

-- in api mode the ledger counts the spend itself
unfoldable pub accrue : BudgetPolicy → ℕ → ℕ → ℕ
accrue p accrued spent = elim p.mode [ api ↦ accrued + spent | subscription ↦ accrued ]

-- One pass over the rows: those that `gone` picks are popped and accrued at what they held.
unfoldable pub reap :
    BudgetPolicy
    → (Reservation → Bool)
    → ℕ
    → Dict Reservation
    → record { rows : Dict Reservation; accrued : ℕ; reaped : List Reservation }
unfolding accrue held
reap p gone accrued [] = record { rows = []; accrued = accrued; reaped = [] }
reap p gone accrued ((key, r) ∷ rows) =
    let here = gone r in
    let rest = reap p gone (if here then accrue p accrued (held r) else accrued) rows in
    if here
    then record { rows = rest.rows; accrued = rest.accrued; reaped = r ∷ rest.reaped }
    else record { rows = (key, r) ∷ rest.rows; accrued = rest.accrued; reaped = rest.reaped }

unfoldable pub sweep : BudgetPolicy → (Reservation → Bool) → State → State × List Reservation
unfolding reap
sweep p gone s =
    let out = reap p gone s.accrued s.reservations in
    (record s { accrued = out.accrued; reservations = out.rows }, out.reaped)

-- clock.age_seconds(expires_at) > 0
unfoldable pub is_expired : ℕ → Reservation → Bool
is_expired now r = ltb r.expires_at now

unfoldable pub drop_expired : BudgetPolicy → ℕ → State → State × List Reservation
drop_expired p now = sweep p (is_expired now)

-- the figure that the mode trusts: our own total, or Codex's
unfoldable pub base : BudgetPolicy → State → Option ℕ → Option ℕ
base p s observed_used = elim p.mode [ api ↦ some s.accrued | subscription ↦ observed_used ]

-- the state that `reserve` decides on
unfoldable pub current : BudgetPolicy → ℕ → File → State
current p now f = (drop_expired p now (roll_day now (load now f))).0

abbrev pub new_reservation : BudgetPolicy → Env → String → ℕ → Reservation
new_reservation p env run_id want = record {
  id = env.fresh_id;
  run_id = run_id;
  amount = want;
  unit = unit p;
  reserved_at = env.now;
  expires_at = env.now + p.reservation_ttl;
  actual = 0;
}

-- the ceiling test of `reserve`, once the figure `used` is known
unfoldable pub hold :
    BudgetPolicy → Env → File → State → String → ℕ → ℕ → Option String → Call Reservation
hold p env f s run_id want used resets_at =
    let reserved = outstanding s in
    let r = new_reservation p env run_id want in
    if ltb (ceiling p) (used + reserved + want)
    then (
      f,
      err (
          refused (record {
            cap = cap_name p;
            limit = ceiling p;
            current = used + reserved;
            requested = want;
            unit = unit p;
            resets_at = resets_at;
          })),
    )
    else save env f (record s { reservations = Dict.set s.reservations r.id r }) r

unfoldable pub reserve :
    BudgetPolicy → Env → File → String → Option ℕ → Option ℕ → Option String → Call Reservation
reserve p env f run_id amount observed_used resets_at =
    let want = value_or amount (per_run p) in
    let s = current p env.now f in
    elim (base p s observed_used) [
      | none ↦ (f, err needs_observed_used)
      | some used ↦ hold p env f s run_id want used resets_at
    ]

unfoldable pub report : Env → File → String → ℕ → Call (Option Reservation)
report env f reservation_id actual =
    let s = load env.now f in
    elim (Dict.get s.reservations reservation_id) [
      | none ↦ (f, ok none)
      | some r ↦
          let r' = record r { actual = actual } in
          save env f (record s { reservations = Dict.set s.reservations reservation_id r' })
            (some r')
    ]

unfoldable pub settle : BudgetPolicy → Env → File → String → Option ℕ → Call ℕ
settle p env f reservation_id actual =
    let s = roll_day env.now (load env.now f) in
    elim (Dict.get s.reservations reservation_id) [
      | none ↦ save env f s 0
      | some r ↦
          let spent = value_or actual r.actual in
          save env f
            (record s {
              accrued = accrue p s.accrued spent;
              reservations = Dict.remove s.reservations reservation_id;
            })
            spent
    ]

-- `if rows: self._save(state)`, then `return rows`
unfoldable pub save_if_any : Env → File → State × List Reservation → Call (List Reservation)
unfolding save
save_if_any env f (s, []) = (f, ok [])
save_if_any env f (s, r ∷ rs) = save env f s (r ∷ rs)

unfoldable pub settle_run : BudgetPolicy → Env → File → String → Call (List Reservation)
settle_run p env f run_id =
    save_if_any env f (sweep p (λ r. str_eq r.run_id run_id) (roll_day env.now (load env.now f)))

unfoldable pub expire_stale : BudgetPolicy → Env → File → Call (List Reservation)
expire_stale p env f =
    save_if_any env f (drop_expired p env.now (roll_day env.now (load env.now f)))

pub record Snapshot : Type 0 where
  pub used : ℕ
  pub reserved : ℕ
  pub total : ℕ
  pub limit : ℕ
  pub in_flight : ℕ
  pub day : ℕ

-- the headroom, `limit - total`, may be negative, and is left to the reader of the two figures
unfoldable pub snapshot : BudgetPolicy → ℕ → File → Option ℕ → Snapshot
snapshot p now f observed_used =
    let s = roll_day now (load now f) in
    let used : ℕ = elim p.mode [ api ↦ s.accrued | subscription ↦ value_or observed_used 0 ] in
    record {
      used = used;
      reserved = outstanding s;
      total = used + outstanding s;
      limit = ceiling p;
      in_flight = length s.reservations;
      day = s.day;
    }
