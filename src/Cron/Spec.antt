-- ===== src/Cron/Spec.antt =====
-- bothy/cronspec.py, CronSpec. A moment is a count of minutes: the calendar and the zone are those of
-- Python's datetime. A search walks the zone's wall clock, as aware arithmetic does.
use bothy.Common.{
  ℕ, zero, suc, ◌+◌, ◌*◌, ◌%◌, Bool, true, false, Option, none, some, List, [], ◌∷◌, ◌==◌, ◌&&◌,
  ◌||◌, not, any, map, if◌then◌else◌, Result, ok, err, ◌>>=◌,
}
use bothy.Text.{Chars, codes, same_chars, strip, words}
use bothy.Cron.Field.{Names, CronError, five_fields, parse_field}

-- the fields of a minute on the wall clock; `weekday` counts from Monday, at 0
pub record Civil : Type 0 where
  pub minute : ℕ
  pub hour : ℕ
  pub day : ℕ
  pub month : ℕ
  pub weekday : ℕ

-- `local` is the wall clock's minute at a UTC minute, and `utc` the way back
pub record Zone : Type 0 where
  pub local : ℕ → ℕ
  pub utc : ℕ → ℕ
  pub civil : ℕ → Civil

pub record CronSpec : Type 0 where
  pub minutes : List ℕ
  pub hours : List ℕ
  pub days : List ℕ
  pub months : List ℕ
  pub weekdays : List ℕ
  pub dom_restricted : Bool
  pub dow_restricted : Bool

abbrev pub month_names : Names
month_names =
    (codes "jan", 1)
    ∷ (codes "feb", 2)
    ∷ (codes "mar", 3)
    ∷ (codes "apr", 4)
    ∷ (codes "may", 5)
    ∷ (codes "jun", 6)
    ∷ (codes "jul", 7)
    ∷ (codes "aug", 8)
    ∷ (codes "sep", 9)
    ∷ (codes "oct", 10)
    ∷ (codes "nov", 11)
    ∷ (codes "dec", 12)
    ∷ []

abbrev pub day_names : Names
day_names =
    (codes "sun", 0)
    ∷ (codes "mon", 1)
    ∷ (codes "tue", 2)
    ∷ (codes "wed", 3)
    ∷ (codes "thu", 4)
    ∷ (codes "fri", 5)
    ∷ (codes "sat", 6)
    ∷ []

abbrev pub star : Chars
star = b'*' ∷ []

-- the constructor, on the five words of the expression
unfoldable pub create : List Chars → Result CronError CronSpec
create (minute ∷ hour ∷ dom ∷ month ∷ dow ∷ []) = do
  minutes ← parse_field [] 0 59 minute
  hours ← parse_field [] 0 23 hour
  days ← parse_field [] 1 31 dom
  months ← parse_field month_names 1 12 month
  weekdays ← parse_field day_names 0 7 dow
  ok (record {
    minutes = minutes;
    hours = hours;
    days = days;
    months = months;
    weekdays = map (λ day. if day == 7 then 0 else day) weekdays;
    dom_restricted = not (same_chars (strip dom) star);
    dow_restricted = not (same_chars (strip dow) star);
  })
create _ = err five_fields

unfoldable pub parse : Chars → Result CronError CronSpec
parse expression = create (words expression)

abbrev pub mem : ℕ → List ℕ → Bool
mem n ns = any (λ m. m == n) ns

-- the rule of the two day fields
unfoldable pub day_matches : CronSpec → Civil → Bool
day_matches c at =
    let dom_ok = mem at.day c.days in
    let dow_ok = mem ((at.weekday + 1) % 7) c.weekdays in
    if c.dom_restricted && c.dow_restricted
    then dom_ok || dow_ok
    else if c.dom_restricted
    then dom_ok
    else if c.dow_restricted
    then dow_ok
    else true

unfoldable pub matches : CronSpec → Civil → Bool
matches c at =
    if not (mem at.minute c.minutes) || not (mem at.hour c.hours)
    then false
    else if not (mem at.month c.months)
    then false
    else day_matches c at

-- the loop of `next_after`, for a number of minutes from the cursor on
unfoldable pub search_from : (ℕ → Bool) → ℕ → ℕ → Option ℕ
search_from test zero cursor = none
search_from test (suc rounds) cursor =
    let rest = search_from test rounds (suc cursor) in if test cursor then some cursor else rest

-- the wall clock's minute of the next firing; `moment` is a UTC minute, without its seconds
unfoldable pub next_after : Zone → CronSpec → ℕ → ℕ → Option ℕ
next_after zone c horizon_days moment =
    search_from (λ m. matches c (zone.civil m)) (horizon_days * 1440) (suc (zone.local moment))
