-- ===== src/Alert/Quiet.antt =====
-- bothy/alert.py, Deduplicator: an incident is said once in its cooldown.
use bothy.Common.{
  ℕ, ◌+◌, ◌-◌, ◌≤◌, ◌<◌, String, Bool, true, false, Option, none, some, List, [], ◌∷◌, All, ltb,
  str_eq, str_eq_iff, if_elim, ◌≡◌, refl, sym, ◌∙◌, subst, Bool-cases, inl, inr, arith, str_eq_refl,
  le→ltb-false, lt→ltb,
}
use bothy.Dict
use bothy.Dict.{get-set, get-remove}
use bothy.Alert.Dedup.{Deduplicator, noted, decide, should_send, clear}

pub data Call : Type 0 where
  asks : String → ℕ → Call
  clears : String → Call

abbrev pub step : Deduplicator → Call → Deduplicator
step d (asks key now) = (should_send d key now).0
step d (clears key) = clear d key

abbrev pub run : Deduplicator → List Call → Deduplicator
run d [] = d
run d (c ∷ cs) = run (step d c) cs

-- a call before `until` that does not forget the key
abbrev pub Keeps : String → ℕ → Call → Type 0
Keeps key until (asks k now) = now < until
Keeps key until (clears k) = str_eq k key ≡ false

-- the key was said at a time, and the cooldown is as it was
abbrev Said : String → ℕ → ℕ → Deduplicator → Type 0
Said key said cooldown d = (Dict.get d.seen key ≡ some said) × (d.cooldown ≡ cooldown)

noted-Said :
    (key k : String) (said cooldown now : ℕ) (d : Deduplicator)
    → str_eq k key ≡ false
    → Said key said cooldown d
    → Said key said cooldown (noted d k now)
unfolding noted
noted-Said key k said cooldown now d other h = (get-set d.seen k key now ∙ rw other h.0, h.1)

decide-other :
    (key k : String) (said cooldown now : ℕ) (d : Deduplicator) (o : Option ℕ)
    → str_eq k key ≡ false
    → Said key said cooldown d
    → Said key said cooldown (decide d k now o).0
unfolding decide
decide-other key k said cooldown now d none other h = noted-Said key k said cooldown now d other h
decide-other key k said cooldown now d (some last) other h =
    if_elim (λ (r : Deduplicator × Bool). Said key said cooldown r.0) (ltb (now - last) d.cooldown)
      _ _ (λ soon. h) (λ late. noted-Said key k said cooldown now d other h)

-- within the cooldown the answer is no, and nothing is written
should_send_soon :
    (key : String) (said cooldown now : ℕ) (d : Deduplicator)
    → Said key said cooldown d
    → now < said + cooldown
    → 1 ≤ cooldown
    → should_send d key now ≡ (d, false)
unfolding should_send decide
should_send_soon key said cooldown now d h soon some_time =
    let early : ltb (now - said) d.cooldown ≡ true =
      lt→ltb (now - said) d.cooldown (omega (arith, h.1, soon, some_time)) in
    rw (h.0, early) refl

step-Said :
    (key : String) (said cooldown : ℕ) (d : Deduplicator) (c : Call)
    → 1 ≤ cooldown
    → Keeps key (said + cooldown) c
    → Said key said cooldown d
    → Said key said cooldown (step d c)
unfolding clear should_send
step-Said key said cooldown d (clears k) some_time other h =
    (get-remove d.seen k key ∙ rw other h.0, h.1)
step-Said key said cooldown d (asks k now) some_time soon h = elim (Bool-cases (str_eq k key)) [
  | inr other ↦ decide-other key k said cooldown now d (Dict.get d.seen k) other h
  | inl same ↦
      let e : k ≡ key = (str_eq_iff k key).0 same in
      let quiet = should_send_soon key said cooldown now d h soon some_time in
      subst (λ i. Said key said cooldown (should_send d i now).0) (sym e)
        (subst (λ r. Said key said cooldown r.0) (sym quiet) h)
]

run-Said :
    (key : String) (said cooldown : ℕ) (d : Deduplicator) (cs : List Call)
    → 1 ≤ cooldown
    → All (Keeps key (said + cooldown)) cs
    → Said key said cooldown d
    → Said key said cooldown (run d cs)
run-Said key said cooldown d [] some_time keep h = h
run-Said key said cooldown d (c ∷ cs) some_time keep h =
    run-Said key said cooldown (step d c) cs some_time keep.1
      (step-Said key said cooldown d c some_time keep.0 h)

-- what is said is on record
sent-Said :
    (d : Deduplicator) (key : String) (now : ℕ) (o : Option ℕ)
    → (decide d key now o).1 ≡ true
    → Said key now d.cooldown (decide d key now o).0
unfolding decide noted
sent-Said d key now none h = (get-set d.seen key key now ∙ rw (str_eq_refl key) refl, refl)
sent-Said d key now (some last) sent =
    if_elim (λ (r : Deduplicator × Bool). r.1 ≡ true → Said key now d.cooldown r.0)
      (ltb (now - last) d.cooldown) _ _ (λ soon h. absurd (cc))
      (λ late h. (get-set d.seen key key now ∙ rw (str_eq_refl key) refl, refl)) sent

later_again :
    (d : Deduplicator) (key : String) (said cooldown now : ℕ)
    → Said key said cooldown d
    → said + cooldown ≤ now
    → (should_send d key now).1 ≡ true
unfolding should_send decide
later_again d key said cooldown now h late =
    let over : ltb (now - said) d.cooldown ≡ false =
      le→ltb-false (now - said) d.cooldown (omega (arith, h.1, late)) in
    rw (h.0, over) refl

-- Once an incident was said, and as long as nobody clears it, it is not said again before its
-- cooldown has passed, whatever else is said or cleared by then; asked behind that, it is said.
pub run-quiet :
    (d : Deduplicator) (key : String) (now : ℕ) (cs : List Call)
    → 1 ≤ d.cooldown
    → (should_send d key now).1 ≡ true
    → All (Keeps key (now + d.cooldown)) cs
    → ((later : ℕ)
        → later < now + d.cooldown
        → should_send (run (should_send d key now).0 cs) key later
          ≡ (run (should_send d key now).0 cs, false))
      × ((later : ℕ)
          → now + d.cooldown ≤ later
          → (should_send (run (should_send d key now).0 cs) key later).1 ≡ true)
unfolding should_send
run-quiet d key now cs some_time sent keep =
    let said =
      run-Said key now d.cooldown (should_send d key now).0 cs some_time keep
        (sent-Said d key now (Dict.get d.seen key) sent) in
    (
      (λ later soon. should_send_soon key now d.cooldown later _ said soon some_time),
      λ later late. later_again _ key now d.cooldown later said late,
    )
