-- ===== src/Pool/Door.antt =====
-- bothy/pool.py: what single calls of the admission promise, and how the pool climbs back.
use bothy.Common.{
  ℕ, ◌<◌, String, ◌≡◌, refl, ap, ◌∙◌, Bool, Option, none, some, arith, inl, inr, ◌⊎◌, ◌≢◌,
  Option-cases, length, Result, ok, err, str_eq_iff, str_eq_refl,
}
use bothy.Dict
use bothy.Budget.Ledger as Ledger
use bothy.Budget.Gate.{reserve-err-keeps}
use bothy.Pool.Outcomes.{ratio, trim, Ratio}
use bothy.Pool.Admission.{
  PoolState, healthy, degraded, probing, Admitted, Admission, AdmitError, Env, adjust, recompute,
  gate, enter, admit, release,
}
use bothy.Pool.Invariant.{gate_open}

probing_or {ℓ} : {P : Type ℓ} (s : PoolState) → (s ≡ probing → P) → (s ≢ probing) ⊎ P
probing_or healthy f = inl (λ e. cc)
probing_or degraded f = inl (λ e. cc)
probing_or probing f = inr (f refl)

-- A refusal, at whichever gate, takes no lane and no slot and leaves the budget's file alone.
pub record IsUntouched (a b : Admission) : Type 0 where
  pub lanes : b.lanes ≡ a.lanes
  pub live : b.live ≡ a.live
  pub ledger : b.ledger ≡ a.ledger

adjust-IsUntouched : (r : Ratio) (a : Admission) → IsUntouched a (adjust r a)
unfolding adjust
adjust-IsUntouched r a = record { lanes = ground arith; live = ground arith; ledger = ground arith }

recompute-IsUntouched : (mono : ℕ) (a : Admission) → IsUntouched a (recompute mono a)
unfolding recompute
recompute-IsUntouched mono a =
    let u =
      adjust-IsUntouched (ratio a.policy mono a.samples)
        (record a { last_recompute = mono; samples = trim a.policy mono a.samples }) in
    record { lanes = ground (arith, u); live = ground (arith, u); ledger = ground (arith, u) }

module _ (a : Admission) (env : Env) (run_id subject : String) where
  enter-err :
      (answer : Ledger.Call Ledger.Reservation) (e : AdmitError)
      → ((x : Ledger.LedgerError) → answer.1 ≡ err x → answer.0 ≡ a.ledger)
      → (enter a env run_id subject answer).1 ≡ err e
      → IsUntouched a (enter a env run_id subject answer).0
  unfolding enter
  enter-err (f, err x) e keeps h = record { lanes = refl; live = refl; ledger = keeps x refl }
  enter-err (f, ok r) e keeps h = cc

  enter-ok :
      (answer : Ledger.Call Ledger.Reservation) (m : Admitted)
      → (enter a env run_id subject answer).1 ≡ ok m
      → ((enter a env run_id subject answer).0.live ≡ Dict.set a.live run_id m)
        × ((enter a env run_id subject answer).0.lanes ≡ Dict.set a.lanes subject run_id)
        × (m.subject ≡ subject)
  unfolding enter
  enter-ok (f, err x) m h = cc
  enter-ok (f, ok r) m h = ground arith

module _ (a : Admission) (env : Env) (run_id subject : String) (amount observed_used : Option ℕ)
    (resets_at : Option String) where
  abbrev pub call : Admission × Result AdmitError Admitted
  call = admit a env run_id subject amount observed_used resets_at

  abbrev b : Admission
  b = recompute env.mono a

  abbrev answer : Ledger.Call Ledger.Reservation
  answer = Ledger.reserve b.budget env.disk b.ledger run_id amount observed_used resets_at

  -- An admission that raises, at whichever gate and for whatever reason, has taken no lane and no
  -- slot and has left the budget's file as it was.
  pub admit-err-IsUntouched : (e : AdmitError) → call.1 ≡ err e → IsUntouched a call.0
  unfolding admit
  admit-err-IsUntouched e h =
      let u = recompute-IsUntouched env.mono a in
      elim (Option-cases (gate b subject)) [
        | inl free ↦
            let v =
              enter-err b env run_id subject answer e
                (reserve-err-keeps b.budget env.disk b.ledger run_id amount observed_used resets_at)
                (rw (free, admit) at h) in
            rw (free, admit)
              (record {
                lanes = v.lanes ∙ u.lanes;
                live = v.live ∙ u.live;
                ledger = v.ledger ∙ u.ledger;
              })
        | inr (reason, shut) ↦ rw (shut, admit) u
      ]

  admit-ok :
      (m : Admitted)
      → call.1 ≡ ok m
      → (gate b subject ≡ none)
        × (call.0.live ≡ Dict.set a.live run_id m)
        × (call.0.lanes ≡ Dict.set a.lanes subject run_id)
        × (m.subject ≡ subject)
  unfolding admit
  admit-ok m h =
      let u = recompute-IsUntouched env.mono a in
      elim (Option-cases (gate b subject)) [
        | inl free ↦
            let (l, n, same) = enter-ok b env run_id subject answer m (rw (free, admit) at h) in
            rw (free, admit)
              (
                refl,
                l ∙ ap (λ d. Dict.set d run_id m) u.live,
                n ∙ ap (λ d. Dict.set d subject run_id) u.lanes,
                same,
              )
        | inr (reason, shut) ↦ cc (rw (shut, admit) at h)
      ]

  -- What a granted admission found and what it leaves: nobody held the subject's lane, there was a
  -- free worker, nothing at all was in flight if the pool was probing, and now the run holds its
  -- subject's lane and is live under its id.
  pub admit-grant :
      (m : Admitted)
      → call.1 ≡ ok m
      → (Dict.get a.lanes subject ≡ none)
        × (length a.live < b.effective)
        × ((b.state ≢ probing) ⊎ (length a.live ≡ 0))
        × (Dict.get call.0.lanes subject ≡ some run_id)
        × (Dict.get call.0.live run_id ≡ some m)
  admit-grant m h =
      let u = recompute-IsUntouched env.mono a in
      let (free, l, n, same) = admit-ok m h in
      let (no_lane, room, probe) = gate_open b subject free in
      (
        cc (no_lane, u.lanes),
        rw u.live at room,
        rw u.live at (probing_or b.state probe),
        rw (n, Dict.get-set, str_eq_refl),
        rw (l, Dict.get-set, str_eq_refl),
      )

module _ (a : Admission) (env : Env) (run_id : String) (good : Bool) (actual : Option ℕ) where
  release_absent : Dict.get a.live run_id ≡ none → release a env run_id good actual ≡ (a, ok 0)
  unfolding release
  release_absent gone = rw (gone, release)

  release_present :
      (m : Admitted)
      → Dict.get a.live run_id ≡ some m
      → ((release a env run_id good actual).0.lanes ≡ Dict.remove a.lanes m.subject)
        × ((release a env run_id good actual).0.live ≡ Dict.remove a.live run_id)
  unfolding release
  release_present m e = (rw (e, release), rw (e, release))

  released : Dict.get (release a env run_id good actual).0.live run_id ≡ none
  released = elim (Option-cases (Dict.get a.live run_id)) [
    | inl gone ↦ rw (release_absent gone, gone)
    | inr (m, e) ↦ rw ((release_present m e).1, Dict.get-remove, str_eq_refl)
  ]

-- A released run is gone: a second release of it, whatever it says, changes nothing and answers
-- zero.
pub release-release :
    (a : Admission) (env env' : Env) (run_id : String) (good good' : Bool)
    (actual actual' : Option ℕ)
    → let b = (release a env run_id good actual).0 in
      release b env' run_id good' actual' ≡ (b, ok 0)
release-release a env env' run_id good good' actual actual' =
    release_absent _ env' run_id good' actual' (released a env run_id good actual)

-- An admission that is granted and then released leaves every lane and every slot as it found
-- them, whatever the outcome and whatever the ledger's file does in between.
pub release-admit :
    (a : Admission) (env env' : Env) (run_id subject : String) (amount observed_used : Option ℕ)
    (resets_at : Option String) (good : Bool) (actual : Option ℕ) (m : Admitted)
    → (admit a env run_id subject amount observed_used resets_at).1 ≡ ok m
    → Dict.get a.live run_id ≡ none
    → (j : String)
    → let b = (admit a env run_id subject amount observed_used resets_at).0 in
      let c = (release b env' run_id good actual).0 in
      (Dict.get c.lanes j ≡ Dict.get a.lanes j) × (Dict.get c.live j ≡ Dict.get a.live j)
release-admit a env env' run_id subject amount observed_used resets_at good actual m h fresh j =
    let (_, l, n, same) = admit-ok a env run_id subject amount observed_used resets_at m h in
    let grant = admit-grant a env run_id subject amount observed_used resets_at m h in
    let b = (admit a env run_id subject amount observed_used resets_at).0 in
    let (n', l') = release_present b env' run_id good actual m (grant.4) in
    (
      rw (n', n, same, Dict.get-remove, Dict.get-set)
          (ground (arith, grant.0, str_eq_iff subject j)),
      rw (l', l, Dict.get-remove, Dict.get-set) (ground (arith, fresh, str_eq_iff run_id j)),
    )
