-- ===== src/Pool/History.antt =====
-- bothy/pool.py: what holds of the admission after any history of calls.
use bothy.Common.{
  ℕ, ◌≤◌, String, ◌≡◌, refl, ◌∙◌, Bool, Option, none, some, List, [], ◌∷◌, arith, inl, inr,
  Option-cases, length, ok, err, some,
}
use bothy.Dict
use bothy.Budget.Policy.{BudgetPolicy}
use bothy.Budget.Ledger as Ledger
use bothy.Budget.Ledger.{File}
use bothy.Pool.Outcomes.{PoolPolicy, ratio, trim}
use bothy.Pool.Admission.{
  Admitted, Admission, Env, init, recompute, gate, enter, admit, release, report,
}
use bothy.Pool.Lanes.{IsSane, IsSound, remove-AreLanes}
use bothy.Pool.Invariant.{
  policy-adjust, live-adjust, recompute-IsSound, enter-IsSound, after_probe-healthy,
}

pub live-recompute : (mono : ℕ) (a : Admission) → (recompute mono a).live ≡ a.live
unfolding recompute
live-recompute mono a = ground (
  arith,
  live-adjust (ratio a.policy mono a.samples)
      (record a { last_recompute = mono; samples = trim a.policy mono a.samples }),
)

admit-IsSound :
    (a : Admission) (env : Env) (run_id subject : String) (amount observed_used : Option ℕ)
    (resets_at : Option String)
    → IsSound a
    → Dict.get a.live run_id ≡ none
    → IsSound (admit a env run_id subject amount observed_used resets_at).0
unfolding admit
admit-IsSound a env run_id subject amount observed_used resets_at h fresh =
    let b = recompute env.mono a in
    elim (Option-cases (gate b subject)) [
      | inl free ↦
          rw (free, admit)
            (enter-IsSound b env run_id subject _ (recompute-IsSound env.mono a h)
              (rw live-recompute fresh) free)
      | inr (reason, e) ↦ rw (e, admit) (recompute-IsSound env.mono a h)
    ]

release-IsSound :
    (a : Admission) (env : Env) (run_id : String) (good : Bool) (actual : Option ℕ)
    → IsSound a
    → IsSound (release a env run_id good actual).0
unfolding release
release-IsSound a env run_id good actual h = elim (Option-cases (Dict.get a.live run_id)) [
  | inl gone ↦ rw (gone, release) h
  | inr (m, e) ↦
      rw (e, release)
        (record {
          sane = h.sane;
          lanes = remove-AreLanes a.lanes a.live h.lanes run_id m e;
          sized = record {
            positive = h.sized.positive;
            at_most = h.sized.at_most;
            full = λ ok_now. h.sized.full (after_probe-healthy a.state good ok_now);
            within = omega (arith, Dict.length-remove-le a.live run_id, h.sized.within);
          };
        })
]

report-IsSound :
    (a : Admission) (env : Env) (run_id : String) (actual : ℕ)
    → IsSound a
    → IsSound (report a env run_id actual).0
unfolding report
report-IsSound a env run_id actual h = elim (Option-cases (Dict.get a.live run_id)) [
  | inl gone ↦ rw (gone, report) h
  | inr (m, e) ↦ rw (e, report) (record { sane = h.sane; lanes = h.lanes; sized = h.sized })
]

pub data Call : Type 0 where
  admits : String → String → Option ℕ → Option ℕ → Option String → Call
  releases : String → Bool → Option ℕ → Call
  reports : String → ℕ → Call

-- What one call leaves, whether it returns or raises.
unfoldable pub step : Admission → Env → Call → Admission
step a env (admits run_id subject amount observed_used resets_at) =
    (admit a env run_id subject amount observed_used resets_at).0
step a env (releases run_id good actual) = (release a env run_id good actual).0
step a env (reports run_id actual) = (report a env run_id actual).0

unfoldable pub run : Admission → List (Env × Call) → Admission
unfolding step
run a [] = a
run a ((env, c) ∷ rest) = run (step a env c) rest

-- `ids.run_id` mints an id that no live run has.
abbrev pub IsFresh : Admission → Call → Type 0
IsFresh a (admits run_id _ _ _ _) = Dict.get a.live run_id ≡ none
IsFresh a _ = Unit {0}

abbrev pub AllFresh : Admission → List (Env × Call) → Type 0
AllFresh a [] = Unit {0}
AllFresh a ((env, c) ∷ rest) = IsFresh a c × AllFresh (step a env c) rest

step-IsSound :
    (a : Admission) (env : Env) (c : Call) → IsFresh a c → IsSound a → IsSound (step a env c)
unfolding step
step-IsSound a env (admits run_id subject amount observed_used resets_at) fresh h =
    admit-IsSound a env run_id subject amount observed_used resets_at h fresh
step-IsSound a env (releases run_id good actual) fresh h =
    release-IsSound a env run_id good actual h
step-IsSound a env (reports run_id actual) fresh h = report-IsSound a env run_id actual h

run-IsSound :
    (a : Admission) (calls : List (Env × Call))
    → AllFresh a calls
    → IsSound a
    → IsSound (run a calls)
unfolding run
run-IsSound a [] fresh h = h
run-IsSound a ((env, c) ∷ rest) fresh h =
    run-IsSound (step a env c) rest fresh.1 (step-IsSound a env c fresh.0 h)

init-IsSound :
    (p : PoolPolicy) (b : BudgetPolicy) (f : File) (mono : ℕ) → IsSane p → IsSound (init p b f mono)
unfolding init Dict.get
init-IsSound p b f mono sane = record {
  sane = sane;
  lanes = record { held = λ s r e. ground arith; holds = λ r m e. ground arith };
  sized = record {
    positive = omega arith;
    at_most = omega arith;
    full = λ h. refl;
    within = omega arith;
  };
}

policy-recompute : (mono : ℕ) (a : Admission) → (recompute mono a).policy ≡ a.policy
unfolding recompute
policy-recompute mono a = ground (
  arith,
  policy-adjust (ratio a.policy mono a.samples)
      (record a { last_recompute = mono; samples = trim a.policy mono a.samples }),
)

policy-enter :
    (a : Admission) (env : Env) (run_id subject : String) (answer : Ledger.Call Ledger.Reservation)
    → (enter a env run_id subject answer).0.policy ≡ a.policy
unfolding enter
policy-enter a env run_id subject (f, err e) = refl
policy-enter a env run_id subject (f, ok r) = refl

policy-step : (a : Admission) (env : Env) (c : Call) → (step a env c).policy ≡ a.policy
unfolding step
policy-step a env (admits run_id subject amount observed_used resets_at) =
    unfold admit in
    ground (
      arith,
      policy-recompute env.mono a,
      policy-enter (recompute env.mono a) env run_id subject (
          Ledger.reserve (recompute env.mono a).budget env.disk (recompute env.mono a).ledger run_id
            amount observed_used resets_at),
    )
policy-step a env (releases run_id good actual) = unfold release in ground arith
policy-step a env (reports run_id actual) = unfold report in ground arith

policy-run : (a : Admission) (calls : List (Env × Call)) → (run a calls).policy ≡ a.policy
unfolding run
policy-run a [] = refl
policy-run a ((env, c) ∷ rest) = policy-run (step a env c) rest ∙ policy-step a env c

policy-init :
    (p : PoolPolicy) (b : BudgetPolicy) (f : File) (mono : ℕ) → (init p b f mono).policy ≡ p
unfolding init
policy-init p b f mono = refl

module _ (p : PoolPolicy) (b : BudgetPolicy) (f : File) (mono : ℕ) (calls : List (Env × Call))
    (sane : IsSane p) (fresh : AllFresh (init p b f mono) calls) where
  abbrev pub after : Admission
  after = run (init p b f mono) calls

  after-IsSound : IsSound after
  after-IsSound = run-IsSound (init p b f mono) calls fresh (init-IsSound p b f mono sane)

  policy-after : after.policy ≡ p
  policy-after = policy-run (init p b f mono) calls ∙ policy-init p b f mono

  -- Where the policy's least number of workers is at least one and at most its greatest, which is not
  -- tested where the policy is made from the configuration, and whatever runs are admitted under fresh ids, ended or
  -- reported in whatever order, no more runs are live than the policy's workers, and the
  -- self-healing size stays between one and the policy's workers.
  pub run-bounds :
      (length after.live ≤ p.max_workers)
      × (1 ≤ after.effective)
      × (after.effective ≤ p.max_workers)
  run-bounds =
      let h = after-IsSound.sized in
      (rw policy-after at h.within, h.positive, rw policy-after at h.at_most)

  -- After any such history two live runs never work one subject.
  pub run-one_per_subject :
      (r r' : String) (m m' : Admitted)
      → Dict.get after.live r ≡ some m
      → Dict.get after.live r' ≡ some m'
      → m.subject ≡ m'.subject
      → r ≡ r'
  run-one_per_subject r r' m m' e e' same =
      let h = after-IsSound.lanes in cc (h.holds r m e, h.holds r' m' e', same)

  -- After any such history every lane that is taken is held by a live run about that subject, so
  -- no subject stays locked once its run is released.
  pub run-lane_is_live :
      (subject holder : String)
      → Dict.get after.lanes subject ≡ some holder
      → (m : Admitted) × (Dict.get after.live holder ≡ some m) × (m.subject ≡ subject)
  run-lane_is_live = after-IsSound.lanes.held
