-- ===== src/Pool/Invariant.antt =====
-- bothy/pool.py: every call keeps the admission well formed.
use bothy.Common.{
  ℕ, ◌+◌, ◌<◌, String, ◌≡◌, Bool, none, arith, inl, inr, Bool-cases, ltb, length, ok, err,
}
use bothy.Dict
use bothy.Dict.{Dict}
use bothy.Budget.Ledger as Ledger
use bothy.Budget.Ledger.{File, Reservation}
use bothy.Pool.Outcomes.{ratio, trim, Ratio}
use bothy.Pool.Admission.{
  PoolState, healthy, probing, Admitted, Admission, Env, adjust, recompute, gate, enter, is_probing,
  after_probe,
}
use bothy.Pool.Lanes.{IsSane, IsSized, IsSound, set-AreLanes}

module _ (r : Ratio) (a : Admission) where
  pub policy-adjust : (adjust r a).policy ≡ a.policy
  unfolding adjust
  policy-adjust = ground arith

  pub lanes-adjust : (adjust r a).lanes ≡ a.lanes
  unfolding adjust
  lanes-adjust = ground arith

  pub live-adjust : (adjust r a).live ≡ a.live
  unfolding adjust
  live-adjust = ground arith

  adjust-IsSized :
      IsSane a.policy
      → IsSized a.policy a.effective a.state a.live
      → IsSized a.policy (adjust r a).effective (adjust r a).state a.live
  unfolding adjust
  adjust-IsSized sane h = record {
    positive = ground (arith, h.positive);
    at_most = ground arith;
    full = ground (arith, h.full);
    within = h.within;
  }

  adjust-IsSound : IsSound a → IsSound (adjust r a)
  adjust-IsSound h = record {
    sane = rw policy-adjust h.sane;
    lanes = rw (lanes-adjust, live-adjust) h.lanes;
    sized = rw (policy-adjust, live-adjust) (adjust-IsSized h.sane h.sized);
  }

pub recompute-IsSound : (mono : ℕ) (a : Admission) → IsSound a → IsSound (recompute mono a)
unfolding recompute
recompute-IsSound mono a h =
    elim (Bool-cases (ltb mono (a.last_recompute + a.policy.recompute_time))) [
      | inl soon ↦ rw soon h
      | inr due ↦
          rw due
            (elim (Bool-cases (ltb (ratio a.policy mono a.samples).samples a.policy.min_samples)) [
              | inl few ↦ rw few kept
              | inr many ↦ rw many (adjust-IsSound (ratio a.policy mono a.samples) b kept)
            ])
    ]
  where
    b : Admission
    b = record a { last_recompute = mono; samples = trim a.policy mono a.samples }

    kept : IsSound b
    kept = record { sane = h.sane; lanes = h.lanes; sized = h.sized }

pub gate_open :
    (a : Admission) (subject : String)
    → gate a subject ≡ none
    → (Dict.get a.lanes subject ≡ none)
      × (length a.live < a.effective)
      × (a.state ≡ probing → length a.live ≡ 0)
unfolding gate is_probing
gate_open a subject h = ground arith

module _ (a : Admission) (env : Env) (run_id subject : String) where
  -- the grant, from where the gates are open
  pub enter-IsSound :
      (answer : Ledger.Call Reservation)
      → IsSound a
      → Dict.get a.live run_id ≡ none
      → gate a subject ≡ none
      → IsSound (enter a env run_id subject answer).0
  unfolding enter
  enter-IsSound (f, err e) h fresh free = record { sane = h.sane; lanes = h.lanes; sized = h.sized }
  enter-IsSound (f, ok r) h fresh free =
      let (no_lane, room, _) = gate_open a subject free in
      let m : Admitted = record {
        run_id = run_id;
        subject = subject;
        reservation = r;
        admitted_at = env.disk.now;
      } in
      record {
        sane = h.sane;
        lanes = set-AreLanes a.lanes a.live h.lanes m no_lane fresh;
        sized = record {
          positive = h.sized.positive;
          at_most = h.sized.at_most;
          full = h.sized.full;
          within = omega (arith, Dict.length-set-le a.live run_id m, h.sized.at_most);
        };
      }

pub after_probe-healthy : (s : PoolState) (good : Bool) → after_probe s good ≡ healthy → s ≡ healthy
unfolding after_probe
after_probe-healthy s good h = ground arith
