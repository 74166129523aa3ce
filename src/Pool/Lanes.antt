-- ===== src/Pool/Lanes.antt =====
-- bothy/pool.py: the well-formedness of the admission, and its two dictionaries under a grant and a
-- release.
use bothy.Common.{
  ℕ, ◌≤◌, String, ◌≡◌, none, some, arith, inl, inr, Bool-cases, length, str_eq, str_eq_iff,
}
use bothy.Dict
use bothy.Dict.{Dict}
use bothy.Pool.Outcomes.{PoolPolicy}
use bothy.Pool.Admission.{PoolState, healthy, Admitted, Admission}

pub record IsSane (p : PoolPolicy) : Type 0 where
  pub some_min : 1 ≤ p.min_workers
  pub min_le_max : p.min_workers ≤ p.max_workers

-- A lane belongs to a live run about its subject, and a live run holds the lane of its subject.
pub record AreLanes (lanes : Dict String) (live : Dict Admitted) : Type 0 where
  pub held :
      (s r : String)
      → Dict.get lanes s ≡ some r
      → (m : Admitted) × (Dict.get live r ≡ some m) × (m.subject ≡ s)
  pub holds :
      (r : String) (m : Admitted) → Dict.get live r ≡ some m → Dict.get lanes m.subject ≡ some r

-- The size stays in the policy's range, it is full while the pool is healthy, and no more runs are
-- live than there are workers.
pub record IsSized (p : PoolPolicy) (effective : ℕ) (state : PoolState) (live : Dict Admitted)
    : Type 0 where
  pub positive : 1 ≤ effective
  pub at_most : effective ≤ p.max_workers
  pub full : (state ≡ healthy) → effective ≡ p.max_workers
  pub within : length live ≤ p.max_workers

pub record IsSound (a : Admission) : Type 0 where
  pub sane : IsSane a.policy
  pub lanes : AreLanes a.lanes a.live
  pub sized : IsSized a.policy a.effective a.state a.live

module _ (lanes : Dict String) (live : Dict Admitted) (h : AreLanes lanes live) where
  found_in_set :
      (m : Admitted)
      → Dict.get live m.run_id ≡ none
      → (s r : String) → Dict.get (Dict.set lanes m.subject m.run_id) s ≡ some r
      → (n : Admitted) × (Dict.get (Dict.set live m.run_id m) r ≡ some n) × (n.subject ≡ s)
  found_in_set m fresh s r e = elim (Bool-cases (str_eq m.subject s)) [
    | inl here ↦ (
      m,
      ground (
        arith,
        Dict.get-set lanes m.subject s m.run_id,
        Dict.get-set live m.run_id r m,
        str_eq_iff m.run_id r,
      ),
      (str_eq_iff m.subject s).0 here,
    )
    | inr there ↦
        let e' : Dict.get lanes s ≡ some r =
          ground (arith, Dict.get-set lanes m.subject s m.run_id) in
        let (n, found, same) = h.held s r e' in
        (n, ground (arith, found, Dict.get-set live m.run_id r m, str_eq_iff m.run_id r), same)
  ]

  pub set-AreLanes :
      (m : Admitted)
      → Dict.get lanes m.subject ≡ none
      → Dict.get live m.run_id ≡ none
      → AreLanes (Dict.set lanes m.subject m.run_id) (Dict.set live m.run_id m)
  set-AreLanes m free fresh = record {
    held = found_in_set m fresh;
    holds = λ r n e. ground (
      arith,
      h.holds r n,
      Dict.get-set lanes m.subject n.subject m.run_id,
      Dict.get-set live m.run_id r m,
      str_eq_iff m.run_id r,
      str_eq_iff m.subject n.subject,
    );
  }

  found_in_removed :
      (run : String) (m : Admitted)
      → Dict.get live run ≡ some m
      → (s r : String) → Dict.get (Dict.remove lanes m.subject) s ≡ some r
      → (n : Admitted) × (Dict.get (Dict.remove live run) r ≡ some n) × (n.subject ≡ s)
  found_in_removed run m there s r e =
      let e' : Dict.get lanes s ≡ some r = ground (arith, Dict.get-remove lanes m.subject s) in
      let (n, found, same) = h.held s r e' in
      (
        n,
        ground (
          arith,
          found,
          same,
          there,
          Dict.get-remove live run r,
          Dict.get-remove lanes m.subject s,
          str_eq_iff run r,
          str_eq_iff m.subject s,
        ),
        same,
      )

  pub remove-AreLanes :
      (run : String) (m : Admitted)
      → Dict.get live run ≡ some m
      → AreLanes (Dict.remove lanes m.subject) (Dict.remove live run)
  remove-AreLanes run m there = record {
    held = found_in_removed run m there;
    holds = λ r n e. ground (
      arith,
      h.holds r n,
      h.holds run m,
      Dict.get-remove lanes m.subject n.subject,
      Dict.get-remove live run r,
      str_eq_iff run r,
      str_eq_iff m.subject n.subject,
    );
  }
