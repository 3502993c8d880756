-- ===== src/Input/Prediction/Validity.antt =====
-- input/prediction.rs: the invariant of one lineage's predictions, and what admits and ends them.
use runen_net.Prelude.{
  ℕ, suc, ◌+◌, ◌-◌, ◌≤◌, ◌≡◌, refl, sym, true, false, Option, none, [], ltb, leb, nat_eq, Eq,
  length, is_some, arith, Bool-cases, Option-cases, inl, inr, All, IsU64, u64_mod, ◌||◌,
}
use runen_net.Collections.BTreeMap.{BTreeMap, total}
use runen_net.Collections.BTreeMap
use runen_net.Replication.Model.{ReplicationLineageKey}
use runen_net.Input.Prediction.State.{
  PredictionLineage, PredictionLimits, PredictionState, active, invalidated,
  PredictionInvalidationReason, PendingInput, new_prediction, frontier, terminal, terminal_reason,
}
use runen_net.Input.Prediction.Lineage.{
  admit_active, admit_in, admit_local, invalidate, terminate, invalidate_unless_terminal,
}
use mathlib.Core.Path.{subst}

module _ {I : Type 0} where
  abbrev pub pending_size : PendingInput I → ℕ
  pending_size i = i.accounted_bytes

  -- Pending inputs are ahead of the frontier, by no more than the limit; invalidated ones are dropped.
  abbrev pub IsAhead : ℕ → PredictionState → BTreeMap (PendingInput I) → Type 0
  IsAhead distance (active f) m = All (λ e. (suc f ≤ e.0) × (e.0 ≤ f + distance)) m
  IsAhead distance (invalidated reason f) m = m ≡ []

  pub record IsValid (p : PredictionLineage I) : Type 0 where
    pub sorted : BTreeMap.IsSorted p.pending
    pub counted : p.pending_bytes ≡ total pending_size p.pending
    pub few : length p.pending ≤ p.limits.max_pending_inputs
    pub within_bytes : p.pending_bytes ≤ p.limits.max_pending_bytes
    pub count_machine : IsU64 p.limits.max_pending_inputs
    pub bytes_machine : IsU64 p.limits.max_pending_bytes
    pub ahead : IsAhead p.limits.max_future_tick_distance p.state p.pending
    pub ended : is_some (terminal_reason p.state) ≡ true → frontier p.state ≡ none

  pub new_prediction-IsValid :
      (key : ReplicationLineageKey) (limits : PredictionLimits)
      → IsU64 limits.max_pending_inputs
      → IsU64 limits.max_pending_bytes
      → IsValid (new_prediction key limits)
  unfolding new_prediction
  new_prediction-IsValid key limits a b = record {
    sorted = tt;
    counted = refl;
    few = omega arith;
    within_bytes = omega arith;
    count_machine = a;
    bytes_machine = b;
    ahead = refl;
    ended = λ h. refl;
  }

  -- A lineage without pending inputs.
  pub empty-IsValid :
      (p : PredictionLineage I) (s : PredictionState) (commit boundary : Option ℕ)
      → IsValid p
      → (is_some (terminal_reason s) ≡ true → frontier s ≡ none)
      → IsValid (record p {
        pending = [];
        pending_bytes = 0;
        state = s;
        last_observed_commit = commit;
        last_observed_recovery_boundary = boundary;
      })
  empty-IsValid p s commit boundary v e = record {
    sorted = tt;
    counted = refl;
    few = omega arith;
    within_bytes = omega arith;
    count_machine = v.count_machine;
    bytes_machine = v.bytes_machine;
    ahead = nothing_ahead s;
    ended = e;
  }
    where
      nothing_ahead : (s : PredictionState) → IsAhead p.limits.max_future_tick_distance s []
      nothing_ahead (active f) = tt
      nothing_ahead (invalidated reason f) = refl

  -- The observations a lineage has noted do not matter.
  pub noted-IsValid :
      (p : PredictionLineage I) (commit boundary : Option ℕ)
      → IsValid p
      → IsValid
          (record p { last_observed_commit = commit; last_observed_recovery_boundary = boundary })
  noted-IsValid p commit boundary v = record {
    sorted = v.sorted;
    counted = v.counted;
    few = v.few;
    within_bytes = v.within_bytes;
    count_machine = v.count_machine;
    bytes_machine = v.bytes_machine;
    ahead = v.ahead;
    ended = v.ended;
  }

  pub invalidate-IsValid :
      (p : PredictionLineage I) (reason : PredictionInvalidationReason)
      → is_some (terminal reason) ≡ false
      → IsValid p
      → IsValid (invalidate p reason)
  unfolding invalidate
  invalidate-IsValid p reason h v =
      empty-IsValid p (invalidated reason (frontier p.state)) p.last_observed_commit
        p.last_observed_recovery_boundary v (λ e. absurd (cc))

  pub terminate-IsValid :
      (p : PredictionLineage I) (reason : PredictionInvalidationReason)
      → IsValid p
      → IsValid (terminate p reason)
  unfolding terminate
  terminate-IsValid p reason v =
      empty-IsValid p (invalidated reason none) p.last_observed_commit
        p.last_observed_recovery_boundary v (λ e. refl)

  pub invalidate_unless_terminal-IsValid :
      (p : PredictionLineage I) (reason : PredictionInvalidationReason)
      → is_some (terminal reason) ≡ false
      → IsValid p
      → IsValid (invalidate_unless_terminal p reason)
  unfolding invalidate_unless_terminal
  invalidate_unless_terminal-IsValid p reason h v = elim (Option-cases (terminal_reason p.state)) [
    | inl e ↦ rw (e, invalidate_unless_terminal) (invalidate-IsValid p reason h v)
    | inr (t, e) ↦ rw (e, invalidate_unless_terminal) v
  ]

  module _ ⦃e : Eq I⦄ where
    admit_active-IsValid :
        (p : PredictionLineage I) (f target : ℕ) (input : I) (bytes : ℕ)
        → p.state ≡ active f
        → IsValid p
        → IsValid (admit_active p f target input bytes).0
    unfolding admit_active
    admit_active-IsValid p f target input bytes s v = elim (Bool-cases (leb target f)) [
      | inl a ↦ rw (a, admit_active) v
      | inr a ↦ elim (Option-cases (BTreeMap.get p.pending target)) [
        | inr (found, h) ↦ rw (a, h, admit_active) v
        | inl h ↦
            elim (Bool-cases (
              ltb p.limits.max_future_tick_distance (target - f)
              || (ltb p.limits.max_pending_bytes bytes
                  || leb p.limits.max_pending_inputs (length p.pending)))) [
                    | inl b ↦ rw (a, h, b, admit_active) v
                    | inr b ↦ elim (Bool-cases (ltb (p.pending_bytes + bytes) u64_mod)) [
                      | inr c ↦ rw (a, h, b, c, admit_active) v
                      | inl c ↦
                          elim (Bool-cases
                            (ltb p.limits.max_pending_bytes (p.pending_bytes + bytes))) [
                              | inl d ↦ rw (a, h, b, c, d, admit_active) v
                              | inr d ↦
                                  rw (a, h, b, c, d, admit_active)
                                    (record {
                                      sorted =
                                          BTreeMap.insert-IsSortedFrom 0 p.pending target new
                                            (omega arith) v.sorted;
                                      counted = omega (
                                        arith,
                                        v.counted,
                                        BTreeMap.total-insert_absent pending_size p.pending target
                                            new h,
                                      );
                                      few = ground (
                                        arith,
                                        BTreeMap.length-insert_absent p.pending target new h,
                                      );
                                      within_bytes = ground arith;
                                      count_machine = v.count_machine;
                                      bytes_machine = v.bytes_machine;
                                      ahead =
                                          subst
                                            (λ x.
                                              IsAhead p.limits.max_future_tick_distance x
                                                (BTreeMap.insert p.pending target new))
                                            (sym s)
                                            (BTreeMap.All-insert
                                              (λ x.
                                                (suc f ≤ x.0)
                                                × (x.0 ≤ f + p.limits.max_future_tick_distance))
                                              p.pending target new (ground arith, ground arith)
                                              (subst
                                                (λ x.
                                                  IsAhead p.limits.max_future_tick_distance x
                                                    p.pending)
                                                s v.ahead));
                                      ended = v.ended;
                                    })
                            ]
                    ]
                  ]
      ]
    ]
      where
        new : PendingInput I
        new = record { value = input; accounted_bytes = bytes }

    pub admit_local-IsValid :
        (p : PredictionLineage I) (target : ℕ) (input : I) (bytes : ℕ)
        → IsValid p
        → IsValid (admit_local p target input bytes).0
    unfolding admit_in
    admit_local-IsValid p target input bytes v = by_state p.state refl
      where
        by_state : (s : PredictionState) → p.state ≡ s → IsValid (admit_in p s target input bytes).0
        by_state (active f) s = admit_active-IsValid p f target input bytes s v
        by_state (invalidated reason f) s = v
