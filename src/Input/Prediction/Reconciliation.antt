-- ===== src/Input/Prediction/Reconciliation.antt =====
-- input/prediction.rs: reconciliation with a committed tick, against a description of its result.
use runen_net.Prelude.{
  ℕ, suc, ◌+◌, ◌-◌, ◌≤◌, ◌<◌, ◌≡◌, refl, sym, ◌∙◌, ap, false, Option, none, some, [], ◌∷◌, ltb,
  nat_eq, length, arith, Bool-cases, inl, inr, u64_mod, checked_add-eq_some, checked_sub-eq_some,
  Result, ok, err,
}
use runen_net.Collections.BTreeMap.{
  BTreeMap, total, IsSortedFrom, keys, range_below, split_off, split_off_below,
}
use runen_net.Collections.BTreeMap
use runen_net.Input.Prediction.State.{
  PredictionLineage, active, replay_failure, PendingInput, frontier,
  PredictionReconciliationOutcome, reconciled_no_replay, reconciled_replay, replay_failed,
}
use runen_net.Input.Prediction.Lineage.{behind, invalidate}
use runen_net.Input.Prediction.Observation.{
  Observed, ReplayEnd, completed, failed, retired, remove_all, replay_loop, after_replay,
  replay_rest, reconcile_active, reconcile_in, reconcile_committed,
}
use runen_net.Input.Prediction.Validity.{IsValid, pending_size}
use mathlib.Core.Path.{subst}

module _ {I : Type 0} where
  -- The retired inputs are those up to the tick; their bytes are counted without overflow.
  retired-range_below :
      (tick b bytes : ℕ) (m : BTreeMap (PendingInput I))
      → IsSortedFrom b m
      → bytes + total pending_size m < u64_mod
      → retired tick bytes m
        ≡ some
            (keys (range_below m (suc tick)), bytes + total pending_size (range_below m (suc tick)))
  unfolding retired range_below
  retired-range_below tick b bytes [] s h = ground arith
  retired-range_below tick b bytes ((t, p) ∷ m) s h = elim (Bool-cases (ltb tick t)) [
    | inl e ↦ ground (arith, split_off_below (suc t) m (suc tick) (ground arith) s.1)
    | inr e ↦ ground (
      arith,
      retired-range_below tick (suc t) (bytes + p.accounted_bytes) m s.1 (omega (arith, h)),
    )
  ]

  -- Removing them one by one leaves the inputs after the tick.
  remove_all-split_off :
      (k b : ℕ) (m : BTreeMap (PendingInput I))
      → IsSortedFrom b m
      → remove_all m (keys (range_below m k)) ≡ split_off m k
  unfolding range_below split_off remove_all BTreeMap.remove
  remove_all-split_off k b [] s = refl
  remove_all-split_off k b ((t, p) ∷ m) s = elim (Bool-cases (ltb t k)) [
    | inl e ↦ ground (arith, remove_all-split_off k (suc t) m s.1)
    | inr e ↦ ground (arith, split_off_below (suc t) m k (ground arith) s.1)
  ]

  -- The lineage after it has dropped the inputs up to the tick.
  abbrev pub advanced : PredictionLineage I → ℕ → ℕ → PredictionLineage I
  advanced p cursor tick = record p {
    last_observed_commit = some cursor;
    state = active tick;
    pending = split_off p.pending (suc tick);
    pending_bytes = total pending_size (split_off p.pending (suc tick));
  }

  module _ {W E : Type 0} (replay : W → ℕ → I → W × Result (Unit {0}) E) where
    -- The inputs are replayed in the order of their ticks, up to the first that fails.
    unfoldable pub replay_each : W → BTreeMap (PendingInput I) → W × Option (ℕ × E)
    replay_each world [] = (world, none)
    replay_each world ((tick, p) ∷ m) =
        let (world', outcome) = replay world tick p.value in
        elim outcome [ err source ↦ (world', some (tick, source)) | ok done ↦ replay_each world' m ]

    abbrev pub end_of : ℕ → W × Option (ℕ × E) → W × ReplayEnd E
    end_of n (world, none) = (world, completed n)
    end_of n (world, some (tick, source)) = (world, failed tick source)

    replay_loop-replay_each :
        (world : W) (m : BTreeMap (PendingInput I)) (replayed : ℕ)
        → replayed + length m < u64_mod
        → replay_loop replay world m replayed ≡ end_of (replayed + length m) (replay_each world m)
    unfolding replay_loop replay_each
    replay_loop-replay_each world [] replayed h = ground arith
    replay_loop-replay_each world ((tick, p) ∷ m) replayed h =
        by_outcome
          (replay_loop-replay_each (replay world tick p.value).0 m (replayed + 1) (omega (arith, h))
            ∙ ap (λ n. end_of n (replay_each (replay world tick p.value).0 m)) (omega arith))
          (replay world tick p.value).1 refl
      where
        by_outcome :
            replay_loop replay (replay world tick p.value).0 m (replayed + 1)
              ≡ end_of
                  (replayed + length ((tick, p) ∷ m))
                  (replay_each (replay world tick p.value).0 m)
            → (outcome : Result (Unit {0}) E) → (replay world tick p.value).1 ≡ outcome
            → replay_loop replay world ((tick, p) ∷ m) replayed
              ≡ end_of (replayed + length ((tick, p) ∷ m)) (replay_each world ((tick, p) ∷ m))
        by_outcome rest (err source) e = rw (e, replay_loop, replay_each) refl
        by_outcome rest (ok done) e =
            rw (e, checked_add-eq_some replayed 1 (omega (arith, h)), replay_loop, replay_each) rest

    abbrev pub reconciled : ℕ → BTreeMap (PendingInput I) → PredictionReconciliationOutcome
    reconciled tick [] = reconciled_no_replay tick
    reconciled tick (x ∷ m) = reconciled_replay tick (length (x ∷ m))

    -- The lineage and the answer after the replay of the inputs that are left.
    abbrev pub replayed :
        PredictionLineage I → ℕ → BTreeMap (PendingInput I) → W × Option (ℕ × E) → Observed I W E
    replayed p tick m (world, none) = (p, world, ok (reconciled tick m))
    replayed p tick m (world, some (at, source)) =
        (invalidate p replay_failure, world, err (replay_failed at source))

    after_replay-replayed :
        (p : PredictionLineage I) (tick : ℕ) (m : BTreeMap (PendingInput I))
        (r : W × Option (ℕ × E))
        → 0 < length m
        → after_replay replay p tick (end_of (length m) r) ≡ replayed p tick m r
    unfolding after_replay
    after_replay-replayed p tick [] r h = absurd (omega arith)
    after_replay-replayed p tick (x ∷ m) (world, none) h = refl
    after_replay-replayed p tick (x ∷ m) (world, some (at, source)) h = refl

    replay_rest-replayed :
        (p : PredictionLineage I) (world : W) (tick : ℕ) (m : BTreeMap (PendingInput I))
        → length m < u64_mod
        → replay_rest replay p world tick m ≡ replayed p tick m (replay_each world m)
    unfolding replay_rest replay_each
    replay_rest-replayed p world tick [] h = refl
    replay_rest-replayed p world tick (x ∷ m) h =
        ap (after_replay replay p tick) (
          replay_loop-replay_each world (x ∷ m) 0 (omega (arith, h))
          ∙ ap (λ n. end_of n (replay_each world (x ∷ m))) (omega arith))
        ∙ after_replay-replayed p tick (x ∷ m) (replay_each world (x ∷ m)) (omega arith)

    reconcile_active-replayed :
        (p : PredictionLineage I) (world : W) (cursor tick : ℕ)
        → IsValid p
        → reconcile_active replay p world cursor tick
          ≡ replayed
              (advanced p cursor tick)
              tick
              (split_off p.pending (suc tick))
              (replay_each world (split_off p.pending (suc tick)))
    unfolding reconcile_active
    reconcile_active-replayed p world cursor tick v =
        rw
          (
            retired-range_below tick 0 0 p.pending v.sorted
                (omega (arith, v.counted, v.within_bytes, v.bytes_machine)),
            checked_sub-eq_some p.pending_bytes (0 + dropped) (omega (arith, parts, v.counted)),
            remove_all-split_off (suc tick) 0 p.pending v.sorted,
            left,
            reconcile_active,
          )
          (replay_rest-replayed (advanced p cursor tick) world tick (split_off p.pending (suc tick))
            (omega
              (arith, BTreeMap.length-split_off-le p.pending (suc tick), v.few, v.count_machine)))
      where
        dropped : ℕ
        dropped = total pending_size (range_below p.pending (suc tick))

        parts :
            dropped + total pending_size (split_off p.pending (suc tick))
            ≡ total pending_size p.pending
        parts = BTreeMap.total-split_off pending_size p.pending (suc tick)

        left : p.pending_bytes - (0 + dropped) ≡ total pending_size (split_off p.pending (suc tick))
        left = omega (arith, parts, v.counted)

    -- With an active prediction that is not ahead of the committed tick, reconciliation drops the inputs up
    -- to the tick and replays the others, in the order of their ticks, up to the first that fails: if none
    -- fails, they stay pending and are counted; if one fails, the prediction is invalidated.
    pub reconcile_committed-replayed :
        (p : PredictionLineage I) (world : W) (cursor tick f : ℕ)
        → IsValid p
        → p.state ≡ active f
        → f ≤ tick
        → reconcile_committed replay p world cursor tick
          ≡ replayed
              (advanced p cursor tick)
              tick
              (split_off p.pending (suc tick))
              (replay_each world (split_off p.pending (suc tick)))
    unfolding reconcile_committed reconcile_in
    reconcile_committed-replayed p world cursor tick f v s h =
        rw (in_time, reconcile_committed)
          (subst
            (λ x.
              reconcile_in replay p x world cursor tick
              ≡ replayed (advanced p cursor tick) tick (split_off p.pending (suc tick))
                  (replay_each world (split_off p.pending (suc tick))))
            (sym s) (reconcile_active-replayed p world cursor tick v))
      where
        in_time : behind tick (frontier p.state) ≡ false
        in_time = rw s (ground arith)
