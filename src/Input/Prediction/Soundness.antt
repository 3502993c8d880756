-- ===== src/Input/Prediction/Soundness.antt =====
-- input/prediction.rs: observations of a valid client set are sound.
use runen_net.Prelude.{
  ℕ, suc, ◌≤◌, ◌≡◌, refl, sym, Bool, true, false, Option, none, some, ltb, ◌==◌, nat_eq,
  if◌then◌else◌, is_some, arith, Bool-cases, Option-cases, inl, inr, Result, ok, err,
}
use runen_net.Collections.BTreeMap.{BTreeMap, total, split_off}
use runen_net.Collections.BTreeMap
use runen_net.Replication.Client.Lineage.{
  ClientLineage, ClientReplicationState, ClientRecoveryReason, synchronized, full_snapshot_required,
  RetainedState, current_retained, current_tick, tick_of,
}
use runen_net.Replication.Client.Validity
use runen_net.Replication.Client.Sets.{ClientReplicationSet, lineage}
use runen_net.Replication.Client.Aggregate.{IsValidSet, lineage-IsValid}
use runen_net.Replication.Model.{key_eq}
use runen_net.Input.Prediction.State.{
  PredictionLineage, PredictionState, active, invalidated, PredictionInvalidationReason,
  replication_recovery, replay_failure, frontier, terminal_reason, PredictionReconciliationOutcome,
  remains_invalidated, invalidated_by_recovery, no_authoritative_commit,
  PredictionReconciliationError,
}
use runen_net.Input.Prediction.Lineage.{behind, invalidate, invalidate_for_recovery}
use runen_net.Input.Prediction.Observation.{
  Observed, awaits_commit, new_boundary, reconcile_in, reconcile_committed, observed_before,
  observe_commit, observe_cursor, observe_state, note_boundary, observe_replication,
}
use runen_net.Input.Prediction.Validity.{
  IsValid, empty-IsValid, noted-IsValid, invalidate-IsValid, invalidate_unless_terminal-IsValid,
}
use runen_net.Input.Prediction.Reconciliation.{
  replay_each, replayed, advanced, reconcile_committed-replayed,
}
use mathlib.Core.Path.{subst}
use runen_net.Input.Prediction.Progress.{
  Advances, same-Advances, transitive-Advances, active-Advances, invalidate-Advances,
  invalidate_unless_terminal-Advances, advanced-IsValid, is_defect,
}

tick_of-is_some :
    {S : Type 0} (r : Option (RetainedState S)) → is_some r ≡ true → is_some (tick_of r) ≡ true
tick_of-is_some none h = absurd (cc)
tick_of-is_some (some r) h = refl

current_tick-is_some :
    {S : Type 0} (l : ClientLineage S) (cursor : ℕ)
    → Validity.IsValid l
    → l.current ≡ some cursor
    → is_some (current_tick l) ≡ true
unfolding current_tick current_retained
current_tick-is_some l cursor w c =
    subst
      (λ o.
        is_some (tick_of (elim o [ none ↦ none | some current ↦ BTreeMap.get l.retained current ]))
        ≡ true)
      (sym c)
      (tick_of-is_some (BTreeMap.get l.retained cursor)
        (subst (λ o. Validity.IsNewest o l.retained) c w.newest).0)

abbrev defect_in :
    {E : Type 0}
    → Option (Result PredictionReconciliationOutcome (PredictionReconciliationError E))
    → Bool
defect_in none = false
defect_in (some result) = is_defect result

no_defect_before :
    {E : Type 0} (last : Option ℕ) (cursor : ℕ)
    (result : Result PredictionReconciliationOutcome (PredictionReconciliationError E))
    → observed_before last cursor ≡ some result
    → is_defect result ≡ false
no_defect_before none cursor result h = absurd (cc)
no_defect_before (some last) cursor result h =
    subst (λ x. defect_in x ≡ false) h
      (elim (Bool-cases (ltb cursor last)) [
        | inl e ↦ rw e refl
        | inr e ↦ elim (Bool-cases (cursor == last)) [
          | inl q ↦ rw (e, q) refl
          | inr q ↦ rw (e, q) refl
        ]
      ])

module _ {I W E : Type 0} where
  -- The prediction stays valid, advances, and no broken invariant shows.
  pub record IsSound (p : PredictionLineage I) (r : Observed I W E) : Type 0 where
    pub valid : IsValid r.0
    pub advances : Advances p.state r.0.state
    pub no_defect : is_defect r.2 ≡ false

  same-IsSound :
      (p : PredictionLineage I) (world : W)
      (result : Result PredictionReconciliationOutcome (PredictionReconciliationError E))
      → IsValid p
      → is_defect result ≡ false
      → IsSound p (p, world, result)
  same-IsSound p world result v h = record {
    valid = v;
    advances = same-Advances p.state;
    no_defect = h;
  }

  module _ (replay : W → ℕ → I → W × Result (Unit {0}) E) where
    replayed-IsSound :
        (p : PredictionLineage I) (tick f cursor : ℕ) (r : W × Option (ℕ × E))
        → IsValid p
        → p.state ≡ active f
        → f ≤ tick
        → IsSound p
            (replayed replay (advanced p cursor tick) tick (split_off p.pending (suc tick)) r)
    replayed-IsSound p tick f cursor (world, none) v s h = record {
      valid = advanced-IsValid p cursor tick f v s h;
      advances = active-Advances p.state tick (rw s refl) (rw s (ground arith));
      no_defect = refl;
    }
    replayed-IsSound p tick f cursor (world, some (at, source)) v s h = record {
      valid =
          invalidate-IsValid (advanced p cursor tick) replay_failure refl
            (advanced-IsValid p cursor tick f v s h);
      advances =
          transitive-Advances p.state (active tick)
            (invalidate (advanced p cursor tick) replay_failure).state
            (active-Advances p.state tick (rw s refl) (rw s (ground arith)))
            (invalidate-Advances (advanced p cursor tick) replay_failure refl);
      no_defect = refl;
    }

    reconcile_committed-IsSound :
        (p : PredictionLineage I) (world : W) (cursor tick : ℕ)
        → IsValid p
        → is_some (terminal_reason p.state) ≡ false
        → IsSound p (reconcile_committed replay p world cursor tick)
    unfolding reconcile_committed reconcile_in
    reconcile_committed-IsSound p world cursor tick v t =
        elim (Bool-cases (behind tick (frontier p.state))) [
          | inl e ↦
              rw (e, reconcile_committed)
                (same-IsSound p world (err PredictionReconciliationError.frontier_regression) v
                  refl)
          | inr e ↦ by_state p.state refl e
        ]
      where
        restarted :
            (reason : PredictionInvalidationReason) (f : Option ℕ)
            → behind tick (frontier p.state) ≡ false
            → IsSound p (reconcile_in replay p (invalidated reason f) world cursor tick)
        restarted reason f e = elim (Bool-cases (awaits_commit reason)) [
          | inl a ↦
              rw (a, reconcile_in)
                (record {
                  valid =
                      empty-IsValid p (active tick) (some cursor) p.last_observed_recovery_boundary
                        v (λ h. absurd (cc));
                  advances = active-Advances p.state tick t e;
                  no_defect = refl;
                })
          | inr a ↦
              rw (a, reconcile_in)
                (record {
                  valid = noted-IsValid p (some cursor) p.last_observed_recovery_boundary v;
                  advances = same-Advances p.state;
                  no_defect = refl;
                })
        ]

        by_state :
            (s : PredictionState)
            → p.state ≡ s
            → behind tick (frontier p.state) ≡ false
            → IsSound p (reconcile_committed replay p world cursor tick)
        by_state (active f) s e =
            let in_order : f ≤ tick =
              ground (arith, subst (λ x. behind tick (frontier x) ≡ false) s e) in
            subst (IsSound p)
              (sym (reconcile_committed-replayed replay p world cursor tick f v s in_order))
              (replayed-IsSound p tick f cursor
                (replay_each replay world (split_off p.pending (suc tick))) v s in_order)
        by_state (invalidated reason f) s e =
            rw (e, reconcile_committed)
              (subst (λ x. IsSound p (reconcile_in replay p x world cursor tick)) (sym s)
                (restarted reason f e))

    observe_cursor-IsSound :
        {S : Type 0} (p : PredictionLineage I) (world : W) (l : ClientLineage S) (cursor : ℕ)
        → IsValid p
        → is_some (current_tick l) ≡ true
        → IsSound p (observe_cursor replay p world l cursor)
    unfolding observe_cursor
    observe_cursor-IsSound p world l cursor v w = elim (Option-cases (terminal_reason p.state)) [
      | inr (t, e) ↦
          rw (e, observe_cursor) (same-IsSound p world (ok (remains_invalidated t)) v refl)
      | inl e ↦ elim (Option-cases (observed_before {E = E} p.last_observed_commit cursor)) [
        | inr (result, o) ↦
            rw (e, o, observe_cursor)
              (same-IsSound p world result v
                (no_defect_before p.last_observed_commit cursor result o))
        | inl o ↦ elim (Option-cases (current_tick l)) [
          | inl n ↦ absurd (cc)
          | inr (tick, n) ↦
              rw (e, o, n, observe_cursor)
                (reconcile_committed-IsSound p world cursor tick v (rw e refl))
        ]
      ]
    ]

    observe_commit-IsSound :
        {S : Type 0} (p : PredictionLineage I) (world : W) (l : ClientLineage S)
        → IsValid p
        → Validity.IsValid l
        → IsSound p (observe_commit replay p world l)
    unfolding observe_commit
    observe_commit-IsSound p world l v w = by_current l.current refl
      where
        by_current :
            (o : Option ℕ)
            → l.current ≡ o
            → IsSound p (elim o [
              | none ↦ (p, world, ok no_authoritative_commit)
              | some cursor ↦ observe_cursor replay p world l cursor
            ])
        by_current none c = same-IsSound p world (ok no_authoritative_commit) v refl
        by_current (some cursor) c =
            observe_cursor-IsSound p world l cursor v (current_tick-is_some l cursor w c)

    observe_state-IsSound :
        {S : Type 0} (p : PredictionLineage I) (observed_new : Bool) (world : W)
        (l : ClientLineage S) (state : ClientReplicationState)
        → IsValid p
        → Validity.IsValid l
        → IsSound p (observe_state replay p observed_new world l state)
    unfolding observe_state
    observe_state-IsSound p observed_new world l synchronized v w =
        observe_commit-IsSound p world l v w
    observe_state-IsSound p observed_new world l (full_snapshot_required reason) v w =
        elim (Option-cases (terminal_reason p.state)) [
          | inr (t, e) ↦
              rw (e, observe_state) (same-IsSound p world (ok (remains_invalidated t)) v refl)
          | inl e ↦ rw (e, observe_state) (by_new observed_new)
        ]
      where
        by_new :
            (b : Bool)
            → IsSound p (
              if b then p else invalidate_for_recovery p reason,
              world,
              ok (invalidated_by_recovery reason),
            )
        by_new true = same-IsSound p world (ok (invalidated_by_recovery reason)) v refl
        by_new false = record {
          valid = invalidate_unless_terminal-IsValid p (replication_recovery reason) refl v;
          advances = invalidate_unless_terminal-Advances p (replication_recovery reason);
          no_defect = refl;
        }

    -- Of a valid prediction and a valid set of client lineages, an observation finds no accounting violation
    -- and no missing tick; the prediction stays valid; a terminal one stays terminal, and the frontier of any
    -- other does not go back.
    pub observe_replication-IsSound :
        {S : Type 0} (p : PredictionLineage I) (world : W) (set : ClientReplicationSet S)
        → IsValid p
        → IsValidSet set
        → IsSound p (observe_replication replay p world set)
    unfolding observe_replication
    observe_replication-IsSound {S = S} p world set v valid =
        elim (Option-cases (lineage set p.key)) [
          | inl h ↦
              rw (h, observe_replication)
                (same-IsSound p world
                  (err PredictionReconciliationError.replication_lineage_missing) v refl)
          | inr (l, h) ↦
              rw (h, observe_replication)
                (after_boundary
                  (new_boundary l.latest_recovery_boundary p.last_observed_recovery_boundary) l
                  (lineage-IsValid set p.key l valid h))
        ]
      where
        after_boundary :
            (b : Option (ℕ × ClientRecoveryReason)) (l : ClientLineage S)
            → Validity.IsValid l
            → IsSound p (observe_state replay (note_boundary p b) (is_some b) world l l.state)
        after_boundary none l w = observe_state-IsSound p false world l l.state v w
        after_boundary (some (boundary, reason)) l w =
            let noted = record p { last_observed_recovery_boundary = some boundary } in
            let sound =
              observe_state-IsSound (invalidate_for_recovery noted reason) true world l l.state
                (invalidate_unless_terminal-IsValid noted (replication_recovery reason) refl
                  (noted-IsValid p p.last_observed_commit (some boundary) v))
                w in
            record {
              valid = sound.valid;
              advances =
                  transitive-Advances p.state (invalidate_for_recovery noted reason).state _
                    (invalidate_unless_terminal-Advances noted (replication_recovery reason))
                    sound.advances;
              no_defect = sound.no_defect;
            }
