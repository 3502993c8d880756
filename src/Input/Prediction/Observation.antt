-- ===== src/Input/Prediction/Observation.antt =====
-- input/prediction.rs: what a client's predictions take from its replication lineage. The host's
-- replay closure may change the host: it takes and returns a world.
use runen_net.Prelude.{
  ℕ, Bool, true, false, Option, none, some, List, [], ◌∷◌, if◌then◌else◌, ltb, ◌==◌, nat_eq,
  checked_add, checked_sub, Result, ok, err, is_some,
}
use runen_net.Identity.{SimulationTick}
use runen_net.Collections.BTreeMap.{BTreeMap}
use runen_net.Collections.BTreeMap
use runen_net.Replication.Model.{ReplicationCursor}
use runen_net.Replication.Client.Lineage.{
  ClientRecoveryReason, ClientLineage, ClientReplicationState, synchronized, full_snapshot_required,
  current_tick,
}
use runen_net.Replication.Client.Sets.{ClientReplicationSet, lineage}
use runen_net.Input.Prediction.State.{
  PredictionLineage, PredictionState, active, invalidated, PredictionInvalidationReason,
  initial_baseline, replication_recovery, replay_failure, PredictionReconciliationOutcome,
  no_authoritative_commit, activated_from_authoritative, reconciled_no_replay, reconciled_replay,
  invalidated_by_recovery, remains_invalidated, PredictionReconciliationError,
  committed_cursor_regression, accounting_invariant_violation, replay_failed, PendingInput,
  frontier, terminal_reason,
}
use runen_net.Input.Prediction.Lineage.{behind, invalidate, invalidate_for_recovery, activated}

-- A boundary that was not observed before.
abbrev pub new_boundary :
    Option (ReplicationCursor × ClientRecoveryReason)
    → Option ReplicationCursor
    → Option (ReplicationCursor × ClientRecoveryReason)
new_boundary none last = none
new_boundary (some b) none = some b
new_boundary (some (boundary, reason)) (some last) =
    if ltb last boundary then some (boundary, reason) else none

-- The invalidations that the next commit ends.
abbrev pub awaits_commit : PredictionInvalidationReason → Bool
awaits_commit initial_baseline = true
awaits_commit (replication_recovery reason) = true
awaits_commit other = false

abbrev pub Observed : (I W E : Type 0) → Type 0
Observed I W E =
    PredictionLineage I
    × W
    × Result PredictionReconciliationOutcome (PredictionReconciliationError E)

pub data ReplayEnd (E : Type 0) : Type 0 where
  completed : (replayed : ℕ) → ReplayEnd E
  failed : (tick : SimulationTick) (source : E) → ReplayEnd E
  overflowed : ReplayEnd E

-- How a current cursor stands to the last observed commit: `none` if it is newer.
abbrev pub observed_before :
    {E : Type 0}
    → Option ReplicationCursor
    → ReplicationCursor
    → Option (Result PredictionReconciliationOutcome (PredictionReconciliationError E))
observed_before none cursor = none
observed_before (some last) cursor =
    if ltb cursor last
    then some (err (committed_cursor_regression last cursor))
    else if cursor == last
    then some (ok no_authoritative_commit)
    else none

module _ {I : Type 0} where
  -- The loop over `range(..=tick)`: the ticks, and the bytes; `none` is an overflow.
  unfoldable pub retired :
      SimulationTick → ℕ → BTreeMap (PendingInput I) → Option (List SimulationTick × ℕ)
  retired tick bytes [] = some ([], bytes)
  retired tick bytes ((t, p) ∷ m) =
      if ltb tick t then some ([], bytes) else elim (checked_add bytes p.accounted_bytes) [
        | none ↦ none
        | some bytes' ↦ elim (retired tick bytes' m) [
          | none ↦ none
          | some (ticks, last) ↦ some (t ∷ ticks, last)
        ]
      ]

  unfoldable pub remove_all :
      BTreeMap (PendingInput I) → List SimulationTick → BTreeMap (PendingInput I)
  remove_all m [] = m
  remove_all m (t ∷ ticks) = remove_all (BTreeMap.remove m t) ticks

  abbrev pub note_boundary :
      PredictionLineage I → Option (ReplicationCursor × ClientRecoveryReason) → PredictionLineage I
  note_boundary p none = p
  note_boundary p (some (boundary, reason)) =
      invalidate_for_recovery (record p { last_observed_recovery_boundary = some boundary }) reason

  module _ {W E : Type 0} (replay : W → SimulationTick → I → W × Result (Unit {0}) E) where
    unfoldable pub replay_loop : W → BTreeMap (PendingInput I) → ℕ → W × ReplayEnd E
    replay_loop world [] replayed = (world, completed replayed)
    replay_loop world ((tick, p) ∷ m) replayed =
        let (world', outcome) = replay world tick p.value in
        elim outcome [
          | err source ↦ (world', failed tick source)
          | ok done ↦ elim (checked_add replayed 1) [
            | none ↦ (world', overflowed)
            | some replayed' ↦ replay_loop world' m replayed'
          ]
        ]

    unfoldable pub after_replay :
        PredictionLineage I → SimulationTick → W × ReplayEnd E → Observed I W E
    after_replay p tick (world, completed replayed) =
        (p, world, ok (reconciled_replay tick replayed))
    after_replay p tick (world, failed at source) =
        (invalidate p replay_failure, world, err (replay_failed at source))
    after_replay p tick (world, overflowed) = (p, world, err accounting_invariant_violation)

    -- The last part of `reconcile_committed`: the inputs that are left are replayed.
    unfoldable pub replay_rest :
        PredictionLineage I → W → SimulationTick → BTreeMap (PendingInput I) → Observed I W E
    unfolding replay_loop after_replay
    replay_rest p world tick [] = (p, world, ok (reconciled_no_replay tick))
    replay_rest p world tick (x ∷ rest) = after_replay p tick (replay_loop world (x ∷ rest) 0)

    unfoldable pub reconcile_active :
        PredictionLineage I → W → ReplicationCursor → SimulationTick → Observed I W E
    unfolding replay_rest
    reconcile_active p world cursor tick = elim (retired tick 0 p.pending) [
      | none ↦ (p, world, err accounting_invariant_violation)
      | some (ticks, bytes) ↦ elim (checked_sub p.pending_bytes bytes) [
        | none ↦ (p, world, err accounting_invariant_violation)
        | some left ↦
            let rest = remove_all p.pending ticks in
            replay_rest
              (record p {
                last_observed_commit = some cursor;
                state = active tick;
                pending = rest;
                pending_bytes = left;
              })
              world tick rest
      ]
    ]

    unfoldable pub reconcile_in :
        PredictionLineage I
        → PredictionState
        → W
        → ReplicationCursor
        → SimulationTick
        → Observed I W E
    unfolding reconcile_active
    reconcile_in p (active f) world cursor tick = reconcile_active p world cursor tick
    reconcile_in p (invalidated reason f) world cursor tick =
        if awaits_commit reason
        then (activated p tick cursor, world, ok (activated_from_authoritative tick))
        else (
          record p { last_observed_commit = some cursor },
          world,
          ok (remains_invalidated reason),
        )

    unfoldable pub reconcile_committed :
        PredictionLineage I → W → ReplicationCursor → SimulationTick → Observed I W E
    unfolding reconcile_in
    reconcile_committed p world cursor tick =
        if behind tick (frontier p.state)
        then (p, world, err PredictionReconciliationError.frontier_regression)
        else reconcile_in p p.state world cursor tick

    -- `observe_replication` of a lineage with a current cursor.
    unfoldable pub observe_cursor :
        {S : Type 0}
        → PredictionLineage I
        → W
        → ClientLineage S
        → ReplicationCursor
        → Observed I W E
    unfolding reconcile_committed
    observe_cursor p world l cursor = elim (terminal_reason p.state) [
      | some reason ↦ (p, world, ok (remains_invalidated reason))
      | none ↦ elim (observed_before p.last_observed_commit cursor) [
        | some result ↦ (p, world, result)
        | none ↦ elim (current_tick l) [
          | none ↦ (p, world, err PredictionReconciliationError.missing_committed_tick)
          | some tick ↦ reconcile_committed p world cursor tick
        ]
      ]
    ]

    unfoldable pub observe_commit :
        {S : Type 0} → PredictionLineage I → W → ClientLineage S → Observed I W E
    unfolding observe_cursor
    observe_commit p world l = elim l.current [
      | none ↦ (p, world, ok no_authoritative_commit)
      | some cursor ↦ observe_cursor p world l cursor
    ]

    unfoldable pub observe_state :
        {S : Type 0}
        → PredictionLineage I
        → Bool
        → W
        → ClientLineage S
        → ClientReplicationState
        → Observed I W E
    unfolding observe_commit
    observe_state p observed_new world l synchronized = observe_commit p world l
    observe_state p observed_new world l (full_snapshot_required reason) =
        elim (terminal_reason p.state) [
          | some t ↦ (p, world, ok (remains_invalidated t))
          | none ↦ (
            if observed_new then p else invalidate_for_recovery p reason,
            world,
            ok (invalidated_by_recovery reason),
          )
        ]

    unfoldable pub observe_replication :
        {S : Type 0} → PredictionLineage I → W → ClientReplicationSet S → Observed I W E
    unfolding observe_state
    observe_replication p world replication = elim (lineage replication p.key) [
      | none ↦ (p, world, err PredictionReconciliationError.replication_lineage_missing)
      | some l ↦
          let fresh = new_boundary l.latest_recovery_boundary p.last_observed_recovery_boundary in
          observe_state (note_boundary p fresh) (is_some fresh) world l l.state
    ]
