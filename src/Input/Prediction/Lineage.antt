-- ===== src/Input/Prediction/Lineage.antt =====
-- input/prediction.rs: admissions and invalidations of one lineage's predictions.
use runen_net.Prelude.{
  ℕ, ◌-◌, Bool, true, false, ◌||◌, Option, none, some, [], if◌then◌else◌, ltb, leb, ◌==◌, nat_eq,
  Eq, length, checked_add, Result, ok, err,
}
use runen_net.Identity.{SimulationTick}
use runen_net.Collections.BTreeMap.{BTreeMap}
use runen_net.Collections.BTreeMap
use runen_net.Replication.Model.{ReplicationCursor}
use runen_net.Replication.Client.Lineage.{
  ClientRecoveryReason, connection_replacement, ClientLineage, current_tick, is_synchronized,
}
use runen_net.Replication.Client.Sets.{
  ClientReplicationSet, ClientSetError, lineage, require_connection_replacement_full,
}
use runen_net.Input.Prediction.State.{
  PredictionLineage, PredictionState, active, invalidated, PredictionInvalidationReason,
  replication_recovery, connection_loss, local_application_failure, replay_failure,
  participant_membership_ended, session_closed, PredictionInputOutcome, input_accepted,
  duplicate_input, conflicting_input, prediction_input_not_newer_than_frontier,
  pending_prediction_resource_rejected, prediction_invalidated, PredictionActivationError, frontier,
  terminal_reason,
}

-- The reasons after which the host confirms that it has restored its state.
abbrev pub is_host_failure : PredictionState → Bool
is_host_failure (invalidated local_application_failure f) = true
is_host_failure (invalidated replay_failure f) = true
is_host_failure other = false

abbrev pub behind : SimulationTick → Option SimulationTick → Bool
behind tick none = false
behind tick (some f) = ltb tick f

abbrev pub boundary_or :
    Option (ReplicationCursor × ClientRecoveryReason)
    → Option ReplicationCursor
    → Option ReplicationCursor
boundary_or none last = last
boundary_or (some (boundary, reason)) last = some boundary

-- The latest recovery boundary of a lineage that may be missing.
abbrev pub boundary_of :
    {S : Type 0} → Option (ClientLineage S) → Option (ReplicationCursor × ClientRecoveryReason)
boundary_of none = none
boundary_of (some l) = l.latest_recovery_boundary

module _ {I : Type 0} where
  -- `admit_local` with an active prediction.
  unfoldable pub admit_active :
      ⦃e : Eq I⦄
      → PredictionLineage I
      → SimulationTick
      → SimulationTick
      → I
      → ℕ
      → PredictionLineage I × PredictionInputOutcome
  admit_active p f target input bytes =
      if leb target f
      then (p, prediction_input_not_newer_than_frontier)
      else elim (BTreeMap.get p.pending target) [
        | some pending ↦ (p, if pending.value == input then duplicate_input else conflicting_input)
        | none ↦
            if ltb p.limits.max_future_tick_distance (target - f)
              || (ltb p.limits.max_pending_bytes bytes
                  || leb p.limits.max_pending_inputs (length p.pending))
            then (p, pending_prediction_resource_rejected)
            else elim (checked_add p.pending_bytes bytes) [
              | none ↦ (p, pending_prediction_resource_rejected)
              | some next ↦
                  if ltb p.limits.max_pending_bytes next
                  then (p, pending_prediction_resource_rejected)
                  else (
                    record p {
                      pending =
                          BTreeMap.insert p.pending target
                            (record { value = input; accounted_bytes = bytes });
                      pending_bytes = next;
                    },
                    input_accepted,
                  )
            ]
      ]

  unfoldable pub admit_in :
      ⦃e : Eq I⦄
      → PredictionLineage I
      → PredictionState
      → SimulationTick
      → I
      → ℕ
      → PredictionLineage I × PredictionInputOutcome
  unfolding admit_active
  admit_in p (active f) target input bytes = admit_active p f target input bytes
  admit_in p (invalidated reason f) target input bytes = (p, prediction_invalidated reason)

  abbrev pub admit_local :
      ⦃e : Eq I⦄
      → PredictionLineage I
      → SimulationTick
      → I
      → ℕ
      → PredictionLineage I × PredictionInputOutcome
  admit_local p target input bytes = admit_in p p.state target input bytes

  unfoldable pub invalidate :
      PredictionLineage I → PredictionInvalidationReason → PredictionLineage I
  invalidate p reason = record p {
    pending = [];
    pending_bytes = 0;
    state = invalidated reason (frontier p.state);
  }

  unfoldable pub terminate :
      PredictionLineage I → PredictionInvalidationReason → PredictionLineage I
  terminate p reason = record p { pending = []; pending_bytes = 0; state = invalidated reason none }

  -- `if self.terminal_reason().is_none() { self.invalidate(reason) }`.
  unfoldable pub invalidate_unless_terminal :
      PredictionLineage I → PredictionInvalidationReason → PredictionLineage I
  unfolding invalidate
  invalidate_unless_terminal p reason = elim (terminal_reason p.state) [
    | none ↦ invalidate p reason
    | some t ↦ p
  ]

  abbrev pub connection_lost : PredictionLineage I → PredictionLineage I
  connection_lost p = invalidate_unless_terminal p connection_loss

  abbrev pub local_application_failed : PredictionLineage I → PredictionLineage I
  local_application_failed p = invalidate_unless_terminal p local_application_failure

  abbrev pub invalidate_for_recovery :
      PredictionLineage I → ClientRecoveryReason → PredictionLineage I
  invalidate_for_recovery p reason = invalidate_unless_terminal p (replication_recovery reason)

  abbrev pub end_membership : PredictionLineage I → PredictionLineage I
  end_membership p = terminate p participant_membership_ended

  abbrev pub close_session : PredictionLineage I → PredictionLineage I
  close_session p = terminate p session_closed

  unfoldable pub replace_connection :
      {S : Type 0}
      → PredictionLineage I
      → ClientReplicationSet S
      → (PredictionLineage I × ClientReplicationSet S) × Result (Unit {0}) ClientSetError
  replace_connection p replication = elim (require_connection_replacement_full replication p.key) [
    | err e ↦ ((p, replication), err e)
    | ok replication' ↦
        let noted = record p {
          last_observed_recovery_boundary =
              boundary_or (boundary_of (lineage replication' p.key))
                p.last_observed_recovery_boundary;
        } in
        ((invalidate_for_recovery noted connection_replacement, replication'), ok tt)
  ]

  -- Predictions start anew from a tick.
  abbrev pub activated :
      PredictionLineage I → SimulationTick → ReplicationCursor → PredictionLineage I
  activated p tick cursor = record p {
    pending = [];
    pending_bytes = 0;
    state = active tick;
    last_observed_commit = some cursor;
  }

  -- The last part of `confirm_host_restored`; `none` is the panic of its `expect`.
  unfoldable pub restore_at :
      {S : Type 0}
      → PredictionLineage I
      → ClientLineage S
      → SimulationTick
      → Option (PredictionLineage I × Result SimulationTick PredictionActivationError)
  restore_at p l tick = elim l.current [
    | none ↦ none
    | some cursor ↦
        if behind tick (frontier p.state)
        then some (p, err PredictionActivationError.frontier_regression)
        else some (
          record (activated p tick cursor) {
            last_observed_recovery_boundary =
                boundary_or l.latest_recovery_boundary p.last_observed_recovery_boundary;
          },
          ok tick,
        )
  ]

  unfoldable pub confirm_host_restored :
      {S : Type 0}
      → PredictionLineage I
      → ClientReplicationSet S
      → Option (PredictionLineage I × Result SimulationTick PredictionActivationError)
  unfolding restore_at
  confirm_host_restored p replication = elim (lineage replication p.key) [
    | none ↦ some (p, err PredictionActivationError.replication_lineage_missing)
    | some l ↦
        if is_host_failure p.state
        then (if is_synchronized l.state
            then elim (current_tick l) [
              | none ↦ some (p, err PredictionActivationError.missing_committed_tick)
              | some tick ↦ restore_at p l tick
            ]
            else some (p, err PredictionActivationError.replication_not_synchronized))
        else some (p, err PredictionActivationError.not_host_state_failure)
  ]
