-- ===== src/Input/Prediction/State.antt =====
-- input/prediction.rs and input/model.rs: the data of predictions.
use runen_net.Prelude.{ℕ, Option, none, some, []}
use runen_net.Identity.{SimulationTick}
use runen_net.Collections.BTreeMap.{BTreeMap}
use runen_net.Replication.Model.{ReplicationLineageKey, ReplicationCursor}
use runen_net.Replication.Client.Lineage.{ClientRecoveryReason}

pub record PredictionLimits : Type 0 where
  pub max_pending_inputs : ℕ
  pub max_pending_bytes : ℕ
  pub max_future_tick_distance : ℕ

pub record PendingInput (I : Type 0) : Type 0 where
  pub value : I
  pub accounted_bytes : ℕ

pub data PredictionInvalidationReason : Type 0 where
  initial_baseline : PredictionInvalidationReason
  replication_recovery : ClientRecoveryReason → PredictionInvalidationReason
  connection_loss local_application_failure replay_failure : PredictionInvalidationReason
  participant_membership_ended session_closed : PredictionInvalidationReason

pub data PredictionState : Type 0 where
  active : (frontier : SimulationTick) → PredictionState
  invalidated :
      (reason : PredictionInvalidationReason) (frontier : Option SimulationTick) → PredictionState

pub data PredictionInputOutcome : Type 0 where
  input_accepted duplicate_input conflicting_input : PredictionInputOutcome
  prediction_input_not_newer_than_frontier pending_prediction_resource_rejected :
      PredictionInputOutcome
  prediction_invalidated : PredictionInvalidationReason → PredictionInputOutcome

pub data PredictionReconciliationOutcome : Type 0 where
  no_authoritative_commit : PredictionReconciliationOutcome
  activated_from_authoritative : (frontier : SimulationTick) → PredictionReconciliationOutcome
  reconciled_no_replay : (frontier : SimulationTick) → PredictionReconciliationOutcome
  reconciled_replay : (frontier : SimulationTick) (replayed : ℕ) → PredictionReconciliationOutcome
  invalidated_by_recovery : ClientRecoveryReason → PredictionReconciliationOutcome
  remains_invalidated : PredictionInvalidationReason → PredictionReconciliationOutcome

pub data PredictionActivationError : Type 0 where
  replication_lineage_missing not_host_state_failure replication_not_synchronized :
      PredictionActivationError
  missing_committed_tick frontier_regression : PredictionActivationError

pub data PredictionReconciliationError (E : Type 0) : Type 0 where
  replication_lineage_missing : PredictionReconciliationError E
  committed_cursor_regression :
      (last_observed current : ReplicationCursor) → PredictionReconciliationError E
  missing_committed_tick frontier_regression accounting_invariant_violation :
      PredictionReconciliationError E
  replay_failed : (tick : SimulationTick) (source : E) → PredictionReconciliationError E

pub record PredictionLineage (I : Type 0) : Type 0 where
  pub key : ReplicationLineageKey
  pub limits : PredictionLimits
  pub state : PredictionState
  pub pending : BTreeMap (PendingInput I)
  pub pending_bytes : ℕ
  pub last_observed_commit : Option ReplicationCursor
  pub last_observed_recovery_boundary : Option ReplicationCursor

-- `PredictionLineage::new`.
unfoldable pub new_prediction :
    {I : Type 0} → ReplicationLineageKey → PredictionLimits → PredictionLineage I
new_prediction key limits = record {
  key = key;
  limits = limits;
  state = invalidated initial_baseline none;
  pending = [];
  pending_bytes = 0;
  last_observed_commit = none;
  last_observed_recovery_boundary = none;
}

-- The frontier of a state.
abbrev pub frontier : PredictionState → Option SimulationTick
frontier (active f) = some f
frontier (invalidated reason f) = f

abbrev pub terminal : PredictionInvalidationReason → Option PredictionInvalidationReason
terminal participant_membership_ended = some participant_membership_ended
terminal session_closed = some session_closed
terminal reason = none

-- `terminal_reason`, of a state.
abbrev pub terminal_reason : PredictionState → Option PredictionInvalidationReason
terminal_reason (active f) = none
terminal_reason (invalidated reason f) = terminal reason
