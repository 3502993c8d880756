-- ===== src/Replication/Authority/Types.antt =====
-- replication/authority.rs: the types, and the queries of a lineage.
use runen_net.Prelude.{ℕ, Bool, Option, none, some, [], nat_eq, is_some, saturating_add}
use runen_net.Identity.{SimulationTick}
use runen_net.Collections.BTreeMap.{BTreeMap}
use runen_net.Replication.Model.{
  ReplicationLineageKey, ReplicationCursor, RecoveryGeneration, AccountedState,
  ReplicationRetentionLimits, FullSnapshot,
}

pub data SnapshotKind : Type 0 where
  full delta : SnapshotKind

pub data AuthorityRecoveryReason : Type 0 where
  initial_baseline recovery_demand baseline_evicted : AuthorityRecoveryReason
  confirmed_baseline_unavailable connection_replacement : AuthorityRecoveryReason

pub data AuthorityReplicationState : Type 0 where
  delta_eligible : ReplicationCursor → AuthorityReplicationState
  full_snapshot_required :
      (reason : AuthorityRecoveryReason) (generation : RecoveryGeneration)
      (start_cursor_watermark : Option ReplicationCursor)
      → AuthorityReplicationState

pub data AuthorityPrepareError : Type 0 where
  pending_candidate_exists cursor_not_newer tick_regression delta_not_eligible :
      AuthorityPrepareError
  baseline_unavailable candidate_too_large : AuthorityPrepareError
  recovery_designation_requires_recovery recovery_full_not_newer_than_watermark :
      AuthorityPrepareError

pub data AuthorityOperationError : Type 0 where
  unauthorized no_pending_candidate recovery_generation_exhausted : AuthorityOperationError

pub data AuthorityAckOutcome : Type 0 where
  duplicate_confirmation stale_confirmation confirmed : AuthorityAckOutcome
  future_confirmation unverifiable_confirmation : AuthorityAckOutcome

pub data AuthoritySessionError : Type 0 where
  lineage_already_exists unknown_lineage aggregate_resource_limit_exceeded : AuthoritySessionError
  prepare : AuthorityPrepareError → AuthoritySessionError
  operation : AuthorityOperationError → AuthoritySessionError

-- `PendingSnapshotSummary` and `EmittedSnapshot` have the same fields.
pub record PendingSnapshotSummary : Type 0 where
  pub kind : SnapshotKind
  pub base_cursor : Option ReplicationCursor
  pub target_cursor : ReplicationCursor
  pub target_tick : SimulationTick
  pub recovery_generation : Option RecoveryGeneration

pub record EmittedSnapshot : Type 0 where
  pub kind : SnapshotKind
  pub base_cursor : Option ReplicationCursor
  pub target_cursor : ReplicationCursor
  pub target_tick : SimulationTick
  pub recovery_generation : Option RecoveryGeneration

pub record RetainedState (S : Type 0) : Type 0 where
  pub tick : SimulationTick
  pub image : AccountedState S

pub record EmissionEvidence : Type 0 where
  pub kind : SnapshotKind
  pub recovery_generation : Option RecoveryGeneration

pub data SnapshotCandidate (S D : Type 0) : Type 0 where
  full : FullSnapshot S → (recovery_generation : Option RecoveryGeneration) → SnapshotCandidate S D
  delta :
      (base_cursor target_cursor : ReplicationCursor) (target_tick : SimulationTick)
      → AccountedState S
      → D
      → (additional_candidate_bytes : ℕ) → SnapshotCandidate S D

pub record AuthorityLineage (S D : Type 0) : Type 0 where
  pub key : ReplicationLineageKey
  pub limits : ReplicationRetentionLimits
  pub state : AuthorityReplicationState
  pub generation : RecoveryGeneration
  pub latest_confirmed : Option ReplicationCursor
  pub greatest_emitted : Option ReplicationCursor
  pub greatest_emitted_tick : Option SimulationTick
  pub retained : BTreeMap (RetainedState S)
  pub retained_bytes : ℕ
  pub evidence : BTreeMap EmissionEvidence
  pub pending : Option (SnapshotCandidate S D)

module _ {S : Type 0} where
  abbrev pub image_bytes : RetainedState S → ℕ
  image_bytes r = r.image.accounted_bytes

module _ {S D : Type 0} where
  -- `SnapshotCandidate::state_bytes`.
  abbrev pub candidate_state_bytes : SnapshotCandidate S D → ℕ
  candidate_state_bytes (full snapshot generation) = snapshot.image.accounted_bytes
  candidate_state_bytes (delta base target tick image d additional) = image.accounted_bytes

  abbrev pub total_candidate_bytes : SnapshotCandidate S D → ℕ
  total_candidate_bytes (full snapshot generation) = snapshot.image.accounted_bytes
  total_candidate_bytes (delta base target tick image d additional) =
      saturating_add image.accounted_bytes additional

  -- `AuthorityLineage::new`.
  unfoldable pub new_authority_lineage :
      ReplicationLineageKey → ReplicationRetentionLimits → AuthorityLineage S D
  new_authority_lineage key limits = record {
    key = key;
    limits = limits;
    state = full_snapshot_required initial_baseline 0 none;
    generation = 0;
    latest_confirmed = none;
    greatest_emitted = none;
    greatest_emitted_tick = none;
    retained = [];
    retained_bytes = 0;
    evidence = [];
    pending = none;
  }

  abbrev pub bytes_or_zero : (SnapshotCandidate S D → ℕ) → Option (SnapshotCandidate S D) → ℕ
  bytes_or_zero f none = 0
  bytes_or_zero f (some candidate) = f candidate

  abbrev pub pending_state_bytes : AuthorityLineage S D → ℕ
  pending_state_bytes l = bytes_or_zero candidate_state_bytes l.pending

  abbrev pub pending_candidate_bytes : AuthorityLineage S D → ℕ
  pending_candidate_bytes l = bytes_or_zero total_candidate_bytes l.pending

  abbrev pub has_pending : AuthorityLineage S D → Bool
  has_pending l = is_some l.pending
