-- ===== src/Replication/Client/Apply.antt =====
-- replication/client.rs: the application of full and delta snapshots. `none` is a panic.
use runen_net.Prelude.{not, Option, none, some, if◌then◌else◌, ltb, leb, nat_eq, Result, ok, err}
use runen_net.Identity.{SimulationTick}
use runen_net.Collections.BTreeMap
use runen_net.Replication.Model.{
  ReplicationLineageKey, key_eq, ReplicationCursor, AccountedState, FullSnapshot, DeltaSnapshot,
}
use runen_net.Replication.Client.Lineage
use runen_net.Replication.Client.Lineage.{
  ClientRecoveryReason, ClientSnapshotOutcome, ClientLineage, RetainedState, CommitPlan,
  synchronized, is_synchronized, committed, tick_regression, delta_blocked_by_recovery,
  state_resource_failure, connection_replacement, delta_commit_failure, delta_tick_regression,
  new_lineage, classify_cursor, tick_regresses_current, plan_commit, commit_with_plan,
}
use runen_net.Replication.Client.Sets.{
  DeltaReconstructionError, malformed, reconstruction_failed, unknown_lineage, set_error,
  host_commit_failure, ClientReplicationSet, Reply, Reconstruct, lineage, put_lineage,
  aggregate_commit_fits, enter_recovery,
}

module _ {S E : Type 0} where
  abbrev pub stays :
      ClientReplicationSet S → ClientSnapshotOutcome → Option (ClientReplicationSet S × Reply E)
  stays set outcome = some (set, ok outcome)

  -- `self.enter_recovery(key, reason).map_err(ClientApplyError::Set)?; return Ok(outcome);`
  unfoldable pub recovers :
      ClientReplicationSet S
      → ReplicationLineageKey
      → ClientRecoveryReason
      → ClientSnapshotOutcome
      → Option (ClientReplicationSet S × Reply E)
  recovers set key reason outcome = elim (enter_recovery set key reason) [
    | err e ↦ some (set, err (set_error e))
    | ok set' ↦ some (set', ok outcome)
  ]

  -- The end of both applies: the plan, the two checks, the host's commit and the commit itself.
  -- `failed` is the set that a failed host commit leaves.
  unfoldable pub commit_image :
      ClientReplicationSet S
      → ReplicationLineageKey
      → ClientLineage S
      → ReplicationCursor
      → SimulationTick
      → AccountedState S
      → (S → Result (Unit {0}) E)
      → ClientReplicationSet S
      → Option (ClientReplicationSet S × Reply E)
  commit_image set key l target tick image host_commit failed =
      elim (plan_commit l image.accounted_bytes) [
        | none ↦ none
        | some answer ↦ elim answer [
          | none ↦ stays set state_resource_failure
          | some plan ↦
              if not (aggregate_commit_fits set l plan image.accounted_bytes)
              then stays set state_resource_failure
              else elim (host_commit image.state) [
                | err source ↦ some (failed, err (host_commit_failure source))
                | ok u ↦ elim (commit_with_plan l target tick image plan) [
                  | none ↦ none
                  | some l' ↦ some (put_lineage set key l', ok (committed target))
                ]
              ]
        ]
      ]

  unfoldable pub apply_full :
      ClientReplicationSet S
      → ReplicationLineageKey
      → FullSnapshot S
      → (S → Result (Unit {0}) E)
      → Option (ClientReplicationSet S × Reply E)
  apply_full set key snapshot host_commit = elim (lineage set key) [
    | none ↦ some (set, err (set_error unknown_lineage))
    | some l ↦ elim (classify_cursor l snapshot.target_cursor) [
      | some outcome ↦ stays set outcome
      | none ↦
          if tick_regresses_current l snapshot.target_tick
          then stays set tick_regression
          else commit_image set key l snapshot.target_cursor snapshot.target_tick snapshot.image
              host_commit set
    ]
  ]

  module _ {D : Type 0} where
    unfoldable pub apply_reconstructed :
        ClientReplicationSet S
        → ReplicationLineageKey
        → ClientLineage S
        → DeltaSnapshot D
        → (S → Result (Unit {0}) E)
        → Result (AccountedState S) DeltaReconstructionError
        → Option (ClientReplicationSet S × Reply E)
    apply_reconstructed set key l snapshot host_commit (err malformed) =
        recovers set key ClientRecoveryReason.malformed_delta ClientSnapshotOutcome.malformed_delta
    apply_reconstructed set key l snapshot host_commit (err reconstruction_failed) =
        recovers set key ClientRecoveryReason.reconstruction_failure
          ClientSnapshotOutcome.reconstruction_failure
    apply_reconstructed set key l snapshot host_commit (ok candidate) =
        commit_image set key l snapshot.target_cursor snapshot.target_tick candidate host_commit
          (put_lineage set key (Lineage.enter_recovery l delta_commit_failure))

    unfoldable pub apply_on_base :
        ClientReplicationSet S
        → ReplicationLineageKey
        → ClientLineage S
        → DeltaSnapshot D
        → Reconstruct S D
        → (S → Result (Unit {0}) E)
        → Option (RetainedState S)
        → Option (ClientReplicationSet S × Reply E)
    unfolding apply_reconstructed
    apply_on_base set key l snapshot reconstruct host_commit none =
        recovers set key ClientRecoveryReason.missing_base ClientSnapshotOutcome.missing_base
    apply_on_base set key l snapshot reconstruct host_commit (some base) =
        if ltb snapshot.target_tick base.tick
        then recovers set key delta_tick_regression tick_regression
        else apply_reconstructed set key l snapshot host_commit
            (reconstruct base.image.state snapshot.delta l.limits.max_candidate_bytes_per_lineage)

    unfoldable pub apply_delta :
        ClientReplicationSet S
        → ReplicationLineageKey
        → DeltaSnapshot D
        → Reconstruct S D
        → (S → Result (Unit {0}) E)
        → Option (ClientReplicationSet S × Reply E)
    unfolding apply_on_base
    apply_delta set key snapshot reconstruct host_commit = elim (lineage set key) [
      | none ↦ some (set, err (set_error unknown_lineage))
      | some l ↦ elim (classify_cursor l snapshot.target_cursor) [
        | some outcome ↦ stays set outcome
        | none ↦
            if not (is_synchronized l.state)
            then stays set delta_blocked_by_recovery
            else if leb snapshot.target_cursor snapshot.base_cursor
            then recovers set key ClientRecoveryReason.malformed_delta
                ClientSnapshotOutcome.malformed_delta
            else if tick_regresses_current l snapshot.target_tick
            then recovers set key delta_tick_regression tick_regression
            else apply_on_base set key l snapshot reconstruct host_commit
                (BTreeMap.get l.retained snapshot.base_cursor)
      ]
    ]
