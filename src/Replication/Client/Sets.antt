-- ===== src/Replication/Client/Sets.antt =====
-- replication/client.rs: the set of a client's lineages and its aggregate limits.
use runen_net.Prelude.{
  ℕ, Bool, false, ◌&&◌, Option, none, some, [], ◌∷◌, if◌then◌else◌, leb, nat_eq, length, Result, ok,
  err, checked_add, checked_sub, is_some,
}
use runen_net.Collections.HashMap.{HashMap}
use runen_net.Collections.HashMap
use runen_net.Replication.Model.{
  ReplicationLineageKey, key_eq, ReplicationCursor, AccountedState, ReplicationRetentionLimits,
  ClientAggregateLimits,
}
use runen_net.Replication.Client.Lineage
use runen_net.Replication.Client.Lineage.{
  ClientRecoveryReason, ClientSnapshotOutcome, ClientLineage, RetainedState, CommitPlan,
  synchronized, is_synchronized, committed, tick_regression, delta_blocked_by_recovery,
  state_resource_failure, connection_replacement, delta_commit_failure, delta_tick_regression,
  new_lineage, classify_cursor, tick_regresses_current, plan_commit, commit_with_plan,
}

pub data DeltaReconstructionError : Type 0 where
  malformed reconstruction_failed : DeltaReconstructionError

pub data ClientSetError : Type 0 where
  lineage_already_exists unknown_lineage aggregate_lineage_limit_exceeded : ClientSetError

pub data ClientApplyError (E : Type 0) : Type 0 where
  set_error : ClientSetError → ClientApplyError E
  host_commit_failure : (source : E) → ClientApplyError E

pub record ClientReplicationSet (S : Type 0) : Type 0 where
  pub limits : ClientAggregateLimits
  pub lineages : HashMap ReplicationLineageKey (ClientLineage S)

abbrev pub Reply : Type 0 → Type 0
Reply E = Result ClientSnapshotOutcome (ClientApplyError E)

-- `a.checked_sub(b).and_then(|x| x.checked_add(c))`.
abbrev pub project : ℕ → ℕ → ℕ → Option ℕ
project a b c = elim (checked_sub a b) [ none ↦ none | some x ↦ checked_add x c ]

abbrev pub at_most : Option ℕ → ℕ → Bool
at_most none limit = false
at_most (some n) limit = leb n limit

-- `reconstruct` takes the base state, the delta and the candidate byte limit.
abbrev pub Reconstruct : Type 0 → Type 0 → Type 0
Reconstruct S D = S → D → ℕ → Result (AccountedState S) DeltaReconstructionError

module _ {S : Type 0} where
  unfoldable pub new_set : ClientAggregateLimits → ClientReplicationSet S
  new_set limits = record { limits = limits; lineages = [] }

  abbrev pub lineage : ClientReplicationSet S → ReplicationLineageKey → Option (ClientLineage S)
  lineage set key = HashMap.get set.lineages key

  abbrev pub put_lineage :
      ClientReplicationSet S → ReplicationLineageKey → ClientLineage S → ClientReplicationSet S
  put_lineage set key l = record set { lineages = HashMap.insert set.lineages key l }

  unfoldable pub add_lineage :
      ClientReplicationSet S
      → ReplicationLineageKey
      → ReplicationRetentionLimits
      → ClientReplicationSet S × Result (Unit {0}) ClientSetError
  add_lineage set key retention =
      if is_some (lineage set key)
      then (set, err lineage_already_exists)
      else if leb set.limits.max_lineages (length set.lineages)
      then (set, err aggregate_lineage_limit_exceeded)
      else (put_lineage set key (new_lineage key retention), ok tt)

  unfoldable pub remove_lineage :
      ClientReplicationSet S → ReplicationLineageKey → ClientReplicationSet S × Bool
  remove_lineage set key =
      (record set { lineages = HashMap.remove set.lineages key }, is_some (lineage set key))

  -- `try_fold(0, |total, lineage| total.checked_add(f(lineage)))`.
  unfoldable pub checked_total :
      (ClientLineage S → ℕ) → ℕ → HashMap ReplicationLineageKey (ClientLineage S) → Option ℕ
  checked_total f acc [] = some acc
  checked_total f acc ((k, l) ∷ m) = elim (checked_add acc (f l)) [
    | none ↦ none
    | some acc' ↦ checked_total f acc' m
  ]

  abbrev pub image_count : ClientLineage S → ℕ
  image_count l = length l.retained

  abbrev pub state_bytes : ClientLineage S → ℕ
  state_bytes l = l.retained_bytes

  unfoldable pub aggregate_commit_fits :
      ClientReplicationSet S → ClientLineage S → CommitPlan → ℕ → Bool
  aggregate_commit_fits set l plan candidate_bytes =
      elim (checked_total image_count 0 set.lineages) [
        | none ↦ false
        | some current_count ↦ elim (checked_total state_bytes 0 set.lineages) [
          | none ↦ false
          | some current_bytes ↦
              at_most (project current_count (image_count l) plan.resulting_count)
                set.limits.max_retained_images
              && at_most (project current_bytes (state_bytes l) plan.resulting_bytes)
                  set.limits.max_retained_state_bytes
              && at_most (checked_add current_bytes candidate_bytes)
                  set.limits.max_retained_state_bytes
        ]
      ]

  unfoldable pub enter_recovery :
      ClientReplicationSet S
      → ReplicationLineageKey
      → ClientRecoveryReason
      → Result (ClientReplicationSet S) ClientSetError
  enter_recovery set key reason = elim (lineage set key) [
    | none ↦ err unknown_lineage
    | some l ↦ ok (put_lineage set key (Lineage.enter_recovery l reason))
  ]

  abbrev pub require_connection_replacement_full :
      ClientReplicationSet S
      → ReplicationLineageKey
      → Result (ClientReplicationSet S) ClientSetError
  require_connection_replacement_full set key = enter_recovery set key connection_replacement

  unfoldable pub evict_historical :
      ClientReplicationSet S
      → ReplicationLineageKey
      → ReplicationCursor
      → Option (Result (ClientReplicationSet S × Bool) ClientSetError)
  evict_historical set key cursor = elim (lineage set key) [
    | none ↦ some (err unknown_lineage)
    | some l ↦ elim (Lineage.evict_historical l cursor) [
      | none ↦ none
      | some (l', evicted) ↦ some (ok (put_lineage set key l', evicted))
    ]
  ]
