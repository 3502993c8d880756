-- ===== src/Replication/Client/Lineage.antt =====
-- replication/client.rs: one lineage. Where an answer is optional for no other reason, `none` is a
-- panic: of an `expect`, or of a sum or a difference that leaves `usize`.
use runen_net.Prelude.{
  ℕ, Bool, true, false, not, ◌&&◌, Option, none, some, List, [], ◌∷◌, if◌then◌else◌, ltb, leb, ◌==◌,
  nat_eq, length, checked_add, checked_sub,
}
use runen_net.Identity.{SimulationTick}
use runen_net.Collections.BTreeMap.{BTreeMap}
use runen_net.Collections.BTreeMap
use runen_net.Replication.Model.{
  ReplicationLineageKey, ReplicationCursor, AccountedState, ReplicationRetentionLimits,
}

pub data ClientRecoveryReason : Type 0 where
  initial_baseline missing_base malformed_delta reconstruction_failure : ClientRecoveryReason
  delta_tick_regression delta_commit_failure connection_replacement : ClientRecoveryReason

pub data ClientReplicationState : Type 0 where
  synchronized : ClientReplicationState
  full_snapshot_required : ClientRecoveryReason → ClientReplicationState

pub data ClientSnapshotOutcome : Type 0 where
  committed : ReplicationCursor → ClientSnapshotOutcome
  stale duplicate_current tick_regression missing_base : ClientSnapshotOutcome
  delta_blocked_by_recovery malformed_delta : ClientSnapshotOutcome
  reconstruction_failure state_resource_failure : ClientSnapshotOutcome

pub record RetainedState (S : Type 0) : Type 0 where
  pub tick : SimulationTick
  pub image : AccountedState S

pub record CommitPlan : Type 0 where
  pub evict : List ReplicationCursor
  pub resulting_count : ℕ
  pub resulting_bytes : ℕ

pub record ClientLineage (S : Type 0) : Type 0 where
  pub key : ReplicationLineageKey
  pub limits : ReplicationRetentionLimits
  pub state : ClientReplicationState
  pub current : Option ReplicationCursor
  pub latest_recovery_boundary : Option (ReplicationCursor × ClientRecoveryReason)
  pub retained : BTreeMap (RetainedState S)
  pub retained_bytes : ℕ

abbrev pub is_synchronized : ClientReplicationState → Bool
is_synchronized synchronized = true
is_synchronized (full_snapshot_required r) = false

abbrev pub precedes : SimulationTick → Option SimulationTick → Bool
precedes tick none = false
precedes tick (some current) = ltb tick current

-- `is_none_or(|(recorded, _)| recorded != cursor)`.
abbrev pub not_recorded :
    Option (ReplicationCursor × ClientRecoveryReason) → ReplicationCursor → Bool
not_recorded none cursor = true
not_recorded (some (recorded, r)) cursor = not (recorded == cursor)

abbrev pub boundary_after :
    Option ReplicationCursor
    → Option (ReplicationCursor × ClientRecoveryReason)
    → ClientRecoveryReason
    → Option (ReplicationCursor × ClientRecoveryReason)
boundary_after none boundary reason = boundary
boundary_after (some cursor) boundary reason =
    if not_recorded boundary cursor then some (cursor, reason) else boundary

abbrev pub is_current : Option ReplicationCursor → ReplicationCursor → Bool
is_current none cursor = false
is_current (some current) cursor = current == cursor

-- `count < max_count && bytes <= max_bytes - target_bytes`, whose subtraction only the second test
-- evaluates.
unfoldable pub has_room : (max_count max_bytes target_bytes count bytes : ℕ) → Option Bool
has_room max_count max_bytes target_bytes count bytes =
    if ltb count max_count
    then elim (checked_sub max_bytes target_bytes) [
      | none ↦ none
      | some room ↦ some (leb bytes room)
    ]
    else some false

-- The plan with the candidate added to what the loop leaves.
unfoldable pub planned : ℕ → ℕ × ℕ × List ReplicationCursor → Option (Option CommitPlan)
planned target_bytes (count, bytes, evict) = elim (checked_add count 1) [
  | none ↦ none
  | some resulting_count ↦ elim (checked_add bytes target_bytes) [
    | none ↦ none
    | some resulting_bytes ↦ some (
        some (record {
          evict = evict;
          resulting_count = resulting_count;
          resulting_bytes = resulting_bytes;
        }))
  ]
]

module _ {S : Type 0} where
  abbrev pub bytes_of : RetainedState S → ℕ
  bytes_of r = r.image.accounted_bytes

  unfoldable pub new_lineage : ReplicationLineageKey → ReplicationRetentionLimits → ClientLineage S
  new_lineage key limits = record {
    key = key;
    limits = limits;
    state = full_snapshot_required initial_baseline;
    current = none;
    latest_recovery_boundary = none;
    retained = [];
    retained_bytes = 0;
  }

  -- `self.current.and_then(|cursor| self.retained.get(&cursor))`.
  unfoldable pub current_retained : ClientLineage S → Option (RetainedState S)
  current_retained l = elim l.current [ none ↦ none | some cursor ↦ BTreeMap.get l.retained cursor ]

  abbrev pub tick_of : Option (RetainedState S) → Option SimulationTick
  tick_of none = none
  tick_of (some r) = some r.tick

  unfoldable pub current_tick : ClientLineage S → Option SimulationTick
  unfolding current_retained
  current_tick l = tick_of (current_retained l)

  abbrev pub state_in : Option (RetainedState S) → Option S
  state_in none = none
  state_in (some r) = some r.image.state

  unfoldable pub current_state : ClientLineage S → Option S
  unfolding current_retained
  current_state l = state_in (current_retained l)

  abbrev pub acknowledgement_cursor : ClientLineage S → Option ReplicationCursor
  acknowledgement_cursor l = l.current

  unfoldable pub classify_cursor :
      ClientLineage S → ReplicationCursor → Option ClientSnapshotOutcome
  classify_cursor l target = elim l.current [
    | none ↦ none
    | some current ↦
        if ltb target current
        then some stale
        else if target == current
        then some duplicate_current
        else none
  ]

  unfoldable pub tick_regresses_current : ClientLineage S → SimulationTick → Bool
  unfolding current_tick
  tick_regresses_current l tick = precedes tick (current_tick l)

  abbrev pub state_image_fits : ClientLineage S → ℕ → Bool
  state_image_fits l bytes =
      leb bytes l.limits.max_state_image_bytes
      && leb bytes l.limits.max_candidate_bytes_per_lineage
      && leb bytes l.limits.max_retained_state_bytes_per_lineage

  -- The eviction loop: the count and the bytes that it leaves, and the cursors that it evicts.
  unfoldable pub plan_loop :
      (max_count max_bytes target_bytes : ℕ)
      → BTreeMap (RetainedState S)
      → ℕ
      → ℕ
      → Option (ℕ × ℕ × List ReplicationCursor)
  plan_loop max_count max_bytes target_bytes [] count bytes = some (count, bytes, [])
  plan_loop max_count max_bytes target_bytes ((cursor, r) ∷ rest) count bytes =
      elim (has_room max_count max_bytes target_bytes count bytes) [
        | none ↦ none
        | some enough ↦ elim enough [
          | true ↦ some (count, bytes, [])
          | false ↦ elim (checked_sub count 1) [
            | none ↦ none
            | some count' ↦ elim (checked_sub bytes (bytes_of r)) [
              | none ↦ none
              | some bytes' ↦ elim (plan_loop max_count max_bytes target_bytes rest count' bytes') [
                | none ↦ none
                | some (left, left_bytes, evict) ↦ some (left, left_bytes, cursor ∷ evict)
              ]
            ]
          ]
        ]
      ]

  -- `none` is a panic, `some none` the answer that there is no plan.
  unfoldable pub plan_commit : ClientLineage S → ℕ → Option (Option CommitPlan)
  plan_commit l target_bytes =
      if not (state_image_fits l target_bytes)
      then some none
      else let max_count = l.limits.max_retained_images_per_lineage in
        let max_bytes = l.limits.max_retained_state_bytes_per_lineage in
        elim (plan_loop max_count max_bytes target_bytes l.retained (length l.retained)
          l.retained_bytes) [
            | none ↦ none
            | some (count, bytes, evict) ↦
                elim (has_room max_count max_bytes target_bytes count bytes) [
                  | none ↦ none
                  | some enough ↦ elim enough [
                    | true ↦ planned target_bytes (count, bytes, evict)
                    | false ↦ some none
                  ]
                ]
          ]

  unfoldable pub evict_all :
      BTreeMap (RetainedState S)
      → ℕ
      → List ReplicationCursor
      → Option (BTreeMap (RetainedState S) × ℕ)
  evict_all m bytes [] = some (m, bytes)
  evict_all m bytes (cursor ∷ evict) = elim (BTreeMap.get m cursor) [
    | none ↦ none
    | some removed ↦ elim (checked_sub bytes (bytes_of removed)) [
      | none ↦ none
      | some bytes' ↦ evict_all (BTreeMap.remove m cursor) bytes' evict
    ]
  ]

  unfoldable pub commit_with_plan :
      ClientLineage S
      → ReplicationCursor
      → SimulationTick
      → AccountedState S
      → CommitPlan
      → Option (ClientLineage S)
  commit_with_plan l cursor tick image plan =
      elim (evict_all l.retained l.retained_bytes plan.evict) [
        | none ↦ none
        | some (m, bytes) ↦ elim (checked_add bytes image.accounted_bytes) [
          | none ↦ none
          | some total_bytes ↦ some (record l {
            retained_bytes = total_bytes;
            retained = BTreeMap.insert m cursor (record { tick = tick; image = image });
            current = some cursor;
            state = synchronized;
          })
        ]
      ]

  unfoldable pub enter_recovery : ClientLineage S → ClientRecoveryReason → ClientLineage S
  enter_recovery l reason = record l {
    latest_recovery_boundary = boundary_after l.current l.latest_recovery_boundary reason;
    state = full_snapshot_required reason;
  }

  unfoldable pub evict_historical :
      ClientLineage S → ReplicationCursor → Option (ClientLineage S × Bool)
  evict_historical l cursor =
      if is_current l.current cursor
      then some (l, false)
      else elim (BTreeMap.get l.retained cursor) [
        | none ↦ some (l, false)
        | some removed ↦ elim (checked_sub l.retained_bytes (bytes_of removed)) [
          | none ↦ none
          | some bytes ↦ some (
            record l { retained = BTreeMap.remove l.retained cursor; retained_bytes = bytes },
            true,
          )
        ]
      ]
