-- ===== src/Replication/Authority/Guards.antt =====
-- replication/authority.rs: the tests of a lineage's operations, and their eviction loops.
use runen_net.Prelude.{
  ℕ, ◌-◌, Bool, true, false, ◌&&◌, Option, none, some, [], ◌∷◌, if◌then◌else◌, ltb, leb, ◌==◌,
  nat_eq, length, Result, ok, err,
}
use runen_net.Collections.BTreeMap.{BTreeMap}
use runen_net.Replication.Model.{ReplicationCursor, RecoveryGeneration}
use runen_net.Replication.Authority.Types.{
  SnapshotKind, AuthorityReplicationState, delta_eligible, full_snapshot_required,
  AuthorityPrepareError, recovery_designation_requires_recovery,
  recovery_full_not_newer_than_watermark, AuthorityAckOutcome, duplicate_confirmation,
  stale_confirmation, RetainedState, EmissionEvidence, image_bytes,
}

-- `bound.is_some_and(|b| n <= b)`, and with `<`.
abbrev pub at_or_below : ℕ → Option ℕ → Bool
at_or_below n none = false
at_or_below n (some b) = leb n b

abbrev pub under : ℕ → Option ℕ → Bool
under n none = false
under n (some b) = ltb n b

abbrev pub is_full : SnapshotKind → Bool
is_full SnapshotKind.full = true
is_full SnapshotKind.delta = false

abbrev pub designates : Option RecoveryGeneration → RecoveryGeneration → Bool
designates none generation = false
designates (some g) generation = g == generation

abbrev pub base_of : AuthorityReplicationState → Option ReplicationCursor
base_of (delta_eligible base) = some base
base_of (full_snapshot_required reason generation watermark) = none

abbrev pub is_base : Option ReplicationCursor → ReplicationCursor → Bool
is_base none cursor = false
is_base (some base) cursor = cursor == base

-- The generation that a full snapshot is designated for, or why it cannot be.
abbrev pub designation :
    AuthorityReplicationState
    → Bool
    → ReplicationCursor
    → Result (Option RecoveryGeneration) AuthorityPrepareError
designation state false target = ok none
designation (full_snapshot_required reason generation watermark) true target =
    if at_or_below target watermark
    then err recovery_full_not_newer_than_watermark
    else ok (some generation)
designation (delta_eligible base) true target = err recovery_designation_requires_recovery

-- How a cursor stands to what was confirmed before: `none` if it is newer.
abbrev pub repeats : Option ReplicationCursor → ReplicationCursor → Option AuthorityAckOutcome
repeats none cursor = none
repeats (some latest) cursor =
    if cursor == latest
    then some duplicate_confirmation
    else if ltb cursor latest
    then some stale_confirmation
    else none

-- The eviction loop of `retain_emission_evidence`; the limit is positive.
unfoldable pub drop_oldest : ℕ → BTreeMap EmissionEvidence → BTreeMap EmissionEvidence
drop_oldest max [] = []
drop_oldest max (e ∷ m) =
    let rest = drop_oldest max m in if leb max (length (e ∷ m)) then rest else e ∷ m

module _ {S : Type 0} where
  -- The eviction loop of `retain_authority_state`: what it leaves, and whether there is room then. The
  -- search starts anew in each round; what it passes over is the protected base. A candidate's bytes
  -- fit the limit, so the subtraction in `room` does not wrap.
  unfoldable pub evict_until :
      (max_count room : ℕ)
      → Option ReplicationCursor
      → BTreeMap (RetainedState S)
      → (count bytes : ℕ) → BTreeMap (RetainedState S) × ℕ × Bool
  evict_until max_count room protected [] count bytes =
      ([], bytes, ltb count max_count && leb bytes room)
  evict_until max_count room protected ((cursor, r) ∷ rest) count bytes =
      let (kept, left, fits) = evict_until max_count room protected rest count bytes in
      let (kept', left', fits') =
        evict_until max_count room protected rest (count - 1) (bytes - image_bytes r) in
      if ltb count max_count && leb bytes room
      then ((cursor, r) ∷ rest, bytes, true)
      else if is_base protected cursor
      then ((cursor, r) ∷ kept, left, fits)
      else (kept', left', fits')
