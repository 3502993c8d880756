-- ===== src/Replication/Client/History.antt =====
-- replication/client.rs: histories of calls on a client's set, from `ClientReplicationSet::new`.
use runen_net.Replication.Client.Apply.{apply_full, apply_delta}
use runen_net.Prelude.{
  ℕ, ◌≡◌, refl, ap, Bool, Option, none, some, List, [], ◌∷◌, leb, nat_eq, length, arith, Bool-cases,
  Option-cases, inl, inr, All, Result, ok, err,
}
use runen_net.Collections.HashMap.{
  HashMap, total, total-insert_absent, total-insert_present, length-insert_present,
  length-insert-le, length-remove-le, total-remove-le,
}
use runen_net.Collections.HashMap
use runen_net.Replication.Model.{
  ReplicationLineageKey, key_eq, ReplicationRetentionLimits, IsTypedLimits, ClientAggregateLimits,
}
use runen_net.Replication.Client.Lineage.{ClientRecoveryReason, new_lineage}
use runen_net.Replication.Client.Sets.{
  ClientReplicationSet, new_set, add_lineage, remove_lineage, lineage, image_count, state_bytes,
  enter_recovery, evict_historical, put_lineage,
}
use runen_net.Replication.Client.Validity.{IsValid, new_lineage-IsValid, evict_historical-IsValid}
use runen_net.Replication.Model.{FullSnapshot, DeltaSnapshot}
use runen_net.Replication.Client.Sets.{Reconstruct, Reply}
use runen_net.Replication.Client.Aggregate.{
  IsValidSet, lineage-IsValid, smaller-IsValidSet, recovering-IsValidSet,
}
use runen_net.Replication.Client.Full.{apply_full-AppliesFull}
use runen_net.Replication.Client.Delta.{apply_delta-AppliesDelta}

pub data Call (S D E : Type 0) : Type 0 where
  adds : ReplicationLineageKey → ReplicationRetentionLimits → Call S D E
  removes : ReplicationLineageKey → Call S D E
  enters_recovery : ReplicationLineageKey → ClientRecoveryReason → Call S D E
  evicts : ReplicationLineageKey → ℕ → Call S D E
  applies_full : ReplicationLineageKey → FullSnapshot S → (S → Result (Unit {0}) E) → Call S D E
  applies_delta :
      ReplicationLineageKey
      → DeltaSnapshot D
      → Reconstruct S D
      → (S → Result (Unit {0}) E)
      → Call S D E

abbrev set_or :
    {S F : Type 0}
    → ClientReplicationSet S
    → Result (ClientReplicationSet S) F
    → ClientReplicationSet S
set_or set (ok set') = set'
set_or set (err e) = set

abbrev evicted_or :
    {S F : Type 0}
    → ClientReplicationSet S
    → Option (Result (ClientReplicationSet S × Bool) F)
    → Option (ClientReplicationSet S)
evicted_or set none = none
evicted_or set (some (ok (set', evicted))) = some set'
evicted_or set (some (err e)) = some set

abbrev applied :
    {S E : Type 0} → Option (ClientReplicationSet S × Reply E) → Option (ClientReplicationSet S)
applied none = none
applied (some (set, reply)) = some set

module _ {S : Type 0} where
  new_set-IsValidSet : (limits : ClientAggregateLimits) → IsValidSet {S = S} (new_set limits)
  unfolding new_set
  new_set-IsValidSet limits = record {
    valid = tt;
    lineages_fit = omega arith;
    images_fit = omega arith;
    bytes_fit = omega arith;
  }

  add_lineage-IsValidSet :
      (set : ClientReplicationSet S) (key : ReplicationLineageKey)
      (limits : ReplicationRetentionLimits)
      → IsTypedLimits limits
      → IsValidSet set
      → IsValidSet (add_lineage set key limits).0
  unfolding add_lineage new_lineage
  add_lineage-IsValidSet set key limits positive v = elim (Option-cases (lineage set key)) [
    | inr (l, h) ↦ rw (h, add_lineage) v
    | inl h ↦ elim (Bool-cases (leb set.limits.max_lineages (length set.lineages))) [
      | inl e ↦ rw (h, e, add_lineage) v
      | inr e ↦
          rw (h, e, add_lineage)
            (record {
              valid =
                  HashMap.All-insert IsValid set.lineages key (new_lineage key limits)
                    (new_lineage-IsValid key limits positive) v.valid;
              lineages_fit =
                  ground (arith, length-insert-le set.lineages key (new_lineage key limits));
              images_fit = omega (
                arith,
                total-insert_absent image_count set.lineages key (new_lineage {S = S} key limits) h,
                v.images_fit,
              );
              bytes_fit = omega (
                arith,
                total-insert_absent state_bytes set.lineages key (new_lineage {S = S} key limits) h,
                v.bytes_fit,
              );
            })
    ]
  ]

  remove_lineage-IsValidSet :
      (set : ClientReplicationSet S) (key : ReplicationLineageKey)
      → IsValidSet set
      → IsValidSet (remove_lineage set key).0
  unfolding remove_lineage
  remove_lineage-IsValidSet set key v = record {
    valid = HashMap.All-remove IsValid set.lineages key v.valid;
    lineages_fit = omega (arith, length-remove-le set.lineages key, v.lineages_fit);
    images_fit = omega (arith, total-remove-le image_count set.lineages key, v.images_fit);
    bytes_fit = omega (arith, total-remove-le state_bytes set.lineages key, v.bytes_fit);
  }

  enter_recovery-IsValidSet :
      (set : ClientReplicationSet S) (key : ReplicationLineageKey) (reason : ClientRecoveryReason)
      → IsValidSet set
      → IsValidSet (set_or set (enter_recovery set key reason))
  unfolding enter_recovery
  enter_recovery-IsValidSet set key reason v = elim (Option-cases (lineage set key)) [
    | inl h ↦ rw (h, enter_recovery) v
    | inr (l, h) ↦ rw (h, enter_recovery) (recovering-IsValidSet set key l reason v h)
  ]

  evict_historical-IsValidSet :
      (set : ClientReplicationSet S) (key : ReplicationLineageKey) (cursor : ℕ)
      → IsValidSet set
      → (set' : ClientReplicationSet S) × (evicted_or set (evict_historical set key cursor)
          ≡ some set')
        × IsValidSet set'
  unfolding evict_historical
  evict_historical-IsValidSet set key cursor v = elim (Option-cases (lineage set key)) [
    | inl h ↦ (set, rw (h, evict_historical) refl, v)
    | inr (l, h) ↦
        let (l', evicted, q, valid, shorter, smaller) =
          evict_historical-IsValid l cursor (lineage-IsValid set key l v h) in
        (
          put_lineage set key l',
          rw (h, q, evict_historical) refl,
          smaller-IsValidSet set key l l' v h valid shorter smaller,
        )
  ]

module _ {S D E : Type 0} where
  -- Retention limits are of their types: `usize`, and the one on images positive.
  abbrev pub IsTyped : Call S D E → Type 0
  IsTyped (adds key limits) = IsTypedLimits limits
  IsTyped other = Unit

  -- `none` is a panic.
  unfoldable pub step : ClientReplicationSet S → Call S D E → Option (ClientReplicationSet S)
  step set (adds key limits) = some (add_lineage set key limits).0
  step set (removes key) = some (remove_lineage set key).0
  step set (enters_recovery key reason) = some (set_or set (enter_recovery set key reason))
  step set (evicts key cursor) = evicted_or set (evict_historical set key cursor)
  step set (applies_full key snapshot host_commit) =
      applied (apply_full set key snapshot host_commit)
  step set (applies_delta key snapshot reconstruct host_commit) =
      applied (apply_delta set key snapshot reconstruct host_commit)

  unfoldable pub run : ClientReplicationSet S → List (Call S D E) → Option (ClientReplicationSet S)
  run set [] = some set
  run set (call ∷ calls) = elim (step set call) [ none ↦ none | some set' ↦ run set' calls ]

  step-IsValidSet :
      (set : ClientReplicationSet S) (call : Call S D E)
      → IsTyped call
      → IsValidSet set
      → (set' : ClientReplicationSet S) × (step set call ≡ some set') × IsValidSet set'
  unfolding step
  step-IsValidSet set (adds key limits) t v = (_, refl, add_lineage-IsValidSet set key limits t v)
  step-IsValidSet set (removes key) t v = (_, refl, remove_lineage-IsValidSet set key v)
  step-IsValidSet set (enters_recovery key reason) t v =
      (_, refl, enter_recovery-IsValidSet set key reason v)
  step-IsValidSet set (evicts key cursor) t v = evict_historical-IsValidSet set key cursor v
  step-IsValidSet set (applies_full key snapshot host_commit) t v =
      let (set', reply, q, valid, end) = apply_full-AppliesFull set key snapshot host_commit v in
      (set', ap applied q, valid)
  step-IsValidSet set (applies_delta key snapshot reconstruct host_commit) t v =
      let (set', reply, q, valid, end) =
        apply_delta-AppliesDelta set key snapshot reconstruct host_commit v in
      (set', ap applied q, valid)

  run-IsValidSet :
      (calls : List (Call S D E)) (set : ClientReplicationSet S)
      → All IsTyped calls
      → IsValidSet set
      → (set' : ClientReplicationSet S) × (run set calls ≡ some set') × IsValidSet set'
  unfolding run
  run-IsValidSet [] set t v = (set, refl, v)
  run-IsValidSet (call ∷ calls) set t v =
      let (set', q, w) = step-IsValidSet set call t.0 v in
      let (last, e, valid) = run-IsValidSet calls set' t.1 w in (last, rw (q, run) e, valid)

  -- Any history of well-typed calls on a new set runs without a panic, also of its arithmetic, whatever the host and the
  -- reconstructions answer, and leaves a valid set: every lineage valid, all aggregate limits kept.
  pub run-new_set-IsValidSet :
      (limits : ClientAggregateLimits) (calls : List (Call S D E))
      → All IsTyped calls
      → (set : ClientReplicationSet S) × (run (new_set limits) calls ≡ some set) × IsValidSet set
  run-new_set-IsValidSet limits calls t =
      run-IsValidSet calls (new_set limits) t (new_set-IsValidSet limits)
