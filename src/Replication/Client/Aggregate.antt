-- ===== src/Replication/Client/Aggregate.antt =====
-- replication/client.rs: the invariant of a client's set, and the check of its aggregate limits.
use runen_net.Prelude.{
  ℕ, ◌+◌, ◌≤◌, ◌≡◌, true, some, [], ◌∷◌, ltb, nat_eq, length, arith, Bool-cases, Option-cases, inl,
  inr, All, u64_mod,
}
use runen_net.Collections.HashMap.{
  HashMap, total, total-insert_present, length-insert_present, length-insert-le, length-remove-le,
  total-remove-le,
}
use runen_net.Collections.HashMap
use runen_net.Replication.Model.{ReplicationLineageKey, key_eq}
use runen_net.Replication.Client.Lineage
use runen_net.Replication.Client.Lineage.{
  ClientLineage, CommitPlan, ClientRecoveryReason, new_lineage,
}
use runen_net.Replication.Client.Sets.{
  ClientReplicationSet, lineage, put_lineage, checked_total, image_count, state_bytes,
  aggregate_commit_fits, project, at_most,
}
use runen_net.Replication.Client.Validity.{IsValid, enter_recovery-IsValid}

at_most-project : (a b c limit : ℕ) → at_most (project a b c) limit ≡ true → a + c ≤ limit + b
at_most-project a b c limit h = ground arith

module _ {S : Type 0} where
  -- Every lineage is valid, and the aggregate limits are respected.
  pub record IsValidSet (set : ClientReplicationSet S) : Type 0 where
    pub valid : All (λ e. IsValid e.1) set.lineages
    pub lineages_fit : length set.lineages ≤ set.limits.max_lineages
    pub images_fit : total image_count set.lineages ≤ set.limits.max_retained_images
    pub bytes_fit : total state_bytes set.lineages ≤ set.limits.max_retained_state_bytes

  pub lineage-IsValid :
      (set : ClientReplicationSet S) (key : ReplicationLineageKey) (l : ClientLineage S)
      → IsValidSet set
      → lineage set key ≡ some l
      → IsValid l
  lineage-IsValid set key l v h = HashMap.All-get IsValid set.lineages key l v.valid h

  -- A lineage may be replaced by a valid one whose growth the aggregate limits leave room for.
  pub put_lineage-IsValidSet :
      (set : ClientReplicationSet S) (key : ReplicationLineageKey) (l l' : ClientLineage S)
      → IsValidSet set
      → lineage set key ≡ some l
      → IsValid l'
      → total image_count set.lineages + length l'.retained
        ≤ set.limits.max_retained_images + length l.retained
      → total state_bytes set.lineages + l'.retained_bytes
        ≤ set.limits.max_retained_state_bytes + l.retained_bytes
      → IsValidSet (put_lineage set key l')
  put_lineage-IsValidSet set key l l' v h w images bytes = record {
    valid = HashMap.All-insert IsValid set.lineages key l' w v.valid;
    lineages_fit = omega (arith, length-insert_present set.lineages key l' l h, v.lineages_fit);
    images_fit = omega (arith, total-insert_present image_count set.lineages key l' l h);
    bytes_fit = omega (arith, total-insert_present state_bytes set.lineages key l' l h);
  }

  pub smaller-IsValidSet :
      (set : ClientReplicationSet S) (key : ReplicationLineageKey) (l l' : ClientLineage S)
      → IsValidSet set
      → lineage set key ≡ some l
      → IsValid l'
      → length l'.retained ≤ length l.retained
      → l'.retained_bytes ≤ l.retained_bytes
      → IsValidSet (put_lineage set key l')
  smaller-IsValidSet set key l l' v h w images bytes =
      put_lineage-IsValidSet set key l l' v h w (omega (arith, v.images_fit))
        (omega (arith, v.bytes_fit))

  checked_total-total :
      (f : ClientLineage S → ℕ) (acc : ℕ) (m : HashMap ReplicationLineageKey (ClientLineage S))
      (t : ℕ)
      → checked_total f acc m ≡ some t
      → t ≡ acc + total f m
  unfolding checked_total
  checked_total-total f acc [] t h = ground arith
  checked_total-total f acc ((k, l) ∷ m) t h = elim (Bool-cases (ltb (acc + f l) u64_mod)) [
    | inl e ↦ omega (arith, checked_total-total f (acc + f l) m t (ground arith))
    | inr e ↦ absurd (ground arith)
  ]

  -- What the check of the aggregate limits promises for the set after the commit.
  pub aggregate_commit_fits-total :
      (set : ClientReplicationSet S) (l : ClientLineage S) (plan : CommitPlan) (bytes : ℕ)
      → aggregate_commit_fits set l plan bytes ≡ true
      → (total image_count set.lineages + plan.resulting_count
          ≤ set.limits.max_retained_images + length l.retained)
        × (total state_bytes set.lineages + plan.resulting_bytes
            ≤ set.limits.max_retained_state_bytes + l.retained_bytes)
  unfolding aggregate_commit_fits
  aggregate_commit_fits-total set l plan bytes h =
      elim (Option-cases (checked_total image_count 0 set.lineages)) [
        | inl e ↦ absurd (ground arith)
        | inr (count, e) ↦ elim (Option-cases (checked_total state_bytes 0 set.lineages)) [
          | inl q ↦ absurd (ground arith)
          | inr (held, q) ↦ (
            omega (
              arith,
              checked_total-total image_count 0 set.lineages count e,
              at_most-project count (length l.retained) plan.resulting_count
                  set.limits.max_retained_images (ground arith),
            ),
            omega (
              arith,
              checked_total-total state_bytes 0 set.lineages held q,
              at_most-project held l.retained_bytes plan.resulting_bytes
                  set.limits.max_retained_state_bytes (ground arith),
            ),
          )
        ]
      ]

  pub recovering-IsValidSet :
      (set : ClientReplicationSet S) (key : ReplicationLineageKey) (l : ClientLineage S)
      (reason : ClientRecoveryReason)
      → IsValidSet set
      → lineage set key ≡ some l
      → IsValidSet (put_lineage set key (Lineage.enter_recovery l reason))
  unfolding Lineage.enter_recovery
  recovering-IsValidSet set key l reason v h =
      smaller-IsValidSet set key l (Lineage.enter_recovery l reason) v h
        (enter_recovery-IsValid l reason (lineage-IsValid set key l v h)) (omega arith)
        (omega arith)
