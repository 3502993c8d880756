-- ===== src/Replication/Client/Validity.antt =====
-- replication/client.rs: the invariant of one lineage.
use runen_net.Prelude.{
  ℕ, ◌-◌, Bool, checked_sub, checked_sub-eq_some, ◌≤◌, ◌≡◌, refl, ap, ◌∙◌, true, false, Option,
  none, some, [], nat_eq, length, arith, Bool-cases, Option-cases, inl, inr, All, is_some,
}
use runen_net.Collections.BTreeMap.{BTreeMap, total}
use runen_net.Collections.BTreeMap
use runen_net.Replication.Model.{
  IsTypedLimits, ReplicationLineageKey, key_eq, ReplicationRetentionLimits,
}
use runen_net.Replication.Client.Lineage
use runen_net.Replication.Client.Lineage.{
  ClientLineage, RetainedState, CommitPlan, ClientRecoveryReason, ClientReplicationState,
  ClientSnapshotOutcome, initial_baseline, connection_replacement, delta_tick_regression,
  delta_commit_failure, stale, duplicate_current, committed, tick_regression,
  delta_blocked_by_recovery, state_resource_failure, synchronized, full_snapshot_required,
  is_synchronized, bytes_of, state_image_fits, plan_commit, evict_all, commit_with_plan,
  classify_cursor, tick_regresses_current, current_retained, current_state, current_tick, precedes,
  boundary_after, is_current, new_lineage,
}

abbrev pub IsBoundary : Option ℕ → Option (ℕ × ClientRecoveryReason) → Type 0
IsBoundary current none = Unit
IsBoundary none (some b) = ⊥
IsBoundary (some c) (some b) = b.0 ≤ c

boundary_after-IsBoundary :
    (current : Option ℕ) (boundary : Option (ℕ × ClientRecoveryReason))
    (reason : ClientRecoveryReason)
    → IsBoundary current boundary
    → IsBoundary current (boundary_after current boundary reason)
boundary_after-IsBoundary none none reason h = tt
boundary_after-IsBoundary none (some b) reason h = h
boundary_after-IsBoundary (some c) none reason h = omega arith
boundary_after-IsBoundary (some c) (some (b, r)) reason h = ground arith

module _ {S : Type 0} where
  -- The current cursor is the newest of the retained ones; without one nothing is retained.
  abbrev pub IsNewest : Option ℕ → BTreeMap (RetainedState S) → Type 0
  IsNewest none m = m ≡ []
  IsNewest (some c) m = (is_some (BTreeMap.get m c) ≡ true) × All (λ e. e.0 ≤ c) m

  pub record IsValid (l : ClientLineage S) : Type 0 where
    pub sorted : BTreeMap.IsSorted l.retained
    pub counted : l.retained_bytes ≡ total bytes_of l.retained
    pub within_count : length l.retained ≤ l.limits.max_retained_images_per_lineage
    pub within_bytes : l.retained_bytes ≤ l.limits.max_retained_state_bytes_per_lineage
    pub typed : IsTypedLimits l.limits
    pub images_fit : All (λ e. bytes_of e.1 ≤ l.limits.max_state_image_bytes) l.retained
    pub newest : IsNewest l.current l.retained
    pub synced : is_synchronized l.state ≡ true → is_some l.current ≡ true
    pub boundary : IsBoundary l.current l.latest_recovery_boundary

  pub new_lineage-IsValid :
      (key : ReplicationLineageKey) (limits : ReplicationRetentionLimits)
      → IsTypedLimits limits
      → IsValid (new_lineage key limits)
  unfolding new_lineage
  new_lineage-IsValid key limits h = record {
    sorted = tt;
    counted = refl;
    within_count = omega arith;
    within_bytes = omega arith;
    typed = h;
    images_fit = tt;
    newest = refl;
    synced = λ e. absurd (ground arith);
    boundary = tt;
  }

  pub enter_recovery-IsValid :
      (l : ClientLineage S) (reason : ClientRecoveryReason)
      → IsValid l
      → IsValid (Lineage.enter_recovery l reason)
  unfolding Lineage.enter_recovery
  enter_recovery-IsValid l reason v = record {
    sorted = v.sorted;
    counted = v.counted;
    within_count = v.within_count;
    within_bytes = v.within_bytes;
    typed = v.typed;
    images_fit = v.images_fit;
    newest = v.newest;
    synced = λ e. absurd (ground arith);
    boundary = boundary_after-IsBoundary l.current l.latest_recovery_boundary reason v.boundary;
  }

  kept-IsNewest :
      (current : Option ℕ) (m : BTreeMap (RetainedState S)) (cursor : ℕ)
      → BTreeMap.IsSorted m
      → IsNewest current m
      → is_current current cursor ≡ false
      → IsNewest current (BTreeMap.remove m cursor)
  kept-IsNewest none m cursor s h e =
      ap (λ (x : BTreeMap (RetainedState S)). BTreeMap.remove x cursor) h
      ∙ unfold BTreeMap.remove in refl
  kept-IsNewest (some c) m cursor s h e = (
    ground (arith, BTreeMap.get-remove 0 m cursor c s),
    BTreeMap.All-remove (λ x. x.0 ≤ c) m cursor h.1,
  )

  -- On a valid lineage the eviction of an image does not panic, does not touch the current one, and
  -- leaves the lineage valid and no larger.
  pub evict_historical-IsValid :
      (l : ClientLineage S) (cursor : ℕ)
      → IsValid l
      → (l' : ClientLineage S) × (evicted : Bool) × (Lineage.evict_historical l cursor
          ≡ some (l', evicted))
        × IsValid l'
        × (length l'.retained ≤ length l.retained)
        × (l'.retained_bytes ≤ l.retained_bytes)
  unfolding Lineage.evict_historical
  evict_historical-IsValid l cursor v = elim (Bool-cases (is_current l.current cursor)) [
    | inl e ↦ (l, false, rw (e, Lineage.evict_historical) refl, v, omega arith, omega arith)
    | inr e ↦ elim (Option-cases (BTreeMap.get l.retained cursor)) [
      | inl q ↦ (l, false, rw (e, q, Lineage.evict_historical) refl, v, omega arith, omega arith)
      | inr (r, q) ↦
          let removed = BTreeMap.total-remove bytes_of l.retained cursor r q in
          let shorter = BTreeMap.length-remove l.retained cursor r q in
          let left : checked_sub l.retained_bytes (bytes_of r)
              ≡ some (l.retained_bytes - bytes_of r) =
            checked_sub-eq_some l.retained_bytes (bytes_of r) (omega (arith, v.counted, removed)) in
          (
            record l {
              retained = BTreeMap.remove l.retained cursor;
              retained_bytes = l.retained_bytes - bytes_of r;
            },
            true,
            rw (e, q, left, Lineage.evict_historical) refl,
            record {
              sorted = BTreeMap.remove-IsSortedFrom 0 l.retained cursor v.sorted;
              counted = omega (arith, v.counted, removed);
              within_count = omega (arith, v.within_count, shorter);
              within_bytes = omega (arith, v.within_bytes);
              typed = v.typed;
              images_fit =
                  BTreeMap.All-remove (λ x. bytes_of x.1 ≤ l.limits.max_state_image_bytes)
                    l.retained cursor v.images_fit;
              newest = kept-IsNewest l.current l.retained cursor v.sorted v.newest e;
              synced = v.synced;
              boundary = v.boundary;
            },
            omega (arith, shorter),
            omega arith,
          )
    ]
  ]
