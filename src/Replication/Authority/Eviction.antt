-- ===== src/Replication/Authority/Eviction.antt =====
-- replication/authority.rs: the eviction of a retained image, and the invariant.
use runen_net.Prelude.{
  ℕ, suc, ◌+◌, ◌≤◌, ◌≡◌, refl, ap, ◌∙◌, false, Option, none, some, ltb, nat_eq, arith, Bool-cases,
  Option-cases, inl, inr, u64_mod,
}
use runen_net.Collections.BTreeMap.{BTreeMap, total, IsSorted}
use runen_net.Collections.BTreeMap
use runen_net.Replication.Authority.Types.{
  RetainedState, AuthorityReplicationState, delta_eligible, full_snapshot_required,
  SnapshotCandidate, AuthorityLineage, image_bytes,
}
use runen_net.Replication.Authority.Guards.{is_base, base_of}
use runen_net.Replication.Authority.Lineage.{install_new_recovery}
use runen_net.Replication.Authority.Types.{baseline_evicted}
use runen_net.Replication.Authority.Lineage.{without, evict_retained_state}
use runen_net.Replication.Authority.Validity.{
  IsEmitted, IsState, IsPending, IsValid, Keeps, same-Keeps,
}
use runen_net.Replication.Authority.Recovery.{installed-Keeps}

IsEmitted-without :
    {A : Type 0} (greatest : Option ℕ) (m : BTreeMap A) (cursor : ℕ)
    → IsEmitted greatest m
    → IsEmitted greatest (BTreeMap.remove m cursor)
IsEmitted-without {A} none m cursor h =
    ap (λ (x : BTreeMap A). BTreeMap.remove x cursor) h ∙ unfold BTreeMap.remove in refl
IsEmitted-without (some g) m cursor h = BTreeMap.All-remove (λ e. suc e.0 ≤ suc g) m cursor h

module _ {S D : Type 0} where
  transitive-Keeps : (l m n : AuthorityLineage S D) → Keeps l m → Keeps m n → Keeps l n
  transitive-Keeps l m n (v, a) (w, b) = (
    w,
    record {
      images = omega (arith, a.images, b.images);
      evidence = omega (arith, a.evidence, b.evidence);
      bytes = omega (arith, a.bytes, b.bytes);
      accounted = omega (arith, a.accounted, b.accounted);
    },
  )

  without-Keeps :
      (l : AuthorityLineage S D) (cursor : ℕ) (r : RetainedState S)
      → IsValid l
      → is_base (base_of l.state) cursor ≡ false
      → BTreeMap.get l.retained cursor ≡ some r
      → Keeps l (without l cursor r)
  without-Keeps l cursor r v free h =
      let shorter = BTreeMap.length-remove l.retained cursor r h in
      let lighter = BTreeMap.total-remove image_bytes l.retained cursor r h in
      (
        record {
          may_retain = v.may_retain;
          may_record = v.may_record;
          image_retainable = v.image_retainable;
          machine = v.machine;
          sorted = BTreeMap.remove-IsSortedFrom 0 l.retained cursor v.sorted;
          counted = omega (arith, v.counted, lighter);
          within_count = omega (arith, v.within_count, shorter);
          within_bytes = omega (arith, v.within_bytes);
          evidence_sorted = v.evidence_sorted;
          evidence_fits = v.evidence_fits;
          retained_emitted =
              IsEmitted-without l.greatest_emitted l.retained cursor v.retained_emitted;
          evidence_emitted = v.evidence_emitted;
          confirmed_emitted = v.confirmed_emitted;
          generations = v.generations;
          state_valid = same_state l.state refl v.state_valid;
          pending_valid = same_pending l.pending v.pending_valid;
        },
        record {
          images = omega (arith, shorter);
          evidence = omega arith;
          bytes = omega arith;
          accounted = omega arith;
        },
      )
    where
      same_state :
          (s : AuthorityReplicationState)
          → l.state ≡ s
          → IsState l s
          → IsState (without l cursor r) s
      same_state (delta_eligible base) e g =
          (g.0, ground (arith, BTreeMap.get-remove 0 l.retained cursor base v.sorted, ap base_of e))
      same_state (full_snapshot_required reason generation watermark) e g = g

      same_pending :
          (o : Option (SnapshotCandidate S D)) → IsPending l o → IsPending (without l cursor r) o
      same_pending none p = tt
      same_pending (some (SnapshotCandidate.full snapshot g)) p = p
      same_pending (some (SnapshotCandidate.delta base target tick image d additional)) p = p

  pub evict_retained_state-Keeps :
      (l : AuthorityLineage S D) (cursor : ℕ)
      → IsValid l
      → Keeps l (evict_retained_state l cursor).0
  unfolding evict_retained_state install_new_recovery
  evict_retained_state-Keeps l cursor v = elim (Bool-cases (is_base (base_of l.state) cursor)) [
    | inr b ↦ elim (Option-cases (BTreeMap.get l.retained cursor)) [
      | inl h ↦ rw (b, h, evict_retained_state) (same-Keeps l v)
      | inr (r, h) ↦ rw (b, h, evict_retained_state) (without-Keeps l cursor r v b h)
    ]
    | inl b ↦ elim (Bool-cases (ltb (l.generation + 1) u64_mod)) [
      | inr n ↦ rw (b, n, evict_retained_state) (same-Keeps l v)
      | inl n ↦ elim (Option-cases (BTreeMap.get l.retained cursor)) [
        | inl h ↦ rw (b, n, h, evict_retained_state) (same-Keeps l v)
        | inr (r, h) ↦
            rw (b, n, h, evict_retained_state)
              (let installed = install_new_recovery l baseline_evicted (l.generation + 1) in
                let k =
                  installed-Keeps l l.latest_confirmed baseline_evicted v v.confirmed_emitted in
                transitive-Keeps l installed (without installed cursor r) k
                  (without-Keeps installed cursor r k.0 refl h))
      ]
    ]
  ]
