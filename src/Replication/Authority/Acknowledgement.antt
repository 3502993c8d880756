-- ===== src/Replication/Authority/Acknowledgement.antt =====
-- replication/authority.rs: acknowledgements, and the invariant.
use runen_net.Prelude.{
  ℕ, ◌+◌, ◌≡◌, refl, ap, true, ◌&&◌, Option, none, some, ltb, nat_eq, is_some, arith, Bool-cases,
  Option-cases, inl, inr, u64_mod,
}
use runen_net.Collections.BTreeMap.{BTreeMap, total, IsSorted}
use runen_net.Collections.BTreeMap
use runen_net.Replication.Authority.Types.{
  EmissionEvidence, AuthorityReplicationState, delta_eligible, full_snapshot_required,
  SnapshotCandidate, AuthorityLineage,
}
use runen_net.Replication.Authority.Guards.{base_of, at_or_below, is_full, designates}
use runen_net.Session.State.{Session}
use runen_net.Replication.Authority.Types.{confirmed_baseline_unavailable}
use runen_net.Replication.Authority.Guards.{repeats}
use runen_net.Replication.Authority.Lineage.{confirm, acknowledge_authorized, is_own_authorized}
use runen_net.Replication.Authority.Validity.{IsState, IsPending, IsValid, Keeps, same-Keeps}
use runen_net.Replication.Authority.Recovery.{installed-Keeps}

module _ {S D : Type 0} where
  -- A confirmed cursor whose image is retained becomes the base.
  eligible-Keeps :
      (l : AuthorityLineage S D) (cursor : ℕ)
      → IsValid l
      → at_or_below cursor l.greatest_emitted ≡ true
      → is_some (BTreeMap.get l.retained cursor) ≡ true
      → Keeps l (record l { latest_confirmed = some cursor; state = delta_eligible cursor })
  eligible-Keeps l cursor v h r = (
    record {
      may_retain = v.may_retain;
      may_record = v.may_record;
      image_retainable = v.image_retainable;
      machine = v.machine;
      sorted = v.sorted;
      counted = v.counted;
      within_count = v.within_count;
      within_bytes = v.within_bytes;
      evidence_sorted = v.evidence_sorted;
      evidence_fits = v.evidence_fits;
      retained_emitted = v.retained_emitted;
      evidence_emitted = v.evidence_emitted;
      confirmed_emitted = h;
      generations = v.generations;
      state_valid = (refl, r);
      pending_valid = same_pending l.pending v.pending_valid;
    },
    record {
      images = omega arith;
      evidence = omega arith;
      bytes = omega arith;
      accounted = omega arith;
    },
  )
    where
      same_pending :
          (o : Option (SnapshotCandidate S D))
          → IsPending l o
          → IsPending (record l { latest_confirmed = some cursor; state = delta_eligible cursor }) o
      same_pending none h = tt
      same_pending (some (SnapshotCandidate.full snapshot g)) h = h
      same_pending (some (SnapshotCandidate.delta base target tick image d additional)) h = h

  -- During a recovery a confirmation that does not complete it is only recorded.
  recorded-Keeps :
      (l : AuthorityLineage S D) (cursor : ℕ)
      → IsValid l
      → at_or_below cursor l.greatest_emitted ≡ true
      → base_of l.state ≡ none
      → Keeps l (record l { latest_confirmed = some cursor })
  recorded-Keeps l cursor v h r = (
    record {
      may_retain = v.may_retain;
      may_record = v.may_record;
      image_retainable = v.image_retainable;
      machine = v.machine;
      sorted = v.sorted;
      counted = v.counted;
      within_count = v.within_count;
      within_bytes = v.within_bytes;
      evidence_sorted = v.evidence_sorted;
      evidence_fits = v.evidence_fits;
      retained_emitted = v.retained_emitted;
      evidence_emitted = v.evidence_emitted;
      confirmed_emitted = h;
      generations = v.generations;
      state_valid = same_state l.state r v.state_valid;
      pending_valid = same_pending l.pending v.pending_valid;
    },
    record {
      images = omega arith;
      evidence = omega arith;
      bytes = omega arith;
      accounted = omega arith;
    },
  )
    where
      same_state :
          (s : AuthorityReplicationState)
          → base_of s ≡ none
          → IsState l s
          → IsState (record l { latest_confirmed = some cursor }) s
      same_state (delta_eligible base) e h = absurd (cc)
      same_state (full_snapshot_required reason generation watermark) e h = h

      same_pending :
          (o : Option (SnapshotCandidate S D))
          → IsPending l o
          → IsPending (record l { latest_confirmed = some cursor }) o
      same_pending none h = tt
      same_pending (some (SnapshotCandidate.full snapshot g)) h = h
      same_pending (some (SnapshotCandidate.delta base target tick image d additional)) h = h

  confirm-Keeps :
      (l : AuthorityLineage S D) (cursor : ℕ) (evidence : EmissionEvidence)
      → IsValid l
      → at_or_below cursor l.greatest_emitted ≡ true
      → Keeps l (confirm l cursor evidence l.state).0
  unfolding confirm
  confirm-Keeps l cursor evidence v h = by_state l.state refl
    where
      by_state :
          (s : AuthorityReplicationState) → l.state ≡ s → Keeps l (confirm l cursor evidence s).0
      by_state (delta_eligible base) e =
          elim (Bool-cases (is_some (BTreeMap.get l.retained cursor))) [
            | inl r ↦ rw (r, confirm) (eligible-Keeps l cursor v h r)
            | inr r ↦ elim (Bool-cases (ltb (l.generation + 1) u64_mod)) [
              | inl n ↦
                  rw (r, n, confirm)
                    (installed-Keeps l (some cursor) confirmed_baseline_unavailable v h)
              | inr n ↦ rw (r, n, confirm) (same-Keeps l v)
            ]
          ]
      by_state (full_snapshot_required reason generation watermark) e =
          elim (Bool-cases (
            is_full evidence.kind
            && designates evidence.recovery_generation generation
            && is_some (BTreeMap.get l.retained cursor))) [
              | inl r ↦ rw (r, confirm) (eligible-Keeps l cursor v h (ground arith))
              | inr r ↦ rw (r, confirm) (recorded-Keeps l cursor v h (ap base_of e))
            ]

  pub acknowledge_authorized-Keeps :
      (l : AuthorityLineage S D) (s : Session) (connection cursor : ℕ)
      → IsValid l
      → Keeps l (acknowledge_authorized l s connection cursor).0
  unfolding acknowledge_authorized
  acknowledge_authorized-Keeps l s connection cursor v =
      elim (Bool-cases (is_own_authorized l s connection)) [
        | inr own ↦ rw (own, acknowledge_authorized) (same-Keeps l v)
        | inl own ↦ elim (Option-cases (repeats l.latest_confirmed cursor)) [
          | inr (o, r) ↦ rw (own, r, acknowledge_authorized) (same-Keeps l v)
          | inl r ↦ elim (Bool-cases (at_or_below cursor l.greatest_emitted)) [
            | inr g ↦ rw (own, r, g, acknowledge_authorized) (same-Keeps l v)
            | inl g ↦ elim (Option-cases (BTreeMap.get l.evidence cursor)) [
              | inl e ↦ rw (own, r, g, e, acknowledge_authorized) (same-Keeps l v)
              | inr (evidence, e) ↦
                  rw (own, r, g, e, acknowledge_authorized) (confirm-Keeps l cursor evidence v g)
            ]
          ]
        ]
      ]
