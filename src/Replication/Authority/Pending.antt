-- ===== src/Replication/Authority/Pending.antt =====
-- replication/authority.rs: pending candidates, their acceptance, and evictions, and the invariant.
use runen_net.Prelude.{
  ◌⊎◌, ℕ, ◌≤◌, ◌≡◌, refl, sym, Bool, true, false, Option, none, some, ltb, leb, nat_eq, is_some,
  arith, Bool-cases, Option-cases, inl, inr, IsU64, Result, ok, err,
}
use runen_net.Collections.BTreeMap.{BTreeMap, total, IsSorted}
use runen_net.Collections.BTreeMap
use runen_net.Replication.Model.{AccountedState, FullSnapshot}
use runen_net.Replication.Authority.Types.{
  AuthorityReplicationState, delta_eligible, full_snapshot_required, SnapshotCandidate,
  AuthorityLineage, AuthorityPrepareError,
}
use runen_net.Replication.Authority.Guards.{base_of, at_or_below}
use runen_net.Replication.Authority.Lineage.{target_error, candidate_fits}
use mathlib.Core.Path.{subst}
use runen_net.Replication.Authority.Validity.{
  cancel_pending-Keeps, generation_upto, IsState, IsPending, IsValid, Keeps, same-Keeps,
}
use runen_net.Delivery.{DeliveryAcceptance, accepted, not_accepted}
use runen_net.Replication.Authority.Types.{
  PendingSnapshotSummary, SnapshotKind, candidate_state_bytes, total_candidate_bytes,
}
use runen_net.Replication.Authority.Guards.{designation}
use runen_net.Replication.Authority.Lineage.{
  prepare_full, prepare_delta, prepare_on_base, emit, record_delivery_acceptance,
}
use runen_net.Replication.Authority.Emitting.{emitted-IsValid}

abbrev pub is_err : {A E : Type 0} → Result A E → Bool
is_err (ok a) = false
is_err (err e) = true

module _ {S D : Type 0} where
  -- The bytes that a pending candidate reserves for its image are at least the image's.
  reserved :
      (l : AuthorityLineage S D) (c : SnapshotCandidate S D)
      → IsU64 l.limits.max_candidate_bytes_per_lineage
      → IsPending l (some c)
      → candidate_state_bytes c ≤ total_candidate_bytes c
  reserved l (SnapshotCandidate.full snapshot g) m p = omega arith
  reserved l (SnapshotCandidate.delta base target tick image d additional) m p = ground arith

  emit-Keeps :
      (l : AuthorityLineage S D) (c : SnapshotCandidate S D)
      → IsValid l
      → l.pending ≡ some c
      → IsPending l (some c)
      → Keeps l (emit (record l { pending = none }) c).0
  unfolding emit
  emit-Keeps l (SnapshotCandidate.full snapshot g) v h p =
      let (w, idle, images, evidence, bytes) =
        emitted-IsValid (record l { pending = none }) snapshot.target_cursor snapshot.target_tick
          snapshot.image SnapshotKind.full g (cancel_pending-Keeps l v).0 p.0 (ground (arith, p.1))
          p.2 refl in
      (
        w,
        record {
          images = rw (h, idle) (omega (arith, images));
          evidence = rw (h, idle) (omega (arith, evidence));
          bytes = rw (h, idle) (omega (arith, bytes));
          accounted = rw (h, idle) (omega (arith, bytes));
        },
      )
  emit-Keeps l (SnapshotCandidate.delta base target tick image d additional) v h p =
      let (w, idle, images, evidence, bytes) =
        emitted-IsValid (record l { pending = none }) target tick image SnapshotKind.delta none
          (cancel_pending-Keeps l v).0 p.0 (ground (arith, p.1)) refl refl in
      (
        w,
        record {
          images = rw (h, idle) (omega (arith, images));
          evidence = rw (h, idle) (omega (arith, evidence));
          bytes = rw (h, idle) (omega (arith, bytes));
          accounted =
              rw (h, idle)
                (omega (
                  arith,
                  bytes,
                  reserved l (SnapshotCandidate.delta base target tick image d additional) v.machine
                      p,
                ));
        },
      )

  pub record_delivery_acceptance-Keeps :
      (l : AuthorityLineage S D) (acceptance : DeliveryAcceptance)
      → IsValid l
      → Keeps l (record_delivery_acceptance l acceptance).0
  unfolding record_delivery_acceptance
  record_delivery_acceptance-Keeps l not_accepted v = same-Keeps l v
  record_delivery_acceptance-Keeps l accepted v = by_pending l.pending refl
    where
      idle : l.pending ≡ none → (record_delivery_acceptance l accepted).0 ≡ l
      idle e = ground arith

      taken :
          (c : SnapshotCandidate S D)
          → l.pending ≡ some c
          → (record_delivery_acceptance l accepted).0 ≡ (emit (record l { pending = none }) c).0
      taken c e = ground arith

      by_pending :
          (o : Option (SnapshotCandidate S D))
          → l.pending ≡ o
          → Keeps l (record_delivery_acceptance l accepted).0
      by_pending none e = subst (Keeps l) (sym (idle e)) (same-Keeps l v)
      by_pending (some c) e =
          subst (Keeps l) (sym (taken c e))
            (emit-Keeps l c v e (subst (IsPending l) e v.pending_valid))

  -- A preparation either changes nothing, or makes a fresh, fitting candidate pending where none was.
  abbrev pub IsPreparation :
      AuthorityLineage S D
      → AuthorityLineage S D × Result PendingSnapshotSummary AuthorityPrepareError
      → Type 0
  IsPreparation l r =
      ((r.0 ≡ l) × (is_err r.1 ≡ true))
      ⊎ ((c : SnapshotCandidate S D) × (l.pending ≡ none)
          × IsPending l (some c)
          × (r.0 ≡ record l { pending = some c })
          × (is_err r.1 ≡ false))

  pub prepare_full-IsPreparation :
      (l : AuthorityLineage S D) (snapshot : FullSnapshot S) (designate : Bool)
      → IsValid l
      → IsPreparation l (prepare_full l snapshot designate)
  unfolding prepare_full
  prepare_full-IsPreparation l snapshot designate v = elim (Bool-cases (is_some l.pending)) [
    | inl e ↦ inl (rw (e, prepare_full) refl, rw (e, prepare_full) refl)
    | inr e ↦ elim (Option-cases (target_error l snapshot.target_cursor snapshot.target_tick)) [
      | inr (x, t) ↦ inl (rw (e, t, prepare_full) refl, rw (e, t, prepare_full) refl)
      | inl t ↦ elim (Bool-cases (candidate_fits l snapshot.image.accounted_bytes 0)) [
        | inr f ↦ inl (rw (e, t, f, prepare_full) refl, rw (e, t, f, prepare_full) refl)
        | inl f ↦ designated e t f (designation l.state designate snapshot.target_cursor) refl
      ]
    ]
  ]
    where
      of_generation :
          (s : AuthorityReplicationState) (b : Bool) (g : Option ℕ)
          → IsState l s
          → designation s b snapshot.target_cursor ≡ ok g
          → generation_upto g l.generation ≡ true
      of_generation s false g h e = ground arith
      of_generation (delta_eligible base) true g h e = ground arith
      of_generation (full_snapshot_required reason generation watermark) true g h e =
          elim (Bool-cases (at_or_below snapshot.target_cursor watermark)) [
            | inl w ↦ absurd (ground arith)
            | inr w ↦ ground (arith, h.0)
          ]

      designated :
          is_some l.pending ≡ false
          → target_error l snapshot.target_cursor snapshot.target_tick ≡ none
          → candidate_fits l snapshot.image.accounted_bytes 0 ≡ true
          → (r : Result (Option ℕ) AuthorityPrepareError)
          → designation l.state designate snapshot.target_cursor ≡ r
          → IsPreparation l (prepare_full l snapshot designate)
      designated e t f (err x) q =
          inl (rw (e, t, f, q, prepare_full) refl, rw (e, t, f, q, prepare_full) refl)
      designated e t f (ok g) q = inr (
        SnapshotCandidate.full snapshot g,
        ground arith,
        (t, f, of_generation l.state designate g v.state_valid q),
        rw (e, t, f, q, prepare_full) refl,
        rw (e, t, f, q, prepare_full) refl,
      )

  pub prepare_delta-IsPreparation :
      (l : AuthorityLineage S D) (target tick : ℕ) (image : AccountedState S) (d : D)
      (additional : ℕ)
      → IsPreparation l (prepare_delta l target tick image d additional)
  unfolding prepare_delta prepare_on_base
  prepare_delta-IsPreparation l target tick image d additional =
      elim (Bool-cases (is_some l.pending)) [
        | inl e ↦ inl (rw (e, prepare_delta) refl, rw (e, prepare_delta) refl)
        | inr e ↦ elim (Option-cases (base_of l.state)) [
          | inl b ↦ inl (rw (e, b, prepare_delta) refl, rw (e, b, prepare_delta) refl)
          | inr (base, b) ↦ elim (Option-cases (BTreeMap.get l.retained base)) [
            | inl h ↦ inl (
              rw (e, b, h, prepare_delta, prepare_on_base) refl,
              rw (e, b, h, prepare_delta, prepare_on_base) refl,
            )
            | inr (r, h) ↦ elim (Bool-cases (leb target base)) [
              | inl n ↦ inl (
                rw (e, b, h, n, prepare_delta, prepare_on_base) refl,
                rw (e, b, h, n, prepare_delta, prepare_on_base) refl,
              )
              | inr n ↦ elim (Option-cases (target_error l target tick)) [
                | inr (x, t) ↦ inl (
                  rw (e, b, h, n, t, prepare_delta, prepare_on_base) refl,
                  rw (e, b, h, n, t, prepare_delta, prepare_on_base) refl,
                )
                | inl t ↦ elim (Bool-cases (ltb tick r.tick)) [
                  | inl k ↦ inl (
                    rw (e, b, h, n, t, k, prepare_delta, prepare_on_base) refl,
                    rw (e, b, h, n, t, k, prepare_delta, prepare_on_base) refl,
                  )
                  | inr k ↦ elim (Bool-cases (candidate_fits l image.accounted_bytes additional)) [
                    | inr f ↦ inl (
                      rw (e, b, h, n, t, k, f, prepare_delta, prepare_on_base) refl,
                      rw (e, b, h, n, t, k, f, prepare_delta, prepare_on_base) refl,
                    )
                    | inl f ↦ inr (
                      SnapshotCandidate.delta base target tick image d additional,
                      ground arith,
                      (t, f, ground arith),
                      rw (e, b, h, n, t, k, f, prepare_delta, prepare_on_base) refl,
                      rw (e, b, h, n, t, k, f, prepare_delta, prepare_on_base) refl,
                    )
                  ]
                ]
              ]
            ]
          ]
        ]
      ]

  pub prepared-IsValid :
      (l : AuthorityLineage S D) (c : SnapshotCandidate S D)
      → IsValid l
      → IsPending l (some c)
      → IsValid (record l { pending = some c })
  prepared-IsValid l c v p = record {
    may_retain = v.may_retain;
    may_record = v.may_record;
    image_retainable = v.image_retainable;
    machine = v.machine;
    sorted = v.sorted;
    counted = v.counted;
    within_count = v.within_count;
    within_bytes = v.within_bytes;
    evidence_sorted = v.evidence_sorted;
    evidence_fits = v.evidence_fits;
    retained_emitted = v.retained_emitted;
    evidence_emitted = v.evidence_emitted;
    confirmed_emitted = v.confirmed_emitted;
    generations = v.generations;
    state_valid = same_state l.state v.state_valid;
    pending_valid = same_pending c p;
  }
    where
      same_state :
          (s : AuthorityReplicationState) → IsState l s → IsState (record l { pending = some c }) s
      same_state (delta_eligible base) h = h
      same_state (full_snapshot_required reason generation watermark) h = h

      same_pending :
          (x : SnapshotCandidate S D)
          → IsPending l (some x)
          → IsPending (record l { pending = some c }) (some x)
      same_pending (SnapshotCandidate.full snapshot g) h = h
      same_pending (SnapshotCandidate.delta base target tick image d additional) h = h
