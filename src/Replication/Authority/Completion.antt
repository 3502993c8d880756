-- ===== src/Replication/Authority/Completion.antt =====
-- replication/authority.rs: how a recovery ends: only by a fresh confirmed full snapshot, and always by one.
use runen_net.Prelude.{
  ℕ, ◌≡◌, refl, sym, true, false, ◌&&◌, Option, none, some, nat_eq, is_some, arith, Bool-cases,
  Option-cases, inl, inr, Result, ok,
}
use runen_net.Collections.BTreeMap
use runen_net.Session.State.{Session}
use runen_net.Delivery.{accepted}
use runen_net.Replication.Model.{FullSnapshot}
use runen_net.Replication.Authority.Types.{
  SnapshotKind, EmissionEvidence, delta_eligible, full_snapshot_required, AuthorityRecoveryReason,
  SnapshotCandidate, AuthorityLineage, AuthorityAckOutcome, AuthorityOperationError, confirmed,
}
use runen_net.Replication.Authority.Guards.{
  at_or_below, is_full, designates, designation, repeats, drop_oldest,
}
use runen_net.Replication.Authority.Lineage.{
  is_own_authorized, target_error, candidate_fits, prepare_full, emit, record_delivery_acceptance,
  record_emitted_state, retain_emission_evidence, confirm, acknowledge_authorized,
}
use runen_net.Replication.Authority.Emission.{retain_authority_state-IsRetention}
use runen_net.Replication.Authority.Emitting.{fresh-IsBelow, past_watermark}
use mathlib.Core.Path.{subst}
use runen_net.Replication.Authority.Validity.{IsValid, IsState, IsUpTo, is_recovery_of}

newer-repeats :
    (latest greatest : Option ℕ) (cursor : ℕ)
    → IsUpTo latest greatest
    → at_or_below cursor greatest ≡ false
    → repeats latest cursor ≡ none
newer-repeats none greatest cursor u f = refl
newer-repeats (some c) none cursor u f = absurd (cc)
newer-repeats (some c) (some g) cursor u f = ground arith

module _ {S D : Type 0} where
  -- What a confirmation that ends a recovery confirms.
  abbrev pub IsRecoveryFull : AuthorityLineage S D → ℕ → Option ℕ → ℕ → Type 0
  IsRecoveryFull l generation watermark cursor =
      (is_some (BTreeMap.get l.retained cursor) ≡ true)
      × (at_or_below cursor watermark ≡ false)
      × ((evidence : EmissionEvidence) × (BTreeMap.get l.evidence cursor ≡ some evidence)
          × (evidence.kind ≡ SnapshotKind.full)
          × (evidence.recovery_generation ≡ some generation))

  -- A lineage that requires a full snapshot becomes eligible for deltas by an acknowledgement only if
  -- the connection is authorized for the lineage, and the base it then has is the acknowledged cursor:
  -- a retained full snapshot, emitted for this generation of recovery after the recovery began.
  pub acknowledge_authorized-IsRecoveryFull :
      (l : AuthorityLineage S D) (session : Session) (connection cursor base generation : ℕ)
      (reason : AuthorityRecoveryReason) (watermark : Option ℕ)
      → IsValid l
      → l.state ≡ full_snapshot_required reason generation watermark
      → (acknowledge_authorized l session connection cursor).0.state ≡ delta_eligible base
      → (base ≡ cursor)
        × (is_own_authorized l session connection ≡ true)
        × IsRecoveryFull l generation watermark cursor
  unfolding acknowledge_authorized confirm
  acknowledge_authorized-IsRecoveryFull l session connection cursor base generation reason watermark
        v s h =
      elim (Bool-cases (is_own_authorized l session connection)) [
        | inr own ↦ absurd (ground arith)
        | inl own ↦ elim (Option-cases (repeats l.latest_confirmed cursor)) [
          | inr (o, r) ↦ absurd (ground arith)
          | inl r ↦ elim (Bool-cases (at_or_below cursor l.greatest_emitted)) [
            | inr g ↦ absurd (ground arith)
            | inl g ↦ elim (Option-cases (BTreeMap.get l.evidence cursor)) [
              | inl e ↦ absurd (ground arith)
              | inr (evidence, e) ↦
                  elim (Bool-cases (
                    is_full evidence.kind
                    && designates evidence.recovery_generation generation
                    && is_some (BTreeMap.get l.retained cursor))) [
                      | inr f ↦ absurd (ground arith)
                      | inl f ↦ (
                        ground arith,
                        own,
                        (
                          ground arith,
                          newer cursor evidence e (ground arith),
                          (
                            evidence,
                            e,
                            kind_full evidence.kind (ground arith),
                            designated evidence.recovery_generation (ground arith),
                          ),
                        ),
                      )
                    ]
            ]
          ]
        ]
      ]
    where
      newer :
          (cursor : ℕ) (evidence : EmissionEvidence)
          → BTreeMap.get l.evidence cursor ≡ some evidence
          → is_recovery_of generation evidence ≡ true
          → at_or_below cursor watermark ≡ false
      newer cursor evidence e r =
          BTreeMap.All-get
            (λ x. is_recovery_of generation x.1 ≡ true → at_or_below x.0 watermark ≡ false)
            l.evidence cursor evidence recorded.2 e r
        where
          recorded : IsState l (full_snapshot_required reason generation watermark)
          recorded = subst (IsState l) s v.state_valid

      kind_full : (k : SnapshotKind) → is_full k ≡ true → k ≡ SnapshotKind.full
      kind_full SnapshotKind.full h = refl
      kind_full SnapshotKind.delta h = absurd (cc)

      designated : (g : Option ℕ) → designates g generation ≡ true → g ≡ some generation
      designated none h = absurd (cc)
      designated (some g) h = ground arith

  prepare_full_recovery :
      (l : AuthorityLineage S D) (snapshot : FullSnapshot S) (generation : ℕ)
      (reason : AuthorityRecoveryReason) (watermark : Option ℕ)
      → l.state ≡ full_snapshot_required reason generation watermark
      → is_some l.pending ≡ false
      → target_error l snapshot.target_cursor snapshot.target_tick ≡ none
      → candidate_fits l snapshot.image.accounted_bytes 0 ≡ true
      → at_or_below snapshot.target_cursor watermark ≡ false
      → (prepare_full l snapshot true).0
        ≡ record l { pending = some (SnapshotCandidate.full snapshot (some generation)) }
  unfolding prepare_full
  prepare_full_recovery l snapshot generation reason watermark s idle t fits newer =
      rw (idle, t, fits, designated, prepare_full) refl
    where
      designated : designation l.state true snapshot.target_cursor ≡ ok (some generation)
      designated = rw s (rw newer refl)

  confirm_recovery :
      (l : AuthorityLineage S D) (session : Session) (connection cursor generation : ℕ)
      (reason : AuthorityRecoveryReason) (watermark : Option ℕ)
      → l.state ≡ full_snapshot_required reason generation watermark
      → is_own_authorized l session connection ≡ true
      → repeats l.latest_confirmed cursor ≡ none
      → at_or_below cursor l.greatest_emitted ≡ true
      → BTreeMap.get l.evidence cursor
        ≡ some (record { kind = SnapshotKind.full; recovery_generation = some generation })
      → is_some (BTreeMap.get l.retained cursor) ≡ true
      → acknowledge_authorized l session connection cursor
        ≡ (record l { latest_confirmed = some cursor; state = delta_eligible cursor }, ok confirmed)
  unfolding acknowledge_authorized confirm
  confirm_recovery l session connection cursor generation reason watermark s own r g e h =
      rw (own, r, g, e, acknowledge_authorized)
        (subst
          (λ state. confirm l cursor evidence state ≡ (
            record l { latest_confirmed = some cursor; state = delta_eligible cursor },
            ok confirmed,
          ))
          (sym s) (rw (h, confirm) (ground arith)))
    where
      evidence : EmissionEvidence
      evidence = record { kind = SnapshotKind.full; recovery_generation = some generation }

  -- The answer to the acknowledgement of a recovery's snapshot, and the lineage then.
  abbrev pub IsCompleted :
      AuthorityLineage S D × Result AuthorityAckOutcome AuthorityOperationError → ℕ → Type 0
  IsCompleted r cursor =
      (r.1 ≡ ok confirmed)
      × (r.0.state ≡ delta_eligible cursor)
      × (r.0.latest_confirmed ≡ some cursor)
      × (is_some (BTreeMap.get r.0.retained cursor) ≡ true)

  -- From any valid lineage that requires a full snapshot and has nothing pending: a snapshot newer than
  -- all that was emitted, within the limits, prepared as the recovery's, accepted for delivery and
  -- acknowledged by the authorized connection, completes the recovery, and its cursor is the new base.
  pub recovery_completes :
      (l : AuthorityLineage S D) (snapshot : FullSnapshot S) (session : Session)
      (connection generation : ℕ) (reason : AuthorityRecoveryReason) (watermark : Option ℕ)
      → IsValid l
      → l.state ≡ full_snapshot_required reason generation watermark
      → is_some l.pending ≡ false
      → target_error l snapshot.target_cursor snapshot.target_tick ≡ none
      → candidate_fits l snapshot.image.accounted_bytes 0 ≡ true
      → is_own_authorized l session connection ≡ true
      → let prepared = (prepare_full l snapshot true).0 in
        let sent = (record_delivery_acceptance prepared accepted).0 in
        let acknowledged = acknowledge_authorized sent session connection snapshot.target_cursor in
        IsCompleted acknowledged snapshot.target_cursor
  unfolding record_delivery_acceptance emit record_emitted_state retain_emission_evidence
  recovery_completes l snapshot session connection generation reason watermark v s idle t fits own =
      let (kept, bytes, q, r) =
        retain_authority_state-IsRetention noted cursor snapshot.target_tick snapshot.image v.sorted
          v.counted v.within_count v.within_bytes v.may_retain (ground (arith, v.image_retainable))
          (fresh-IsBelow l.greatest_emitted l.retained cursor v.retained_emitted newer) in
      let sent = record noted {
        retained = kept;
        retained_bytes = bytes;
        evidence = BTreeMap.insert older cursor evidence;
      } in
      let held : is_some (BTreeMap.get kept cursor) ≡ true =
        rw (r.retained_anew (rw s refl)) refl in
      let last =
        confirm_recovery sent session connection cursor generation reason watermark s own
          (newer-repeats l.latest_confirmed l.greatest_emitted cursor v.confirmed_emitted newer)
          (ground arith) (ground (arith, BTreeMap.get-insert older cursor cursor evidence)) held in
      let prepared =
        prepare_full_recovery l snapshot generation reason watermark s idle t fits
          (past_watermark cursor watermark l.greatest_emitted recorded.1 newer) in
      subst
        (λ x.
          IsCompleted
            (acknowledge_authorized (record_delivery_acceptance x accepted).0 session connection
              cursor)
            cursor)
        (sym prepared)
        (subst
          (λ x.
            IsCompleted
              (acknowledge_authorized (retain_emission_evidence x cursor evidence) session
                connection cursor)
              cursor)
          (sym q) (subst (λ x. IsCompleted x cursor) (sym last) (refl, refl, refl, held)))
    where
      recorded : IsState l (full_snapshot_required reason generation watermark)
      recorded = subst (IsState l) s v.state_valid

      cursor : ℕ
      cursor = snapshot.target_cursor

      noted : AuthorityLineage S D
      noted = record l {
        pending = none;
        greatest_emitted = some cursor;
        greatest_emitted_tick = some snapshot.target_tick;
      }

      evidence : EmissionEvidence
      evidence = record { kind = SnapshotKind.full; recovery_generation = some generation }

      older : BTreeMap.BTreeMap EmissionEvidence
      older = drop_oldest l.limits.max_emission_evidence_per_lineage l.evidence

      newer : at_or_below cursor l.greatest_emitted ≡ false
      newer = ground arith
