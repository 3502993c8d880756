-- ===== src/Replication/Authority/Lineage.antt =====
-- replication/authority.rs: the operations of one lineage. Each returns the lineage after the call
-- beside its result.
use runen_net.Prelude.{
  ℕ, ◌+◌, ◌-◌, Bool, true, false, not, ◌&&◌, Option, none, some, if◌then◌else◌, ltb, leb, ◌==◌,
  nat_eq, length, is_some, Result, ok, err,
}
use runen_net.Identity.{SimulationTick, ConnectionHandle}
use runen_net.Collections.BTreeMap.{BTreeMap}
use runen_net.Collections.BTreeMap
use runen_net.Session.State.{Session, is_authorized}
use runen_net.Replication.Model.{
  ReplicationCursor, RecoveryGeneration, checked_next, AccountedState, FullSnapshot,
}
use runen_net.Delivery.{DeliveryAcceptance, accepted, not_accepted}
use runen_net.Replication.Authority.Types.{
  SnapshotKind, AuthorityRecoveryReason, baseline_evicted, confirmed_baseline_unavailable,
  connection_replacement, AuthorityReplicationState, delta_eligible, full_snapshot_required,
  AuthorityPrepareError, pending_candidate_exists, cursor_not_newer, tick_regression,
  delta_not_eligible, baseline_unavailable, candidate_too_large, AuthorityOperationError,
  unauthorized, no_pending_candidate, recovery_generation_exhausted, AuthorityAckOutcome, confirmed,
  future_confirmation, unverifiable_confirmation, PendingSnapshotSummary, EmittedSnapshot,
  RetainedState, EmissionEvidence, SnapshotCandidate, AuthorityLineage, image_bytes,
}
use runen_net.Replication.Authority.Guards.{
  at_or_below, under, is_full, designates, base_of, is_base, designation, repeats, drop_oldest,
  evict_until,
}

module _ {S D : Type 0} where
  -- `validate_new_emission_target`.
  abbrev pub target_error :
      AuthorityLineage S D → ReplicationCursor → SimulationTick → Option AuthorityPrepareError
  target_error l cursor tick =
      if at_or_below cursor l.greatest_emitted
      then some cursor_not_newer
      else if under tick l.greatest_emitted_tick
      then some tick_regression
      else none

  -- The second subtraction runs only after the first test.
  abbrev pub candidate_fits : AuthorityLineage S D → ℕ → ℕ → Bool
  candidate_fits l state_bytes additional_bytes =
      not (ltb l.limits.max_state_image_bytes state_bytes)
      && (leb state_bytes l.limits.max_candidate_bytes_per_lineage
          && leb additional_bytes (l.limits.max_candidate_bytes_per_lineage - state_bytes))

  unfoldable pub prepare_full :
      AuthorityLineage S D
      → FullSnapshot S
      → Bool
      → AuthorityLineage S D × Result PendingSnapshotSummary AuthorityPrepareError
  prepare_full l snapshot designate =
      if is_some l.pending
      then (l, err pending_candidate_exists)
      else elim (target_error l snapshot.target_cursor snapshot.target_tick) [
        | some e ↦ (l, err e)
        | none ↦
            if not (candidate_fits l snapshot.image.accounted_bytes 0)
            then (l, err candidate_too_large)
            else elim (designation l.state designate snapshot.target_cursor) [
              | err e ↦ (l, err e)
              | ok recovery_generation ↦ (
                record l { pending = some (SnapshotCandidate.full snapshot recovery_generation) },
                ok (record {
                  kind = SnapshotKind.full;
                  base_cursor = none;
                  target_cursor = snapshot.target_cursor;
                  target_tick = snapshot.target_tick;
                  recovery_generation = recovery_generation;
                }),
              )
            ]
      ]

  -- `prepare_delta` on the base that the state names.
  unfoldable pub prepare_on_base :
      AuthorityLineage S D
      → ReplicationCursor
      → ReplicationCursor
      → SimulationTick
      → AccountedState S
      → D
      → ℕ
      → AuthorityLineage S D × Result PendingSnapshotSummary AuthorityPrepareError
  prepare_on_base l base_cursor target_cursor target_tick image d additional =
      elim (BTreeMap.get l.retained base_cursor) [
        | none ↦ (l, err baseline_unavailable)
        | some base ↦
            if leb target_cursor base_cursor
            then (l, err cursor_not_newer)
            else elim (target_error l target_cursor target_tick) [
              | some e ↦ (l, err e)
              | none ↦
                  if ltb target_tick base.tick
                  then (l, err tick_regression)
                  else if not (candidate_fits l image.accounted_bytes additional)
                  then (l, err candidate_too_large)
                  else (
                    record l {
                      pending = some (
                          SnapshotCandidate.delta base_cursor target_cursor target_tick image d
                            additional);
                    },
                    ok (record {
                      kind = SnapshotKind.delta;
                      base_cursor = some base_cursor;
                      target_cursor = target_cursor;
                      target_tick = target_tick;
                      recovery_generation = none;
                    }),
                  )
            ]
      ]

  unfoldable pub prepare_delta :
      AuthorityLineage S D
      → ReplicationCursor
      → SimulationTick
      → AccountedState S
      → D
      → ℕ
      → AuthorityLineage S D × Result PendingSnapshotSummary AuthorityPrepareError
  unfolding prepare_on_base
  prepare_delta l target_cursor target_tick image d additional =
      if is_some l.pending then (l, err pending_candidate_exists) else elim (base_of l.state) [
        | none ↦ (l, err delta_not_eligible)
        | some base_cursor ↦
            prepare_on_base l base_cursor target_cursor target_tick image d additional
      ]

  unfoldable pub retain_authority_state :
      AuthorityLineage S D
      → ReplicationCursor
      → SimulationTick
      → AccountedState S
      → AuthorityLineage S D
  unfolding evict_until
  retain_authority_state l cursor tick image =
      let max_count = l.limits.max_retained_images_per_lineage in
      let room = l.limits.max_retained_state_bytes_per_lineage - image.accounted_bytes in
      let (kept, bytes, fits) =
        evict_until max_count room (base_of l.state) l.retained (length l.retained)
          l.retained_bytes in
      if fits
      then record l {
        retained = BTreeMap.insert kept cursor (record { tick = tick; image = image });
        retained_bytes = bytes + image.accounted_bytes;
      }
      else record l { retained = kept; retained_bytes = bytes }

  unfoldable pub retain_emission_evidence :
      AuthorityLineage S D → ReplicationCursor → EmissionEvidence → AuthorityLineage S D
  retain_emission_evidence l cursor evidence = record l {
    evidence =
        BTreeMap.insert (drop_oldest l.limits.max_emission_evidence_per_lineage l.evidence) cursor
          evidence;
  }

  unfoldable pub record_emitted_state :
      AuthorityLineage S D
      → ReplicationCursor
      → SimulationTick
      → AccountedState S
      → SnapshotKind
      → Option RecoveryGeneration
      → AuthorityLineage S D
  record_emitted_state l cursor tick image kind recovery_generation =
      retain_emission_evidence
        (retain_authority_state
          (record l { greatest_emitted = some cursor; greatest_emitted_tick = some tick }) cursor
          tick image)
        cursor (record { kind = kind; recovery_generation = recovery_generation })

  unfoldable pub emit :
      AuthorityLineage S D → SnapshotCandidate S D → AuthorityLineage S D × EmittedSnapshot
  emit l (SnapshotCandidate.full snapshot recovery_generation) = (
    record_emitted_state l snapshot.target_cursor snapshot.target_tick snapshot.image
        SnapshotKind.full recovery_generation,
    record {
      kind = SnapshotKind.full;
      base_cursor = none;
      target_cursor = snapshot.target_cursor;
      target_tick = snapshot.target_tick;
      recovery_generation = recovery_generation;
    },
  )
  emit l (SnapshotCandidate.delta base target tick image d additional) = (
    record_emitted_state l target tick image SnapshotKind.delta none,
    record {
      kind = SnapshotKind.delta;
      base_cursor = some base;
      target_cursor = target;
      target_tick = tick;
      recovery_generation = none;
    },
  )

  unfoldable pub record_delivery_acceptance :
      AuthorityLineage S D
      → DeliveryAcceptance
      → AuthorityLineage S D × Result (Option EmittedSnapshot) AuthorityOperationError
  record_delivery_acceptance l not_accepted = (l, ok none)
  record_delivery_acceptance l accepted = elim l.pending [
    | none ↦ (l, err no_pending_candidate)
    | some candidate ↦
        let (l', emitted) = emit (record l { pending = none }) candidate in (l', ok (some emitted))
  ]

  abbrev pub cancel_pending : AuthorityLineage S D → AuthorityLineage S D × Bool
  cancel_pending l = (record l { pending = none }, is_some l.pending)

  unfoldable pub install_new_recovery :
      AuthorityLineage S D → AuthorityRecoveryReason → RecoveryGeneration → AuthorityLineage S D
  install_new_recovery l reason generation = record l {
    pending = none;
    generation = generation;
    state = full_snapshot_required reason generation l.greatest_emitted;
  }

  -- The state's answer to a confirmed cursor that was emitted with this evidence.
  unfoldable pub confirm :
      AuthorityLineage S D
      → ReplicationCursor
      → EmissionEvidence
      → AuthorityReplicationState
      → AuthorityLineage S D × Result AuthorityAckOutcome AuthorityOperationError
  confirm l cursor evidence (delta_eligible base) =
      if is_some (BTreeMap.get l.retained cursor)
      then (
        record l { latest_confirmed = some cursor; state = delta_eligible cursor },
        ok confirmed,
      )
      else elim (checked_next l.generation) [
        | none ↦ (l, err recovery_generation_exhausted)
        | some next ↦ (
          install_new_recovery (record l { latest_confirmed = some cursor })
              confirmed_baseline_unavailable next,
          ok confirmed,
        )
      ]
  confirm l cursor evidence (full_snapshot_required reason generation watermark) =
      if is_full evidence.kind
        && designates evidence.recovery_generation generation
        && is_some (BTreeMap.get l.retained cursor)
      then (
        record l { latest_confirmed = some cursor; state = delta_eligible cursor },
        ok confirmed,
      )
      else (record l { latest_confirmed = some cursor }, ok confirmed)

  abbrev pub is_own_authorized : AuthorityLineage S D → Session → ConnectionHandle → Bool
  is_own_authorized l session connection =
      session.id == l.key.session && is_authorized session l.key.participant connection

  unfoldable pub acknowledge_authorized :
      AuthorityLineage S D
      → Session
      → ConnectionHandle
      → ReplicationCursor
      → AuthorityLineage S D × Result AuthorityAckOutcome AuthorityOperationError
  unfolding confirm
  acknowledge_authorized l session connection cursor =
      if not (is_own_authorized l session connection)
      then (l, err unauthorized)
      else elim (repeats l.latest_confirmed cursor) [
        | some outcome ↦ (l, ok outcome)
        | none ↦
            if not (at_or_below cursor l.greatest_emitted)
            then (l, ok future_confirmation)
            else elim (BTreeMap.get l.evidence cursor) [
              | none ↦ (l, ok unverifiable_confirmation)
              | some evidence ↦ confirm l cursor evidence l.state
            ]
      ]

  -- A new recovery in the next generation.
  unfoldable pub recover_anew :
      AuthorityLineage S D
      → AuthorityRecoveryReason
      → AuthorityLineage S D × Result (Unit {0}) AuthorityOperationError
  recover_anew l reason = elim (checked_next l.generation) [
    | none ↦ (l, err recovery_generation_exhausted)
    | some next ↦ (install_new_recovery l reason next, ok tt)
  ]

  unfoldable pub require_full_recovery :
      AuthorityLineage S D
      → AuthorityRecoveryReason
      → AuthorityLineage S D × Result (Unit {0}) AuthorityOperationError
  require_full_recovery l reason = elim (base_of l.state) [
    | none ↦ (l, ok tt)
    | some base ↦ recover_anew l reason
  ]

  unfoldable pub connection_replaced :
      AuthorityLineage S D
      → Session
      → ConnectionHandle
      → AuthorityLineage S D × Result (Unit {0}) AuthorityOperationError
  connection_replaced l session connection =
      if not (is_own_authorized l session connection)
      then (l, err unauthorized)
      else recover_anew l connection_replacement

  abbrev pub without :
      AuthorityLineage S D → ReplicationCursor → RetainedState S → AuthorityLineage S D
  without l cursor removed = record l {
    retained = BTreeMap.remove l.retained cursor;
    retained_bytes = l.retained_bytes - image_bytes removed;
  }

  unfoldable pub evict_retained_state :
      AuthorityLineage S D
      → ReplicationCursor
      → AuthorityLineage S D × Result Bool AuthorityOperationError
  evict_retained_state l cursor =
      if is_base (base_of l.state) cursor
      then elim (checked_next l.generation) [
        | none ↦ (l, err recovery_generation_exhausted)
        | some next ↦ elim (BTreeMap.get l.retained cursor) [
          | none ↦ (l, ok false)
          | some removed ↦
              (install_new_recovery (without l cursor removed) baseline_evicted next, ok true)
        ]
      ]
      else elim (BTreeMap.get l.retained cursor) [
        | none ↦ (l, ok false)
        | some removed ↦ (without l cursor removed, ok true)
      ]
