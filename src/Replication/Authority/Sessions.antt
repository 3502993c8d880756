-- ===== src/Replication/Authority/Sessions.antt =====
-- replication/authority.rs: the lineages of a session, and the reservations of their aggregate limits.
use runen_net.Prelude.{
  ℕ, Bool, false, not, ◌&&◌, Option, none, some, [], if◌then◌else◌, leb, nat_eq, length, is_some,
  Result, ok, err, map_err, checked_add,
}
use runen_net.Identity.{SessionId, ParticipantId, ConnectionHandle, SimulationTick}
use runen_net.Delivery.{DeliveryAcceptance}
use runen_net.Collections.HashMap.{HashMap, checked_sum}
use runen_net.Collections.HashMap
use runen_net.Session.State.{Session}
use runen_net.Replication.Model.{
  ReplicationLineageKey, ReplicationCursor, AccountedState, ReplicationRetentionLimits,
  AuthorityAggregateLimits, FullSnapshot,
}
use runen_net.Replication.Authority.Types.{
  AuthorityLineage, AuthoritySessionError, lineage_already_exists, unknown_lineage,
  aggregate_resource_limit_exceeded, prepare, operation, AuthorityPrepareError,
  AuthorityOperationError, AuthorityRecoveryReason, AuthorityAckOutcome, PendingSnapshotSummary,
  EmittedSnapshot, new_authority_lineage, pending_state_bytes, pending_candidate_bytes, has_pending,
}
use runen_net.Replication.Authority.Lineage

pub record AuthorityReplicationSession (S D : Type 0) : Type 0 where
  pub session_id : SessionId
  pub limits : AuthorityAggregateLimits
  pub lineages : HashMap ParticipantId (AuthorityLineage S D)

abbrev pub fits_sum : Option ℕ → Option ℕ → ℕ → Bool
fits_sum none b limit = false
fits_sum (some a) none limit = false
fits_sum (some a) (some b) limit = elim (checked_add a b) [ none ↦ false | some n ↦ leb n limit ]

module _ {S D : Type 0} where
  unfoldable pub new_authority_session :
      SessionId → AuthorityAggregateLimits → AuthorityReplicationSession S D
  new_authority_session session_id limits = record {
    session_id = session_id;
    limits = limits;
    lineages = [];
  }

  abbrev pub put :
      AuthorityReplicationSession S D
      → ParticipantId
      → AuthorityLineage S D
      → AuthorityReplicationSession S D
  put a participant l = record a { lineages = HashMap.insert a.lineages participant l }

  unfoldable pub add_authority_lineage :
      AuthorityReplicationSession S D
      → ParticipantId
      → ReplicationRetentionLimits
      → AuthorityReplicationSession S D × Result ReplicationLineageKey AuthoritySessionError
  add_authority_lineage a participant retention =
      let key : ReplicationLineageKey = record {
        session = a.session_id;
        participant = participant;
      } in
      if HashMap.contains_key a.lineages participant
      then (a, err lineage_already_exists)
      else if leb a.limits.max_lineages (length a.lineages)
      then (a, err aggregate_resource_limit_exceeded)
      else (put a participant (new_authority_lineage key retention), ok key)

  abbrev pub remove_authority_lineage :
      AuthorityReplicationSession S D → ParticipantId → AuthorityReplicationSession S D × Bool
  remove_authority_lineage a participant = (
    record a { lineages = HashMap.remove a.lineages participant },
    is_some (HashMap.get a.lineages participant),
  )

  -- `checked_…` of the session: sums over the lineages; `none` is an overflow.
  abbrev pub image_sum : AuthorityReplicationSession S D → Option ℕ
  image_sum a = checked_sum (λ (l : AuthorityLineage S D). length l.retained) 0 a.lineages

  abbrev pub state_byte_sum : AuthorityReplicationSession S D → Option ℕ
  state_byte_sum a = checked_sum (λ (l : AuthorityLineage S D). l.retained_bytes) 0 a.lineages

  abbrev pub evidence_sum : AuthorityReplicationSession S D → Option ℕ
  evidence_sum a = checked_sum (λ (l : AuthorityLineage S D). length l.evidence) 0 a.lineages

  abbrev pub pending_state_sum : AuthorityReplicationSession S D → Option ℕ
  pending_state_sum a =
      checked_sum (λ (l : AuthorityLineage S D). pending_state_bytes l) 0 a.lineages

  abbrev pub pending_candidate_sum : AuthorityReplicationSession S D → Option ℕ
  pending_candidate_sum a =
      checked_sum (λ (l : AuthorityLineage S D). pending_candidate_bytes l) 0 a.lineages

  abbrev pub pending_count : AuthorityReplicationSession S D → ℕ
  pending_count a =
      HashMap.total (λ (l : AuthorityLineage S D). if has_pending l then 1 else 0) a.lineages

  unfoldable pub aggregate_reservations_fit : AuthorityReplicationSession S D → Bool
  aggregate_reservations_fit a =
      fits_sum (state_byte_sum a) (pending_candidate_sum a) a.limits.max_state_bytes
      && (fits_sum (image_sum a) (some (pending_count a)) a.limits.max_retained_images
          && (fits_sum (state_byte_sum a) (pending_state_sum a) a.limits.max_retained_state_bytes
              && fits_sum (evidence_sum a) (some (pending_count a)) a.limits.max_emission_evidence))

  -- After a preparation: a candidate that does not fit the aggregate limits is cancelled.
  unfoldable pub check_reservation :
      AuthorityReplicationSession S D
      → ParticipantId
      → AuthorityLineage S D × Result PendingSnapshotSummary AuthorityPrepareError
      → AuthorityReplicationSession S D × Result PendingSnapshotSummary AuthoritySessionError
  check_reservation a participant (l, err e) = (put a participant l, err (prepare e))
  check_reservation a participant (l, ok summary) =
      if not (aggregate_reservations_fit (put a participant l))
      then (put a participant (Lineage.cancel_pending l).0, err aggregate_resource_limit_exceeded)
      else (put a participant l, ok summary)

  unfoldable pub prepare_full :
      AuthorityReplicationSession S D
      → ParticipantId
      → FullSnapshot S
      → Bool
      → AuthorityReplicationSession S D × Result PendingSnapshotSummary AuthoritySessionError
  prepare_full a participant snapshot designate = elim (HashMap.get a.lineages participant) [
    | none ↦ (a, err unknown_lineage)
    | some l ↦ check_reservation a participant (Lineage.prepare_full l snapshot designate)
  ]

  unfoldable pub prepare_delta :
      AuthorityReplicationSession S D
      → ParticipantId
      → ReplicationCursor
      → SimulationTick
      → AccountedState S
      → D
      → ℕ
      → AuthorityReplicationSession S D × Result PendingSnapshotSummary AuthoritySessionError
  prepare_delta a participant target tick image d additional =
      elim (HashMap.get a.lineages participant) [
        | none ↦ (a, err unknown_lineage)
        | some l ↦
            check_reservation a participant (Lineage.prepare_delta l target tick image d additional)
      ]

  -- `Ok(self.lineages.get_mut(&participant).ok_or(UnknownLineage)?.method(..)?)`.
  abbrev pub on_lineage :
      {A : Type 0}
      → AuthorityReplicationSession S D
      → ParticipantId
      → (AuthorityLineage S D → AuthorityLineage S D × Result A AuthorityOperationError)
      → AuthorityReplicationSession S D × Result A AuthoritySessionError
  on_lineage a participant method = elim (HashMap.get a.lineages participant) [
    | none ↦ (a, err unknown_lineage)
    | some l ↦ (put a participant (method l).0, map_err operation (method l).1)
  ]

  abbrev pub record_delivery_acceptance :
      AuthorityReplicationSession S D
      → ParticipantId
      → DeliveryAcceptance
      → AuthorityReplicationSession S D × Result (Option EmittedSnapshot) AuthoritySessionError
  record_delivery_acceptance a participant acceptance =
      on_lineage a participant (λ l. Lineage.record_delivery_acceptance l acceptance)

  abbrev pub cancel_pending :
      AuthorityReplicationSession S D
      → ParticipantId
      → AuthorityReplicationSession S D × Result Bool AuthoritySessionError
  cancel_pending a participant =
      on_lineage a participant
        (λ l. ((Lineage.cancel_pending l).0, ok (Lineage.cancel_pending l).1))

  abbrev pub acknowledge_authorized :
      AuthorityReplicationSession S D
      → Session
      → ConnectionHandle
      → ParticipantId
      → ReplicationCursor
      → AuthorityReplicationSession S D × Result AuthorityAckOutcome AuthoritySessionError
  acknowledge_authorized a session connection participant cursor =
      on_lineage a participant (λ l. Lineage.acknowledge_authorized l session connection cursor)

  abbrev pub require_full_recovery :
      AuthorityReplicationSession S D
      → ParticipantId
      → AuthorityRecoveryReason
      → AuthorityReplicationSession S D × Result (Unit {0}) AuthoritySessionError
  require_full_recovery a participant reason =
      on_lineage a participant (λ l. Lineage.require_full_recovery l reason)

  abbrev pub connection_replaced :
      AuthorityReplicationSession S D
      → Session
      → ConnectionHandle
      → ParticipantId
      → AuthorityReplicationSession S D × Result (Unit {0}) AuthoritySessionError
  connection_replaced a session connection participant =
      on_lineage a participant (λ l. Lineage.connection_replaced l session connection)

  abbrev pub evict_retained_state :
      AuthorityReplicationSession S D
      → ParticipantId
      → ReplicationCursor
      → AuthorityReplicationSession S D × Result Bool AuthoritySessionError
  evict_retained_state a participant cursor =
      on_lineage a participant (λ l. Lineage.evict_retained_state l cursor)
