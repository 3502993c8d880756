-- ===== src/Replication/Authority/History.antt =====
-- replication/authority.rs: histories of calls on a session's lineages, from `AuthorityReplicationSession::new`.
use runen_net.Prelude.{
  ℕ, ◌≤◌, ◌<◌, Bool, List, [], ◌∷◌, leb, nat_eq, length, arith, Bool-cases, Option-cases, inl, inr,
  All, IsU64, Result, ok,
}
use runen_net.Identity.{SessionId, ParticipantId, ConnectionHandle, SimulationTick}
use runen_net.Delivery.{DeliveryAcceptance}
use runen_net.Collections.HashMap.{HashMap}
use runen_net.Collections.HashMap
use runen_net.Session.State.{Session}
use runen_net.Replication.Model.{
  ReplicationLineageKey, ReplicationCursor, AccountedState, FullSnapshot,
  ReplicationRetentionLimits, AuthorityAggregateLimits,
}
use runen_net.Replication.Authority.Types.{
  AuthorityLineage, AuthorityRecoveryReason, AuthorityOperationError, new_authority_lineage,
}
use runen_net.Replication.Authority.Lineage
use runen_net.Replication.Authority.Validity.{
  IsValid, Keeps, cancel_pending-Keeps, new_authority_lineage-IsValid,
}
use runen_net.Replication.Authority.Recovery.{
  require_full_recovery-Keeps, connection_replaced-Keeps,
}
use runen_net.Replication.Authority.Acknowledgement.{acknowledge_authorized-Keeps}
use runen_net.Replication.Authority.Pending.{
  record_delivery_acceptance-Keeps, prepare_full-IsPreparation, prepare_delta-IsPreparation,
}
use runen_net.Replication.Authority.Eviction.{evict_retained_state-Keeps}
use runen_net.Replication.Authority.Sessions.{
  AuthorityReplicationSession, new_authority_session, add_authority_lineage,
  remove_authority_lineage, on_lineage, prepare_full, prepare_delta, record_delivery_acceptance,
  cancel_pending, acknowledge_authorized, require_full_recovery, connection_replaced,
  evict_retained_state,
}
use runen_net.Replication.Authority.Reservation.{
  IsValidSession, image_need, evidence_need, byte_need, candidate_need,
  new_authority_session-IsValidSession, put-IsValidSession, check_reservation-IsValidSession,
}

-- A call of the host, with the session it shows where it shows one.
pub data Call (S D : Type 0) : Type 0 where
  adds : ParticipantId → ReplicationRetentionLimits → Call S D
  removes : ParticipantId → Call S D
  prepares_full : ParticipantId → FullSnapshot S → Bool → Call S D
  prepares_delta :
      ParticipantId → ReplicationCursor → SimulationTick → AccountedState S → D → ℕ → Call S D
  delivers : ParticipantId → DeliveryAcceptance → Call S D
  cancels : ParticipantId → Call S D
  acknowledges : Session → ConnectionHandle → ParticipantId → ReplicationCursor → Call S D
  requires_recovery : ParticipantId → AuthorityRecoveryReason → Call S D
  reconnects : Session → ConnectionHandle → ParticipantId → Call S D
  evicts : ParticipantId → ReplicationCursor → Call S D

-- What the type of the limits and `ReplicationRetentionLimits::new` guarantee.
abbrev pub IsBudget : ReplicationRetentionLimits → Type 0
IsBudget limits =
    (0 < limits.max_retained_images_per_lineage)
    × (0 < limits.max_emission_evidence_per_lineage)
    × (limits.max_state_image_bytes ≤ limits.max_retained_state_bytes_per_lineage)
    × IsU64 limits.max_candidate_bytes_per_lineage

module _ {S D : Type 0} where
  add_authority_lineage-IsValidSession :
      (a : AuthorityReplicationSession S D) (participant : ℕ) (limits : ReplicationRetentionLimits)
      → IsBudget limits
      → IsValidSession a
      → IsValidSession (add_authority_lineage a participant limits).0
  unfolding add_authority_lineage new_authority_lineage
  add_authority_lineage-IsValidSession a participant limits b v =
      elim (Option-cases (HashMap.get a.lineages participant)) [
        | inr (l, h) ↦ rw (h, add_authority_lineage) v
        | inl h ↦ elim (Bool-cases (leb a.limits.max_lineages (length a.lineages))) [
          | inl e ↦ rw (h, e, add_authority_lineage) v
          | inr e ↦
              rw (h, e, add_authority_lineage)
                (record {
                  valid =
                      HashMap.All-insert IsValid a.lineages participant new
                        (new_authority_lineage-IsValid key limits b.0 b.1 b.2 b.3) v.valid;
                  lineages_fit =
                      ground (arith, HashMap.length-insert-le a.lineages participant new);
                  images_fit = omega (
                    arith,
                    HashMap.total-insert_absent image_need a.lineages participant new h,
                    v.images_fit,
                  );
                  evidence_fits = omega (
                    arith,
                    HashMap.total-insert_absent evidence_need a.lineages participant new h,
                    v.evidence_fits,
                  );
                  bytes_fit = omega (
                    arith,
                    HashMap.total-insert_absent byte_need a.lineages participant new h,
                    v.bytes_fit,
                  );
                  candidates_fit = omega (
                    arith,
                    HashMap.total-insert_absent candidate_need a.lineages participant new h,
                    v.candidates_fit,
                  );
                })
        ]
      ]
    where
      key : ReplicationLineageKey
      key = record { session = a.session_id; participant = participant }

      new : AuthorityLineage S D
      new = new_authority_lineage key limits

  remove_authority_lineage-IsValidSession :
      (a : AuthorityReplicationSession S D) (participant : ℕ)
      → IsValidSession a
      → IsValidSession (remove_authority_lineage a participant).0
  remove_authority_lineage-IsValidSession a participant v = record {
    valid = HashMap.All-remove IsValid a.lineages participant v.valid;
    lineages_fit = omega (arith, HashMap.length-remove-le a.lineages participant, v.lineages_fit);
    images_fit =
        omega (arith, HashMap.total-remove-le image_need a.lineages participant, v.images_fit);
    evidence_fits =
        omega
          (arith, HashMap.total-remove-le evidence_need a.lineages participant, v.evidence_fits);
    bytes_fit =
        omega (arith, HashMap.total-remove-le byte_need a.lineages participant, v.bytes_fit);
    candidates_fit =
        omega
          (arith, HashMap.total-remove-le candidate_need a.lineages participant, v.candidates_fit);
  }

  -- A call on one lineage that needs no more room.
  on_lineage-IsValidSession :
      {A : Type 0} (a : AuthorityReplicationSession S D) (participant : ℕ)
      (method : AuthorityLineage S D → AuthorityLineage S D × Result A AuthorityOperationError)
      → ((l : AuthorityLineage S D) → IsValid l → Keeps l (method l).0)
      → IsValidSession a
      → IsValidSession (on_lineage a participant method).0
  on_lineage-IsValidSession a participant method keeps v =
      elim (Option-cases (HashMap.get a.lineages participant)) [
        | inl h ↦ rw (h, on_lineage) v
        | inr (l, h) ↦
            rw (h, on_lineage)
              (put-IsValidSession a participant l (method l).0 h
                (keeps l (HashMap.All-get IsValid a.lineages participant l v.valid h)) v)
      ]

  prepare_full-IsValidSession :
      (a : AuthorityReplicationSession S D) (participant : ℕ) (snapshot : FullSnapshot S)
      (designate : Bool)
      → IsValidSession a
      → IsValidSession (prepare_full a participant snapshot designate).0
  unfolding prepare_full
  prepare_full-IsValidSession a participant snapshot designate v =
      elim (Option-cases (HashMap.get a.lineages participant)) [
        | inl h ↦ rw (h, prepare_full) v
        | inr (l, h) ↦
            let w = HashMap.All-get IsValid a.lineages participant l v.valid h in
            rw (h, prepare_full)
              (check_reservation-IsValidSession a participant l
                (Lineage.prepare_full l snapshot designate) h v w
                (prepare_full-IsPreparation l snapshot designate w))
      ]

  prepare_delta-IsValidSession :
      (a : AuthorityReplicationSession S D) (participant target tick : ℕ) (image : AccountedState S)
      (d : D) (additional : ℕ)
      → IsValidSession a
      → IsValidSession (prepare_delta a participant target tick image d additional).0
  unfolding prepare_delta
  prepare_delta-IsValidSession a participant target tick image d additional v =
      elim (Option-cases (HashMap.get a.lineages participant)) [
        | inl h ↦ rw (h, prepare_delta) v
        | inr (l, h) ↦
            let w = HashMap.All-get IsValid a.lineages participant l v.valid h in
            rw (h, prepare_delta)
              (check_reservation-IsValidSession a participant l
                (Lineage.prepare_delta l target tick image d additional) h v w
                (prepare_delta-IsPreparation l target tick image d additional))
      ]

  abbrev pub IsTyped : Call S D → Type 0
  IsTyped (adds participant limits) = IsBudget limits
  IsTyped other = Unit

  unfoldable pub step : AuthorityReplicationSession S D → Call S D → AuthorityReplicationSession S D
  step a (adds participant limits) = (add_authority_lineage a participant limits).0
  step a (removes participant) = (remove_authority_lineage a participant).0
  step a (prepares_full participant snapshot designate) =
      (prepare_full a participant snapshot designate).0
  step a (prepares_delta participant target tick image d additional) =
      (prepare_delta a participant target tick image d additional).0
  step a (delivers participant acceptance) = (record_delivery_acceptance a participant acceptance).0
  step a (cancels participant) = (cancel_pending a participant).0
  step a (acknowledges session connection participant cursor) =
      (acknowledge_authorized a session connection participant cursor).0
  step a (requires_recovery participant reason) = (require_full_recovery a participant reason).0
  step a (reconnects session connection participant) =
      (connection_replaced a session connection participant).0
  step a (evicts participant cursor) = (evict_retained_state a participant cursor).0

  unfoldable pub run :
      AuthorityReplicationSession S D → List (Call S D) → AuthorityReplicationSession S D
  run a [] = a
  run a (call ∷ calls) = run (step a call) calls

  step-IsValidSession :
      (a : AuthorityReplicationSession S D) (call : Call S D)
      → IsTyped call
      → IsValidSession a
      → IsValidSession (step a call)
  unfolding step
  step-IsValidSession a (adds participant limits) t v =
      add_authority_lineage-IsValidSession a participant limits t v
  step-IsValidSession a (removes participant) t v =
      remove_authority_lineage-IsValidSession a participant v
  step-IsValidSession a (prepares_full participant snapshot designate) t v =
      prepare_full-IsValidSession a participant snapshot designate v
  step-IsValidSession a (prepares_delta participant target tick image d additional) t v =
      prepare_delta-IsValidSession a participant target tick image d additional v
  step-IsValidSession a (delivers participant acceptance) t v =
      on_lineage-IsValidSession a participant (λ l. Lineage.record_delivery_acceptance l acceptance)
        (λ l w. record_delivery_acceptance-Keeps l acceptance w) v
  step-IsValidSession a (cancels participant) t v =
      on_lineage-IsValidSession a participant
        (λ l. ((Lineage.cancel_pending l).0, ok (Lineage.cancel_pending l).1))
        (λ l w. cancel_pending-Keeps l w) v
  step-IsValidSession a (acknowledges session connection participant cursor) t v =
      on_lineage-IsValidSession a participant
        (λ l. Lineage.acknowledge_authorized l session connection cursor)
        (λ l w. acknowledge_authorized-Keeps l session connection cursor w) v
  step-IsValidSession a (requires_recovery participant reason) t v =
      on_lineage-IsValidSession a participant (λ l. Lineage.require_full_recovery l reason)
        (λ l w. require_full_recovery-Keeps l reason w) v
  step-IsValidSession a (reconnects session connection participant) t v =
      on_lineage-IsValidSession a participant
        (λ l. Lineage.connection_replaced l session connection)
        (λ l w. connection_replaced-Keeps l session connection w) v
  step-IsValidSession a (evicts participant cursor) t v =
      on_lineage-IsValidSession a participant (λ l. Lineage.evict_retained_state l cursor)
        (λ l w. evict_retained_state-Keeps l cursor w) v

  pub run-IsValidSession :
      (calls : List (Call S D)) (a : AuthorityReplicationSession S D)
      → All IsTyped calls
      → IsValidSession a
      → IsValidSession (run a calls)
  unfolding run
  run-IsValidSession [] a t v = v
  run-IsValidSession (call ∷ calls) a t v =
      run-IsValidSession calls (step a call) t.1 (step-IsValidSession a call t.0 v)

  -- Any history of calls on a new session, with lineages of well-formed budgets, leaves every lineage
  -- valid and keeps every aggregate limit, the room that pending candidates reserve included.
  pub run-new_authority_session-IsValidSession :
      (session : SessionId) (limits : AuthorityAggregateLimits) (calls : List (Call S D))
      → All IsTyped calls
      → IsValidSession (run (new_authority_session session limits) calls)
  run-new_authority_session-IsValidSession session limits calls t =
      run-IsValidSession calls (new_authority_session session limits) t
        (new_authority_session-IsValidSession session limits)
