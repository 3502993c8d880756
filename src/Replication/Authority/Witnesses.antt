-- ===== src/Replication/Authority/Witnesses.antt =====
-- replication/authority.rs: the theorems on lineages and sessions, at concrete ones. States and
-- deltas are numbers.
use runen_net.Prelude.{ℕ, ◌≡◌, refl, true, none, some, List, [], ◌∷◌, arith, nat_eq}
use runen_net.Collections.HashMap
use runen_net.Collections.BTreeMap
use runen_net.Session.State.{Session, opened, bound, is_authorized}
use runen_net.Delivery.{accepted}
use runen_net.Replication.Model.{
  ReplicationLineageKey, AccountedState, ReplicationRetentionLimits, AuthorityAggregateLimits,
  FullSnapshot,
}
use runen_net.Replication.Authority.Types.{
  AuthorityLineage, SnapshotCandidate, initial_baseline, new_authority_lineage,
}
use runen_net.Replication.Authority.Guards.{evict_until, drop_oldest}
use runen_net.Replication.Authority.Lineage.{
  prepare_full, record_delivery_acceptance, emit, record_emitted_state, retain_emission_evidence,
  retain_authority_state, acknowledge_authorized, confirm, is_own_authorized,
}
use runen_net.Replication.Authority.Sessions.{new_authority_session}
use runen_net.Replication.Authority.Validity.{IsValid, new_authority_lineage-IsValid}
use runen_net.Replication.Authority.Pending.{prepared-IsValid, record_delivery_acceptance-Keeps}
use runen_net.Replication.Authority.Reservation.{IsValidSession}
use runen_net.Replication.Authority.History.{
  Call, adds, prepares_full, prepares_delta, delivers, acknowledges, run,
  run-new_authority_session-IsValidSession,
}
use runen_net.Replication.Authority.Completion.{
  IsCompleted, IsRecoveryFull, recovery_completes, acknowledge_authorized-IsRecoveryFull,
}

-- Participant 1 on connection 10.
abbrev one_bound : Session
one_bound = record {
  id = 7;
  phase = opened;
  limits = record { max_participant_incarnations = 4; max_memberships = 2 };
  recovery_clock = 0;
  used_participants = record { max_claims = 4; used = 1 ∷ [] };
  memberships = (1, record { state = bound 10; previous_connection = none }) ∷ [];
  bindings = (10, 1) ∷ [];
}

abbrev retention : ReplicationRetentionLimits
retention = record {
  max_state_image_bytes = 20;
  max_retained_images_per_lineage = 2;
  max_retained_state_bytes_per_lineage = 30;
  max_candidate_bytes_per_lineage = 25;
  max_emission_evidence_per_lineage = 4;
}

abbrev limits : AuthorityAggregateLimits
limits = record {
  max_lineages = 2;
  max_state_bytes = 60;
  max_retained_images = 3;
  max_retained_state_bytes = 60;
  max_emission_evidence = 8;
}

abbrev image : ℕ → AccountedState ℕ
image state = record { state = state; accounted_bytes = 10 }

abbrev baseline : FullSnapshot ℕ
baseline = record { target_cursor = 5; target_tick = 2; image = image 41 }

-- A baseline, its confirmation, and a delta.
abbrev calls : List (Call ℕ ℕ)
calls =
    adds 1 retention
    ∷ prepares_full 1 baseline true
    ∷ delivers 1 accepted
    ∷ acknowledges one_bound 10 1 5
    ∷ prepares_delta 1 6 3 (image 42) 1 4
    ∷ delivers 1 accepted
    ∷ []

run-new_authority_session-IsValidSession_example :
    IsValidSession (run (new_authority_session 7 limits) calls)
run-new_authority_session-IsValidSession_example =
    run-new_authority_session-IsValidSession 7 limits calls
      ((omega arith, omega arith, omega arith, omega arith), (tt, (tt, (tt, (tt, (tt, tt))))))

abbrev key : ReplicationLineageKey
key = record { session = 7; participant = 1 }

abbrev fresh : AuthorityLineage ℕ ℕ
fresh = new_authority_lineage key retention

fresh-IsValid : IsValid fresh
fresh-IsValid =
    new_authority_lineage-IsValid key retention (omega arith) (omega arith) (omega arith)
      (omega arith)

recovery_completes_example :
    IsCompleted
      (acknowledge_authorized
        (record_delivery_acceptance (prepare_full fresh baseline true).0 accepted).0
        one_bound
        10
        5)
      5
unfolding new_authority_lineage HashMap.get is_authorized
recovery_completes_example =
    recovery_completes fresh baseline one_bound 10 0 initial_baseline none fresh-IsValid refl refl
      refl refl refl

-- The same lineage, its baseline sent.
abbrev sent : AuthorityLineage ℕ ℕ
sent =
    (record_delivery_acceptance
      (record fresh { pending = some (SnapshotCandidate.full baseline (some 0)) }) accepted).0

sent-IsValid : IsValid sent
unfolding new_authority_lineage
sent-IsValid =
    (record_delivery_acceptance-Keeps
      (record fresh { pending = some (SnapshotCandidate.full baseline (some 0)) }) accepted
      (prepared-IsValid fresh (SnapshotCandidate.full baseline (some 0)) fresh-IsValid
        (refl, refl, refl))).0

acknowledge_authorized-IsRecoveryFull_example :
    (◌≡◌ {A = ℕ} 5 5) × (is_own_authorized sent one_bound 10 ≡ true) × IsRecoveryFull sent 0 none 5
unfolding new_authority_lineage record_delivery_acceptance emit record_emitted_state
    retain_emission_evidence retain_authority_state evict_until drop_oldest acknowledge_authorized
    confirm HashMap.get BTreeMap.get BTreeMap.insert is_authorized
acknowledge_authorized-IsRecoveryFull_example =
    acknowledge_authorized-IsRecoveryFull sent one_bound 10 5 5 0 initial_baseline none sent-IsValid
      refl refl
