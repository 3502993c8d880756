-- ===== src/Session/Operations.antt =====
-- crates/runen-net/src/session.rs: the methods that take `&mut self`. Each returns the new state
-- beside its result, so that what an error path leaves behind is part of the model.
use runen_net.Prelude.{
  Bool, false, none, some, List, [], ◌∷◌, if◌then◌else◌, ltb, leb, nat_eq, length, Result, ok, err,
  not, ◌||◌, checked_add,
}
use runen_net.Collections.HashMap.{HashMap}
use runen_net.Collections.HashMap
use runen_net.Collections.HashSet
use runen_net.Collections.Sort.{sort_ids}
use runen_net.Identity.{
  ParticipantId, ConnectionHandle, IncarnationClaimError, already_used, capacity_exceeded,
}
use runen_net.Identity
use runen_net.Session.State.{
  closed, is_open, RecoveryTime, MembershipState, bound, unbound, RetentionPolicy, terminate,
  retain_for_recovery, ConnectionLossOutcome, terminated, retained, SessionError, session_closed,
  participant_id_already_used, participant_incarnation_limit_exceeded, membership_limit_exceeded,
  connection_already_bound, participant_not_found, binding_mismatch, membership_not_unbound,
  membership_expired, previous_connection_cannot_replace_itself, recovery_clock_regression,
  recovery_expiry_overflow, MembershipRecord, Session, membership_state, holds, is_bound_to,
  is_authorized,
}

-- `require_open()?` in front of the rest of a method.
abbrev pub when_open {ℓ} :
    {A : Type ℓ} → Session → Session × Result A SessionError → Session × Result A SessionError
when_open s rest = if is_open s.phase then rest else (s, err session_closed)

abbrev pub map_participant_claim_error : IncarnationClaimError → SessionError
map_participant_claim_error already_used = participant_id_already_used
map_participant_claim_error capacity_exceeded = participant_incarnation_limit_exceeded

-- `EstablishedNegotiation` enters by its connection alone: that is all that a session reads of it.
unfoldable pub admit_new :
    Session → ParticipantId → ConnectionHandle → Session × Result (Unit {0}) SessionError
admit_new s participant connection = when_open s (
    if leb s.limits.max_memberships (length s.memberships)
    then (s, err membership_limit_exceeded)
    else if HashMap.contains_key s.bindings connection
    then (s, err connection_already_bound)
    else if Identity.contains s.used_participants participant
    then (s, err participant_id_already_used)
    else elim (Identity.claim s.used_participants participant) [
      | err e ↦ (s, err (map_participant_claim_error e))
      | ok used ↦ (
        record s {
          used_participants = used;
          bindings = HashMap.insert s.bindings connection participant;
          memberships =
              HashMap.insert s.memberships participant
                (record { state = bound connection; previous_connection = none });
        },
        ok tt,
      )
    ])

unfoldable pub lose :
    Session
    → ParticipantId
    → ConnectionHandle
    → RetentionPolicy
    → Session × Result ConnectionLossOutcome SessionError
lose s participant connection terminate = (
  record s {
    bindings = HashMap.remove s.bindings connection;
    memberships = HashMap.remove s.memberships participant;
  },
  ok terminated,
)
lose s participant connection (retain_for_recovery duration) =
    elim (checked_add s.recovery_clock duration) [
      | none ↦ (s, err recovery_expiry_overflow)
      | some expires_at ↦ (
        record s {
          bindings = HashMap.remove s.bindings connection;
          memberships =
              HashMap.insert s.memberships participant
                (record { state = unbound expires_at; previous_connection = some connection });
        },
        ok (retained expires_at),
      )
    ]

unfoldable pub connection_lost :
    Session
    → ParticipantId
    → ConnectionHandle
    → RetentionPolicy
    → Session × Result ConnectionLossOutcome SessionError
unfolding lose is_authorized
connection_lost s participant connection policy =
    when_open s (elim (membership_state s participant) [
      | none ↦ (s, err participant_not_found)
      | some state ↦
          if not (is_bound_to state connection) || not (is_authorized s participant connection)
          then (s, err binding_mismatch)
          else lose s participant connection policy
    ])

unfoldable pub rebind :
    Session
    → ParticipantId
    → ConnectionHandle
    → MembershipRecord
    → MembershipState
    → Session × Result (Unit {0}) SessionError
rebind s participant connection r (bound c) = (s, err membership_not_unbound)
rebind s participant connection r (unbound expires_at) =
    if leb expires_at s.recovery_clock
    then (
      record s { memberships = HashMap.remove s.memberships participant },
      err membership_expired,
    )
    else if holds r.previous_connection connection
    then (s, err previous_connection_cannot_replace_itself)
    else (
      record s {
        bindings = HashMap.insert s.bindings connection participant;
        memberships =
            HashMap.insert s.memberships participant
              (record { state = bound connection; previous_connection = none });
      },
      ok tt,
    )

unfoldable pub bind_replacement :
    Session → ParticipantId → ConnectionHandle → Session × Result (Unit {0}) SessionError
unfolding rebind
bind_replacement s participant connection = when_open s (
    if HashMap.contains_key s.bindings connection
    then (s, err connection_already_bound)
    else elim (HashMap.get s.memberships participant) [
      | none ↦ (s, err participant_not_found)
      | some r ↦ rebind s participant connection r r.state
    ])

abbrev pub unbind :
    HashMap ConnectionHandle ParticipantId
    → MembershipState
    → HashMap ConnectionHandle ParticipantId
unbind bindings (bound connection) = HashMap.remove bindings connection
unbind bindings (unbound t) = bindings

unfoldable pub remove_participant :
    Session → ParticipantId → Session × Result MembershipState SessionError
remove_participant s participant = when_open s (elim (HashMap.get s.memberships participant) [
  | none ↦ (s, err participant_not_found)
  | some r ↦ (
    record s {
      memberships = HashMap.remove s.memberships participant;
      bindings = unbind s.bindings r.state;
    },
    ok r.state,
  )
])

-- The pattern of the `filter_map`.
abbrev pub has_expired : RecoveryTime → MembershipState → Bool
has_expired now (bound c) = false
has_expired now (unbound expires_at) = leb expires_at now

unfoldable pub expired_participants :
    RecoveryTime → HashMap ParticipantId MembershipRecord → List ParticipantId
expired_participants now [] = []
expired_participants now ((p, r) ∷ m) =
    let rest = expired_participants now m in if has_expired now r.state then p ∷ rest else rest

-- The loop that removes each expired participant.
unfoldable pub remove_all :
    HashMap ParticipantId MembershipRecord
    → List ParticipantId
    → HashMap ParticipantId MembershipRecord
remove_all m [] = m
remove_all m (p ∷ ps) = remove_all (HashMap.remove m p) ps

unfoldable pub advance_recovery_clock :
    Session → RecoveryTime → Session × Result (List ParticipantId) SessionError
advance_recovery_clock s new_value = when_open s (
    if ltb new_value s.recovery_clock
    then (s, err recovery_clock_regression)
    else let expired = sort_ids (expired_participants new_value s.memberships) in
      (
        record s { recovery_clock = new_value; memberships = remove_all s.memberships expired },
        ok expired,
      ))

unfoldable pub close : Session → Session
close s = record s { phase = closed; bindings = []; memberships = [] }

-- The states that the successful branches leave, under names.
abbrev pub admitted : Session → ParticipantId → ConnectionHandle → Session
admitted s participant connection = record s {
  used_participants = record s.used_participants {
    used = HashSet.insert s.used_participants.used participant;
  };
  bindings = HashMap.insert s.bindings connection participant;
  memberships =
      HashMap.insert s.memberships participant
        (record { state = bound connection; previous_connection = none });
}

abbrev pub terminated_state : Session → ParticipantId → ConnectionHandle → Session
terminated_state s participant connection = record s {
  bindings = HashMap.remove s.bindings connection;
  memberships = HashMap.remove s.memberships participant;
}

abbrev pub retained_state : Session → ParticipantId → ConnectionHandle → RecoveryTime → Session
retained_state s participant connection expires_at = record s {
  bindings = HashMap.remove s.bindings connection;
  memberships =
      HashMap.insert s.memberships participant
        (record { state = unbound expires_at; previous_connection = some connection });
}

abbrev pub rebound : Session → ParticipantId → ConnectionHandle → Session
rebound s participant connection = record s {
  bindings = HashMap.insert s.bindings connection participant;
  memberships =
      HashMap.insert s.memberships participant
        (record { state = bound connection; previous_connection = none });
}

abbrev pub removed : Session → ParticipantId → MembershipState → Session
removed s participant state = record s {
  memberships = HashMap.remove s.memberships participant;
  bindings = unbind s.bindings state;
}

abbrev pub advanced : Session → RecoveryTime → Session
advanced s now = record s {
  recovery_clock = now;
  memberships = remove_all s.memberships (sort_ids (expired_participants now s.memberships));
}
