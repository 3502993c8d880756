-- ===== src/Session/State.antt =====
-- crates/runen-net/src/session.rs: participant membership, connection binding and recovery.
-- The types, the queries and the constructors.
use runen_net.Prelude.{
  ℕ, suc, Bool, true, false, Option, none, some, [], ◌∷◌, if◌then◌else◌, ltb, ◌==◌, nat_eq, length,
  Result, ok, err, ◌&&◌,
}
use runen_net.Collections.HashMap.{HashMap}
use runen_net.Collections.HashMap
use runen_net.Identity.{SessionId, ParticipantId, ConnectionHandle, IncarnationRegistry}

pub data SessionPhase : Type 0 where
  opened closed : SessionPhase

pub record SessionLimits : Type 0 where
  pub max_participant_incarnations : ℕ
  pub max_memberships : ℕ

pub data SessionLimitError : Type 0 where
  memberships_exceed_participant_incarnations : SessionLimitError

-- `SessionLimits::new`.
unfoldable pub new_limits : ℕ → ℕ → Result SessionLimits SessionLimitError
new_limits max_participant_incarnations max_memberships =
    if ltb max_participant_incarnations max_memberships
    then err memberships_exceed_participant_incarnations
    else ok (record {
      max_participant_incarnations = max_participant_incarnations;
      max_memberships = max_memberships;
    })

-- A position on the host's recovery clock, and a span on it.
abbrev pub RecoveryTime : Type 0
RecoveryTime = ℕ

abbrev pub RecoveryDuration : Type 0
RecoveryDuration = ℕ

pub data MembershipState : Type 0 where
  bound : ConnectionHandle → MembershipState
  unbound : (expires_at : RecoveryTime) → MembershipState

pub data RetentionPolicy : Type 0 where
  terminate : RetentionPolicy
  retain_for_recovery : (duration : RecoveryDuration) → RetentionPolicy

pub data ConnectionLossOutcome : Type 0 where
  terminated : ConnectionLossOutcome
  retained : (expires_at : RecoveryTime) → ConnectionLossOutcome

pub data SessionError : Type 0 where
  session_closed participant_id_already_used participant_incarnation_limit_exceeded : SessionError
  membership_limit_exceeded connection_already_bound participant_not_found : SessionError
  binding_mismatch membership_not_unbound membership_expired : SessionError
  previous_connection_cannot_replace_itself recovery_clock_regression : SessionError
  recovery_expiry_overflow : SessionError

pub record MembershipRecord : Type 0 where
  pub state : MembershipState
  pub previous_connection : Option ConnectionHandle

pub record Session : Type 0 where
  pub id : SessionId
  pub phase : SessionPhase
  pub limits : SessionLimits
  pub recovery_clock : RecoveryTime
  pub used_participants : IncarnationRegistry ParticipantId
  pub memberships : HashMap ParticipantId MembershipRecord
  pub bindings : HashMap ConnectionHandle ParticipantId

unfoldable pub new : SessionId → SessionLimits → Session
new id limits = record {
  id = id;
  phase = opened;
  limits = limits;
  recovery_clock = 0;
  used_participants = record { max_claims = limits.max_participant_incarnations; used = [] };
  memberships = [];
  bindings = [];
}

abbrev pub live_memberships : Session → ℕ
live_memberships s = length s.memberships

abbrev pub is_unbound : MembershipState → Bool
is_unbound (bound c) = false
is_unbound (unbound t) = true

count_unbound : HashMap ParticipantId MembershipRecord → ℕ
count_unbound [] = 0
count_unbound ((p, r) ∷ m) = if is_unbound r.state then suc (count_unbound m) else count_unbound m

unfoldable pub retained_memberships : Session → ℕ
unfolding count_unbound
retained_memberships s = count_unbound s.memberships

abbrev pub state_of : Option MembershipRecord → Option MembershipState
state_of none = none
state_of (some r) = some r.state

abbrev pub membership_state : Session → ParticipantId → Option MembershipState
membership_state s participant = state_of (HashMap.get s.memberships participant)

abbrev pub participant_for_connection : Session → ConnectionHandle → Option ParticipantId
participant_for_connection s connection = HashMap.get s.bindings connection

-- `o == Some(a)` on identities.
abbrev pub holds : Option ℕ → ℕ → Bool
holds none a = false
holds (some b) a = b == a

-- `state == MembershipState::Bound(connection)`.
abbrev pub is_bound_to : MembershipState → ConnectionHandle → Bool
is_bound_to (bound c) connection = c == connection
is_bound_to (unbound t) connection = false

-- `o == Some(MembershipState::Bound(connection))`.
abbrev pub holds_bound_to : Option MembershipState → ConnectionHandle → Bool
holds_bound_to none connection = false
holds_bound_to (some m) connection = is_bound_to m connection

unfoldable pub is_authorized : Session → ParticipantId → ConnectionHandle → Bool
is_authorized s participant connection =
    holds (HashMap.get s.bindings connection) participant
    && holds_bound_to (membership_state s participant) connection

-- `self.phase == SessionPhase::Open`.
abbrev pub is_open : SessionPhase → Bool
is_open opened = true
is_open closed = false
