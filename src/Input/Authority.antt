-- ===== src/Input/Authority.antt =====
-- input/authority.rs: the inputs that an authority retains for each participant of a session.
use runen_net.Prelude.{
  ℕ, ◌+◌, Bool, true, not, ◌||◌, Option, none, some, [], ◌∷◌, if◌then◌else◌, ltb, leb, Eq, ◌==◌,
  nat_eq, length, Result, ok, err, checked_add, checked_sub, is_some,
}
use runen_net.Identity.{SessionId, ParticipantId, ConnectionHandle, SimulationTick}
use runen_net.Collections.HashMap.{HashMap}
use runen_net.Collections.HashMap
use runen_net.Collections.BTreeMap.{BTreeMap}
use runen_net.Collections.BTreeMap
use runen_net.Session.State.{Session, membership_state, is_authorized}
use runen_net.Input.Model.{
  InputWindow, span, AuthorityInputLimits, AuthorityInputAggregateLimits, AuthorityInputOutcome,
  input_accepted, duplicate_input, conflicting_input, stale_input, future_input_outside_window,
  input_resource_rejected, unauthorized_input,
}

pub record RetainedInput (I : Type 0) : Type 0 where
  pub value : I
  pub accounted_bytes : ℕ

pub record ParticipantInputState (I : Type 0) : Type 0 where
  pub limits : AuthorityInputLimits
  pub window : InputWindow
  pub retained : BTreeMap (RetainedInput I)
  pub retained_bytes : ℕ

pub data AuthorityInputError : Type 0 where
  session_mismatch participant_already_configured participant_not_configured : AuthorityInputError
  participant_not_live window_minimum_regression window_maximum_regression : AuthorityInputError
  window_exceeds_future_horizon accounting_overflow accounting_invariant_violation :
      AuthorityInputError

pub record AuthorityInputSession (I : Type 0) : Type 0 where
  pub session : SessionId
  pub limits : AuthorityInputAggregateLimits
  pub participants : HashMap ParticipantId (ParticipantInputState I)
  pub retained_keys : ℕ
  pub retained_bytes : ℕ

module _ {I : Type 0} where
  unfoldable pub new_participant : AuthorityInputLimits → InputWindow → ParticipantInputState I
  new_participant limits window = record {
    limits = limits;
    window = window;
    retained = [];
    retained_bytes = 0;
  }

  unfoldable pub new_input_session :
      SessionId → AuthorityInputAggregateLimits → AuthorityInputSession I
  new_input_session session limits = record {
    session = session;
    limits = limits;
    participants = [];
    retained_keys = 0;
    retained_bytes = 0;
  }

  abbrev pub input_bytes : RetainedInput I → ℕ
  input_bytes r = r.accounted_bytes

  abbrev pub is_session : AuthorityInputSession I → Session → Bool
  is_session a session = session.id == a.session

  unfoldable pub add_participant :
      AuthorityInputSession I
      → Session
      → ParticipantId
      → InputWindow
      → AuthorityInputLimits
      → AuthorityInputSession I × Result (Unit {0}) AuthorityInputError
  add_participant a session participant window limits =
      if not (is_session a session)
      then (a, err session_mismatch)
      else if not (is_some (membership_state session participant))
      then (a, err participant_not_live)
      else if HashMap.contains_key a.participants participant
      then (a, err participant_already_configured)
      else if ltb limits.max_future_tick_distance (span window)
      then (a, err window_exceeds_future_horizon)
      else (
        record a {
          participants = HashMap.insert a.participants participant (new_participant limits window);
        },
        ok tt,
      )

  -- The loop that counts what is removed; `none` is an overflow.
  unfoldable pub count_removed : BTreeMap (RetainedInput I) → ℕ → ℕ → Option (ℕ × ℕ)
  count_removed [] keys bytes = some (keys, bytes)
  count_removed ((tick, r) ∷ m) keys bytes = elim (checked_add keys 1) [
    | none ↦ none
    | some keys' ↦ elim (checked_add bytes r.accounted_bytes) [
      | none ↦ none
      | some bytes' ↦ count_removed m keys' bytes'
    ]
  ]

  unfoldable pub advance_window :
      AuthorityInputSession I
      → ParticipantId
      → InputWindow
      → AuthorityInputSession I × Result (Unit {0}) AuthorityInputError
  advance_window a participant next = elim (HashMap.get a.participants participant) [
    | none ↦ (a, err participant_not_configured)
    | some state ↦
        if ltb next.minimum state.window.minimum
        then (a, err window_minimum_regression)
        else if ltb next.maximum state.window.maximum
        then (a, err window_maximum_regression)
        else if ltb state.limits.max_future_tick_distance (span next)
        then (a, err window_exceeds_future_horizon)
        else elim (count_removed (BTreeMap.range_below state.retained next.minimum) 0 0) [
          | none ↦ (a, err accounting_overflow)
          | some (keys, bytes) ↦ elim (checked_sub state.retained_bytes bytes) [
            | none ↦ (a, err accounting_invariant_violation)
            | some participant_bytes ↦ elim (checked_sub a.retained_keys keys) [
              | none ↦ (a, err accounting_invariant_violation)
              | some all_keys ↦ elim (checked_sub a.retained_bytes bytes) [
                | none ↦ (a, err accounting_invariant_violation)
                | some all_bytes ↦ (
                  record a {
                    participants = HashMap.insert a.participants participant (record state {
                      window = next;
                      retained = BTreeMap.split_off state.retained next.minimum;
                      retained_bytes = participant_bytes;
                    });
                    retained_keys = all_keys;
                    retained_bytes = all_bytes;
                  },
                  ok tt,
                )
              ]
            ]
          ]
        ]
  ]

abbrev pub exceeds : Option ℕ → ℕ → Bool
exceeds none limit = true
exceeds (some n) limit = ltb limit n

module _ {I : Type 0} ⦃e : Eq I⦄ where
  unfoldable pub submit :
      AuthorityInputSession I
      → Session
      → ParticipantId
      → ConnectionHandle
      → SimulationTick
      → I
      → ℕ
      → AuthorityInputSession I × Result AuthorityInputOutcome AuthorityInputError
  submit a session participant connection target_tick input bytes =
      if not (is_session a session)
      then (a, err session_mismatch)
      else if not (is_authorized session participant connection)
      then (a, ok unauthorized_input)
      else elim (HashMap.get a.participants participant) [
        | none ↦ (a, err participant_not_configured)
        | some state ↦
            if ltb target_tick state.window.minimum
            then (a, ok stale_input)
            else elim (BTreeMap.get state.retained target_tick) [
              | some retained ↦
                  (a, ok (if retained.value == input then duplicate_input else conflicting_input))
              | none ↦
                  if ltb state.window.maximum target_tick
                  then (a, ok future_input_outside_window)
                  else if ltb state.limits.max_batch_bytes bytes
                      || leb state.limits.max_retained_keys_per_participant (length state.retained)
                      || leb a.limits.max_retained_keys a.retained_keys
                  then (a, ok input_resource_rejected)
                  else if exceeds (checked_add state.retained_bytes bytes)
                        state.limits.max_retained_bytes_per_participant
                      || exceeds (checked_add a.retained_keys 1) a.limits.max_retained_keys
                      || exceeds (checked_add a.retained_bytes bytes) a.limits.max_retained_bytes
                  then (a, ok input_resource_rejected)
                  else (
                    record a {
                      participants = HashMap.insert a.participants participant (record state {
                        retained =
                            BTreeMap.insert state.retained target_tick
                              (record { value = input; accounted_bytes = bytes });
                        retained_bytes = state.retained_bytes + bytes;
                      });
                      retained_keys = a.retained_keys + 1;
                      retained_bytes = a.retained_bytes + bytes;
                    },
                    ok input_accepted,
                  )
            ]
      ]
