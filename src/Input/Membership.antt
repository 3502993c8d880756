-- ===== src/Input/Membership.antt =====
-- input/authority.rs: the removal of participants that have left the session.
use runen_net.Prelude.{
  List, ℕ, not, Option, none, some, [], ◌∷◌, if◌then◌else◌, nat_eq, length, Result, ok, err,
  checked_add, checked_sub, is_some,
}
use runen_net.Identity.{ParticipantId}
use runen_net.Collections.HashMap.{HashMap}
use runen_net.Collections.HashMap
use runen_net.Collections.Sort.{sort_ids}
use runen_net.Session.State.{Session, membership_state}
use runen_net.Input.Authority.{
  ParticipantInputState, AuthorityInputError, AuthorityInputSession, is_session, session_mismatch,
  accounting_overflow, accounting_invariant_violation,
}

-- The configured participants that the session no longer knows.
unfoldable pub absent_participants :
    {I : Type 0} → Session → HashMap ParticipantId (ParticipantInputState I) → List ParticipantId
absent_participants session [] = []
absent_participants session ((p, state) ∷ m) =
    let rest = absent_participants session m in
    if is_some (membership_state session p) then rest else p ∷ rest

-- The loop that counts what their removal frees; `none` is a panic.
unfoldable pub count_participants :
    {I : Type 0}
    → HashMap ParticipantId (ParticipantInputState I)
    → List ParticipantId
    → ℕ
    → ℕ
    → Option (Result (ℕ × ℕ) AuthorityInputError)
count_participants m [] keys bytes = some (ok (keys, bytes))
count_participants m (p ∷ ps) keys bytes = elim (HashMap.get m p) [
  | none ↦ none
  | some state ↦ elim (checked_add keys (length state.retained)) [
    | none ↦ some (err accounting_overflow)
    | some keys' ↦ elim (checked_add bytes state.retained_bytes) [
      | none ↦ some (err accounting_overflow)
      | some bytes' ↦ count_participants m ps keys' bytes'
    ]
  ]
]

unfoldable pub remove_participants :
    {I : Type 0}
    → HashMap ParticipantId (ParticipantInputState I)
    → List ParticipantId
    → HashMap ParticipantId (ParticipantInputState I)
remove_participants m [] = m
remove_participants m (p ∷ ps) = remove_participants (HashMap.remove m p) ps

-- The end of `reconcile_memberships`, once the removal was counted.
unfoldable pub drop_participants :
    {I : Type 0}
    → AuthorityInputSession I
    → List ParticipantId
    → ℕ
    → ℕ
    → AuthorityInputSession I × Result (List ParticipantId) AuthorityInputError
drop_participants a removed keys bytes = elim (checked_sub a.retained_keys keys) [
  | none ↦ (a, err accounting_invariant_violation)
  | some next_keys ↦ elim (checked_sub a.retained_bytes bytes) [
    | none ↦ (a, err accounting_invariant_violation)
    | some next_bytes ↦ (
      record a {
        participants = remove_participants a.participants removed;
        retained_keys = next_keys;
        retained_bytes = next_bytes;
      },
      ok removed,
    )
  ]
]

unfoldable pub reconcile_memberships :
    {I : Type 0}
    → AuthorityInputSession I
    → Session
    → Option (AuthorityInputSession I × Result (List ParticipantId) AuthorityInputError)
unfolding drop_participants
reconcile_memberships a session =
    if not (is_session a session)
    then some (a, err session_mismatch)
    else let removed = sort_ids (absent_participants session a.participants) in
      elim (count_participants a.participants removed 0 0) [
        | none ↦ none
        | some (err e) ↦ some (a, err e)
        | some (ok (keys, bytes)) ↦ some (drop_participants a removed keys bytes)
      ]
