-- ===== src/Session/Invariant.antt =====
-- session.rs: the invariant of a session.
use runen_net.Prelude.{
  ℕ, ◌≤◌, ◌≡◌, Bool, true, false, Option, none, some, [], arith, ltb, ◌==◌, nat_eq, length, is_some,
  if◌then◌else◌,
}
use runen_net.Collections.HashMap.{
  Distinct, get-insert, get-remove, insert-Distinct, remove-Distinct, length-insert-le,
  length-insert_present, length-remove-le,
}
use runen_net.Collections.HashMap
use runen_net.Session.State.{
  is_open, Session, MembershipState, bound, unbound, MembershipRecord, holds, holds_bound_to,
  state_of, membership_state,
}
use runen_net.Identity

-- A retained membership that is still open to recovery.
abbrev pub is_pending : ℕ → Option MembershipState → Bool
is_pending clock none = true
is_pending clock (some (bound c)) = true
is_pending clock (some (unbound expires_at)) = ltb clock expires_at

pub record IsValid (s : Session) : Type 0 where
  pub linked :
      (p c : ℕ) → holds_bound_to (membership_state s p) c ≡ holds (HashMap.get s.bindings c) p
  pub known :
      (p : ℕ)
      → is_some (HashMap.get s.memberships p) ≡ true
      → Identity.contains s.used_participants p ≡ true
  pub pending : (p : ℕ) → is_pending s.recovery_clock (membership_state s p) ≡ true
  pub distinct : Distinct s.memberships
  pub members_fit : length s.memberships ≤ s.limits.max_memberships
  pub claims_fit : length s.used_participants.used ≤ s.limits.max_participant_incarnations
  pub claim_limit : s.used_participants.max_claims ≡ s.limits.max_participant_incarnations
  pub emptied : is_open s.phase ≡ false → (s.memberships ≡ []) × (s.bindings ≡ [])

-- Binding an unbound participant to a free connection.
pub bind_linked :
    (s : Session) (p c : ℕ) (r : MembershipRecord)
    → IsValid s
    → r.state ≡ bound c
    → HashMap.get s.bindings c ≡ none
    → ((d : ℕ) → holds_bound_to (membership_state s p) d ≡ false)
    → (j d : ℕ)
    → holds_bound_to (state_of (HashMap.get (HashMap.insert s.memberships p r) j)) d
      ≡ holds (HashMap.get (HashMap.insert s.bindings c p) d) j
bind_linked s p c r v e h none_bound j d = ground (
  arith,
  get-insert s.memberships p j r,
  get-insert s.bindings c d p,
  v.linked j d,
  v.linked j c,
  v.linked p d,
  none_bound d,
)

-- A bound participant loses its binding, and its record becomes `after`.
pub unlink :
    (s : Session) (p c : ℕ) (after : Option MembershipState)
    → IsValid s
    → membership_state s p ≡ some (bound c)
    → ((d : ℕ) → holds_bound_to after d ≡ false)
    → (j d : ℕ)
    → holds_bound_to (if p == j then after else membership_state s j) d
      ≡ holds (HashMap.get (HashMap.remove s.bindings c) d) j
unlink s p c after v e not_bound j d = ground (
  arith,
  get-remove s.bindings c d,
  v.linked j d,
  v.linked j c,
  v.linked p d,
  v.linked p c,
  not_bound d,
)
