-- ===== src/Session/Authorization.antt =====
-- session.rs: who may be bound again, and on which connection.
use runen_net.Prelude.{
  ℕ, ◌≡◌, refl, sym, ap, ◌∙◌, Bool, true, false, Option, none, some, arith, nat_eq, Result, ok, err,
  if◌then◌else◌, Option-cases, inl, inr,
}
use runen_net.Collections.HashMap.{HashMap, Distinct, get-insert, get-remove}
use runen_net.Collections.HashMap
use runen_net.Session.State.{
  is_open, Session, MembershipState, bound, unbound, MembershipRecord, holds, SessionError,
  participant_not_found, membership_not_unbound, previous_connection_cannot_replace_itself,
}
use runen_net.Session.Operations.{bind_replacement}
use runen_net.Session.Invariant.{IsValid}

-- The table of `bind_replacement`'s answers in a valid session, over the membership that it finds.
-- It has no row for an expired membership.
abbrev pub holds_unbound : MembershipState → Bool
holds_unbound (bound c) = false
holds_unbound (unbound t) = true

abbrev pub rebind_answer : Option MembershipRecord → ℕ → Result (Unit {0}) SessionError
rebind_answer none c = err participant_not_found
rebind_answer (some r) c =
    if holds_unbound r.state
    then (if holds r.previous_connection c
        then err previous_connection_cannot_replace_itself
        else ok tt)
    else err membership_not_unbound

rebind_table :
    (s : Session) (p c : ℕ) (r : MembershipRecord) (m : MembershipState)
    → IsValid s
    → is_open s.phase ≡ true
    → HashMap.get s.bindings c ≡ none
    → HashMap.get s.memberships p ≡ some r
    → r.state ≡ m
    → (bind_replacement s p c).1 ≡ rebind_answer (some r) c
unfolding bind_replacement
rebind_table s p c r (bound d) v o free e q = ground arith
rebind_table s p c r (unbound t) v o free e q = ground (arith, v.pending p)

-- In a valid open session, on a connection that is not bound, `bind_replacement` answers
-- `ParticipantNotFound` for a participant with no membership, `MembershipNotUnbound` for a bound
-- one, `PreviousConnectionCannotReplaceItself` on the connection that the participant lost, and
-- success otherwise; `MembershipExpired` is never its answer.
pub bind_replacement-answer :
    (s : Session) (p c : ℕ)
    → IsValid s
    → is_open s.phase ≡ true
    → HashMap.get s.bindings c ≡ none
    → (bind_replacement s p c).1 ≡ rebind_answer (HashMap.get s.memberships p) c
bind_replacement-answer s p c v o free = elim (Option-cases (HashMap.get s.memberships p)) [
  | inl e ↦ rw e (unfold bind_replacement in ground arith)
  | inr (r, e) ↦ rebind_table s p c r r.state v o free e refl ∙ ap (λ x. rebind_answer x c) (sym e)
]
