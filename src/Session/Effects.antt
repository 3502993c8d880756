-- ===== src/Session/Effects.antt =====
-- session.rs: how each method changes who is authorized.
use runen_net.Prelude.{
  ℕ, ◌+◌, ◌≡◌, refl, ap, true, false, not, none, some, arith, ◌==◌, nat_eq, ok, ◌||◌, ◌&&◌,
  Option-cases, inl, inr,
}
use runen_net.Collections.HashMap.{HashMap, Distinct, get-insert, get-remove}
use runen_net.Collections.HashMap
use runen_net.Session.State.{
  Session, MembershipState, bound, unbound, MembershipRecord, RetentionPolicy, terminate,
  retain_for_recovery, ConnectionLossOutcome, holds_bound_to, membership_state, is_authorized,
}
use runen_net.Identity
use runen_net.Session.Operations.{admit_new, connection_lost, bind_replacement, rebound}
use runen_net.Session.Invariant.{IsValid}

-- One new authorization, and every other as before.
abbrev pub Gains : Session → Session → ℕ → ℕ → Type 0
Gains s t p c = (q d : ℕ) → is_authorized t q d ≡ (p == q && c == d || is_authorized s q d)

-- One participant's authorization is gone, and every other is as before.
abbrev pub Drops : Session → Session → ℕ → Type 0
Drops s t p = (q d : ℕ) → is_authorized t q d ≡ (not (p == q) && is_authorized s q d)

abbrev taking : ℕ → MembershipRecord
taking c = record { state = bound c; previous_connection = none }

gains :
    (s t : Session) (p c : ℕ)
    → IsValid s
    → HashMap.get s.bindings c ≡ none
    → ((d : ℕ) → holds_bound_to (membership_state s p) d ≡ false)
    → t.bindings ≡ HashMap.insert s.bindings c p
    → t.memberships ≡ HashMap.insert s.memberships p (taking c)
    → Gains s t p c
unfolding is_authorized
gains s t p c v free not_bound e f q d =
    rw (e, f)
      (ground (
        arith,
        get-insert s.memberships p q (taking c),
        get-insert s.bindings c d p,
        v.linked q d,
        v.linked p d,
        not_bound d,
      ))

-- A successful `admit_new` authorizes the participant on the connection, and changes no other
-- authorization.
pub admit_new-Gains :
    (s : Session) (p c : ℕ)
    → IsValid s
    → (admit_new s p c).1 ≡ ok tt
    → Gains s (admit_new s p c).0 p c
unfolding admit_new Identity.claim
admit_new-Gains s p c v e =
    gains s (admit_new s p c).0 p c v (ground arith) (λ d. ground (arith, v.known p)) (ground arith)
      (ground arith)

rebind_ok :
    (s : Session) (p c : ℕ)
    → (bind_replacement s p c).1 ≡ ok tt
    → (t : ℕ) × (membership_state s p ≡ some (unbound t))
      × (HashMap.get s.bindings c ≡ none)
      × ((bind_replacement s p c).0 ≡ rebound s p c)
unfolding bind_replacement
rebind_ok s p c e = elim (Option-cases (HashMap.get s.memberships p)) [
  | inl h ↦ absurd (ground arith)
  | inr (r, h) ↦ by_state r r.state h refl
]
  where
    by_state :
        (r : MembershipRecord) (m : MembershipState)
        → HashMap.get s.memberships p ≡ some r
        → r.state ≡ m
        → (t : ℕ) × (membership_state s p ≡ some (unbound t))
          × (HashMap.get s.bindings c ≡ none)
          × ((bind_replacement s p c).0 ≡ rebound s p c)
    by_state r (bound d) h q = absurd (ground arith)
    by_state r (unbound t) h q = (t, ground arith, ground arith, ground arith)

-- A successful `bind_replacement` authorizes the retained participant on the new connection, and
-- changes no other authorization.
pub bind_replacement-Gains :
    (s : Session) (p c : ℕ)
    → IsValid s
    → (bind_replacement s p c).1 ≡ ok tt
    → Gains s (bind_replacement s p c).0 p c
bind_replacement-Gains s p c v e =
    let (t, waits, free, q) = rebind_ok s p c e in
    gains s (bind_replacement s p c).0 p c v free (λ d. rw waits)
      (ap (λ (x : Session). x.bindings) q) (ap (λ (x : Session). x.memberships) q)

drops :
    (s t : Session) (p c : ℕ)
    → IsValid s
    → is_authorized s p c ≡ true
    → t.bindings ≡ HashMap.remove s.bindings c
    → ((q : ℕ) → (p == q) ≡ false → HashMap.get t.memberships q ≡ HashMap.get s.memberships q)
    → Drops s t p
unfolding is_authorized
drops s t p c v a e same q d = ground (
  arith,
  ap (λ (b : HashMap ℕ ℕ). HashMap.get b d) e,
  get-remove s.bindings c d,
  same q,
  v.linked q d,
  v.linked q c,
  v.linked p d,
  v.linked p c,
)

-- A successful `connection_lost` happens only on the authorized connection, ends the participant's
-- authorization, and changes no other.
pub connection_lost-Drops :
    (s : Session) (p c : ℕ) (policy : RetentionPolicy) (outcome : ConnectionLossOutcome)
    → IsValid s
    → (connection_lost s p c policy).1 ≡ ok outcome
    → (is_authorized s p c ≡ true) × Drops s (connection_lost s p c policy).0 p
unfolding connection_lost
connection_lost-Drops s p c terminate outcome v e = (
  ground arith,
  drops s (connection_lost s p c terminate).0 p c v (ground arith) (ground arith)
      (λ q h. ground (arith, get-remove s.memberships p q)),
)
connection_lost-Drops s p c (retain_for_recovery t) outcome v e = (
  ground arith,
  drops s (connection_lost s p c (retain_for_recovery t)).0 p c v (ground arith) (ground arith)
      (λ q h. ground (
        arith,
        get-insert s.memberships p q
            (record { state = unbound (s.recovery_clock + t); previous_connection = some c }),
      )),
)
