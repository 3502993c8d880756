-- ===== src/Session/Binding.antt =====
-- session.rs: admission and replacement, and the invariant.
use runen_net.Prelude.{
  ℕ, ◌≤◌, ◌<◌, ◌≡◌, refl, true, false, Option, none, some, arith, nat_eq, length, Option-cases, inl,
  inr,
}
use runen_net.Collections.HashMap.{
  Distinct, get-insert, get-remove, insert-Distinct, remove-Distinct, length-insert-le,
  length-insert_present, length-remove-le,
}
use runen_net.Collections.HashMap
use runen_net.Session.State.{
  is_open, Session, MembershipState, bound, unbound, MembershipRecord, membership_state,
}
use runen_net.Identity
use runen_net.Session.Operations.{admitted, admit_new, bind_replacement, rebound}
use runen_net.Collections.HashSet.{contains-insert, length-insert_absent}
use runen_net.Session.Invariant.{IsValid, bind_linked}

abbrev fresh_binding : ℕ → MembershipRecord
fresh_binding c = record { state = bound c; previous_connection = none }

not_member :
    (s : Session) (p : ℕ)
    → IsValid s
    → Identity.contains s.used_participants p ≡ false
    → HashMap.get s.memberships p ≡ none
not_member s p v h = ground (arith, v.known p)

admitted-IsValid :
    (s : Session) (p c : ℕ)
    → IsValid s
    → is_open s.phase ≡ true
    → length s.memberships < s.limits.max_memberships
    → HashMap.get s.bindings c ≡ none
    → Identity.contains s.used_participants p ≡ false
    → length s.used_participants.used < s.used_participants.max_claims
    → IsValid (admitted s p c)
admitted-IsValid s p c v is_opened room free unused claims = record {
  linked = bind_linked s p c (fresh_binding c) v refl free (λ d. rw (not_member s p v unused));
  known = λ j. ground (
    arith,
    get-insert s.memberships p j (fresh_binding c),
    contains-insert s.used_participants.used p j,
    v.known j,
  );
  pending = λ j. ground (arith, get-insert s.memberships p j (fresh_binding c), v.pending j);
  distinct = insert-Distinct s.memberships p _ v.distinct;
  members_fit = omega (arith, length-insert-le s.memberships p (fresh_binding c));
  claims_fit = omega (arith, length-insert_absent s.used_participants.used p unused, v.claim_limit);
  claim_limit = v.claim_limit;
  emptied = λ shut. absurd (ground arith);
}

pub admit_new_cases :
    (P : Session → Type 0) (s : Session) (p c : ℕ)
    → P s
    → (is_open s.phase ≡ true
        → length s.memberships < s.limits.max_memberships
        → HashMap.get s.bindings c ≡ none
        → Identity.contains s.used_participants p ≡ false
        → length s.used_participants.used < s.used_participants.max_claims
        → P (admitted s p c))
    → P (admit_new s p c).0
unfolding admit_new Identity.claim
admit_new_cases P s p c same changed = ground arith

pub admit_new-IsValid : (s : Session) (p c : ℕ) → IsValid s → IsValid (admit_new s p c).0
admit_new-IsValid s p c v = admit_new_cases IsValid s p c v (admitted-IsValid s p c v)

rebound-IsValid :
    (s : Session) (p c t : ℕ)
    → IsValid s
    → is_open s.phase ≡ true
    → HashMap.get s.bindings c ≡ none
    → membership_state s p ≡ some (unbound t)
    → IsValid (rebound s p c)
rebound-IsValid s p c t v is_opened free e = record {
  linked = bind_linked s p c (fresh_binding c) v refl free (λ d. rw e);
  known = λ j. ground (arith, get-insert s.memberships p j (fresh_binding c), v.known j, v.known p);
  pending = λ j. ground (arith, get-insert s.memberships p j (fresh_binding c), v.pending j);
  distinct = insert-Distinct s.memberships p _ v.distinct;
  members_fit = kept (HashMap.get s.memberships p) refl;
  claims_fit = v.claims_fit;
  claim_limit = v.claim_limit;
  emptied = λ shut. absurd (ground arith);
}
  where
    kept :
        (o : Option MembershipRecord)
        → HashMap.get s.memberships p ≡ o
        → length (HashMap.insert s.memberships p (fresh_binding c)) ≤ s.limits.max_memberships
    kept none h = absurd (ground arith)
    kept (some r) h =
        omega (arith, length-insert_present s.memberships p (fresh_binding c) r h, v.members_fit)

-- The expiry check of `bind_replacement` never fires in a valid session.
pub bind_replacement_cases :
    (P : Session → Type 0) (s : Session) (p c : ℕ)
    → IsValid s
    → P s
    → ((t : ℕ)
        → is_open s.phase ≡ true
        → HashMap.get s.bindings c ≡ none
        → membership_state s p ≡ some (unbound t)
        → P (rebound s p c))
    → P (bind_replacement s p c).0
unfolding bind_replacement
bind_replacement_cases P s p c v same changed = elim (Option-cases (HashMap.get s.memberships p)) [
  | inl e ↦ ground arith
  | inr (r, e) ↦ by_state r r.state e refl
]
  where
    by_state :
        (r : MembershipRecord) (m : MembershipState)
        → HashMap.get s.memberships p ≡ some r
        → r.state ≡ m
        → P (bind_replacement s p c).0
    by_state r (bound d) e q = ground arith
    by_state r (unbound t) e q = ground (arith, changed t, v.pending p)

pub bind_replacement-IsValid :
    (s : Session) (p c : ℕ) → IsValid s → IsValid (bind_replacement s p c).0
bind_replacement-IsValid s p c v =
    bind_replacement_cases IsValid s p c v v (λ t. rebound-IsValid s p c t v)
