-- ===== src/Session/Ending.antt =====
-- session.rs: the loss and the removal of a membership, and the invariant.
use runen_net.Prelude.{
  ℕ, ◌+◌, ◌≤◌, ◌<◌, ◌≡◌, refl, true, false, Option, none, some, arith, nat_eq, length, IsU64,
  Option-cases, inl, inr,
}
use runen_net.Collections.HashMap.{
  Distinct, get-insert, get-remove, insert-Distinct, remove-Distinct, length-insert-le,
  length-insert_present, length-remove-le,
}
use runen_net.Collections.HashMap
use runen_net.Session.State.{
  is_open, Session, MembershipState, bound, unbound, MembershipRecord, RetentionPolicy, terminate,
  retain_for_recovery, holds_bound_to, membership_state,
}
use runen_net.Session.Operations.{
  terminated_state, retained_state, removed, connection_lost, remove_participant,
}
use runen_net.Session.Invariant.{IsValid, unlink}

terminated_state-IsValid :
    (s : Session) (p c : ℕ)
    → IsValid s
    → is_open s.phase ≡ true
    → membership_state s p ≡ some (bound c)
    → IsValid (terminated_state s p c)
terminated_state-IsValid s p c v is_opened e = record {
  linked =
      λ j d. ground (arith, get-remove s.memberships p j, unlink s p c none v e (λ x. refl) j d);
  known = λ j. ground (arith, get-remove s.memberships p j, v.known j);
  pending = λ j. ground (arith, get-remove s.memberships p j, v.pending j);
  distinct = remove-Distinct s.memberships p v.distinct;
  members_fit = omega (arith, length-remove-le s.memberships p, v.members_fit);
  claims_fit = v.claims_fit;
  claim_limit = v.claim_limit;
  emptied = λ shut. absurd (ground arith);
}

abbrev waiting : ℕ → ℕ → MembershipRecord
waiting c t = record { state = unbound t; previous_connection = some c }

retained_state-IsValid :
    (s : Session) (p c t : ℕ)
    → IsValid s
    → is_open s.phase ≡ true
    → membership_state s p ≡ some (bound c)
    → s.recovery_clock < t
    → IsValid (retained_state s p c t)
retained_state-IsValid s p c t v is_opened e later = record {
  linked = λ j d. ground (
    arith,
    get-insert s.memberships p j (waiting c t),
    unlink s p c (some (unbound t)) v e (λ x. refl) j d,
  );
  known = λ j. ground (arith, get-insert s.memberships p j (waiting c t), v.known j, v.known p);
  pending = λ j. ground (arith, get-insert s.memberships p j (waiting c t), v.pending j);
  distinct = insert-Distinct s.memberships p _ v.distinct;
  members_fit = kept (HashMap.get s.memberships p) refl;
  claims_fit = v.claims_fit;
  claim_limit = v.claim_limit;
  emptied = λ shut. absurd (ground arith);
}
  where
    kept :
        (o : Option MembershipRecord)
        → HashMap.get s.memberships p ≡ o
        → length (HashMap.insert s.memberships p (waiting c t)) ≤ s.limits.max_memberships
    kept none h = absurd (ground arith)
    kept (some r) h =
        omega (arith, length-insert_present s.memberships p (waiting c t) r h, v.members_fit)

pub connection_lost_cases :
    (P : Session → Type 0) (s : Session) (p c : ℕ) (policy : RetentionPolicy)
    → P s
    → (is_open s.phase ≡ true
        → membership_state s p ≡ some (bound c)
        → policy ≡ terminate
        → P (terminated_state s p c))
    → ((d : ℕ)
        → is_open s.phase ≡ true
        → membership_state s p ≡ some (bound c)
        → policy ≡ retain_for_recovery d
        → IsU64 (s.recovery_clock + d)
        → P (retained_state s p c (s.recovery_clock + d)))
    → P (connection_lost s p c policy).0
unfolding connection_lost
connection_lost_cases P s p c terminate same ended kept = ground arith
connection_lost_cases P s p c (retain_for_recovery d) same ended kept = ground (arith, kept d)

-- `RecoveryDuration` wraps a `NonZeroU64`.
abbrev pub IsPositive : RetentionPolicy → Type 0
IsPositive terminate = Unit
IsPositive (retain_for_recovery duration) = 0 < duration

positive_duration :
    (policy : RetentionPolicy) (d : ℕ) → IsPositive policy → policy ≡ retain_for_recovery d → 0 < d
positive_duration terminate d h e = cc
positive_duration (retain_for_recovery t) d h e = ground arith

pub connection_lost-IsValid :
    (s : Session) (p c : ℕ) (policy : RetentionPolicy)
    → IsPositive policy
    → IsValid s
    → IsValid (connection_lost s p c policy).0
connection_lost-IsValid s p c policy h v =
    connection_lost_cases IsValid s p c policy v (λ o e _. terminated_state-IsValid s p c v o e)
      (λ d o e q fits.
        retained_state-IsValid s p c (s.recovery_clock + d) v o e
          (omega (arith, positive_duration policy d h q)))

expired_state-IsValid :
    (s : Session) (p : ℕ)
    → IsValid s
    → is_open s.phase ≡ true
    → ((d : ℕ) → holds_bound_to (membership_state s p) d ≡ false)
    → IsValid (record s { memberships = HashMap.remove s.memberships p })
expired_state-IsValid s p v is_opened free = record {
  linked = λ j d. ground (arith, get-remove s.memberships p j, v.linked j d, free d);
  known = λ j. ground (arith, get-remove s.memberships p j, v.known j);
  pending = λ j. ground (arith, get-remove s.memberships p j, v.pending j);
  distinct = remove-Distinct s.memberships p v.distinct;
  members_fit = omega (arith, length-remove-le s.memberships p, v.members_fit);
  claims_fit = v.claims_fit;
  claim_limit = v.claim_limit;
  emptied = λ shut. absurd (ground arith);
}

removed-IsValid :
    (s : Session) (p : ℕ) (m : MembershipState)
    → IsValid s
    → is_open s.phase ≡ true
    → membership_state s p ≡ some m
    → IsValid (removed s p m)
removed-IsValid s p (bound c) v is_opened e = terminated_state-IsValid s p c v is_opened e
removed-IsValid s p (unbound t) v is_opened e = expired_state-IsValid s p v is_opened (λ d. rw e)

pub remove_participant_cases :
    (P : Session → Type 0) (s : Session) (p : ℕ)
    → P s
    → ((m : MembershipState)
        → is_open s.phase ≡ true
        → membership_state s p ≡ some m
        → P (removed s p m))
    → P (remove_participant s p).0
unfolding remove_participant
remove_participant_cases P s p same changed = elim (Option-cases (HashMap.get s.memberships p)) [
  | inl e ↦ ground arith
  | inr (r, e) ↦ ground (arith, changed r.state)
]

pub remove_participant-IsValid :
    (s : Session) (p : ℕ) → IsValid s → IsValid (remove_participant s p).0
remove_participant-IsValid s p v =
    remove_participant_cases IsValid s p v (λ m. removed-IsValid s p m v)
