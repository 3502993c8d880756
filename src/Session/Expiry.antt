-- ===== src/Session/Expiry.antt =====
-- session.rs: the memberships that `advance_recovery_clock` ends.
use runen_net.Prelude.{
  ℕ, ◌≤◌, ◌≡◌, refl, Bool, true, false, Option, none, some, List, [], ◌∷◌, arith, nat_eq, length,
  if◌then◌else◌,
}
use runen_net.Collections.HashMap.{
  Distinct, get-insert, get-remove, insert-Distinct, remove-Distinct, length-insert-le,
  length-insert_present, length-remove-le,
}
use runen_net.Collections.HashMap
use runen_net.Session.State.{
  is_open, Session, MembershipState, MembershipRecord, state_of, membership_state,
}
use runen_net.Session.Operations.{
  has_expired, expired_participants, remove_all, advanced, advance_recovery_clock,
}
use runen_net.Collections.HashMap.{HashMap}
use runen_net.Collections.Sort.{sort_ids, HasNoDuplicates, contains-sort_ids}
use runen_net.Collections.HashSet.{contains}
use runen_net.Session.Invariant.{IsValid}

-- Whether a participant's membership has run out.
abbrev pub is_due : ℕ → Option MembershipState → Bool
is_due now none = false
is_due now (some m) = has_expired now m

pub contains-expired_participants :
    (now : ℕ) (m : HashMap ℕ MembershipRecord) (j : ℕ)
    → Distinct m
    → contains (expired_participants now m) j ≡ is_due now (state_of (HashMap.get m j))
unfolding expired_participants contains HashMap.get
contains-expired_participants now [] j d = refl
contains-expired_participants now ((p, r) ∷ m) j d =
    ground (arith, contains-expired_participants now m j d.1)

pub expired_participants-HasNoDuplicates :
    (now : ℕ) (m : HashMap ℕ MembershipRecord)
    → Distinct m
    → HasNoDuplicates (expired_participants now m)
unfolding expired_participants
expired_participants-HasNoDuplicates now [] d = tt
expired_participants-HasNoDuplicates now ((p, r) ∷ m) d = ground (
  arith,
  expired_participants-HasNoDuplicates now m d.1,
  contains-expired_participants now m p d.1,
)

pub get-remove_all :
    (ps : List ℕ) (m : HashMap ℕ MembershipRecord) (j : ℕ)
    → HashMap.get (remove_all m ps) j ≡ (if contains ps j then none else HashMap.get m j)
unfolding remove_all contains
get-remove_all [] m j = refl
get-remove_all (p ∷ ps) m j =
    ground (arith, get-remove_all ps (HashMap.remove m p) j, get-remove m p j)

remove_all-Distinct :
    (ps : List ℕ) (m : HashMap ℕ MembershipRecord) → Distinct m → Distinct (remove_all m ps)
unfolding remove_all
remove_all-Distinct [] m d = d
remove_all-Distinct (p ∷ ps) m d =
    remove_all-Distinct ps (HashMap.remove m p) (remove-Distinct m p d)

length-remove_all-le :
    (ps : List ℕ) (m : HashMap ℕ MembershipRecord) → length (remove_all m ps) ≤ length m
unfolding remove_all
length-remove_all-le [] m = omega arith
length-remove_all-le (p ∷ ps) m =
    omega (arith, length-remove_all-le ps (HashMap.remove m p), length-remove-le m p)

-- What a lookup finds once the clock stands at `now`.
pub get-advanced :
    (s : Session) (now j : ℕ)
    → IsValid s
    → HashMap.get (advanced s now).memberships j
      ≡ (if is_due now (membership_state s j) then none else HashMap.get s.memberships j)
get-advanced s now j v = ground (
  arith,
  get-remove_all (sort_ids (expired_participants now s.memberships)) s.memberships j,
  contains-sort_ids (expired_participants now s.memberships) j,
  contains-expired_participants now s.memberships j v.distinct,
)

advanced-IsValid :
    (s : Session) (now : ℕ) → IsValid s → is_open s.phase ≡ true → IsValid (advanced s now)
advanced-IsValid s now v is_opened = record {
  linked = λ j d. ground (arith, get-advanced s now j v, v.linked j d);
  known = λ j. ground (arith, get-advanced s now j v, v.known j);
  pending = λ j. ground (arith, get-advanced s now j v, v.pending j);
  distinct = remove_all-Distinct _ s.memberships v.distinct;
  members_fit = omega (
    arith,
    length-remove_all-le (sort_ids (expired_participants now s.memberships)) s.memberships,
    v.members_fit,
  );
  claims_fit = v.claims_fit;
  claim_limit = v.claim_limit;
  emptied = λ shut. absurd (ground arith);
}

pub advance_cases :
    (P : Session → Type 0) (s : Session) (now : ℕ)
    → P s
    → (is_open s.phase ≡ true → s.recovery_clock ≤ now → P (advanced s now))
    → P (advance_recovery_clock s now).0
unfolding advance_recovery_clock
advance_cases P s now same changed = ground arith

pub advance-IsValid : (s : Session) (now : ℕ) → IsValid s → IsValid (advance_recovery_clock s now).0
advance-IsValid s now v = advance_cases IsValid s now v (λ o _. advanced-IsValid s now v o)
