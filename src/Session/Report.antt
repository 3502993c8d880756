-- ===== src/Session/Report.antt =====
-- session.rs: the report of `advance_recovery_clock`.
use runen_net.Prelude.{ℕ, ◌≤◌, ◌≡◌, ◌∙◌, true, none, List, arith, nat_eq, ok, if◌then◌else◌}
use runen_net.Collections.HashMap.{HashMap, Distinct, get-insert, get-remove}
use runen_net.Collections.HashMap
use runen_net.Collections.HashSet.{contains}
use runen_net.Collections.Sort.{
  sort_ids, IsAscendingFrom, contains-sort_ids, sort_ids-IsAscendingFrom, ascending_unique,
}
use runen_net.Session.State.{is_open, Session, membership_state}
use runen_net.Session.Operations.{expired_participants, advance_recovery_clock}
use runen_net.Session.Invariant.{IsValid}
use runen_net.Session.Expiry.{
  is_due, contains-expired_participants, expired_participants-HasNoDuplicates, get-advanced,
}

-- On an open valid session and a clock that does not go back, the call succeeds. Its report is in
-- strictly ascending order and names exactly the participants whose retained membership ends at or
-- before the new time; those memberships are gone and every other one is as before.
pub advance_recovery_clock-report :
    (s : Session) (now : ℕ)
    → IsValid s
    → is_open s.phase ≡ true
    → s.recovery_clock ≤ now
    → (expired : List ℕ) × ((advance_recovery_clock s now).1 ≡ ok expired)
      × IsAscendingFrom 0 expired
      × ((p : ℕ) → contains expired p ≡ is_due now (membership_state s p))
      × ((p : ℕ)
          → HashMap.get (advance_recovery_clock s now).0.memberships p
            ≡ (if is_due now (membership_state s p) then none else HashMap.get s.memberships p))
advance_recovery_clock-report s now v o h = (
  sort_ids (expired_participants now s.memberships),
  unfold advance_recovery_clock in ground arith,
  sort_ids-IsAscendingFrom _ (expired_participants-HasNoDuplicates now s.memberships v.distinct),
  (λ p.
      contains-sort_ids (expired_participants now s.memberships) p
      ∙ contains-expired_participants now s.memberships p v.distinct),
  λ p. unfold advance_recovery_clock in ground (arith, get-advanced s now p v),
)

-- The report does not depend on the order in which the hash map iterates: two valid open sessions
-- with the same clock and the same membership lookups report the same list.
pub advance_recovery_clock_deterministic :
    (s t : Session) (now : ℕ)
    → IsValid s
    → IsValid t
    → s.phase ≡ t.phase
    → s.recovery_clock ≡ t.recovery_clock
    → ((p : ℕ) → HashMap.get s.memberships p ≡ HashMap.get t.memberships p)
    → (advance_recovery_clock s now).1 ≡ (advance_recovery_clock t now).1
unfolding advance_recovery_clock
advance_recovery_clock_deterministic s t now v w phase clock same = ground (arith, reports)
  where
    reports :
        sort_ids (expired_participants now s.memberships)
        ≡ sort_ids (expired_participants now t.memberships)
    reports =
        ascending_unique 0 _ _
          (sort_ids-IsAscendingFrom _
            (expired_participants-HasNoDuplicates now s.memberships v.distinct))
          (sort_ids-IsAscendingFrom _
            (expired_participants-HasNoDuplicates now t.memberships w.distinct))
          (λ p. ground (
            arith,
            contains-sort_ids (expired_participants now s.memberships) p,
            contains-sort_ids (expired_participants now t.memberships) p,
            contains-expired_participants now s.memberships p v.distinct,
            contains-expired_participants now t.memberships p w.distinct,
            same p,
          ))
