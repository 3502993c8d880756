-- ===== src/Session/Atomicity.antt =====
-- session.rs: what a failed call leaves behind.
use runen_net.Prelude.{ℕ, ◌≡◌, refl, true, some, arith, nat_eq, Option-cases, inl, inr}
use runen_net.Collections.HashMap.{HashMap, Distinct, get-insert, get-remove}
use runen_net.Collections.HashMap
use runen_net.Session.State.{
  Session, MembershipState, bound, unbound, MembershipRecord, terminate, retain_for_recovery,
}
use runen_net.Session.Operations.{
  admit_new, connection_lost, remove_participant, bind_replacement, advance_recovery_clock,
}
use runen_net.Session.Invariant.{IsValid}
use runen_net.Session.History.{Call, admits, rebinds, loses, removes, advances, closes, step, fails}

rebind_fails :
    (s : Session) (p c : ℕ)
    → IsValid s
    → fails s (rebinds p c) ≡ true
    → (bind_replacement s p c).0 ≡ s
unfolding fails bind_replacement
rebind_fails s p c v e = elim (Option-cases (HashMap.get s.memberships p)) [
  | inl h ↦ ground arith
  | inr (r, h) ↦ by_state r r.state h refl
]
  where
    by_state :
        (r : MembershipRecord) (m : MembershipState)
        → HashMap.get s.memberships p ≡ some r
        → r.state ≡ m
        → (bind_replacement s p c).0 ≡ s
    by_state r (bound d) h q = ground arith
    by_state r (unbound t) h q = ground (arith, v.pending p)

-- In a valid session a call that returns an error leaves the session exactly as it was, also
-- `bind_replacement`, whose expiry branch would remove the membership.
pub step_of_fails : (s : Session) (call : Call) → IsValid s → fails s call ≡ true → step s call ≡ s
unfolding step fails
step_of_fails s (admits p c) v e = unfold admit_new in ground arith
step_of_fails s (rebinds p c) v e = rebind_fails s p c v e
step_of_fails s (loses p c terminate) v e = unfold connection_lost in ground arith
step_of_fails s (loses p c (retain_for_recovery d)) v e = unfold connection_lost in ground arith
step_of_fails s (removes p) v e = unfold remove_participant in ground arith
step_of_fails s (advances now) v e = unfold advance_recovery_clock in ground arith
step_of_fails s closes v e = cc
