-- ===== src/Session/Witnesses.antt =====
-- session.rs: the theorems on sessions, at concrete sessions.
use runen_net.Prelude.{
  not, ◌≤◌, ℕ, ◌≡◌, ◌≢◌, refl, true, false, none, List, [], ◌∷◌, arith, nat_eq, ok, if◌then◌else◌,
}
use runen_net.Collections.HashMap.{HashMap}
use runen_net.Collections.HashMap
use runen_net.Collections.HashSet
use runen_net.Collections.Sort.{IsAscendingFrom}
use runen_net.Identity
use runen_net.Session.State.{
  Session, SessionLimits, retain_for_recovery, retained, membership_state, is_authorized, is_open,
  new,
}
use runen_net.Session.Operations.{
  admit_new, connection_lost, bind_replacement, advance_recovery_clock, close,
}
use runen_net.Session.Invariant.{IsValid}
use runen_net.Session.History.{
  Call, admits, rebinds, loses, advances, step, fails, run, run-new-IsValid,
}
use runen_net.Session.Expiry.{is_due}
use runen_net.Session.Authorization.{rebind_answer, bind_replacement-answer}
use runen_net.Session.Effects.{
  Gains, Drops, admit_new-Gains, bind_replacement-Gains, connection_lost-Drops,
}
use runen_net.Session.Atomicity.{step_of_fails}
use runen_net.Session.Finality.{readmission_refused, is_close, run-close}
use runen_net.Session.Report.{advance_recovery_clock-report, advance_recovery_clock_deterministic}

abbrev small : SessionLimits
small = record { max_participant_incarnations = 4; max_memberships = 3 }

abbrev two_admitted : List Call
two_admitted = admits 1 10 ∷ admits 2 20 ∷ []

-- Participant 1 on connection 10, and participant 2 on connection 20.
abbrev both_bound : Session
both_bound = run (new 7 small) two_admitted

both_bound-IsValid : IsValid both_bound
both_bound-IsValid = run-new-IsValid 7 small two_admitted (tt, (tt, tt))

-- Both have lost their connections, and are retained until 5.
abbrev both_lost_calls : List Call
both_lost_calls =
    admits 1 10
    ∷ admits 2 20
    ∷ loses 1 10 (retain_for_recovery 5)
    ∷ loses 2 20 (retain_for_recovery 5)
    ∷ []

abbrev both_lost : Session
both_lost = run (new 7 small) both_lost_calls

both_lost-IsValid : IsValid both_lost
both_lost-IsValid =
    run-new-IsValid 7 small both_lost_calls (tt, (tt, (omega arith, (omega arith, tt))))

-- The same in the other order.
abbrev lost_reversed_calls : List Call
lost_reversed_calls =
    admits 2 20
    ∷ admits 1 10
    ∷ loses 2 20 (retain_for_recovery 5)
    ∷ loses 1 10 (retain_for_recovery 5)
    ∷ []

abbrev lost_reversed : Session
lost_reversed = run (new 7 small) lost_reversed_calls

lost_reversed-IsValid : IsValid lost_reversed
lost_reversed-IsValid =
    run-new-IsValid 7 small lost_reversed_calls (tt, (tt, (omega arith, (omega arith, tt))))

run-new-IsValid_example : IsValid (run (new 7 small) both_lost_calls)
run-new-IsValid_example =
    run-new-IsValid 7 small both_lost_calls (tt, (tt, (omega arith, (omega arith, tt))))

authorized_10 : is_authorized both_bound 1 10 ≡ true
unfolding run step new admit_new Identity.claim HashMap.get HashMap.insert HashSet.contains
    HashSet.insert is_authorized
authorized_10 = refl

authorized_20 : is_authorized both_bound 2 20 ≡ true
unfolding run step new admit_new Identity.claim HashMap.get HashMap.insert HashSet.contains
    HashSet.insert is_authorized
authorized_20 = refl

both_lost_facts :
    (is_open both_lost.phase ≡ true)
    × (HashMap.get both_lost.bindings 30 ≡ none)
    × ((bind_replacement both_lost 1 30).1 ≡ ok tt)
unfolding run step new admit_new Identity.claim HashMap.get HashMap.insert HashMap.remove
    HashSet.contains HashSet.insert connection_lost bind_replacement
both_lost_facts = (refl, refl, refl)

bind_replacement-answer_example :
    (bind_replacement both_lost 1 30).1 ≡ rebind_answer (HashMap.get both_lost.memberships 1) 30
bind_replacement-answer_example =
    bind_replacement-answer both_lost 1 30 both_lost-IsValid both_lost_facts.0 both_lost_facts.1

admitted_3 : (admit_new both_bound 3 30).1 ≡ ok tt
unfolding run step new admit_new Identity.claim HashMap.get HashMap.insert HashSet.contains
    HashSet.insert
admitted_3 = refl

admit_new-Gains_example : Gains both_bound (admit_new both_bound 3 30).0 3 30
admit_new-Gains_example = admit_new-Gains both_bound 3 30 both_bound-IsValid admitted_3

bind_replacement-Gains_example : Gains both_lost (bind_replacement both_lost 1 30).0 1 30
bind_replacement-Gains_example =
    bind_replacement-Gains both_lost 1 30 both_lost-IsValid both_lost_facts.2

lost_10 : (connection_lost both_bound 1 10 (retain_for_recovery 5)).1 ≡ ok (retained 5)
unfolding run step new admit_new Identity.claim HashMap.get HashMap.insert HashMap.remove
    HashSet.contains HashSet.insert connection_lost
lost_10 = refl

connection_lost-Drops_example :
    (is_authorized both_bound 1 10 ≡ true)
    × Drops both_bound (connection_lost both_bound 1 10 (retain_for_recovery 5)).0 1
connection_lost-Drops_example =
    connection_lost-Drops both_bound 1 10 (retain_for_recovery 5) (retained 5) both_bound-IsValid
      lost_10

refused_replacement : fails both_lost (rebinds 1 10) ≡ true
unfolding run step new admit_new Identity.claim HashMap.get HashMap.insert HashMap.remove
    HashSet.contains HashSet.insert connection_lost bind_replacement fails
refused_replacement = refl

step_of_fails_example : step both_lost (rebinds 1 10) ≡ both_lost
step_of_fails_example = step_of_fails both_lost (rebinds 1 10) both_lost-IsValid refused_replacement

abbrev after_expiry : Session
after_expiry =
    run (admit_new both_bound 3 30).0 (loses 3 30 (retain_for_recovery 5) ∷ advances 9 ∷ [])

readmission_refused_example :
    ((admit_new after_expiry 3 40).0 ≡ after_expiry) × ((admit_new after_expiry 3 40).1 ≢ ok tt)
readmission_refused_example =
    readmission_refused both_bound 3 30 40 (loses 3 30 (retain_for_recovery 5) ∷ advances 9 ∷ [])
      admitted_3

run-close_example :
    (run (close both_bound) two_admitted ≡ close both_bound)
    × ((p c : ℕ) → is_authorized (run (close both_bound) two_admitted) p c ≡ false)
    × ((call : Call) → fails (run (close both_bound) two_admitted) call ≡ not (is_close call))
run-close_example = run-close both_bound two_admitted

clock_6 : both_lost.recovery_clock ≤ 6
unfolding run step new admit_new Identity.claim HashMap.get HashMap.insert HashMap.remove
    HashSet.contains HashSet.insert connection_lost
clock_6 = omega arith

advance_recovery_clock-report_example :
    (expired : List ℕ) × ((advance_recovery_clock both_lost 6).1 ≡ ok expired)
    × IsAscendingFrom 0 expired
    × ((p : ℕ) → HashSet.contains expired p ≡ is_due 6 (membership_state both_lost p))
    × ((p : ℕ)
        → HashMap.get (advance_recovery_clock both_lost 6).0.memberships p ≡ (
            if is_due 6 (membership_state both_lost p)
            then none
            else HashMap.get both_lost.memberships p))
advance_recovery_clock-report_example =
    advance_recovery_clock-report both_lost 6 both_lost-IsValid both_lost_facts.0 clock_6

same_phase_and_clock :
    (both_lost.phase ≡ lost_reversed.phase)
    × (both_lost.recovery_clock ≡ lost_reversed.recovery_clock)
unfolding run step new admit_new Identity.claim HashMap.get HashMap.insert HashMap.remove
    HashSet.contains HashSet.insert connection_lost
same_phase_and_clock = (refl, refl)

same_memberships :
    (p : ℕ) → HashMap.get both_lost.memberships p ≡ HashMap.get lost_reversed.memberships p
unfolding run step new admit_new Identity.claim HashMap.get HashMap.insert HashMap.remove
    HashSet.contains HashSet.insert connection_lost
same_memberships p = ground arith

advance_recovery_clock_deterministic_example :
    (advance_recovery_clock both_lost 6).1 ≡ (advance_recovery_clock lost_reversed 6).1
advance_recovery_clock_deterministic_example =
    advance_recovery_clock_deterministic both_lost lost_reversed 6 both_lost-IsValid
      lost_reversed-IsValid same_phase_and_clock.0 same_phase_and_clock.1 same_memberships
