-- ===== src/Input/Witnesses.antt =====
-- input/authority.rs: the theorems on retained inputs, at a concrete state. Inputs are numbers.
use runen_net.Input.Membership.{reconcile_memberships}
use runen_net.Prelude.{
  ℕ, ◌≡◌, refl, none, some, [], ◌∷◌, ◌&&◌, if◌then◌else◌, ltb, ◌==◌, nat_eq, arith,
}
use runen_net.Collections.HashSet.{contains}
use runen_net.Collections.Sort.{IsAscendingFrom}
use runen_net.Input.Reconciliation.{reconcile_memberships-report}
use runen_net.Input.History.{
  Call, adds, submits, reconciles, run, run-new_input_session-IsValidInput,
}
use runen_net.Session.State.{membership_state}
use runen_net.Input.Authority.{new_input_session}
use runen_net.Prelude.{ok, is_some, not, List}
use runen_net.Collections.HashMap
use runen_net.Session.State.{Session, opened, bound}
use runen_net.Input.Model.{InputWindow}
use runen_net.Input.Authority.{ParticipantInputState, AuthorityInputSession, advance_window, submit}
use runen_net.Input.Retention.{IsValidState, IsValidInput, input_at}
use runen_net.Input.Window.{window_answer, advances, advance_window-answer}
use runen_net.Input.Submission.{is_accepted, entry, submit-IsValidInput}

-- Participant 1 on connection 10.
abbrev one_bound : Session
one_bound = record {
  id = 7;
  phase = opened;
  limits = record { max_participant_incarnations = 4; max_memberships = 2 };
  recovery_clock = 0;
  used_participants = record { max_claims = 4; used = 1 ∷ [] };
  memberships = (1, record { state = bound 10; previous_connection = none }) ∷ [];
  bindings = (10, 1) ∷ [];
}

abbrev two_inputs : ParticipantInputState ℕ
two_inputs = record {
  limits = record {
    max_batch_bytes = 8;
    max_retained_keys_per_participant = 3;
    max_retained_bytes_per_participant = 20;
    max_future_tick_distance = 10;
  };
  window = record { minimum = 100; maximum = 105 };
  retained = (100, entry 5 4) ∷ (103, entry 6 4) ∷ [];
  retained_bytes = 8;
}

abbrev retaining : AuthorityInputSession ℕ
retaining = record {
  session = 7;
  limits = record { max_retained_keys = 6; max_retained_bytes = 40 };
  participants = (1, two_inputs) ∷ [];
  retained_keys = 2;
  retained_bytes = 8;
}

two_inputs-IsValidState : IsValidState two_inputs
two_inputs-IsValidState = record {
  sorted = (omega arith, (omega arith, tt));
  counted = refl;
  keys_fit = omega arith;
  bytes_fit = omega arith;
  from_minimum = (omega arith, (omega arith, tt));
  to_maximum = (omega arith, (omega arith, tt));
  within_horizon = omega arith;
}

retaining-IsValidInput : IsValidInput retaining
unfolding HashMap.get
retaining-IsValidInput = record {
  states = (two_inputs-IsValidState, tt);
  distinct = (refl, tt);
  keys = refl;
  bytes = refl;
  keys_fit = omega arith;
  bytes_fit = omega arith;
  machine_keys = omega arith;
  machine_bytes = omega arith;
}

abbrev later : InputWindow
later = record { minimum = 102; maximum = 110 }

advance_window-answer_example :
    ((advance_window retaining 1 later).1
      ≡ window_answer (HashMap.get retaining.participants 1) later)
    × IsValidInput (advance_window retaining 1 later).0
    × ((q tick : ℕ)
        → input_at (advance_window retaining 1 later).0 q tick ≡ (
            if advances (HashMap.get retaining.participants 1) later && 1 == q && ltb tick 102
            then none
            else input_at retaining q tick))
advance_window-answer_example = advance_window-answer retaining 1 later retaining-IsValidInput

submit-IsValidInput_example :
    IsValidInput (submit retaining one_bound 1 10 104 9 4).0
    × ((q t : ℕ)
        → input_at (submit retaining one_bound 1 10 104 9 4).0 q t ≡ (
            if is_accepted (submit retaining one_bound 1 10 104 9 4).1 && 1 == q && 104 == t
            then some (entry 9 4)
            else input_at retaining q t))
submit-IsValidInput_example =
    submit-IsValidInput retaining one_bound 1 10 104 9 4 retaining-IsValidInput

-- The same session after participant 1 was removed.
abbrev none_bound : Session
none_bound = record one_bound { memberships = []; bindings = [] }

reconcile_memberships-report_example :
    (after : AuthorityInputSession ℕ) × (removed : List ℕ) × (reconcile_memberships retaining
        none_bound
      ≡ some (after, ok removed))
    × IsValidInput after
    × IsAscendingFrom 0 removed
    × ((p : ℕ)
        → contains removed p ≡ (
            is_some (HashMap.get retaining.participants p)
            && not (is_some (membership_state none_bound p))))
    × ((p : ℕ)
        → HashMap.get after.participants p
          ≡ (if contains removed p then none else HashMap.get retaining.participants p))
reconcile_memberships-report_example =
    reconcile_memberships-report retaining none_bound retaining-IsValidInput refl

abbrev calls : List (Call ℕ)
calls =
    adds one_bound 1 later two_inputs.limits
    ∷ submits one_bound 1 10 104 9 4
    ∷ reconciles none_bound
    ∷ []

run-new_input_session-IsValidInput_example :
    (last : AuthorityInputSession ℕ) × (run (new_input_session 7 retaining.limits) calls
      ≡ some last)
    × IsValidInput last
run-new_input_session-IsValidInput_example =
    run-new_input_session-IsValidInput 7 retaining.limits calls (omega arith) (omega arith)
