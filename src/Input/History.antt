-- ===== src/Input/History.antt =====
-- input/authority.rs: histories of calls, from `AuthorityInputSession::new`.
use runen_net.Input.Membership.{reconcile_memberships}
use runen_net.Prelude.{
  ℕ, ◌≤◌, ◌≡◌, refl, ap, false, Option, none, some, List, [], ◌∷◌, ltb, Eq, nat_eq, arith, is_some,
  Option-cases, Bool-cases, inl, inr, IsU64,
}
use runen_net.Collections.HashMap.{HashMap, total-insert_absent, insert-Distinct}
use runen_net.Collections.HashMap
use runen_net.Session.State.{Session, membership_state}
use runen_net.Input.Model.{InputWindow, AuthorityInputLimits, AuthorityInputAggregateLimits, span}
use runen_net.Input.Authority.{
  AuthorityInputSession, is_session, new_participant, new_input_session, add_participant,
  advance_window, submit,
}
use runen_net.Input.Retention.{key_count, byte_count, IsValidState, IsValidInput}
use runen_net.Input.Window.{advance_window-answer}
use runen_net.Input.Submission.{submit-IsValidInput}
use runen_net.Input.Reconciliation.{reconcile_memberships-report}

pub data Call (I : Type 0) : Type 0 where
  adds : Session → (participant : ℕ) → InputWindow → AuthorityInputLimits → Call I
  advances_window : (participant : ℕ) → InputWindow → Call I
  reconciles : Session → Call I
  submits : Session → (participant connection tick : ℕ) → I → (bytes : ℕ) → Call I

abbrev after_answer :
    {I E : Type 0} → Option (AuthorityInputSession I × E) → Option (AuthorityInputSession I)
after_answer none = none
after_answer (some (a, answer)) = some a

module _ {I : Type 0} ⦃e : Eq I⦄ where
  -- `none` is a panic.
  unfoldable pub step : AuthorityInputSession I → Call I → Option (AuthorityInputSession I)
  step a (adds s participant window limits) = some (add_participant a s participant window limits).0
  step a (advances_window participant next) = some (advance_window a participant next).0
  step a (reconciles s) = after_answer (reconcile_memberships a s)
  step a (submits s participant connection tick input bytes) =
      some (submit a s participant connection tick input bytes).0

  unfoldable pub run : AuthorityInputSession I → List (Call I) → Option (AuthorityInputSession I)
  run a [] = some a
  run a (call ∷ calls) = elim (step a call) [ none ↦ none | some next ↦ run next calls ]

module _ {I : Type 0} where
  new_participant-IsValidState :
      (limits : AuthorityInputLimits) (window : InputWindow)
      → span window ≤ limits.max_future_tick_distance
      → IsValidState {I = I} (new_participant limits window)
  unfolding new_participant
  new_participant-IsValidState limits window h = record {
    sorted = tt;
    counted = refl;
    keys_fit = omega arith;
    bytes_fit = omega arith;
    from_minimum = tt;
    to_maximum = tt;
    within_horizon = h;
  }

  add_participant-IsValidInput :
      (a : AuthorityInputSession I) (s : Session) (participant : ℕ) (window : InputWindow)
      (limits : AuthorityInputLimits)
      → IsValidInput a
      → IsValidInput (add_participant a s participant window limits).0
  unfolding add_participant new_participant
  add_participant-IsValidInput a s participant window limits v =
      elim (Bool-cases (is_session a s)) [
        | inr k ↦ rw (k, add_participant) v
        | inl k ↦ elim (Bool-cases (is_some (membership_state s participant))) [
          | inr m ↦ rw (k, m, add_participant) v
          | inl m ↦ elim (Option-cases (HashMap.get a.participants participant)) [
            | inr (p, h) ↦ rw (k, m, h, add_participant) v
            | inl h ↦ elim (Bool-cases (ltb limits.max_future_tick_distance (span window))) [
              | inl w ↦ rw (k, m, h, w, add_participant) v
              | inr w ↦
                  rw (k, m, h, w, add_participant)
                    (record {
                      states =
                          HashMap.All-insert IsValidState a.participants participant
                            (new_participant limits window)
                            (new_participant-IsValidState limits window (ground arith)) v.states;
                      distinct =
                          insert-Distinct a.participants participant (new_participant limits window)
                            v.distinct;
                      keys = omega (
                        arith,
                        v.keys,
                        total-insert_absent key_count a.participants participant
                            (new_participant {I = I} limits window) h,
                      );
                      bytes = omega (
                        arith,
                        v.bytes,
                        total-insert_absent byte_count a.participants participant
                            (new_participant {I = I} limits window) h,
                      );
                      keys_fit = v.keys_fit;
                      bytes_fit = v.bytes_fit;
                      machine_keys = v.machine_keys;
                      machine_bytes = v.machine_bytes;
                    })
            ]
          ]
        ]
      ]

  foreign_session :
      (a : AuthorityInputSession I) (s : Session)
      → is_session a s ≡ false
      → after_answer (reconcile_memberships a s) ≡ some a
  unfolding reconcile_memberships
  foreign_session a s h = rw (h, reconcile_memberships) refl

module _ {I : Type 0} ⦃e : Eq I⦄ where
  step-IsValidInput :
      (a : AuthorityInputSession I) (call : Call I)
      → IsValidInput a
      → (next : AuthorityInputSession I) × (step a call ≡ some next) × IsValidInput next
  unfolding step
  step-IsValidInput a (adds s participant window limits) v =
      (_, refl, add_participant-IsValidInput a s participant window limits v)
  step-IsValidInput a (advances_window participant next) v =
      (_, refl, (advance_window-answer a participant next v).1)
  step-IsValidInput a (submits s participant connection tick input bytes) v =
      (_, refl, (submit-IsValidInput a s participant connection tick input bytes v).0)
  step-IsValidInput a (reconciles s) v = elim (Bool-cases (is_session a s)) [
    | inr h ↦ (a, foreign_session a s h, v)
    | inl h ↦
        let (after, removed, q, valid, ascending, named, gone) =
          reconcile_memberships-report a s v h in
        (after, ap after_answer q, valid)
  ]

  run-IsValidInput :
      (calls : List (Call I)) (a : AuthorityInputSession I)
      → IsValidInput a
      → (last : AuthorityInputSession I) × (run a calls ≡ some last) × IsValidInput last
  unfolding run
  run-IsValidInput [] a v = (a, refl, v)
  run-IsValidInput (call ∷ calls) a v =
      let (next, q, w) = step-IsValidInput a call v in
      let (last, r, valid) = run-IsValidInput calls next w in (last, rw (q, run) r, valid)

  -- Any history of calls on a new input session runs without a panic, and leaves every participant's
  -- inputs sorted, counted, within its limits and its window, and the totals right and within the
  -- aggregate limits, which are machine integers.
  pub run-new_input_session-IsValidInput :
      (session : ℕ) (limits : AuthorityInputAggregateLimits) (calls : List (Call I))
      → IsU64 limits.max_retained_keys
      → IsU64 limits.max_retained_bytes
      → (last : AuthorityInputSession I) × (run (new_input_session session limits) calls
          ≡ some last)
        × IsValidInput last
  unfolding new_input_session
  run-new_input_session-IsValidInput session limits calls h k =
      run-IsValidInput calls (new_input_session session limits) (record {
        states = tt;
        distinct = tt;
        keys = refl;
        bytes = refl;
        keys_fit = omega arith;
        bytes_fit = omega arith;
        machine_keys = h;
        machine_bytes = k;
      })
