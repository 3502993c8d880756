-- ===== src/Input/Window.antt =====
-- input/authority.rs: `advance_window`.
use runen_net.Prelude.{
  ℕ, ◌-◌, ◌≤◌, ◌≡◌, refl, Bool, true, false, ◌&&◌, Option, none, some, [], ◌∷◌, if◌then◌else◌, ltb,
  leb, ◌==◌, nat_eq, length, Result, ok, err, arith, All,
}
use runen_net.Collections.HashMap.{
  HashMap, total-insert_present, total-insert_absent, Distinct, insert-Distinct,
}
use runen_net.Collections.HashMap
use runen_net.Collections.BTreeMap.{BTreeMap}
use runen_net.Collections.BTreeMap
use runen_net.Input.Model.{InputWindow, span}
use runen_net.Input.Authority.{
  RetainedInput, ParticipantInputState, AuthorityInputError, AuthorityInputSession, input_bytes,
  advance_window,
}
use runen_net.Collections.HashMap.{total-get-le, get-insert}
use runen_net.Input.Authority.{
  participant_not_configured, window_minimum_regression, window_maximum_regression,
  window_exceeds_future_horizon,
}
use runen_net.Input.Retention.{
  key_count, byte_count, IsValidState, IsValidInput, with_state, with_state-IsValidInput,
  count_removed-total, input_at,
}

module _ {I : Type 0} where
  -- What `advance_window` answers, from the participant's window and limits alone.
  abbrev pub window_answer :
      Option (ParticipantInputState I) → InputWindow → Result (Unit {0}) AuthorityInputError
  window_answer none next = err participant_not_configured
  window_answer (some p) next =
      if ltb next.minimum p.window.minimum
      then err window_minimum_regression
      else if ltb next.maximum p.window.maximum
      then err window_maximum_regression
      else if ltb p.limits.max_future_tick_distance (span next)
      then err window_exceeds_future_horizon
      else ok tt

  abbrev pub advances : Option (ParticipantInputState I) → InputWindow → Bool
  advances none next = false
  advances (some p) next =
      leb p.window.minimum next.minimum
      && leb p.window.maximum next.maximum
      && leb (span next) p.limits.max_future_tick_distance

  -- A participant's state with its window moved on.
  abbrev pub moved : ParticipantInputState I → InputWindow → ParticipantInputState I
  moved p next = record p {
    window = next;
    retained = BTreeMap.split_off p.retained next.minimum;
    retained_bytes =
        p.retained_bytes
        - BTreeMap.total input_bytes (BTreeMap.range_below p.retained next.minimum);
  }

  moved-IsValidState :
      (p : ParticipantInputState I) (next : InputWindow)
      → IsValidState p
      → p.window.maximum ≤ next.maximum
      → span next ≤ p.limits.max_future_tick_distance
      → IsValidState (moved p next)
  moved-IsValidState p next v h k = record {
    sorted = BTreeMap.split_off-IsSortedFrom 0 p.retained next.minimum v.sorted;
    counted =
        omega (arith, v.counted, BTreeMap.total-split_off input_bytes p.retained next.minimum);
    keys_fit = omega (arith, v.keys_fit, BTreeMap.length-split_off p.retained next.minimum);
    bytes_fit = omega (arith, v.bytes_fit);
    from_minimum = BTreeMap.split_off-above p.retained next.minimum;
    to_maximum =
        BTreeMap.All-split_off (λ e. e.0 ≤ next.maximum) p.retained next.minimum
          (raised p.retained v.to_maximum);
    within_horizon = k;
  }
    where
      raised :
          (m : BTreeMap (RetainedInput I))
          → All (λ e. e.0 ≤ p.window.maximum) m
          → All (λ e. e.0 ≤ next.maximum) m
      raised [] a = tt
      raised (x ∷ m) a = (omega arith, raised m a.1)

  -- A window that moves forward within the horizon is taken over, and never an accounting error.
  advanced_to :
      (a : AuthorityInputSession I) (participant : ℕ) (next : InputWindow)
      (p : ParticipantInputState I)
      → IsValidInput a
      → HashMap.get a.participants participant ≡ some p
      → advances (some p) next ≡ true
      → let gone = BTreeMap.range_below p.retained next.minimum in
        let a' =
          with_state a participant
            (moved p next)
            (a.retained_keys - length gone)
            (a.retained_bytes - BTreeMap.total input_bytes gone) in
        (advance_window a participant next ≡ (a', ok tt)) × IsValidInput a'
  unfolding advance_window
  advanced_to a participant next p v h ok_window =
      let w = HashMap.All-get IsValidState a.participants participant p v.states h in
      let lengths = BTreeMap.length-split_off p.retained next.minimum in
      let totals = BTreeMap.total-split_off input_bytes p.retained next.minimum in
      let keys = total-get-le key_count a.participants participant p h in
      let bytes = total-get-le byte_count a.participants participant p h in
      let counted =
        count_removed-total (BTreeMap.range_below p.retained next.minimum) 0 0
          (omega (arith, v.keys, v.keys_fit, v.machine_keys))
          (omega (arith, v.bytes, v.bytes_fit, v.machine_bytes, w.counted)) in
      (
        rw (h, counted, advance_window) (ground (arith, v.keys, v.bytes, w.counted)),
        with_state-IsValidInput a participant p (moved p next) _ _ v h
            (moved-IsValidState p next w (ground arith) (ground arith)) (omega (arith, v.keys))
            (omega (arith, v.bytes, w.counted)) (omega (arith, v.keys_fit))
            (omega (arith, v.bytes_fit)),
      )

  refused :
      (a : AuthorityInputSession I) (participant : ℕ) (next : InputWindow)
      (o : Option (ParticipantInputState I))
      → HashMap.get a.participants participant ≡ o
      → advances o next ≡ false
      → advance_window a participant next ≡ (a, window_answer o next)
  unfolding advance_window
  refused a participant next none h e = rw (h, advance_window) refl
  refused a participant next (some p) h e = rw (h, advance_window) (ground arith)

  -- In a valid state `advance_window` answers by the participant's window and limits alone, never with
  -- an accounting error. It keeps the state valid. If it succeeds, exactly the participant's inputs
  -- below the new minimum are gone; otherwise every input is as before.
  pub advance_window-answer :
      (a : AuthorityInputSession I) (participant : ℕ) (next : InputWindow)
      → IsValidInput a
      → let before = HashMap.get a.participants participant in
        let after = (advance_window a participant next).0 in
        ((advance_window a participant next).1 ≡ window_answer before next)
        × IsValidInput after
        × ((q tick : ℕ)
            → input_at after q tick ≡ (
                if advances before next && participant == q && ltb tick next.minimum
                then none
                else input_at a q tick))
  advance_window-answer a participant next v =
      by_state (HashMap.get a.participants participant)
        (advances (HashMap.get a.participants participant) next) refl refl
    where
      Goal : Option (ParticipantInputState I) → Type 0
      Goal o =
          ((advance_window a participant next).1 ≡ window_answer o next)
          × IsValidInput (advance_window a participant next).0
          × ((q tick : ℕ)
              → input_at (advance_window a participant next).0 q tick ≡ (
                  if advances o next && participant == q && ltb tick next.minimum
                  then none
                  else input_at a q tick))

      by_state :
          (o : Option (ParticipantInputState I)) (b : Bool)
          → HashMap.get a.participants participant ≡ o
          → advances o next ≡ b
          → Goal o
      by_state o false h e = rw (refused a participant next o h e) (refl, v, λ q tick. rw e refl)
      by_state none true h e = absurd (ground arith)
      by_state (some p) true h e =
          let (done, valid) = advanced_to a participant next p v h e in
          rw done (
            ground arith,
            valid,
            λ q tick. ground (
              arith,
              get-insert a.participants participant q (moved p next),
              BTreeMap.get-split_off p.retained next.minimum tick,
            ),
          )
