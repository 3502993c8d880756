-- ===== src/Input/Prediction/History.antt =====
-- input/prediction.rs: histories of calls on one lineage's predictions.
use runen_net.Prelude.{
  ℕ, ◌≡◌, refl, sym, if◌then◌else◌, true, false, Option, none, some, List, [], ◌∷◌, nat_eq, Eq,
  is_some, arith, Bool-cases, Option-cases, inl, inr, All, Result, ok, err,
}
use runen_net.Identity.{SimulationTick}
use runen_net.Replication.Model.{key_eq}
use runen_net.Collections.BTreeMap
use runen_net.Replication.Client.Lineage.{
  ClientLineage, ClientRecoveryReason, connection_replacement, is_synchronized, current_tick,
  current_retained, tick_of,
}
use runen_net.Replication.Client.Sets.{
  ClientReplicationSet, ClientSetError, lineage, require_connection_replacement_full,
}
use runen_net.Replication.Client.Aggregate.{IsValidSet}
use runen_net.Input.Prediction.State.{
  PredictionLineage, PredictionState, active, invalidated, PredictionInvalidationReason,
  replication_recovery, initial_baseline, connection_loss, local_application_failure,
  replay_failure, participant_membership_ended, session_closed, frontier, terminal, terminal_reason,
  PredictionActivationError,
}
use runen_net.Input.Prediction.Lineage.{
  is_host_failure, behind, boundary_or, boundary_of, admit_active, admit_in, admit_local, terminate,
  connection_lost, local_application_failed, invalidate_for_recovery, end_membership, close_session,
  replace_connection, activated, restore_at, confirm_host_restored,
}
use runen_net.Input.Prediction.Observation.{observe_replication}
use runen_net.Input.Prediction.Validity.{
  IsValid, empty-IsValid, noted-IsValid, terminate-IsValid, invalidate_unless_terminal-IsValid,
  admit_local-IsValid,
}
use runen_net.Input.Prediction.Progress.{
  Advances, same-Advances, transitive-Advances, active-Advances,
  invalidate_unless_terminal-Advances,
}
use runen_net.Input.Prediction.Soundness.{observe_replication-IsSound}
use mathlib.Core.Path.{subst}

-- A call of the host, with the client's replication set where it shows one.
pub data Call (I S : Type 0) : Type 0 where
  admits : SimulationTick → I → ℕ → Call I S
  loses_connection fails_locally ends_membership closes_session : Call I S
  recovers : ClientRecoveryReason → Call I S
  reconnects confirms observes : ClientReplicationSet S → Call I S

host_failure-terminal :
    (s : PredictionState) → is_host_failure s ≡ true → is_some (terminal_reason s) ≡ false
host_failure-terminal (active f) h = refl
host_failure-terminal (invalidated initial_baseline f) h = refl
host_failure-terminal (invalidated (replication_recovery r) f) h = refl
host_failure-terminal (invalidated connection_loss f) h = refl
host_failure-terminal (invalidated local_application_failure f) h = refl
host_failure-terminal (invalidated replay_failure f) h = refl
host_failure-terminal (invalidated participant_membership_ended f) h = absurd (cc)
host_failure-terminal (invalidated session_closed f) h = absurd (cc)

module _ {I : Type 0} where
  terminate-Advances :
      (p : PredictionLineage I) (reason : PredictionInvalidationReason)
      → is_some (terminal reason) ≡ true
      → Advances p.state (terminate p reason).state
  unfolding terminate
  terminate-Advances p reason h = record { final = λ e. h; onward = inl h }

  admit_local-Advances :
      ⦃e : Eq I⦄ (p : PredictionLineage I) (target : ℕ) (input : I) (bytes : ℕ)
      → Advances p.state (admit_local p target input bytes).0.state
  unfolding admit_in admit_active
  admit_local-Advances p target input bytes =
      subst (Advances p.state) (sym (same_state p.state)) (same-Advances p.state)
    where
      same_state : (s : PredictionState) → (admit_in p s target input bytes).0.state ≡ p.state
      same_state (active f) = ground arith
      same_state (invalidated reason f) = refl

  replace_connection-keeps :
      {S : Type 0} (p : PredictionLineage I) (set : ClientReplicationSet S)
      → IsValid p
      → IsValid (replace_connection p set).0.0
        × Advances p.state (replace_connection p set).0.0.state
  unfolding replace_connection
  replace_connection-keeps {S = S} p set v =
      by_result (require_connection_replacement_full set p.key) refl
    where
      by_result :
          (r : Result (ClientReplicationSet S) ClientSetError)
          → require_connection_replacement_full set p.key ≡ r
          → IsValid (replace_connection p set).0.0
            × Advances p.state (replace_connection p set).0.0.state
      by_result (err e) q = rw (q, replace_connection) (v, same-Advances p.state)
      by_result (ok set') q =
          let boundary =
            boundary_or (boundary_of (lineage set' p.key)) p.last_observed_recovery_boundary in
          let noted = record p { last_observed_recovery_boundary = boundary } in
          rw (q, replace_connection)
            (
              invalidate_unless_terminal-IsValid noted (replication_recovery connection_replacement)
                  refl (noted-IsValid p p.last_observed_commit boundary v),
              invalidate_unless_terminal-Advances noted
                  (replication_recovery connection_replacement),
            )

  -- A call that may panic returns, keeps the prediction valid and advances it.
  abbrev pub Keeps : {A : Type 0} → PredictionLineage I → Option (PredictionLineage I × A) → Type 0
  Keeps {A = A} p o =
      (p' : PredictionLineage I) × (a : A) × (o ≡ some (p', a))
      × IsValid p'
      × Advances p.state p'.state

  restore_at-Keeps :
      {S : Type 0} (p : PredictionLineage I) (l : ClientLineage S) (tick : ℕ)
      → is_some (terminal_reason p.state) ≡ false
      → current_tick l ≡ some tick
      → IsValid p
      → Keeps p (restore_at p l tick)
  unfolding restore_at current_tick current_retained
  restore_at-Keeps p l tick t c v = by_current l.current refl
    where
      boundary : Option ℕ
      boundary = boundary_or l.latest_recovery_boundary p.last_observed_recovery_boundary

      by_current :
          (o : Option ℕ)
          → l.current ≡ o
          → Keeps {A = Result SimulationTick PredictionActivationError} p (elim o [
            | none ↦ none
            | some cursor ↦
                if behind tick (frontier p.state)
                then some (p, err PredictionActivationError.frontier_regression)
                else some (
                  record (activated p tick cursor) { last_observed_recovery_boundary = boundary },
                  ok tick,
                )
          ])
      by_current none e = absurd (
          cc (
            subst
              (λ o.
                tick_of (elim o [ none ↦ none | some current ↦ BTreeMap.get l.retained current ])
                ≡ some tick)
              e c))
      by_current (some cursor) e = elim (Bool-cases (behind tick (frontier p.state))) [
        | inl b ↦ (
          p,
          err PredictionActivationError.frontier_regression,
          rw b refl,
          v,
          same-Advances p.state,
        )
        | inr b ↦ (
          record (activated p tick cursor) { last_observed_recovery_boundary = boundary },
          ok tick,
          rw b refl,
          empty-IsValid p (active tick) (some cursor) boundary v (λ h. absurd (cc)),
          active-Advances p.state tick t b,
        )
      ]

  confirm_host_restored-Keeps :
      {S : Type 0} (p : PredictionLineage I) (set : ClientReplicationSet S)
      → IsValid p
      → Keeps p (confirm_host_restored p set)
  unfolding confirm_host_restored
  confirm_host_restored-Keeps {S = S} p set v = elim (Option-cases (lineage set p.key)) [
    | inl h ↦ (
      p,
      err PredictionActivationError.replication_lineage_missing,
      rw (h, confirm_host_restored) refl,
      v,
      same-Advances p.state,
    )
    | inr (l, h) ↦ elim (Bool-cases (is_host_failure p.state)) [
      | inr f ↦ (
        p,
        err PredictionActivationError.not_host_state_failure,
        rw (h, f, confirm_host_restored) refl,
        v,
        same-Advances p.state,
      )
      | inl f ↦ elim (Bool-cases (is_synchronized l.state)) [
        | inr s ↦ (
          p,
          err PredictionActivationError.replication_not_synchronized,
          rw (h, f, s, confirm_host_restored) refl,
          v,
          same-Advances p.state,
        )
        | inl s ↦ elim (Option-cases (current_tick l)) [
          | inl c ↦ (
            p,
            err PredictionActivationError.missing_committed_tick,
            rw (h, f, s, c, confirm_host_restored) refl,
            v,
            same-Advances p.state,
          )
          | inr (tick, c) ↦
              rw (h, f, s, c, confirm_host_restored)
                (restore_at-Keeps p l tick (host_failure-terminal p.state f) c v)
        ]
      ]
    ]
  ]

module _ {I S W E : Type 0} ⦃e : Eq I⦄ (replay : W → ℕ → I → W × Result (Unit {0}) E) where
  -- The sets that are observed are valid.
  abbrev pub IsTyped : Call I S → Type 0
  IsTyped (observes set) = IsValidSet set
  IsTyped other = Unit

  -- `none` is a panic. The world is the host's, which replays change.
  unfoldable pub step : PredictionLineage I → W → Call I S → Option (PredictionLineage I × W)
  step p world (admits target input bytes) = some ((admit_local p target input bytes).0, world)
  step p world loses_connection = some (connection_lost p, world)
  step p world fails_locally = some (local_application_failed p, world)
  step p world ends_membership = some (end_membership p, world)
  step p world closes_session = some (close_session p, world)
  step p world (recovers reason) = some (invalidate_for_recovery p reason, world)
  step p world (reconnects set) = some ((replace_connection p set).0.0, world)
  step p world (confirms set) = elim (confirm_host_restored p set) [
    | none ↦ none
    | some (p', result) ↦ some (p', world)
  ]
  step p world (observes set) =
      let (p', world', result) = observe_replication replay p world set in some (p', world')

  unfoldable pub run : PredictionLineage I → W → List (Call I S) → Option (PredictionLineage I × W)
  run p world [] = some (p, world)
  run p world (call ∷ calls) = elim (step p world call) [
    | none ↦ none
    | some (p', world') ↦ run p' world' calls
  ]

  step-Keeps :
      (p : PredictionLineage I) (world : W) (call : Call I S)
      → IsTyped call
      → IsValid p
      → Keeps p (step p world call)
  unfolding step
  step-Keeps p world (admits target input bytes) t v = (
    _,
    _,
    refl,
    admit_local-IsValid p target input bytes v,
    admit_local-Advances p target input bytes,
  )
  step-Keeps p world loses_connection t v = (
    _,
    _,
    refl,
    invalidate_unless_terminal-IsValid p connection_loss refl v,
    invalidate_unless_terminal-Advances p connection_loss,
  )
  step-Keeps p world fails_locally t v = (
    _,
    _,
    refl,
    invalidate_unless_terminal-IsValid p local_application_failure refl v,
    invalidate_unless_terminal-Advances p local_application_failure,
  )
  step-Keeps p world ends_membership t v = (
    _,
    _,
    refl,
    terminate-IsValid p participant_membership_ended v,
    terminate-Advances p participant_membership_ended refl,
  )
  step-Keeps p world closes_session t v =
      (_, _, refl, terminate-IsValid p session_closed v, terminate-Advances p session_closed refl)
  step-Keeps p world (recovers reason) t v = (
    _,
    _,
    refl,
    invalidate_unless_terminal-IsValid p (replication_recovery reason) refl v,
    invalidate_unless_terminal-Advances p (replication_recovery reason),
  )
  step-Keeps p world (reconnects set) t v =
      let kept = replace_connection-keeps p set v in (_, _, refl, kept.0, kept.1)
  step-Keeps p world (confirms set) t v =
      let (p', result, q, valid, advances) = confirm_host_restored-Keeps p set v in
      (p', world, rw (q, step) refl, valid, advances)
  step-Keeps p world (observes set) t v =
      let sound = observe_replication-IsSound replay p world set v t in
      (_, _, refl, sound.valid, sound.advances)

  -- Any history of calls on a valid prediction, with valid client sets, runs without a panic and leaves a
  -- valid prediction: the pending inputs are counted, within their limits and ahead of the frontier. An end
  -- is final, and the frontier of a prediction that has not ended has not gone back.
  pub run-Keeps :
      (calls : List (Call I S)) (p : PredictionLineage I) (world : W)
      → All IsTyped calls
      → IsValid p
      → Keeps p (run p world calls)
  unfolding run
  run-Keeps [] p world t v = (p, world, refl, v, same-Advances p.state)
  run-Keeps (call ∷ calls) p world t v =
      let (p', world', q, valid, advances) = step-Keeps p world call t.0 v in
      let (last, world'', r, valid', advances') = run-Keeps calls p' world' t.1 valid in
      (
        last,
        world'',
        rw (q, run) r,
        valid',
        transitive-Advances p.state p'.state last.state advances advances',
      )
