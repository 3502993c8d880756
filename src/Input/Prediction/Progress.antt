-- ===== src/Input/Prediction/Progress.antt =====
-- input/prediction.rs: what observations of a valid client's lineage keep of a prediction.
use runen_net.Prelude.{
  ◌⊎◌, ℕ, suc, ◌≤◌, ◌≡◌, refl, Bool, true, false, Option, none, some, [], ◌∷◌, nat_eq, is_some,
  arith, Option-cases, inl, inr, Result, err,
}
use runen_net.Collections.BTreeMap.{BTreeMap, total, split_off}
use runen_net.Collections.BTreeMap
use runen_net.Replication.Model.{key_eq}
use runen_net.Input.Prediction.State.{
  PredictionLineage, PredictionState, active, PredictionInvalidationReason, PendingInput, frontier,
  terminal_reason, PredictionReconciliationOutcome, PredictionReconciliationError,
  accounting_invariant_violation, missing_committed_tick,
}
use runen_net.Input.Prediction.Lineage.{behind, invalidate, invalidate_unless_terminal}
use runen_net.Input.Prediction.Validity.{IsValid, IsAhead, pending_size}
use runen_net.Input.Prediction.Reconciliation.{advanced}
use mathlib.Core.Path.{subst}

abbrev pub NotBehind : Option ℕ → Option ℕ → Type 0
NotBehind none g = Unit
NotBehind (some f) none = ⊥
NotBehind (some f) (some g) = f ≤ g

-- A terminal state stays one, and without one a frontier does not go back.
pub record Advances (s s' : PredictionState) : Type 0 where
  pub final : is_some (terminal_reason s) ≡ true → is_some (terminal_reason s') ≡ true
  pub onward : (is_some (terminal_reason s') ≡ true) ⊎ NotBehind (frontier s) (frontier s')

reflexive-NotBehind : (o : Option ℕ) → NotBehind o o
reflexive-NotBehind none = tt
reflexive-NotBehind (some f) = omega arith

transitive-NotBehind : (a b c : Option ℕ) → NotBehind a b → NotBehind b c → NotBehind a c
transitive-NotBehind none b c h k = tt
transitive-NotBehind (some f) none c h k = absurd h
transitive-NotBehind (some f) (some g) none h k = absurd k
transitive-NotBehind (some f) (some g) (some i) h k = omega arith

pub same-Advances : (s : PredictionState) → Advances s s
same-Advances s = record { final = λ h. h; onward = inr (reflexive-NotBehind (frontier s)) }

pub transitive-Advances : (a b c : PredictionState) → Advances a b → Advances b c → Advances a c
transitive-Advances a b c x y = record {
  final = λ h. y.final (x.final h);
  onward = both x.onward y.onward;
}
  where
    both :
        (is_some (terminal_reason b) ≡ true) ⊎ NotBehind (frontier a) (frontier b)
        → (is_some (terminal_reason c) ≡ true) ⊎ NotBehind (frontier b) (frontier c)
        → (is_some (terminal_reason c) ≡ true) ⊎ NotBehind (frontier a) (frontier c)
    both h (inl k) = inl k
    both (inl h) (inr k) = inl (y.final h)
    both (inr h) (inr k) = inr (transitive-NotBehind (frontier a) (frontier b) (frontier c) h k)

-- From a state that is not terminal to a tick that is not behind.
pub active-Advances :
    (s : PredictionState) (tick : ℕ)
    → is_some (terminal_reason s) ≡ false
    → behind tick (frontier s) ≡ false
    → Advances s (active tick)
active-Advances s tick t h = record {
  final = λ e. absurd (cc);
  onward = inr (up_to (frontier s) h);
}
  where
    up_to : (o : Option ℕ) → behind tick o ≡ false → NotBehind o (some tick)
    up_to none h = tt
    up_to (some f) h = ground arith

-- Results that would show a broken invariant.
abbrev pub is_defect :
    {E : Type 0} → Result PredictionReconciliationOutcome (PredictionReconciliationError E) → Bool
is_defect (err accounting_invariant_violation) = true
is_defect (err missing_committed_tick) = true
is_defect other = false

module _ {I : Type 0} where
  pub invalidate-Advances :
      (p : PredictionLineage I) (reason : PredictionInvalidationReason)
      → is_some (terminal_reason p.state) ≡ false
      → Advances p.state (invalidate p reason).state
  unfolding invalidate
  invalidate-Advances p reason t = record {
    final = λ e. absurd (cc);
    onward = inr (reflexive-NotBehind (frontier p.state));
  }

  pub invalidate_unless_terminal-Advances :
      (p : PredictionLineage I) (reason : PredictionInvalidationReason)
      → Advances p.state (invalidate_unless_terminal p reason).state
  unfolding invalidate_unless_terminal
  invalidate_unless_terminal-Advances p reason = elim (Option-cases (terminal_reason p.state)) [
    | inl e ↦ rw (e, invalidate_unless_terminal) (invalidate-Advances p reason (rw e refl))
    | inr (t, e) ↦ rw (e, invalidate_unless_terminal) (same-Advances p.state)
  ]

  kept-IsAhead :
      (d f tick : ℕ) (m : BTreeMap (PendingInput I))
      → f ≤ tick
      → IsAhead d (active f) m
      → IsAhead d (active tick) (split_off m (suc tick))
  unfolding split_off
  kept-IsAhead d f tick [] h a = tt
  kept-IsAhead d f tick ((t, i) ∷ m) h a =
      let rest = kept-IsAhead d f tick m h a.1 in ground (arith, rest)

  pub advanced-IsValid :
      (p : PredictionLineage I) (cursor tick f : ℕ)
      → IsValid p
      → p.state ≡ active f
      → f ≤ tick
      → IsValid (advanced p cursor tick)
  advanced-IsValid p cursor tick f v s h = record {
    sorted = BTreeMap.split_off-IsSortedFrom 0 p.pending (suc tick) v.sorted;
    counted = refl;
    few = omega (arith, v.few, BTreeMap.length-split_off-le p.pending (suc tick));
    within_bytes = omega (
      arith,
      v.within_bytes,
      v.counted,
      BTreeMap.total-split_off pending_size p.pending (suc tick),
    );
    count_machine = v.count_machine;
    bytes_machine = v.bytes_machine;
    ahead =
        kept-IsAhead p.limits.max_future_tick_distance f tick p.pending h
          (subst (λ x. IsAhead p.limits.max_future_tick_distance x p.pending) s v.ahead);
    ended = λ e. absurd (cc);
  }
