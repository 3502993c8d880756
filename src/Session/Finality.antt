-- ===== src/Session/Finality.antt =====
-- session.rs: used identities, and closed sessions.
use runen_net.Prelude.{
  Bool, not, ℕ, ◌≡◌, ◌≢◌, refl, true, false, some, List, [], ◌∷◌, arith, nat_eq, ok, Option-cases,
  inl, inr,
}
use runen_net.Collections.HashMap.{HashMap, Distinct, get-insert, get-remove}
use runen_net.Collections.HashMap
use runen_net.Collections.HashSet.{contains-insert}
use runen_net.Session.State.{
  Session, MembershipState, bound, unbound, MembershipRecord, terminate, retain_for_recovery,
  is_authorized,
}
use runen_net.Identity
use runen_net.Session.Operations.{
  admit_new, connection_lost, remove_participant, bind_replacement, advance_recovery_clock, close,
}
use runen_net.Session.History.{
  Call, admits, rebinds, loses, removes, advances, closes, step, fails, run,
}

bind_replacement-used :
    (s : Session) (p c : ℕ) → (bind_replacement s p c).0.used_participants ≡ s.used_participants
unfolding bind_replacement
bind_replacement-used s p c = elim (Option-cases (HashMap.get s.memberships p)) [
  | inl h ↦ ground arith
  | inr (r, h) ↦ by_state r r.state h refl
]
  where
    by_state :
        (r : MembershipRecord) (m : MembershipState)
        → HashMap.get s.memberships p ≡ some r
        → r.state ≡ m
        → (bind_replacement s p c).0.used_participants ≡ s.used_participants
    by_state r (bound d) h q = ground arith
    by_state r (unbound t) h q = ground arith

Marked : ℕ → Session → Type 0
Marked p s = Identity.contains s.used_participants p ≡ true

step-Marked : (p : ℕ) (s : Session) (call : Call) → Marked p s → Marked p (step s call)
unfolding step Marked
step-Marked p s (admits q c) h =
    unfold admit_new Identity.claim in ground (arith, contains-insert s.used_participants.used q p)
step-Marked p s (rebinds q c) h = bind_keeps
  where
    bind_keeps : Identity.contains (bind_replacement s q c).0.used_participants p ≡ true
    bind_keeps = rw (bind_replacement-used s q c) h
step-Marked p s (loses q c terminate) h = unfold connection_lost in ground arith
step-Marked p s (loses q c (retain_for_recovery d)) h = unfold connection_lost in ground arith
step-Marked p s (removes q) h = unfold remove_participant in ground arith
step-Marked p s (advances now) h = unfold advance_recovery_clock in ground arith
step-Marked p s closes h = unfold close in h

run-Marked : (p : ℕ) (calls : List Call) (s : Session) → Marked p s → Marked p (run s calls)
unfolding run
run-Marked p [] s h = h
run-Marked p (call ∷ calls) s h = run-Marked p calls (step s call) (step-Marked p s call h)

-- Once a participant has been admitted, no later admission of that identity succeeds, after
-- whatever calls and on whatever connection, and each such attempt changes nothing.
pub readmission_refused :
    (s : Session) (p c d : ℕ) (calls : List Call)
    → (admit_new s p c).1 ≡ ok tt
    → let t = run (admit_new s p c).0 calls in
      ((admit_new t p d).0 ≡ t) × ((admit_new t p d).1 ≢ ok tt)
readmission_refused s p c d calls e =
    let t = run (admit_new s p c).0 calls in
    refused t (run-Marked p calls (admit_new s p c).0 first)
  where
    first : Marked p (admit_new s p c).0
    first =
        unfold Marked admit_new Identity.claim in
        ground (arith, contains-insert s.used_participants.used p p)

    refused : (t : Session) → Marked p t → ((admit_new t p d).0 ≡ t) × ((admit_new t p d).1 ≢ ok tt)
    refused t h = unfold Marked admit_new in (ground arith, ground arith)

step-close : (s : Session) (call : Call) → step (close s) call ≡ close s
unfolding step close
step-close s (admits p c) = unfold admit_new in refl
step-close s (rebinds p c) = unfold bind_replacement in refl
step-close s (loses p c policy) = unfold connection_lost in refl
step-close s (removes p) = unfold remove_participant in refl
step-close s (advances now) = unfold advance_recovery_clock in refl
step-close s closes = refl

run_fixed :
    (s : Session) → ((call : Call) → step s call ≡ s) → (calls : List Call) → run s calls ≡ s
unfolding run
run_fixed s h [] = refl
run_fixed s h (call ∷ calls) = rw (h call) (run_fixed s h calls)

abbrev pub is_close : Call → Bool
is_close closes = true
is_close other = false

-- A closed session stays as `close` left it under every further history, authorizes nobody, and
-- refuses every call but another `close`.
pub run-close :
    (s : Session) (calls : List Call)
    → (run (close s) calls ≡ close s)
      × ((p c : ℕ) → is_authorized (run (close s) calls) p c ≡ false)
      × ((call : Call) → fails (run (close s) calls) call ≡ not (is_close call))
run-close s calls = (
  closed_run calls,
  (λ p c. rw (closed_run calls) (unauthorized p c)),
  λ call. rw (closed_run calls) (refuses call),
)
  where
    closed_run : (cs : List Call) → run (close s) cs ≡ close s
    closed_run cs = run_fixed (close s) (step-close s) cs

    unauthorized : (p c : ℕ) → is_authorized (close s) p c ≡ false
    unauthorized p c = unfold is_authorized close HashMap.get in refl

    refuses : (call : Call) → fails (close s) call ≡ not (is_close call)
    refuses (admits p c) = unfold fails admit_new close in refl
    refuses (rebinds p c) = unfold fails bind_replacement close in refl
    refuses (loses p c policy) = unfold fails connection_lost close in refl
    refuses (removes p) = unfold fails remove_participant close in refl
    refuses (advances now) = unfold fails advance_recovery_clock close in refl
    refuses closes = unfold fails in refl
