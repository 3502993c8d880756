-- ===== src/Session/History.antt =====
-- session.rs: histories of calls on one session, from `Session::new`.
use runen_net.Prelude.{
  ℕ, refl, Bool, true, false, List, [], ◌∷◌, arith, nat_eq, Result, ok, err, All,
}
use runen_net.Collections.HashMap.{HashMap, Distinct, get-insert, get-remove}
use runen_net.Collections.HashMap
use runen_net.Session.State.{Session, SessionLimits, RetentionPolicy, new}
use runen_net.Session.Operations.{
  admit_new, connection_lost, remove_participant, bind_replacement, advance_recovery_clock, close,
}
use runen_net.Session.Invariant.{IsValid}
use runen_net.Session.Binding.{admit_new-IsValid, bind_replacement-IsValid}
use runen_net.Session.Ending.{IsPositive, connection_lost-IsValid, remove_participant-IsValid}
use runen_net.Session.Expiry.{advance-IsValid}

pub data Call : Type 0 where
  admits rebinds : (participant connection : ℕ) → Call
  loses : (participant connection : ℕ) → RetentionPolicy → Call
  removes advances : ℕ → Call
  closes : Call

-- Durations are positive, as their type says.
abbrev pub IsTyped : Call → Type 0
IsTyped (loses p c policy) = IsPositive policy
IsTyped other = Unit

unfoldable pub step : Session → Call → Session
step s (admits p c) = (admit_new s p c).0
step s (rebinds p c) = (bind_replacement s p c).0
step s (loses p c policy) = (connection_lost s p c policy).0
step s (removes p) = (remove_participant s p).0
step s (advances now) = (advance_recovery_clock s now).0
step s closes = close s

abbrev pub is_err {ℓ κ} : {A : Type ℓ} {E : Type κ} → Result A E → Bool
is_err (ok a) = false
is_err (err e) = true

unfoldable pub fails : Session → Call → Bool
fails s (admits p c) = is_err (admit_new s p c).1
fails s (rebinds p c) = is_err (bind_replacement s p c).1
fails s (loses p c policy) = is_err (connection_lost s p c policy).1
fails s (removes p) = is_err (remove_participant s p).1
fails s (advances now) = is_err (advance_recovery_clock s now).1
fails s closes = false

unfoldable pub run : Session → List Call → Session
run s [] = s
run s (call ∷ calls) = run (step s call) calls

new-IsValid : (id : ℕ) (limits : SessionLimits) → IsValid (new id limits)
unfolding new HashMap.get
new-IsValid id limits = record {
  linked = λ p c. refl;
  known = λ p h. absurd (ground arith);
  pending = λ p. refl;
  distinct = tt;
  members_fit = omega arith;
  claims_fit = omega arith;
  claim_limit = refl;
  emptied = λ h. absurd (ground arith);
}

close-IsValid : (s : Session) → IsValid s → IsValid (close s)
unfolding close HashMap.get
close-IsValid s v = record {
  linked = λ p c. refl;
  known = λ p h. absurd (ground arith);
  pending = λ p. refl;
  distinct = tt;
  members_fit = omega arith;
  claims_fit = v.claims_fit;
  claim_limit = v.claim_limit;
  emptied = λ h. (refl, refl);
}

pub step-IsValid : (s : Session) (call : Call) → IsTyped call → IsValid s → IsValid (step s call)
unfolding step
step-IsValid s (admits p c) t v = admit_new-IsValid s p c v
step-IsValid s (rebinds p c) t v = bind_replacement-IsValid s p c v
step-IsValid s (loses p c policy) t v = connection_lost-IsValid s p c policy t v
step-IsValid s (removes p) t v = remove_participant-IsValid s p v
step-IsValid s (advances now) t v = advance-IsValid s now v
step-IsValid s closes t v = close-IsValid s v

run-IsValid :
    (calls : List Call) (s : Session) → All IsTyped calls → IsValid s → IsValid (run s calls)
unfolding run
run-IsValid [] s t v = v
run-IsValid (call ∷ calls) s t v = run-IsValid calls (step s call) t.1 (step-IsValid s call t.0 v)

-- After any history of well-typed calls from `Session::new` the invariant `IsValid` holds:
-- bindings and bound memberships mirror each other, every member's identity is recorded as used,
-- no retained membership has run out, both limits are respected, and a closed session is empty.
pub run-new-IsValid :
    (id : ℕ) (limits : SessionLimits) (calls : List Call)
    → All IsTyped calls
    → IsValid (run (new id limits) calls)
run-new-IsValid id limits calls t = run-IsValid calls (new id limits) t (new-IsValid id limits)
