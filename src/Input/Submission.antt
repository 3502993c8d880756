-- ===== src/Input/Submission.antt =====
-- input/authority.rs: `submit`.
use runen_net.Prelude.{
  ℕ, ◌+◌, ◌≤◌, ◌<◌, ◌≡◌, refl, Bool, true, false, not, ◌&&◌, Option, none, some, if◌then◌else◌, ltb,
  leb, Eq, ◌==◌, nat_eq, length, Result, ok, arith, checked_add, Option-cases, Bool-cases, inl, inr,
  ◌⊎◌,
}
use runen_net.Collections.HashMap.{
  HashMap, total-insert_present, total-insert_absent, Distinct, insert-Distinct,
}
use runen_net.Collections.HashMap
use runen_net.Collections.BTreeMap.{BTreeMap}
use runen_net.Collections.BTreeMap
use runen_net.Session.State.{Session, is_authorized}
use runen_net.Input.Model.{AuthorityInputOutcome, input_accepted}
use runen_net.Input.Authority.{
  RetainedInput, ParticipantInputState, AuthorityInputError, AuthorityInputSession, is_session,
  input_bytes, submit, exceeds,
}
use runen_net.Collections.HashMap.{get-insert}
use runen_net.Input.Retention.{
  IsValidState, IsValidInput, with_state, with_state-IsValidInput, input_at,
}

abbrev pub is_accepted : Result AuthorityInputOutcome AuthorityInputError → Bool
is_accepted (ok input_accepted) = true
is_accepted other = false

module _ {I : Type 0} where
  abbrev pub entry : I → ℕ → RetainedInput I
  entry input bytes = record { value = input; accounted_bytes = bytes }

  -- A participant's state with one more input.
  abbrev pub holding : ParticipantInputState I → ℕ → I → ℕ → ParticipantInputState I
  holding p tick input bytes = record p {
    retained = BTreeMap.insert p.retained tick (entry input bytes);
    retained_bytes = p.retained_bytes + bytes;
  }

  -- The conditions under which a participant's input may be retained.
  pub record IsAdmissible (a : AuthorityInputSession I) (p : ParticipantInputState I)
      (tick bytes : ℕ) : Type 0 where
    pub vacant : BTreeMap.get p.retained tick ≡ none
    pub above : p.window.minimum ≤ tick
    pub below : tick ≤ p.window.maximum
    pub batch_fits : bytes ≤ p.limits.max_batch_bytes
    pub key_fits : length p.retained < p.limits.max_retained_keys_per_participant
    pub bytes_fit : p.retained_bytes + bytes ≤ p.limits.max_retained_bytes_per_participant
    pub all_keys_fit : a.retained_keys + 1 ≤ a.limits.max_retained_keys
    pub all_bytes_fit : a.retained_bytes + bytes ≤ a.limits.max_retained_bytes

  holding-IsValidState :
      (a : AuthorityInputSession I) (p : ParticipantInputState I) (tick : ℕ) (input : I) (bytes : ℕ)
      → IsValidState p
      → IsAdmissible a p tick bytes
      → IsValidState (holding p tick input bytes)
  holding-IsValidState a p tick input bytes v h = record {
    sorted =
        BTreeMap.insert-IsSortedFrom 0 p.retained tick (entry input bytes) (omega arith) v.sorted;
    counted = omega (
      arith,
      v.counted,
      BTreeMap.total-insert_absent input_bytes p.retained tick (entry input bytes) h.vacant,
    );
    keys_fit = omega (
      arith,
      h.key_fits,
      BTreeMap.length-insert_absent p.retained tick (entry input bytes) h.vacant,
    );
    bytes_fit = h.bytes_fit;
    from_minimum =
        BTreeMap.All-insert (λ e. p.window.minimum ≤ e.0) p.retained tick (entry input bytes)
          h.above v.from_minimum;
    to_maximum =
        BTreeMap.All-insert (λ e. e.0 ≤ p.window.maximum) p.retained tick (entry input bytes)
          h.below v.to_maximum;
    within_horizon = v.within_horizon;
  }

module _ {I : Type 0} ⦃e : Eq I⦄ where
  -- Either nothing changes and the input is not accepted, or it is retained and was admissible.
  abbrev pub IsSubmission :
      AuthorityInputSession I
      → Session
      → ℕ
      → ℕ
      → ℕ
      → I
      → ℕ
      → AuthorityInputSession I × Result AuthorityInputOutcome AuthorityInputError
      → Type 0
  IsSubmission a s participant connection tick input bytes r =
      ((r.0 ≡ a) × (is_accepted r.1 ≡ false))
      ⊎ ((p : ParticipantInputState I) × (HashMap.get a.participants participant ≡ some p)
          × (s.id ≡ a.session)
          × (is_authorized s participant connection ≡ true)
          × IsAdmissible a p tick bytes
          × (r ≡ (
            with_state a participant (holding p tick input bytes) (a.retained_keys + 1)
                (a.retained_bytes + bytes),
            ok input_accepted,
          )))

  submit-IsSubmission :
      (a : AuthorityInputSession I) (s : Session) (participant connection tick : ℕ) (input : I)
      (bytes : ℕ)
      → IsSubmission a s participant connection tick input bytes
          (submit a s participant connection tick input bytes)
  unfolding submit
  submit-IsSubmission a s participant connection tick input bytes =
      configured (HashMap.get a.participants participant) refl
    where
      Goal : Type 0
      Goal =
          IsSubmission a s participant connection tick input bytes
            (submit a s participant connection tick input bytes)

      room : ParticipantInputState I → Bool
      room p =
          leb tick p.window.maximum
          && leb bytes p.limits.max_batch_bytes
          && ltb (length p.retained) p.limits.max_retained_keys_per_participant
          && ltb a.retained_keys a.limits.max_retained_keys
          && not (
              exceeds (checked_add p.retained_bytes bytes)
                p.limits.max_retained_bytes_per_participant)
          && not (exceeds (checked_add a.retained_keys 1) a.limits.max_retained_keys)
          && not (exceeds (checked_add a.retained_bytes bytes) a.limits.max_retained_bytes)

      fitting :
          (p : ParticipantInputState I)
          → HashMap.get a.participants participant ≡ some p
          → BTreeMap.get p.retained tick ≡ none
          → (is_session a s ≡ true)
          → is_authorized s participant connection ≡ true
          → ltb tick p.window.minimum ≡ false
          → Goal
      fitting p h q k auth low = elim (Bool-cases (room p)) [
        | inl f ↦ inr (
          p,
          h,
          ground (arith),
          auth,
          record {
            vacant = q;
            above = ground arith;
            below = ground arith;
            batch_fits = ground arith;
            key_fits = ground arith;
            bytes_fit = ground arith;
            all_keys_fit = ground arith;
            all_bytes_fit = ground arith;
          },
          rw (k, auth, h, q, low, submit) (ground arith),
        )
        | inr f ↦ inl (
          rw (k, auth, h, q, low, submit) (ground arith),
          rw (k, auth, h, q, low, submit) (ground arith),
        )
      ]

      configured :
          (o : Option (ParticipantInputState I)) → HashMap.get a.participants participant ≡ o → Goal
      configured none h = inl (rw (h, submit) (ground arith), rw (h, submit) (ground arith))
      configured (some p) h = elim (Bool-cases (is_session a s)) [
        | inr k ↦ inl (rw (k, submit) refl, rw (k, submit) refl)
        | inl k ↦ elim (Bool-cases (is_authorized s participant connection)) [
          | inr auth ↦ inl (rw (k, auth, submit) refl, rw (k, auth, submit) refl)
          | inl auth ↦ elim (Bool-cases (ltb tick p.window.minimum)) [
            | inl low ↦ inl (rw (k, auth, h, low, submit) refl, rw (k, auth, h, low, submit) refl)
            | inr low ↦ elim (Option-cases (BTreeMap.get p.retained tick)) [
              | inr (old, q) ↦ inl (
                rw (k, auth, h, low, q, submit) refl,
                rw (k, auth, h, low, q, submit) (ground arith),
              )
              | inl q ↦ fitting p h q k auth low
            ]
          ]
        ]
      ]

  -- `submit` keeps a valid state valid, and retains the input exactly when it answers `InputAccepted`;
  -- it never changes another input.
  pub submit-IsValidInput :
      (a : AuthorityInputSession I) (s : Session) (participant connection tick : ℕ) (input : I)
      (bytes : ℕ)
      → IsValidInput a
      → let r = submit a s participant connection tick input bytes in
        IsValidInput r.0
        × ((q t : ℕ)
            → input_at r.0 q t ≡ (
                if is_accepted r.1 && participant == q && tick == t
                then some (entry input bytes)
                else input_at a q t))
  submit-IsValidInput a s participant connection tick input bytes v =
      elim (submit-IsSubmission a s participant connection tick input bytes) [
        | inl (kept, refused) ↦ rw (kept, refused) (v, λ q t. refl)
        | inr (p, h, own, auth, fits, done) ↦
            let w = HashMap.All-get IsValidState a.participants participant p v.states h in
            rw done (
              with_state-IsValidInput a participant p (holding p tick input bytes) _ _ v h
                  (holding-IsValidState a p tick input bytes w fits)
                  (omega (
                    arith,
                    BTreeMap.length-insert_absent p.retained tick (entry input bytes) fits.vacant,
                  ))
                  (omega arith) fits.all_keys_fit fits.all_bytes_fit,
              λ q t. ground (
                arith,
                get-insert a.participants participant q (holding p tick input bytes),
                BTreeMap.get-insert p.retained tick t (entry input bytes),
              ),
            )
      ]
