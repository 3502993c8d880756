-- ===== src/Input/Reconciliation.antt =====
-- input/authority.rs: `reconcile_memberships`.
use runen_net.Input.Membership.{
  absent_participants, count_participants, remove_participants, drop_participants,
  reconcile_memberships,
}
use runen_net.Prelude.{
  ℕ, suc, ◌+◌, ◌-◌, ◌<◌, ◌≡◌, refl, ◌∙◌, true, false, not, ◌&&◌, none, some, List, [], ◌∷◌,
  if◌then◌else◌, nat_eq, length, ok, arith, is_some, Option-cases, inl, inr, All, IsU64,
}
use runen_net.Collections.HashMap.{
  HashMap, Distinct, get-remove, total-remove, remove-Distinct, total-get-le,
}
use runen_net.Collections.HashMap
use runen_net.Collections.HashSet.{contains}
use runen_net.Collections.Sort.{
  sort_ids, HasNoDuplicates, IsAscendingFrom, contains-sort_ids, sort_ids-IsAscendingFrom,
}
use runen_net.Session.State.{Session, membership_state}
use runen_net.Input.Authority.{ParticipantInputState, AuthorityInputSession, is_session}
use runen_net.Input.Retention.{key_count, byte_count, IsValidState, IsValidInput}

below_absent : (b x : ℕ) (xs : List ℕ) → x < b → IsAscendingFrom b xs → contains xs x ≡ false
unfolding contains
below_absent b x [] h a = refl
below_absent b x (y ∷ xs) h a = ground (arith, below_absent (suc y) x xs (omega arith) a.1)

ascending-HasNoDuplicates : (b : ℕ) (xs : List ℕ) → IsAscendingFrom b xs → HasNoDuplicates xs
ascending-HasNoDuplicates b [] a = tt
ascending-HasNoDuplicates b (x ∷ xs) a =
    (below_absent (suc x) x xs (omega arith) a.1, ascending-HasNoDuplicates (suc x) xs a.1)

module _ {I : Type 0} where
  contains-absent_participants :
      (s : Session) (m : HashMap ℕ (ParticipantInputState I)) (j : ℕ)
      → contains (absent_participants s m) j
        ≡ (is_some (HashMap.get m j) && not (is_some (membership_state s j)))
  unfolding absent_participants contains HashMap.get
  contains-absent_participants s [] j = refl
  contains-absent_participants s ((p, r) ∷ m) j = ground (arith, contains-absent_participants s m j)

  absent_participants-HasNoDuplicates :
      (s : Session) (m : HashMap ℕ (ParticipantInputState I))
      → Distinct m
      → HasNoDuplicates (absent_participants s m)
  unfolding absent_participants
  absent_participants-HasNoDuplicates s [] d = tt
  absent_participants-HasNoDuplicates s ((p, r) ∷ m) d =
      ground
        (arith, absent_participants-HasNoDuplicates s m d.1, contains-absent_participants s m p)

  get-remove_participants :
      (m : HashMap ℕ (ParticipantInputState I)) (ps : List ℕ) (j : ℕ)
      → HashMap.get (remove_participants m ps) j ≡ (if contains ps j then none else HashMap.get m j)
  unfolding remove_participants contains
  get-remove_participants m [] j = refl
  get-remove_participants m (p ∷ ps) j =
      ground (arith, get-remove_participants (HashMap.remove m p) ps j, get-remove m p j)

  remove_participants-Distinct :
      (m : HashMap ℕ (ParticipantInputState I)) (ps : List ℕ)
      → Distinct m
      → Distinct (remove_participants m ps)
  unfolding remove_participants
  remove_participants-Distinct m [] d = d
  remove_participants-Distinct m (p ∷ ps) d =
      remove_participants-Distinct (HashMap.remove m p) ps (remove-Distinct m p d)

  All-remove_participants :
      (m : HashMap ℕ (ParticipantInputState I)) (ps : List ℕ)
      → All (λ e. IsValidState e.1) m
      → All (λ e. IsValidState e.1) (remove_participants m ps)
  unfolding remove_participants
  All-remove_participants m [] a = a
  All-remove_participants m (p ∷ ps) a =
      All-remove_participants (HashMap.remove m p) ps (HashMap.All-remove IsValidState m p a)

  -- The count does not look at a participant that is not listed.
  count_participants-remove :
      (m : HashMap ℕ (ParticipantInputState I)) (ps : List ℕ) (q keys bytes : ℕ)
      → contains ps q ≡ false
      → count_participants (HashMap.remove m q) ps keys bytes ≡ count_participants m ps keys bytes
  unfolding count_participants contains
  count_participants-remove m [] q keys bytes h = refl
  count_participants-remove m (p ∷ ps) q keys bytes h = elim (Option-cases (HashMap.get m p)) [
    | inl e ↦ ground (arith, get-remove m q p)
    | inr (r, e) ↦ ground (
      arith,
      get-remove m q p,
      count_participants-remove m ps q (keys + length r.retained) (bytes + r.retained_bytes)
          (ground arith),
    )
  ]

  -- What the loop counts for present, distinct participants is what their removal takes away.
  count_participants-total :
      (m : HashMap ℕ (ParticipantInputState I)) (ps : List ℕ) (keys bytes : ℕ)
      → Distinct m
      → HasNoDuplicates ps
      → ((p : ℕ) → contains ps p ≡ true → is_some (HashMap.get m p) ≡ true)
      → IsU64 (keys + HashMap.total key_count m)
      → IsU64 (bytes + HashMap.total byte_count m)
      → (k b : ℕ) × (count_participants m ps keys bytes ≡ some (ok (k, b)))
        × (k + HashMap.total key_count (remove_participants m ps)
            ≡ keys + HashMap.total key_count m)
        × (b + HashMap.total byte_count (remove_participants m ps)
            ≡ bytes + HashMap.total byte_count m)
  unfolding count_participants remove_participants contains
  count_participants-total m [] keys bytes d n present hk hb = (keys, bytes, refl, refl, refl)
  count_participants-total m (p ∷ ps) keys bytes d n present hk hb =
      elim (Option-cases (HashMap.get m p)) [
        | inl e ↦ absurd (ground (arith, present p))
        | inr (r, e) ↦
            let ks = total-remove key_count m p r d e in
            let bs = total-remove byte_count m p r d e in
            let (k, b, q, qk, qb) =
              count_participants-total (HashMap.remove m p) ps (keys + length r.retained)
                (bytes + r.retained_bytes) (remove-Distinct m p d) n.1
                (λ j h. ground (arith, get-remove m p j, present j, n.0)) (omega arith)
                (omega arith) in
            (
              k,
              b,
              rw (e, count_participants)
                  (ground (
                    arith,
                    q,
                    count_participants-remove m ps p (keys + length r.retained)
                        (bytes + r.retained_bytes) n.0,
                  )),
              omega (arith, qk),
              omega (arith, qb),
            )
      ]

  -- On a valid state of the same session `reconcile_memberships` does not panic and succeeds. Its
  -- report is in strictly ascending order and names exactly the configured participants without a
  -- membership; those are gone, every other is as before, and the state stays valid.
  pub reconcile_memberships-report :
      (a : AuthorityInputSession I) (s : Session)
      → IsValidInput a
      → is_session a s ≡ true
      → (after : AuthorityInputSession I) × (removed : List ℕ) × (reconcile_memberships a s
          ≡ some (after, ok removed))
        × IsValidInput after
        × IsAscendingFrom 0 removed
        × ((p : ℕ)
            → contains removed p
              ≡ (is_some (HashMap.get a.participants p) && not (is_some (membership_state s p))))
        × ((p : ℕ)
            → HashMap.get after.participants p
              ≡ (if contains removed p then none else HashMap.get a.participants p))
  unfolding reconcile_memberships drop_participants
  reconcile_memberships-report a s v own =
      let absent = absent_participants s a.participants in
      let removed = sort_ids absent in
      let ascending =
        sort_ids-IsAscendingFrom absent
          (absent_participants-HasNoDuplicates s a.participants v.distinct) in
      let named : (p : ℕ)
          → contains removed p
            ≡ (is_some (HashMap.get a.participants p) && not (is_some (membership_state s p))) =
        λ p. contains-sort_ids absent p ∙ contains-absent_participants s a.participants p in
      let (k, b, q, qk, qb) =
        count_participants-total a.participants removed 0 0 v.distinct
          (ascending-HasNoDuplicates 0 removed ascending) (λ p h. ground (arith, named p))
          (omega (arith, v.keys, v.keys_fit, v.machine_keys))
          (omega (arith, v.bytes, v.bytes_fit, v.machine_bytes)) in
      (
        record a {
          participants = remove_participants a.participants removed;
          retained_keys = a.retained_keys - k;
          retained_bytes = a.retained_bytes - b;
        },
        removed,
        rw (own, q, reconcile_memberships) (ground (arith, v.keys, v.bytes)),
        record {
          states = All-remove_participants a.participants removed v.states;
          distinct = remove_participants-Distinct a.participants removed v.distinct;
          keys = omega (arith, v.keys);
          bytes = omega (arith, v.bytes);
          keys_fit = omega (arith, v.keys_fit);
          bytes_fit = omega (arith, v.bytes_fit);
          machine_keys = v.machine_keys;
          machine_bytes = v.machine_bytes;
        },
        ascending,
        named,
        λ p. get-remove_participants a.participants removed p,
      )
