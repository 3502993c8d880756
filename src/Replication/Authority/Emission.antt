-- ===== src/Replication/Authority/Emission.antt =====
-- replication/authority.rs: what `record_emitted_state` leaves retained, and its evidence.
use runen_net.Prelude.{
  ℕ, suc, ◌+◌, ◌-◌, ◌≤◌, ◌<◌, ◌≡◌, refl, Bool, true, false, none, some, [], ◌∷◌, leb, nat_eq,
  length, is_some, arith, Bool-cases, inl, inr, All,
}
use runen_net.Collections.BTreeMap.{BTreeMap, total, IsSorted, IsSortedFrom, IsSortedFrom-weaken}
use runen_net.Collections.BTreeMap
use runen_net.Replication.Model.{AccountedState, ReplicationRetentionLimits}
use runen_net.Replication.Authority.Types.{
  RetainedState, EmissionEvidence, AuthorityReplicationState, AuthorityLineage, image_bytes,
}
use runen_net.Replication.Authority.Guards.{is_base, base_of, evict_until, drop_oldest}
use runen_net.Replication.Authority.Lineage.{retain_authority_state}
use runen_net.Replication.Authority.Retention.{
  evict_until-counted, evict_until-All, evict_until-IsSortedFrom, evict_until-protected,
  evict_until-room,
}

-- Every key lies below a cursor.
abbrev pub IsBelow {ℓ} : {A : Type ℓ} → ℕ → BTreeMap A → Type 0
IsBelow cursor m = All (λ e. suc e.0 ≤ cursor) m

pub absent_below :
    {A : Type 0} (m : BTreeMap A) (cursor : ℕ) → IsBelow cursor m → BTreeMap.get m cursor ≡ none
unfolding BTreeMap.get
absent_below [] cursor a = refl
absent_below ((i, v) ∷ m) cursor a = ground (arith, absent_below m cursor a.1)

pub drop_oldest-All :
    (P : ℕ × EmissionEvidence → Type 0) (max : ℕ) (m : BTreeMap EmissionEvidence)
    → All P m
    → All P (drop_oldest max m)
unfolding drop_oldest
drop_oldest-All P max [] a = tt
drop_oldest-All P max (e ∷ m) a = ground (arith, drop_oldest-All P max m a.1)

pub drop_oldest-IsSortedFrom :
    (b max : ℕ) (m : BTreeMap EmissionEvidence)
    → IsSortedFrom b m
    → IsSortedFrom b (drop_oldest max m)
unfolding drop_oldest
drop_oldest-IsSortedFrom b max [] s = tt
drop_oldest-IsSortedFrom b max ((c, e) ∷ m) s = elim (Bool-cases (leb max (suc (length m)))) [
  | inl h ↦ rw h (
      IsSortedFrom-weaken b (suc c) (drop_oldest max m) (omega arith)
        (drop_oldest-IsSortedFrom (suc c) max m s.1))
  | inr h ↦ rw h s
]

pub length-drop_oldest :
    (max : ℕ) (m : BTreeMap EmissionEvidence)
    → 0 < max
    → (length (drop_oldest max m) < max) × (length (drop_oldest max m) ≤ length m)
unfolding drop_oldest
length-drop_oldest max [] h = (omega arith, omega arith)
length-drop_oldest max (e ∷ m) h = ground (arith, length-drop_oldest max m h)

module _ {S : Type 0} where
  abbrev pub entry : ℕ → AccountedState S → RetainedState S
  entry tick image = record { tick = tick; image = image }

  -- What is retained after a new image was offered, against what was retained before.
  pub record IsRetention (limits : ReplicationRetentionLimits) (state : AuthorityReplicationState)
      (before : BTreeMap (RetainedState S)) (cursor tick : ℕ) (image : AccountedState S)
      (after : BTreeMap (RetainedState S)) (bytes : ℕ) : Type 0 where
    pub sorted : IsSorted after
    pub counted : bytes ≡ total image_bytes after
    pub within_count : length after ≤ limits.max_retained_images_per_lineage
    pub within_bytes : bytes ≤ limits.max_retained_state_bytes_per_lineage
    pub one_more : length after ≤ length before + 1
    pub bytes_more : bytes ≤ total image_bytes before + image.accounted_bytes
    pub below : IsBelow (suc cursor) after
    pub base_kept :
        (base : ℕ)
        → is_base (base_of state) base ≡ true
        → is_some (BTreeMap.get before base) ≡ true
        → is_some (BTreeMap.get after base) ≡ true
    pub retained_anew : base_of state ≡ none → BTreeMap.get after cursor ≡ some (entry tick image)

IsBelow-suc : {A : Type 0} (m : BTreeMap A) (cursor : ℕ) → IsBelow cursor m → IsBelow (suc cursor) m
IsBelow-suc [] cursor a = tt
IsBelow-suc (e ∷ m) cursor a = (omega arith, IsBelow-suc m cursor a.1)

module _ {S D : Type 0} where
  -- `retain_authority_state` within limits: it changes the retained images only.
  pub retain_authority_state-IsRetention :
      (l : AuthorityLineage S D) (cursor tick : ℕ) (image : AccountedState S)
      → IsSorted l.retained
      → l.retained_bytes ≡ total image_bytes l.retained
      → length l.retained ≤ l.limits.max_retained_images_per_lineage
      → l.retained_bytes ≤ l.limits.max_retained_state_bytes_per_lineage
      → 0 < l.limits.max_retained_images_per_lineage
      → image.accounted_bytes ≤ l.limits.max_retained_state_bytes_per_lineage
      → IsBelow cursor l.retained
      → (kept : BTreeMap (RetainedState S)) × (bytes : ℕ) × (retain_authority_state l cursor tick
            image
          ≡ record l { retained = kept; retained_bytes = bytes })
        × IsRetention l.limits l.state l.retained cursor tick image kept bytes
  unfolding retain_authority_state
  retain_authority_state-IsRetention l cursor tick image sorted counted within_count within_bytes
        positive fits below =
      let facts =
        evict_until-counted max_count room 0 0 (base_of l.state) l.retained (length l.retained)
          l.retained_bytes (omega arith) (omega (arith, counted)) in
      let sorted' =
        evict_until-IsSortedFrom 0 max_count room (base_of l.state) l.retained (length l.retained)
          l.retained_bytes sorted in
      let below' =
        evict_until-All (λ e. suc e.0 ≤ cursor) max_count room (base_of l.state) l.retained
          (length l.retained) l.retained_bytes below in
      let based = λ (base : ℕ) (h : is_base (base_of l.state) base ≡ true).
        evict_until-protected max_count room (base_of l.state) l.retained (length l.retained)
          l.retained_bytes base h in
      elim (Bool-cases left.2) [
        | inl e ↦ (
          BTreeMap.insert left.0 cursor (entry tick image),
          left.1 + image.accounted_bytes,
          rw e refl,
          record {
            sorted =
                BTreeMap.insert-IsSortedFrom 0 left.0 cursor (entry tick image) (omega arith)
                  sorted';
            counted = omega (
              arith,
              facts.0,
              BTreeMap.total-insert_absent image_bytes left.0 cursor (entry tick image)
                  (absent_below left.0 cursor below'),
            );
            within_count = omega (
              arith,
              BTreeMap.length-insert_absent left.0 cursor (entry tick image)
                  (absent_below left.0 cursor below'),
              (facts.3 e).0,
            );
            within_bytes = omega (arith, (facts.3 e).1, fits);
            one_more = omega (
              arith,
              BTreeMap.length-insert_absent left.0 cursor (entry tick image)
                  (absent_below left.0 cursor below'),
              facts.1,
            );
            bytes_more = omega (arith, facts.0, facts.2);
            below =
                BTreeMap.All-insert (λ x. suc x.0 ≤ suc cursor) left.0 cursor (entry tick image)
                  (omega arith) (IsBelow-suc left.0 cursor below');
            base_kept = λ base h q.
                ground
                  (arith, BTreeMap.get-insert left.0 cursor base (entry tick image), based base h);
            retained_anew =
                λ h. ground (arith, BTreeMap.get-insert left.0 cursor cursor (entry tick image));
          },
        )
        | inr e ↦ (
          left.0,
          left.1,
          rw e refl,
          record {
            sorted = sorted';
            counted = omega (arith, facts.0);
            within_count = omega (arith, facts.1);
            within_bytes = omega (arith, facts.0, facts.2);
            one_more = omega (arith, facts.1);
            bytes_more = omega (arith, facts.0, facts.2);
            below = IsBelow-suc left.0 cursor below';
            base_kept = λ base h q. ground (arith, based base h);
            retained_anew = λ h. absurd (unprotected h e);
          },
        )
      ]
    where
      max_count : ℕ
      max_count = l.limits.max_retained_images_per_lineage

      room : ℕ
      room = l.limits.max_retained_state_bytes_per_lineage - image.accounted_bytes

      left : BTreeMap (RetainedState S) × ℕ × Bool
      left =
          evict_until max_count room (base_of l.state) l.retained (length l.retained)
            l.retained_bytes

      unprotected : base_of l.state ≡ none → left.2 ≡ false → ⊥
      unprotected h e = cc (
        h,
        e,
        evict_until-room max_count room l.retained (length l.retained) l.retained_bytes positive
            refl counted,
      )
