-- ===== src/Replication/Authority/Retention.antt =====
-- replication/authority.rs: `retain_authority_state`, and its eviction loop.
use runen_net.Prelude.{
  ℕ, suc, ◌+◌, ◌-◌, ◌≤◌, ◌<◌, ◌≡◌, refl, true, false, ◌&&◌, Option, none, some, [], ◌∷◌, ltb, leb,
  ◌==◌, nat_eq, length, arith, Bool-cases, inl, inr, All,
}
use runen_net.Collections.BTreeMap.{BTreeMap, total, IsSorted, IsSortedFrom, IsSortedFrom-weaken}
use runen_net.Collections.BTreeMap
use runen_net.Replication.Authority.Types.{RetainedState, image_bytes}
use runen_net.Replication.Authority.Guards.{is_base, evict_until}

module _ {S : Type 0} where
  -- What the loop leaves is counted right: `x` and `y` stand for the entries passed over before.
  pub evict_until-counted :
      (max_count room x y : ℕ) (protected : Option ℕ) (m : BTreeMap (RetainedState S))
      (count bytes : ℕ)
      → count ≡ length m + x
      → bytes ≡ total image_bytes m + y
      → let r = evict_until max_count room protected m count bytes in
        (r.1 ≡ total image_bytes r.0 + y)
        × (length r.0 ≤ length m)
        × (total image_bytes r.0 ≤ total image_bytes m)
        × (r.2 ≡ true → (length r.0 + x < max_count) × (r.1 ≤ room))
  unfolding evict_until
  evict_until-counted max_count room x y protected [] count bytes hc hb =
      (omega arith, omega arith, omega arith, λ e. ground arith)
  evict_until-counted max_count room x y protected ((c, r) ∷ m) count bytes hc hb =
      let kept =
        evict_until-counted max_count room (x + 1) (y + image_bytes r) protected m count bytes
          (omega arith) (omega arith) in
      let gone =
        evict_until-counted max_count room x y protected m (count - 1) (bytes - image_bytes r)
          (omega arith) (omega arith) in
      elim (Bool-cases (ltb count max_count && leb bytes room)) [
        | inl e ↦ rw e (omega arith, omega arith, omega arith, λ h. ground arith)
        | inr e ↦ elim (Bool-cases (is_base protected c)) [
          | inl p ↦
              rw (e, p)
                (
                  omega (arith, kept.0),
                  omega (arith, kept.1),
                  omega (arith, kept.2),
                  λ h. let (a, b) = kept.3 h in (omega (arith, a), b),
                )
          | inr p ↦ rw (e, p) (gone.0, omega (arith, gone.1), omega (arith, gone.2), gone.3)
        ]
      ]

  pub evict_until-All :
      (P : ℕ × RetainedState S → Type 0) (max_count room : ℕ) (protected : Option ℕ)
      (m : BTreeMap (RetainedState S)) (count bytes : ℕ)
      → All P m
      → All P (evict_until max_count room protected m count bytes).0
  unfolding evict_until
  evict_until-All P max_count room protected [] count bytes a = tt
  evict_until-All P max_count room protected ((c, r) ∷ m) count bytes a =
      elim (Bool-cases (ltb count max_count && leb bytes room)) [
        | inl e ↦ rw e a
        | inr e ↦ elim (Bool-cases (is_base protected c)) [
          | inl p ↦ rw (e, p) (a.0, evict_until-All P max_count room protected m count bytes a.1)
          | inr p ↦
              rw (e, p)
                (evict_until-All P max_count room protected m (count - 1) (bytes - image_bytes r)
                  a.1)
        ]
      ]

  pub evict_until-IsSortedFrom :
      (b max_count room : ℕ) (protected : Option ℕ) (m : BTreeMap (RetainedState S))
      (count bytes : ℕ)
      → IsSortedFrom b m
      → IsSortedFrom b (evict_until max_count room protected m count bytes).0
  unfolding evict_until
  evict_until-IsSortedFrom b max_count room protected [] count bytes s = tt
  evict_until-IsSortedFrom b max_count room protected ((c, r) ∷ m) count bytes s =
      elim (Bool-cases (ltb count max_count && leb bytes room)) [
        | inl e ↦ rw e s
        | inr e ↦ elim (Bool-cases (is_base protected c)) [
          | inl p ↦
              rw (e, p)
                (s.0, evict_until-IsSortedFrom (suc c) max_count room protected m count bytes s.1)
          | inr p ↦
              rw (e, p)
                (IsSortedFrom-weaken b (suc c)
                  (evict_until max_count room protected m (count - 1) (bytes - image_bytes r)).0
                  (omega arith)
                  (evict_until-IsSortedFrom (suc c) max_count room protected m (count - 1)
                    (bytes - image_bytes r) s.1))
        ]
      ]

  -- The protected base stays.
  pub evict_until-protected :
      (max_count room : ℕ) (protected : Option ℕ) (m : BTreeMap (RetainedState S))
      (count bytes base : ℕ)
      → is_base protected base ≡ true
      → BTreeMap.get (evict_until max_count room protected m count bytes).0 base
        ≡ BTreeMap.get m base
  unfolding evict_until BTreeMap.get
  evict_until-protected max_count room protected [] count bytes base h = refl
  evict_until-protected max_count room protected ((c, r) ∷ m) count bytes base h =
      let kept = evict_until-protected max_count room protected m count bytes base h in
      let gone =
        evict_until-protected max_count room protected m (count - 1) (bytes - image_bytes r) base
          h in
      elim (Bool-cases (ltb count max_count && leb bytes room)) [
        | inl e ↦ rw e refl
        | inr e ↦ elim (Bool-cases (is_base protected c)) [
          | inl p ↦ rw (e, p) (ground (arith, kept))
          | inr p ↦ rw (e, p) (ground (arith, gone, other protected p h))
        ]
      ]
    where
      other : (o : Option ℕ) → is_base o c ≡ false → is_base o base ≡ true → (c == base) ≡ false
      other none p h = cc
      other (some b) p h = ground arith

  -- Without a protected base the loop always makes room.
  pub evict_until-room :
      (max_count room : ℕ) (m : BTreeMap (RetainedState S)) (count bytes : ℕ)
      → 0 < max_count
      → count ≡ length m
      → bytes ≡ total image_bytes m
      → (evict_until max_count room none m count bytes).2 ≡ true
  unfolding evict_until
  evict_until-room max_count room [] count bytes h hc hb = ground arith
  evict_until-room max_count room ((c, r) ∷ m) count bytes h hc hb =
      let ih =
        evict_until-room max_count room m (count - 1) (bytes - image_bytes r) h (omega arith)
          (omega arith) in
      elim (Bool-cases (ltb count max_count && leb bytes room)) [
        | inl e ↦ rw e refl
        | inr e ↦ rw e ih
      ]
