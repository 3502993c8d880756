-- ===== src/Replication/Client/Survivors.antt =====
-- replication/client.rs: the eviction loop of `plan_commit`, and the images that it keeps.
use runen_net.Prelude.{
  ℕ, suc, List, checked_sub-eq_some, checked_sub, ◌-◌, ◌≤◌, ◌<◌, ◌≡◌, refl, ap, ◌∙◌, ◌&&◌, some, [],
  ◌∷◌, ◌++◌, if◌then◌else◌, ltb, leb, nat_eq, length, arith, Bool-cases, inl, inr, All,
  length-append,
}
use mathlib.Core.List.{tail}
use runen_net.Collections.BTreeMap.{BTreeMap, total}
use runen_net.Collections.BTreeMap
use runen_net.Replication.Client.Lineage.{RetainedState, bytes_of, has_room, plan_loop, evict_all}

pub room_after :
    (max_count max_bytes target count bytes : ℕ)
    → target ≤ max_bytes
    → has_room max_count max_bytes target count bytes
      ≡ some (ltb count max_count && leb bytes (max_bytes - target))
unfolding has_room
room_after max_count max_bytes target count bytes h = ground arith

module _ {S : Type 0} where
  -- The suffix of the images that the loop keeps.
  pub survivors :
      (max_count room : ℕ) → BTreeMap (RetainedState S) → ℕ → ℕ → BTreeMap (RetainedState S)
  survivors max_count room [] count bytes = []
  survivors max_count room ((cursor, r) ∷ rest) count bytes =
      let later = survivors max_count room rest (count - 1) (bytes - bytes_of r) in
      if ltb count max_count && leb bytes room then (cursor, r) ∷ rest else later

  evict_first :
      (cursor : ℕ) (r : RetainedState S) (rest : BTreeMap (RetainedState S)) (bytes : ℕ)
      (evict : List ℕ)
      → bytes_of r ≤ bytes
      → evict_all ((cursor, r) ∷ rest) bytes (cursor ∷ evict)
        ≡ evict_all rest (bytes - bytes_of r) evict
  unfolding evict_all BTreeMap.get BTreeMap.remove
  evict_first cursor r rest bytes evict h = ground arith

  -- Told the right numbers, the loop does not panic, and what it counted is what the survivors
  -- measure; carrying the plan out does not panic either.
  pub plan_loop-survivors :
      (max_count max_bytes target : ℕ) (m : BTreeMap (RetainedState S)) (count bytes : ℕ)
      → target ≤ max_bytes
      → count ≡ length m
      → bytes ≡ total bytes_of m
      → let kept = survivors max_count (max_bytes - target) m count bytes in
        (evict : List ℕ) × (plan_loop max_count max_bytes target m count bytes
          ≡ some (length kept, total bytes_of kept, evict))
        × (evict_all m bytes evict ≡ some (kept, total bytes_of kept))
  unfolding plan_loop survivors evict_all BTreeMap.get BTreeMap.remove
  plan_loop-survivors max_count max_bytes target [] count bytes h hc hb =
      ([], rw (hc, hb) refl, rw hb refl)
  plan_loop-survivors max_count max_bytes target ((cursor, r) ∷ rest) count bytes h hc hb =
      let (evict, q, c) =
        plan_loop-survivors max_count max_bytes target rest (count - 1) (bytes - bytes_of r) h
          (omega arith) (omega arith) in
      elim (Bool-cases (ltb count max_count && leb bytes (max_bytes - target))) [
        | inl e ↦
            let room = room_after max_count max_bytes target count bytes h ∙ ap some e in
            rw e ([], rw (room, plan_loop, hc, hb) refl, rw (hb, evict_all) refl)
        | inr e ↦
            let room = room_after max_count max_bytes target count bytes h ∙ ap some e in
            let some_left : checked_sub count 1 ≡ some (count - 1) =
              checked_sub-eq_some count 1 (omega arith) in
            let bytes_left : checked_sub bytes (bytes_of r) ≡ some (bytes - bytes_of r) =
              checked_sub-eq_some bytes (bytes_of r) (omega arith) in
            rw (e, survivors)
              (
                cursor ∷ evict,
                rw (room, plan_loop, some_left, bytes_left, q) refl,
                evict_first cursor r rest bytes evict (omega arith) ∙ c,
              )
      ]

  -- The loop stops as soon as there is room, and with positive `max_count` always finds room.
  pub survivors_fit :
      (max_count room : ℕ) (m : BTreeMap (RetainedState S)) (count bytes : ℕ)
      → 0 < max_count
      → count ≡ length m
      → bytes ≡ total bytes_of m
      → let kept = survivors max_count room m count bytes in
        (length kept < max_count) × (total bytes_of kept ≤ room)
  unfolding survivors
  survivors_fit max_count room [] count bytes pos hc hb = (omega arith, omega arith)
  survivors_fit max_count room ((cursor, r) ∷ rest) count bytes pos hc hb =
      let ih =
        survivors_fit max_count room rest (count - 1) (bytes - bytes_of r) pos (omega arith)
          (omega arith) in
      elim (Bool-cases (ltb count max_count && leb bytes room)) [
        | inl e ↦ rw e (ground arith, ground arith)
        | inr e ↦ rw e ih
      ]

  -- Only the oldest images go, and no more than needed: what is kept is a suffix, and with one more
  -- image it would not fit.
  pub survivors-suffix :
      (max_count room : ℕ) (m : BTreeMap (RetainedState S)) (count bytes : ℕ)
      → count ≡ length m
      → bytes ≡ total bytes_of m
      → (gone : BTreeMap (RetainedState S)) × (m ≡ gone ++ survivors max_count room m count bytes)
  unfolding survivors
  survivors-suffix max_count room [] count bytes hc hb = ([], refl)
  survivors-suffix max_count room ((cursor, r) ∷ rest) count bytes hc hb =
      let (gone, q) =
        survivors-suffix max_count room rest (count - 1) (bytes - bytes_of r) (omega arith)
          (omega arith) in
      elim (Bool-cases (ltb count max_count && leb bytes room)) [
        | inl e ↦ ([], rw e)
        | inr e ↦ ((cursor, r) ∷ gone, rw e (ap (◌∷◌ (cursor, r)) q))
      ]

  pub survivors-All :
      (P : ℕ × RetainedState S → Type 0) (max_count room : ℕ) (m : BTreeMap (RetainedState S))
      (count bytes : ℕ)
      → All P m
      → All P (survivors max_count room m count bytes)
  unfolding survivors
  survivors-All P max_count room [] count bytes a = a
  survivors-All P max_count room ((cursor, r) ∷ rest) count bytes a =
      ground (arith, survivors-All P max_count room rest (count - 1) (bytes - bytes_of r) a.1)

  pub survivors-IsSortedFrom :
      (b max_count room : ℕ) (m : BTreeMap (RetainedState S)) (count bytes : ℕ)
      → BTreeMap.IsSortedFrom b m
      → BTreeMap.IsSortedFrom b (survivors max_count room m count bytes)
  unfolding survivors
  survivors-IsSortedFrom b max_count room [] count bytes s = s
  survivors-IsSortedFrom b max_count room ((cursor, r) ∷ rest) count bytes s = ground (
    arith,
    BTreeMap.IsSortedFrom-mono (suc cursor) b
        (survivors max_count room rest (count - 1) (bytes - bytes_of r)),
    survivors-IsSortedFrom (suc cursor) max_count room rest (count - 1) (bytes - bytes_of r) s.1,
  )

  -- No larger suffix leaves room.
  pub survivors_longest :
      (max_count room : ℕ) (m : BTreeMap (RetainedState S)) (count bytes : ℕ)
      → count ≡ length m
      → bytes ≡ total bytes_of m
      → (front back : BTreeMap (RetainedState S)) → m ≡ front ++ back
      → length back < max_count
      → total bytes_of back ≤ room
      → length back ≤ length (survivors max_count room m count bytes)
  unfolding survivors
  survivors_longest max_count room [] count bytes hc hb front back q fits small =
      omega (arith, ap length q, length-append front back)
  survivors_longest max_count room ((cursor, r) ∷ rest) count bytes hc hb [] back q fits small =
      elim (Bool-cases (ltb count max_count && leb bytes room)) [
        | inl e ↦ rw e (omega (arith, ap length q))
        | inr e ↦ absurd (ground (arith, ap length q, ap (total bytes_of) q))
      ]
  survivors_longest max_count room ((cursor, r) ∷ rest) count bytes hc hb (x ∷ front) back q fits
        small =
      let ih =
        survivors_longest max_count room rest (count - 1) (bytes - bytes_of r) (omega arith)
          (omega arith) front back (ap tail q) fits small in
      elim (Bool-cases (ltb count max_count && leb bytes room)) [
        | inl e ↦ rw e (omega (arith, ap length q, length-append front back))
        | inr e ↦ rw e ih
      ]
