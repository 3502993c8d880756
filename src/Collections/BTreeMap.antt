-- ===== src/Collections/BTreeMap.antt =====
-- `std::collections::BTreeMap` with numeric keys, as a list in ascending key order.
use mathlib.Core.Path.{subst₂}
use runen_net.Prelude.{
  ℕ, suc, ◌+◌, ◌≤◌, ◌<◌, ◌≡◌, refl, inl, inr, Bool-cases, Option, none, some, List, [], ◌∷◌, arith,
  if◌then◌else◌, ltb, ◌==◌, nat_eq, length, sum_by, All,
}

abbrev pub BTreeMap {ℓ} : Type ℓ → Type ℓ
BTreeMap V = List (ℕ × V)

module _ {ℓ} {V : Type ℓ} where
  unfoldable pub get : BTreeMap V → ℕ → Option V
  get [] k = none
  get ((i, v) ∷ m) k = if i == k then some v else get m k

  unfoldable pub insert : BTreeMap V → ℕ → V → BTreeMap V
  insert [] k v = (k, v) ∷ []
  insert ((i, w) ∷ m) k v =
      let rest = insert m k v in
      if ltb k i then (k, v) ∷ (i, w) ∷ m else if i == k then (k, v) ∷ m else (i, w) ∷ rest

  unfoldable pub remove : BTreeMap V → ℕ → BTreeMap V
  remove [] k = []
  remove ((i, v) ∷ m) k = let rest = remove m k in if i == k then m else (i, v) ∷ rest

  -- Keys ascend strictly, from `b` on.
  abbrev pub IsSortedFrom : ℕ → BTreeMap V → Type 0
  IsSortedFrom b [] = Unit
  IsSortedFrom b ((i, v) ∷ m) = (b ≤ i) × IsSortedFrom (suc i) m

  abbrev pub IsSorted : BTreeMap V → Type 0
  IsSorted m = IsSortedFrom 0 m

  -- `range(..k)`, the entries below a key, and what `split_off(&k)` returns, the others.
  unfoldable pub range_below : BTreeMap V → ℕ → BTreeMap V
  range_below [] k = []
  range_below ((i, v) ∷ m) k = let rest = range_below m k in if ltb i k then (i, v) ∷ rest else rest

  unfoldable pub split_off : BTreeMap V → ℕ → BTreeMap V
  split_off [] k = []
  split_off ((i, v) ∷ m) k = let rest = split_off m k in if ltb i k then rest else (i, v) ∷ rest

module _ {V : Type 0} where
  pub get-insert :
      (m : BTreeMap V) (k j : ℕ) (v : V)
      → get (insert m k v) j ≡ (if k == j then some v else get m j)
  unfolding get insert
  get-insert [] k j v = refl
  get-insert ((i, w) ∷ m) k j v = ground (arith, get-insert m k j v)

  pub get_below : (b : ℕ) (m : BTreeMap V) (j : ℕ) → IsSortedFrom b m → j < b → get m j ≡ none
  unfolding get
  get_below b [] j s h = refl
  get_below b ((i, w) ∷ m) j s h = ground (arith, get_below (suc i) m j)

  pub get-remove :
      (b : ℕ) (m : BTreeMap V) (k j : ℕ)
      → IsSortedFrom b m
      → get (remove m k) j ≡ (if k == j then none else get m j)
  unfolding get remove
  get-remove b [] k j s = ground arith
  get-remove b ((i, w) ∷ m) k j s = ground (arith, get-remove (suc i) m k j, get_below (suc i) m j)

  pub IsSortedFrom-mono : (b c : ℕ) (m : BTreeMap V) → c ≤ b → IsSortedFrom b m → IsSortedFrom c m
  IsSortedFrom-mono b c [] h s = tt
  IsSortedFrom-mono b c ((i, w) ∷ m) h s = (omega arith, s.1)

  pub insert-IsSortedFrom :
      (b : ℕ) (m : BTreeMap V) (k : ℕ) (v : V)
      → b ≤ k
      → IsSortedFrom b m
      → IsSortedFrom b (insert m k v)
  unfolding insert
  insert-IsSortedFrom b [] k v h s = (h, tt)
  insert-IsSortedFrom b ((i, w) ∷ m) k v h s =
      ground (arith, insert-IsSortedFrom (suc i) m k v, IsSortedFrom-mono (suc i) (suc k) m)

  pub remove-IsSortedFrom :
      (b : ℕ) (m : BTreeMap V) (k : ℕ) → IsSortedFrom b m → IsSortedFrom b (remove m k)
  unfolding remove
  remove-IsSortedFrom b [] k s = tt
  remove-IsSortedFrom b ((i, w) ∷ m) k s =
      ground (arith, remove-IsSortedFrom (suc i) m k, IsSortedFrom-mono (suc i) b m)

  -- A measure of the values, summed.
  abbrev pub total : (V → ℕ) → BTreeMap V → ℕ
  total f m = sum_by (λ e. f e.1) m

  pub total-insert_absent :
      (f : V → ℕ) (m : BTreeMap V) (k : ℕ) (v : V)
      → get m k ≡ none
      → total f (insert m k v) ≡ total f m + f v
  unfolding get insert
  total-insert_absent f [] k v h = omega arith
  total-insert_absent f ((i, w) ∷ m) k v h = ground (arith, total-insert_absent f m k v)

  pub length-insert_absent :
      (m : BTreeMap V) (k : ℕ) (v : V) → get m k ≡ none → length (insert m k v) ≡ length m + 1
  unfolding get insert
  length-insert_absent [] k v h = omega arith
  length-insert_absent ((i, w) ∷ m) k v h = ground (arith, length-insert_absent m k v)

  pub total-remove :
      (f : V → ℕ) (m : BTreeMap V) (k : ℕ) (v : V)
      → get m k ≡ some v
      → total f (remove m k) + f v ≡ total f m
  unfolding get remove
  total-remove f [] k v h = absurd (cc)
  total-remove f ((i, w) ∷ m) k v h = ground (arith, total-remove f m k v)

  pub length-remove :
      (m : BTreeMap V) (k : ℕ) (v : V) → get m k ≡ some v → length (remove m k) + 1 ≡ length m
  unfolding get remove
  length-remove [] k v h = absurd (cc)
  length-remove ((i, w) ∷ m) k v h = ground (arith, length-remove m k v)

  -- A property of the entries.
  pub All-insert :
      (P : ℕ × V → Type 0) (m : BTreeMap V) (k : ℕ) (v : V)
      → P (k, v)
      → All P m
      → All P (insert m k v)
  unfolding insert
  All-insert P [] k v p a = (p, tt)
  All-insert P ((i, w) ∷ m) k v p a = ground (arith, All-insert P m k v p a.1)

  pub All-remove : (P : ℕ × V → Type 0) (m : BTreeMap V) (k : ℕ) → All P m → All P (remove m k)
  unfolding remove
  All-remove P [] k a = tt
  All-remove P ((i, w) ∷ m) k a = ground (arith, All-remove P m k a.1)

  pub All-get :
      (P : ℕ × V → Type 0) (m : BTreeMap V) (k : ℕ) (v : V) → All P m → get m k ≡ some v → P (k, v)
  unfolding get
  All-get P [] k v a h = absurd (cc)
  All-get P ((i, w) ∷ m) k v a h = elim (Bool-cases (i == k)) [
    | inl e ↦ subst₂ (λ (a : ℕ) (b : V). P (a, b)) (ground arith) (ground arith) a.0
    | inr e ↦ All-get P m k v a.1 (ground arith)
  ]

  -- A missing key lies above a bound that all the others respect.
  pub get_above : (m : BTreeMap V) (j c : ℕ) → All (λ e. e.0 ≤ c) m → c < j → get m j ≡ none
  unfolding get
  get_above [] j c a h = refl
  get_above ((i, w) ∷ m) j c a h = ground (arith, get_above m j c a.1)

  -- The two parts of a map below and from a key.
  pub get-split_off :
      (m : BTreeMap V) (k j : ℕ) → get (split_off m k) j ≡ (if ltb j k then none else get m j)
  unfolding get split_off
  get-split_off [] k j = ground arith
  get-split_off ((i, v) ∷ m) k j = ground (arith, get-split_off m k j)

  pub total-split_off :
      (f : V → ℕ) (m : BTreeMap V) (k : ℕ)
      → total f (range_below m k) + total f (split_off m k) ≡ total f m
  unfolding range_below split_off
  total-split_off f [] k = refl
  total-split_off f ((i, v) ∷ m) k = ground (arith, total-split_off f m k)

  pub length-split_off :
      (m : BTreeMap V) (k : ℕ) → length (range_below m k) + length (split_off m k) ≡ length m
  unfolding range_below split_off
  length-split_off [] k = refl
  length-split_off ((i, v) ∷ m) k = ground (arith, length-split_off m k)

  pub All-split_off :
      (P : ℕ × V → Type 0) (m : BTreeMap V) (k : ℕ) → All P m → All P (split_off m k)
  unfolding split_off
  All-split_off P [] k a = tt
  All-split_off P ((i, v) ∷ m) k a = ground (arith, All-split_off P m k a.1)

  pub split_off-above : (m : BTreeMap V) (k : ℕ) → All (λ e. k ≤ e.0) (split_off m k)
  unfolding split_off
  split_off-above [] k = tt
  split_off-above ((i, v) ∷ m) k = ground (arith, split_off-above m k)

  pub IsSortedFrom-weaken : (b c : ℕ) (m : BTreeMap V) → b ≤ c → IsSortedFrom c m → IsSortedFrom b m
  IsSortedFrom-weaken b c [] h s = tt
  IsSortedFrom-weaken b c ((i, v) ∷ m) h s = (omega arith, s.1)

  pub split_off-IsSortedFrom :
      (b : ℕ) (m : BTreeMap V) (k : ℕ) → IsSortedFrom b m → IsSortedFrom b (split_off m k)
  unfolding split_off
  split_off-IsSortedFrom b [] k s = tt
  split_off-IsSortedFrom b ((i, v) ∷ m) k s =
      let rest = split_off-IsSortedFrom (suc i) m k s.1 in
      elim (Bool-cases (ltb i k)) [
        | inl e ↦ rw e (IsSortedFrom-weaken b (suc i) (split_off m k) (omega arith) rest)
        | inr e ↦ rw e (s.0, rest)
      ]

  abbrev pub keys : BTreeMap V → List ℕ
  keys [] = []
  keys ((i, v) ∷ m) = i ∷ keys m

  -- No key of a map that starts at or above `k` lies below it.
  pub split_off_below :
      (b : ℕ) (m : BTreeMap V) (k : ℕ)
      → k ≤ b
      → IsSortedFrom b m
      → (range_below m k ≡ []) × (split_off m k ≡ m)
  unfolding range_below split_off
  split_off_below b [] k h s = (refl, refl)
  split_off_below b ((i, v) ∷ m) k h s =
      let rest = split_off_below (suc i) m k (omega arith) s.1 in ground (arith, rest)

  pub total-range_below-le :
      (f : V → ℕ) (m : BTreeMap V) (k : ℕ) → total f (range_below m k) ≤ total f m
  total-range_below-le f m k = omega (arith, total-split_off f m k)

  pub length-split_off-le : (m : BTreeMap V) (k : ℕ) → length (split_off m k) ≤ length m
  length-split_off-le m k = omega (arith, length-split_off m k)
