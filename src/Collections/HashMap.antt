-- ===== src/Collections/HashMap.antt =====
-- `std::collections::HashMap` as an association list. The list order stands for the unspecified
-- iteration order; an insertion under a present key replaces its value.
use runen_net.Prelude.{
  checked_add, u64_mod, ltb, ◌+◌, ◌≤◌, ◌≡◌, refl, Bool, true, Option, none, some, List, [], ◌∷◌,
  arith, Eq, ◌==◌, if◌then◌else◌, is_some, length, ℕ, sum_by, All, Bool-cases, inl, inr,
}
use mathlib.Core.Path.{subst}

abbrev pub HashMap {ℓ κ} : Type ℓ → Type κ → Type (ℓ ⊔ κ)
HashMap K V = List (K × V)

module _ {ℓ κ} {K : Type ℓ} {V : Type κ} ⦃e : Eq K⦄ where
  unfoldable pub get : HashMap K V → K → Option V
  get [] k = none
  get ((i, v) ∷ m) k = if i == k then some v else get m k

  unfoldable pub insert : HashMap K V → K → V → HashMap K V
  insert [] k v = (k, v) ∷ []
  insert ((i, w) ∷ m) k v = if i == k then (k, v) ∷ m else (i, w) ∷ insert m k v

  unfoldable pub remove : HashMap K V → K → HashMap K V
  remove [] k = []
  remove ((i, v) ∷ m) k = let rest = remove m k in if i == k then rest else (i, v) ∷ rest

  abbrev pub contains_key : HashMap K V → K → Bool
  contains_key m k = is_some (get m k)

  pub get-insert :
      (m : HashMap K V) (k j : K) (v : V)
      → get (insert m k v) j ≡ (if k == j then some v else get m j)
  unfolding get insert
  get-insert [] k j v = refl
  get-insert ((i, w) ∷ m) k j v =
      ground (arith, e.same_iff k j, e.same_iff i k, e.same_iff i j, get-insert m k j v)

  pub get-remove :
      (m : HashMap K V) (k j : K) → get (remove m k) j ≡ (if k == j then none else get m j)
  unfolding get remove
  get-remove [] k j = ground arith
  get-remove ((i, w) ∷ m) k j =
      ground (arith, e.same_iff k j, e.same_iff i k, e.same_iff i j, get-remove m k j)

  pub length-insert-le : (m : HashMap K V) (k : K) (v : V) → length (insert m k v) ≤ length m + 1
  unfolding insert
  length-insert-le [] k v = omega arith
  length-insert-le ((i, w) ∷ m) k v = ground (arith, length-insert-le m k v)

  pub length-insert_present :
      (m : HashMap K V) (k : K) (v w : V) → get m k ≡ some w → length (insert m k v) ≡ length m
  unfolding get insert
  length-insert_present [] k v w h = cc
  length-insert_present ((i, x) ∷ m) k v w h = ground (arith, length-insert_present m k v w)

  pub length-remove-le : (m : HashMap K V) (k : K) → length (remove m k) ≤ length m
  unfolding remove
  length-remove-le [] k = omega arith
  length-remove-le ((i, w) ∷ m) k = ground (arith, length-remove-le m k)

  -- No key stands twice.
  abbrev pub Distinct : HashMap K V → Type κ
  Distinct [] = Unit
  Distinct ((i, v) ∷ m) = (get m i ≡ none) × Distinct m

  pub insert-Distinct : (m : HashMap K V) (k : K) (v : V) → Distinct m → Distinct (insert m k v)
  unfolding get insert
  insert-Distinct [] k v d = (refl, tt)
  insert-Distinct ((i, w) ∷ m) k v d =
      ground (arith, e.same_iff i k, e.same_iff k i, get-insert m k i v, insert-Distinct m k v d.1)

  pub remove-Distinct : (m : HashMap K V) (k : K) → Distinct m → Distinct (remove m k)
  unfolding remove
  remove-Distinct [] k d = tt
  remove-Distinct ((i, w) ∷ m) k d = ground (arith, get-remove m k i, remove-Distinct m k d.1)

  -- The sum of a measure over the values.
  abbrev pub total : (V → ℕ) → HashMap K V → ℕ
  total f m = sum_by (λ e. f e.1) m

  pub total-insert_present :
      (f : V → ℕ) (m : HashMap K V) (k : K) (v w : V)
      → get m k ≡ some w
      → total f (insert m k v) + f w ≡ total f m + f v
  unfolding get insert
  total-insert_present f [] k v w h = absurd (cc)
  total-insert_present f ((i, x) ∷ m) k v w h = ground (arith, total-insert_present f m k v w)

  pub total-insert_absent :
      (f : V → ℕ) (m : HashMap K V) (k : K) (v : V)
      → get m k ≡ none
      → total f (insert m k v) ≡ total f m + f v
  unfolding get insert
  total-insert_absent f [] k v h = omega arith
  total-insert_absent f ((i, x) ∷ m) k v h = ground (arith, total-insert_absent f m k v)

  pub All-insert :
      (P : V → Type 0) (m : HashMap K V) (k : K) (v : V)
      → P v
      → All (λ e. P e.1) m
      → All (λ e. P e.1) (insert m k v)
  unfolding insert
  All-insert P [] k v p a = (p, tt)
  All-insert P ((i, x) ∷ m) k v p a = ground (arith, All-insert P m k v p a.1)

  pub All-get :
      (P : V → Type 0) (m : HashMap K V) (k : K) (v : V)
      → All (λ e. P e.1) m
      → get m k ≡ some v
      → P v
  unfolding get
  All-get P [] k v a h = absurd (cc)
  All-get P ((i, x) ∷ m) k v a h = elim (Bool-cases (i == k)) [
    | inl e ↦ subst P (ground arith) a.0
    | inr e ↦ All-get P m k v a.1 (ground arith)
  ]

  pub All-remove :
      (P : V → Type 0) (m : HashMap K V) (k : K)
      → All (λ e. P e.1) m
      → All (λ e. P e.1) (remove m k)
  unfolding remove
  All-remove P [] k a = tt
  All-remove P ((i, x) ∷ m) k a = ground (arith, All-remove P m k a.1)

  pub total-remove-le : (f : V → ℕ) (m : HashMap K V) (k : K) → total f (remove m k) ≤ total f m
  unfolding remove
  total-remove-le f [] k = omega arith
  total-remove-le f ((i, x) ∷ m) k = ground (arith, total-remove-le f m k)

  pub total-get-le :
      (f : V → ℕ) (m : HashMap K V) (k : K) (v : V) → get m k ≡ some v → f v ≤ total f m
  unfolding get
  total-get-le f [] k v h = absurd (cc)
  total-get-le f ((i, x) ∷ m) k v h = ground (arith, total-get-le f m k v)

  pub remove_absent : (m : HashMap K V) (k : K) → get m k ≡ none → remove m k ≡ m
  unfolding get remove
  remove_absent [] k h = refl
  remove_absent ((i, x) ∷ m) k h = ground (arith, remove_absent m k)

  pub total-remove :
      (f : V → ℕ) (m : HashMap K V) (k : K) (v : V)
      → Distinct m
      → get m k ≡ some v
      → total f (remove m k) + f v ≡ total f m
  unfolding get remove
  total-remove f [] k v d h = absurd (cc)
  total-remove f ((i, x) ∷ m) k v d h =
      ground (arith, total-remove f m k v d.1, remove_absent m k, e.same_iff i k)

  -- `m.values().try_fold(acc, |total, v| total.checked_add(f(v)))`; `none` is an overflow.
  unfoldable pub checked_sum : (V → ℕ) → ℕ → HashMap K V → Option ℕ
  checked_sum f acc [] = some acc
  checked_sum f acc ((k, v) ∷ m) = elim (checked_add acc (f v)) [
    | none ↦ none
    | some acc' ↦ checked_sum f acc' m
  ]

  pub checked_sum-total :
      (f : V → ℕ) (acc : ℕ) (m : HashMap K V) (t : ℕ)
      → checked_sum f acc m ≡ some t
      → t ≡ acc + total f m
  unfolding checked_sum
  checked_sum-total f acc [] t h = ground arith
  checked_sum-total f acc ((k, v) ∷ m) t h = elim (Bool-cases (ltb (acc + f v) u64_mod)) [
    | inl e ↦ omega (arith, checked_sum-total f (acc + f v) m t (ground arith))
    | inr e ↦ absurd (ground arith)
  ]

  pub total-sum : (f g : V → ℕ) (m : HashMap K V) → total (λ v. f v + g v) m ≡ total f m + total g m
  total-sum f g [] = refl
  total-sum f g ((k, v) ∷ m) = omega (arith, total-sum f g m)

  -- Sums of a measure of keys and values.
  pub sum_by-insert_present :
      (w : K × V → ℕ) (m : HashMap K V) (k : K) (v old : V)
      → get m k ≡ some old
      → sum_by w (insert m k v) + w (k, old) ≡ sum_by w m + w (k, v)
  unfolding get insert
  sum_by-insert_present w [] k v old h = absurd (cc)
  sum_by-insert_present w ((i, x) ∷ m) k v old h = elim (Bool-cases (i == k)) [
    | inl q ↦ rw (q, insert) (omega (arith, same_entry q))
    | inr q ↦ rw (q, insert) (omega (arith, sum_by-insert_present w m k v old (ground arith)))
  ]
    where
      same_entry : (i == k) ≡ true → w (i, x) ≡ w (k, old)
      same_entry q = cc ((e.same_iff i k).0 q, h, q)

  pub sum_by-insert_absent :
      (w : K × V → ℕ) (m : HashMap K V) (k : K) (v : V)
      → get m k ≡ none
      → sum_by w (insert m k v) ≡ sum_by w m + w (k, v)
  unfolding get insert
  sum_by-insert_absent w [] k v h = omega arith
  sum_by-insert_absent w ((i, x) ∷ m) k v h = ground (arith, sum_by-insert_absent w m k v)

  pub sum_by-remove :
      (w : K × V → ℕ) (m : HashMap K V) (k : K) (old : V)
      → Distinct m
      → get m k ≡ some old
      → sum_by w (remove m k) + w (k, old) ≡ sum_by w m
  unfolding get remove
  sum_by-remove w [] k old d h = absurd (cc)
  sum_by-remove w ((i, x) ∷ m) k old d h = elim (Bool-cases (i == k)) [
    | inl q ↦
        rw (q, remove)
          (rw (remove_absent m k (ground (arith, e.same_iff i k))) (omega (arith, same_entry q)))
    | inr q ↦ rw (q, remove) (omega (arith, sum_by-remove w m k old d.1 (ground arith)))
  ]
    where
      same_entry : (i == k) ≡ true → w (i, x) ≡ w (k, old)
      same_entry q = cc ((e.same_iff i k).0 q, h, q)

  pub insert-insert : (m : HashMap K V) (k : K) (v w : V) → insert (insert m k v) k w ≡ insert m k w
  unfolding insert
  insert-insert [] k v w = ground (arith, e.same_iff k k)
  insert-insert ((i, x) ∷ m) k v w = ground (arith, e.same_iff k k, insert-insert m k v w)

  pub sum_by-get-le :
      (w : K × V → ℕ) (m : HashMap K V) (k : K) (v : V) → get m k ≡ some v → w (k, v) ≤ sum_by w m
  unfolding get
  sum_by-get-le w [] k v h = absurd (cc)
  sum_by-get-le w ((i, x) ∷ m) k v h = elim (Bool-cases (i == k)) [
    | inl q ↦ omega (arith, same_entry q)
    | inr q ↦ omega (arith, sum_by-get-le w m k v (ground arith))
  ]
    where
      same_entry : (i == k) ≡ true → w (i, x) ≡ w (k, v)
      same_entry q = cc ((e.same_iff i k).0 q, h, q)
