-- ===== src/Collections/HashSet.antt =====
-- `std::collections::HashSet` as a list.
use runen_net.Prelude.{
  ◌+◌, ◌≡◌, Bool, false, List, [], ◌∷◌, ◌||◌, arith, Eq, ◌==◌, if◌then◌else◌, length,
}

abbrev pub HashSet {ℓ} : Type ℓ → Type ℓ
HashSet K = List K

module _ {ℓ} {K : Type ℓ} ⦃e : Eq K⦄ where
  unfoldable pub contains : HashSet K → K → Bool
  contains [] k = false
  contains (i ∷ s) k = i == k || contains s k

  unfoldable pub insert : HashSet K → K → HashSet K
  insert s k = if contains s k then s else k ∷ s

  pub contains-insert :
      (s : HashSet K) (k j : K) → contains (insert s k) j ≡ (k == j || contains s j)
  unfolding contains insert
  contains-insert s k j = ground (arith, e.same_iff k j)

  pub length-insert_absent :
      (s : HashSet K) (k : K) → contains s k ≡ false → length (insert s k) ≡ length s + 1
  unfolding insert
  length-insert_absent s k h = ground arith
