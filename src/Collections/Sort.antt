-- ===== src/Collections/Sort.antt =====
-- `sort_by_key(|id| id.get())` on a vector of identifiers.
use runen_net.Prelude.{
  ℕ, suc, ◌≤◌, ◌<◌, ◌≡◌, refl, false, List, [], ◌∷◌, ◌||◌, arith, leb, ◌==◌, if◌then◌else◌, nat_eq,
}
use mathlib.Core.Path.{ap₂}
use runen_net.Collections.HashSet.{contains}

insert_id : ℕ → List ℕ → List ℕ
insert_id a [] = a ∷ []
insert_id a (x ∷ xs) = if leb a x then a ∷ x ∷ xs else x ∷ insert_id a xs

unfoldable pub sort_ids : List ℕ → List ℕ
unfolding insert_id
sort_ids [] = []
sort_ids (x ∷ xs) = insert_id x (sort_ids xs)

-- Every later identifier is larger than an earlier one.
abbrev pub IsAscendingFrom : ℕ → List ℕ → Type 0
IsAscendingFrom b [] = Unit
IsAscendingFrom b (x ∷ xs) = (b ≤ x) × IsAscendingFrom (suc x) xs

abbrev pub HasNoDuplicates : List ℕ → Type 0
HasNoDuplicates [] = Unit
HasNoDuplicates (x ∷ xs) = (contains xs x ≡ false) × HasNoDuplicates xs

insert_id-IsAscendingFrom :
    (b a : ℕ) (xs : List ℕ)
    → b ≤ a
    → contains xs a ≡ false
    → IsAscendingFrom b xs
    → IsAscendingFrom b (insert_id a xs)
unfolding insert_id contains
insert_id-IsAscendingFrom b a [] h c s = (h, tt)
insert_id-IsAscendingFrom b a (x ∷ xs) h c s =
    ground (arith, insert_id-IsAscendingFrom (suc x) a xs)

contains-insert_id :
    (a : ℕ) (xs : List ℕ) (j : ℕ) → contains (insert_id a xs) j ≡ (a == j || contains xs j)
unfolding insert_id contains
contains-insert_id a [] j = refl
contains-insert_id a (x ∷ xs) j = ground (arith, contains-insert_id a xs j)

-- Sorting keeps the identifiers.
pub contains-sort_ids : (xs : List ℕ) (j : ℕ) → contains (sort_ids xs) j ≡ contains xs j
unfolding sort_ids contains
contains-sort_ids [] j = refl
contains-sort_ids (x ∷ xs) j =
    ground (arith, contains-insert_id x (sort_ids xs) j, contains-sort_ids xs j)

pub sort_ids-IsAscendingFrom : (xs : List ℕ) → HasNoDuplicates xs → IsAscendingFrom 0 (sort_ids xs)
unfolding sort_ids
sort_ids-IsAscendingFrom [] d = tt
sort_ids-IsAscendingFrom (x ∷ xs) d =
    insert_id-IsAscendingFrom 0 x (sort_ids xs) (omega arith) (rw (contains-sort_ids xs x) d.0)
      (sort_ids-IsAscendingFrom xs d.1)

not-contains_below : (b j : ℕ) (xs : List ℕ) → j < b → IsAscendingFrom b xs → contains xs j ≡ false
unfolding contains
not-contains_below b j [] h s = refl
not-contains_below b j (x ∷ xs) h s = ground (arith, not-contains_below (suc x) j xs)

-- An ascending list is determined by what it contains.
pub ascending_unique :
    (b : ℕ) (xs ys : List ℕ)
    → IsAscendingFrom b xs
    → IsAscendingFrom b ys
    → ((j : ℕ) → contains xs j ≡ contains ys j)
    → xs ≡ ys
unfolding contains
ascending_unique b [] [] s t h = refl
ascending_unique b [] (y ∷ ys) s t h = ground (arith, h y)
ascending_unique b (x ∷ xs) [] s t h = ground (arith, h x)
ascending_unique b (x ∷ xs) (y ∷ ys) s t h =
    let e : x ≡ y =
      ground (arith, h x, h y, not-contains_below (suc y) x ys, not-contains_below (suc x) y xs) in
    ap₂ ◌∷◌ e (ascending_unique (suc x) xs ys s.1 (rw (← e) at t.1) (λ j. tails e j))
  where
    tails : x ≡ y → (j : ℕ) → contains xs j ≡ contains ys j
    tails e j =
        ground (arith, h j, not-contains_below (suc x) j xs, not-contains_below (suc y) j ys)
