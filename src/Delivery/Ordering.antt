-- ===== src/Delivery/Ordering.antt =====
-- delivery.rs: a reliable buffer by itself, what it stores of what arrives and the order in which it
-- exposes it. Delivery/Delivering.antt relates it to the flows of an endpoint.
use runen_net.Prelude.{
  ℕ, zero, suc, ◌+◌, ◌≤◌, ◌<◌, ◌≡◌, refl, Bool, true, false, Option, none, some, List, [], ◌∷◌, map,
  if◌then◌else◌, ltb, ◌==◌, nat_eq, is_some, arith, Bool-cases, Option-cases, inl, inr, All,
  checked_add-eq_some, u64_mod,
}
use runen_net.Collections.BTreeMap.{BTreeMap}
use runen_net.Collections.BTreeMap
use runen_net.Delivery.Types.{DeliveryTransfer}
use runen_net.Delivery.Receiving.{duplicate_or_conflict}
use runen_net.Delivery.Exposure.{take_expected}

-- A transfer arrives at a reliable buffer with room for it, or the application asks for the next.
pub data Event : Type 0 where
  arrives : DeliveryTransfer → Event
  polls : Event

-- What `receive_reliable` leaves of the buffer of a flow that it does not end.
unfoldable pub store :
    BTreeMap DeliveryTransfer → Option ℕ → DeliveryTransfer → BTreeMap DeliveryTransfer
store by_index next transfer = elim (duplicate_or_conflict by_index next transfer) [
  | none ↦ BTreeMap.insert by_index transfer.accepted_index transfer
  | some conflict ↦ by_index
]

-- Whether a transfer conflicts with a stored one, which ends the flow.
abbrev pub is_conflict : Option Bool → Bool
is_conflict none = false
is_conflict (some conflict) = conflict

-- The transfers exposed along a history of a reliable buffer; after a conflict there are none.
unfoldable pub exposures : BTreeMap DeliveryTransfer → Option ℕ → List Event → List DeliveryTransfer
unfolding store
exposures by_index next [] = []
exposures by_index next (arrives transfer ∷ events) =
    let rest = exposures (store by_index next transfer) next events in
    if is_conflict (duplicate_or_conflict by_index next transfer) then [] else rest
exposures by_index next (polls ∷ events) = elim (take_expected by_index next) [
  | none ↦ exposures by_index next events
  | some (transfer, rest, next') ↦ transfer ∷ exposures rest next' events
]

-- Consecutive indices from `n` on.
abbrev pub IsFrom : ℕ → List DeliveryTransfer → Type 0
IsFrom n [] = Unit
IsFrom n (t ∷ ts) = (t.accepted_index ≡ n) × IsFrom (n + 1) ts

abbrev pub IsIndexed : BTreeMap DeliveryTransfer → Type 0
IsIndexed m = All (λ x. x.1.accepted_index ≡ x.0) m

store-IsIndexed :
    (m : BTreeMap DeliveryTransfer) (next : Option ℕ) (t : DeliveryTransfer)
    → IsIndexed m
    → IsIndexed (store m next t)
unfolding store
store-IsIndexed m next t a = elim (Option-cases (duplicate_or_conflict m next t)) [
  | inl e ↦
      rw (e, store)
        (BTreeMap.All-insert (λ x. x.1.accepted_index ≡ x.0) m t.accepted_index t refl a)
  | inr (c, e) ↦ rw (e, store) a
]

exhausted-exposures :
    (m : BTreeMap DeliveryTransfer) (events : List Event) → exposures m none events ≡ []
unfolding exposures take_expected duplicate_or_conflict
exhausted-exposures m [] = refl
exhausted-exposures m (arrives t ∷ events) = exhausted-exposures (store m none t) events
exhausted-exposures m (polls ∷ events) = exhausted-exposures m events

pub exposures-IsFrom :
    (events : List Event) (m : BTreeMap DeliveryTransfer) (n : ℕ)
    → IsIndexed m
    → IsFrom n (exposures m (some n) events)
unfolding exposures take_expected
exposures-IsFrom [] m n a = tt
exposures-IsFrom (arrives t ∷ events) m n a =
    elim (Bool-cases (is_conflict (duplicate_or_conflict m (some n) t))) [
      | inl c ↦ rw (c, exposures) tt
      | inr c ↦
          rw (c, exposures)
            (exposures-IsFrom events (store m (some n) t) n (store-IsIndexed m (some n) t a))
    ]
exposures-IsFrom (polls ∷ events) m n a = elim (Option-cases (BTreeMap.get m n)) [
  | inl e ↦ rw (e, exposures) (exposures-IsFrom events m n a)
  | inr (t, e) ↦
      let rest =
        exposures-IsFrom events (BTreeMap.remove m n) (n + 1)
          (BTreeMap.All-remove (λ x. x.1.accepted_index ≡ x.0) m n a) in
      elim (Bool-cases (ltb (n + 1) u64_mod)) [
        | inl b ↦
            rw (e, b, exposures) (BTreeMap.All-get (λ x. x.1.accepted_index ≡ x.0) m n t a e, rest)
        | inr b ↦
            rw (e, b, exposures)
              (
                BTreeMap.All-get (λ x. x.1.accepted_index ≡ x.0) m n t a e,
                rw (exhausted-exposures (BTreeMap.remove m n) events) tt,
              )
      ]
]

-- The first of some transfers with an index.
unfoldable pub first_with : ℕ → List DeliveryTransfer → Option DeliveryTransfer
first_with n [] = none
first_with n (t ∷ ts) = if t.accepted_index == n then some t else first_with n ts

abbrev pub wanted : ℕ → ℕ → List DeliveryTransfer → List (Option DeliveryTransfer)
wanted n zero ts = []
wanted n (suc k) ts = first_with n ts ∷ wanted (n + 1) k ts

abbrev pub repeated_polls : ℕ → List Event
repeated_polls zero = []
repeated_polls (suc k) = polls ∷ repeated_polls k

-- What is stored when nothing was exposed yet.
abbrev pub stored : BTreeMap DeliveryTransfer → List DeliveryTransfer → BTreeMap DeliveryTransfer
stored m [] = m
stored m (t ∷ ts) = stored (store m (some 0) t) ts

abbrev pub or_else : Option DeliveryTransfer → Option DeliveryTransfer → Option DeliveryTransfer
or_else none o = o
or_else (some t) o = some t

get-store :
    (m : BTreeMap DeliveryTransfer) (t : DeliveryTransfer) (j : ℕ)
    → BTreeMap.get (store m (some 0) t) j
      ≡ or_else (BTreeMap.get m j) (if t.accepted_index == j then some t else none)
unfolding store duplicate_or_conflict
get-store m t j = ground (arith, BTreeMap.get-insert m t.accepted_index j t)

pub get-stored :
    (m : BTreeMap DeliveryTransfer) (ts : List DeliveryTransfer) (j : ℕ)
    → BTreeMap.get (stored m ts) j ≡ or_else (BTreeMap.get m j) (first_with j ts)
unfolding first_with
get-stored m [] j = ground arith
get-stored m (t ∷ ts) j = ground (arith, get-store m t j, get-stored (store m (some 0) t) ts j)

store-IsSorted :
    (m : BTreeMap DeliveryTransfer) (t : DeliveryTransfer)
    → BTreeMap.IsSorted m
    → BTreeMap.IsSorted (store m (some 0) t)
unfolding store
store-IsSorted m t s = elim (Option-cases (duplicate_or_conflict m (some 0) t)) [
  | inl e ↦ rw (e, store) (BTreeMap.insert-IsSortedFrom 0 m t.accepted_index t (omega arith) s)
  | inr (c, e) ↦ rw (e, store) s
]

pub stored-IsSorted :
    (m : BTreeMap DeliveryTransfer) (ts : List DeliveryTransfer)
    → BTreeMap.IsSorted m
    → BTreeMap.IsSorted (stored m ts)
stored-IsSorted m [] s = s
stored-IsSorted m (t ∷ ts) s = stored-IsSorted (store m (some 0) t) ts (store-IsSorted m t s)

pub repeated_polls-wanted :
    (k n : ℕ) (m : BTreeMap DeliveryTransfer) (ts : List DeliveryTransfer)
    → BTreeMap.IsSorted m
    → n + k < u64_mod
    → ((i : ℕ) → n ≤ i → BTreeMap.get m i ≡ first_with i ts)
    → ((i : ℕ) → n ≤ i → i < n + k → is_some (first_with i ts) ≡ true)
    → map some (exposures m (some n) (repeated_polls k)) ≡ wanted n k ts
unfolding exposures take_expected
repeated_polls-wanted zero n m ts s b g h = refl
repeated_polls-wanted (suc k) n m ts s b g h = elim (Option-cases (BTreeMap.get m n)) [
  | inl e ↦ absurd (ground (arith, g n (omega arith), h n (omega arith) (omega arith)))
  | inr (t, e) ↦
      let rest =
        repeated_polls-wanted k (n + 1) (BTreeMap.remove m n) ts
          (BTreeMap.remove-IsSortedFrom 0 m n s) (omega (arith, b))
          (λ i q. ground (arith, BTreeMap.get-remove 0 m n i s, g i (omega arith)))
          (λ i q r. h i (omega arith) (omega arith)) in
      rw (e, checked_add-eq_some n 1 (omega (arith, b)), exposures)
        (ground (arith, rest, g n (omega arith)))
]
