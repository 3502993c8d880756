-- ===== src/Identity.antt =====
-- crates/runen-net/src/identity.rs: opaque identities, and the registry that refuses their reuse.
-- An identity is the number that it wraps.
use runen_net.Prelude.{ℕ, Bool, Eq, if◌then◌else◌, leb, length, Result, ok, err}
use runen_net.Collections.HashSet.{HashSet}
use runen_net.Collections.HashSet

abbrev pub SessionId : Type 0
SessionId = ℕ

abbrev pub ParticipantId : Type 0
ParticipantId = ℕ

abbrev pub NetworkEntityId : Type 0
NetworkEntityId = ℕ

abbrev pub SimulationTick : Type 0
SimulationTick = ℕ

abbrev pub ConnectionHandle : Type 0
ConnectionHandle = ℕ

pub data IncarnationClaimError : Type 0 where
  already_used capacity_exceeded : IncarnationClaimError

pub record IncarnationRegistry {ℓ} (I : Type ℓ) : Type ℓ where
  pub max_claims : ℕ
  pub used : HashSet I

module _ {ℓ} {I : Type ℓ} ⦃e : Eq I⦄ where
  unfoldable pub claim :
      IncarnationRegistry I → I → Result (IncarnationRegistry I) IncarnationClaimError
  claim r id =
      if HashSet.contains r.used id
      then err already_used
      else if leb r.max_claims (length r.used)
      then err capacity_exceeded
      else ok (record r { used = HashSet.insert r.used id })

  abbrev pub contains : IncarnationRegistry I → I → Bool
  contains r id = HashSet.contains r.used id
