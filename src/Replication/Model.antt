-- ===== src/Replication/Model.antt =====
-- replication/model.rs: keys, limits and snapshots. A cursor, a generation and a tick are numbers.
use runen_net.Prelude.{
  ℕ, ◌<◌, ◌≡◌, IsU64, ◌↔◌, Option, Bool, true, ◌&&◌, arith, if◌then◌else◌, ltb, ◌==◌, nat_eq, Eq,
  Result, ok, err, checked_add,
}
use runen_net.Identity.{SessionId, ParticipantId, SimulationTick}

pub record ReplicationLineageKey : Type 0 where
  pub session : SessionId
  pub participant : ParticipantId

abbrev pub key_beq : ReplicationLineageKey → ReplicationLineageKey → Bool
key_beq a b = a.session == b.session && a.participant == b.participant

pub key_beq_iff : (a b : ReplicationLineageKey) → (key_beq a b ≡ true) ↔ (a ≡ b)
key_beq_iff a b = ground arith

instance abbrev pub key_eq : Eq ReplicationLineageKey
key_eq = record { same = key_beq; same_iff = key_beq_iff }

abbrev pub ReplicationCursor : Type 0
ReplicationCursor = ℕ

abbrev pub RecoveryGeneration : Type 0
RecoveryGeneration = ℕ

abbrev pub checked_next : RecoveryGeneration → Option RecoveryGeneration
checked_next generation = checked_add generation 1

pub record AccountedState (S : Type 0) : Type 0 where
  pub state : S
  pub accounted_bytes : ℕ

pub record ReplicationRetentionLimits : Type 0 where
  pub max_state_image_bytes : ℕ
  pub max_retained_images_per_lineage : ℕ
  pub max_retained_state_bytes_per_lineage : ℕ
  pub max_candidate_bytes_per_lineage : ℕ
  pub max_emission_evidence_per_lineage : ℕ

-- The types of the limits on what a lineage retains: `NonZeroUsize` and `usize`.
abbrev pub IsTypedLimits : ReplicationRetentionLimits → Type 0
IsTypedLimits limits =
    (0 < limits.max_retained_images_per_lineage)
    × IsU64 limits.max_retained_images_per_lineage
    × IsU64 limits.max_retained_state_bytes_per_lineage

pub data ReplicationLimitError : Type 0 where
  state_image_exceeds_retained_budget state_image_exceeds_candidate_budget : ReplicationLimitError

-- `ReplicationRetentionLimits::new`.
unfoldable pub new_retention_limits :
    ℕ → ℕ → ℕ → ℕ → ℕ → Result ReplicationRetentionLimits ReplicationLimitError
new_retention_limits image_bytes images retained_bytes candidate_bytes evidence =
    if ltb retained_bytes image_bytes
    then err state_image_exceeds_retained_budget
    else if ltb candidate_bytes image_bytes
    then err state_image_exceeds_candidate_budget
    else ok (record {
      max_state_image_bytes = image_bytes;
      max_retained_images_per_lineage = images;
      max_retained_state_bytes_per_lineage = retained_bytes;
      max_candidate_bytes_per_lineage = candidate_bytes;
      max_emission_evidence_per_lineage = evidence;
    })

pub record ClientAggregateLimits : Type 0 where
  pub max_lineages : ℕ
  pub max_retained_images : ℕ
  pub max_retained_state_bytes : ℕ

pub record AuthorityAggregateLimits : Type 0 where
  pub max_lineages : ℕ
  pub max_state_bytes : ℕ
  pub max_retained_images : ℕ
  pub max_retained_state_bytes : ℕ
  pub max_emission_evidence : ℕ

pub record FullSnapshot (S : Type 0) : Type 0 where
  pub target_cursor : ReplicationCursor
  pub target_tick : SimulationTick
  pub image : AccountedState S

pub record DeltaSnapshot (D : Type 0) : Type 0 where
  pub base_cursor : ReplicationCursor
  pub target_cursor : ReplicationCursor
  pub target_tick : SimulationTick
  pub delta : D
