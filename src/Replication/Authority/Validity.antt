-- ===== src/Replication/Authority/Validity.antt =====
-- replication/authority.rs: the invariant of one lineage, and what a call may add to its footprint.
use runen_net.Prelude.{
  ℕ, suc, ◌+◌, ◌≤◌, ◌<◌, ◌≡◌, refl, Bool, true, false, ◌&&◌, Option, none, some, [], if◌then◌else◌,
  leb, nat_eq, length, is_some, arith, All, IsU64,
}
use runen_net.Collections.BTreeMap.{BTreeMap, total, IsSorted}
use runen_net.Collections.BTreeMap
use runen_net.Replication.Model.{ReplicationRetentionLimits, ReplicationLineageKey}
use runen_net.Replication.Authority.Types.{
  EmissionEvidence, AuthorityReplicationState, delta_eligible, full_snapshot_required,
  SnapshotCandidate, AuthorityLineage, image_bytes, new_authority_lineage, pending_state_bytes,
  pending_candidate_bytes, has_pending,
}
use runen_net.Replication.Authority.Guards.{at_or_below, is_full, designates}
use runen_net.Replication.Authority.Lineage.{target_error, candidate_fits, cancel_pending}
use runen_net.Replication.Authority.Emission.{IsBelow}

-- All keys of a map are at most the greatest emitted cursor.
abbrev pub IsEmitted : {A : Type 0} → Option ℕ → BTreeMap A → Type 0
IsEmitted none m = m ≡ []
IsEmitted (some greatest) m = IsBelow (suc greatest) m

abbrev pub IsUpTo : Option ℕ → Option ℕ → Type 0
IsUpTo none greatest = Unit
IsUpTo (some c) greatest = at_or_below c greatest ≡ true

-- Evidence of a full snapshot that was designated for a generation.
abbrev pub is_recovery_of : ℕ → EmissionEvidence → Bool
is_recovery_of generation e = is_full e.kind && designates e.recovery_generation generation

abbrev pub generation_upto : Option ℕ → ℕ → Bool
generation_upto none generation = true
generation_upto (some g) generation = leb g generation

-- Evidence that completes the recovery is newer than the cursors emitted before the recovery began.
abbrev pub IsNewEvidence : ℕ → Option ℕ → BTreeMap EmissionEvidence → Type 0
IsNewEvidence generation watermark m =
    All (λ e. is_recovery_of generation e.1 ≡ true → at_or_below e.0 watermark ≡ false) m

module _ {S D : Type 0} where
  abbrev pub IsState : AuthorityLineage S D → AuthorityReplicationState → Type 0
  IsState l (delta_eligible base) =
      (l.latest_confirmed ≡ some base) × (is_some (BTreeMap.get l.retained base) ≡ true)
  IsState l (full_snapshot_required reason generation watermark) =
      (generation ≡ l.generation)
      × IsUpTo watermark l.greatest_emitted
      × IsNewEvidence generation watermark l.evidence

  -- A pending candidate is newer than all that was emitted, fits, and names no later generation.
  abbrev pub IsPending : AuthorityLineage S D → Option (SnapshotCandidate S D) → Type 0
  IsPending l none = Unit
  IsPending l (some (SnapshotCandidate.full snapshot g)) =
      (target_error l snapshot.target_cursor snapshot.target_tick ≡ none)
      × (candidate_fits l snapshot.image.accounted_bytes 0 ≡ true)
      × (generation_upto g l.generation ≡ true)
  IsPending l (some (SnapshotCandidate.delta base target tick image d additional)) =
      (target_error l target tick ≡ none)
      × (candidate_fits l image.accounted_bytes additional ≡ true)
      × (base < target)

  pub record IsValid (l : AuthorityLineage S D) : Type 0 where
    pub may_retain : 0 < l.limits.max_retained_images_per_lineage
    pub may_record : 0 < l.limits.max_emission_evidence_per_lineage
    pub image_retainable :
        l.limits.max_state_image_bytes ≤ l.limits.max_retained_state_bytes_per_lineage
    pub machine : IsU64 l.limits.max_candidate_bytes_per_lineage
    pub sorted : IsSorted l.retained
    pub counted : l.retained_bytes ≡ total image_bytes l.retained
    pub within_count : length l.retained ≤ l.limits.max_retained_images_per_lineage
    pub within_bytes : l.retained_bytes ≤ l.limits.max_retained_state_bytes_per_lineage
    pub evidence_sorted : IsSorted l.evidence
    pub evidence_fits : length l.evidence ≤ l.limits.max_emission_evidence_per_lineage
    pub retained_emitted : IsEmitted l.greatest_emitted l.retained
    pub evidence_emitted : IsEmitted l.greatest_emitted l.evidence
    pub confirmed_emitted : IsUpTo l.latest_confirmed l.greatest_emitted
    pub generations :
        All (λ e. generation_upto e.1.recovery_generation l.generation ≡ true) l.evidence
    pub state_valid : IsState l l.state
    pub pending_valid : IsPending l l.pending

  -- A lineage after a call needs no more room than before it, what is pending included.
  pub record NeedsNoMore (l l' : AuthorityLineage S D) : Type 0 where
    pub images :
        length l'.retained + (if has_pending l' then 1 else 0)
        ≤ length l.retained + (if has_pending l then 1 else 0)
    pub evidence :
        length l'.evidence + (if has_pending l' then 1 else 0)
        ≤ length l.evidence + (if has_pending l then 1 else 0)
    pub bytes :
        l'.retained_bytes + pending_state_bytes l' ≤ l.retained_bytes + pending_state_bytes l
    pub accounted :
        l'.retained_bytes + pending_candidate_bytes l'
        ≤ l.retained_bytes + pending_candidate_bytes l

  abbrev pub Keeps : AuthorityLineage S D → AuthorityLineage S D → Type 0
  Keeps l l' = IsValid l' × NeedsNoMore l l'

  pub same-Keeps : (l : AuthorityLineage S D) → IsValid l → Keeps l l
  same-Keeps l v = (
    v,
    record {
      images = omega arith;
      evidence = omega arith;
      bytes = omega arith;
      accounted = omega arith;
    },
  )

  pub new_authority_lineage-IsValid :
      (key : ReplicationLineageKey) (limits : ReplicationRetentionLimits)
      → 0 < limits.max_retained_images_per_lineage
      → 0 < limits.max_emission_evidence_per_lineage
      → limits.max_state_image_bytes ≤ limits.max_retained_state_bytes_per_lineage
      → IsU64 limits.max_candidate_bytes_per_lineage
      → IsValid (new_authority_lineage key limits)
  unfolding new_authority_lineage
  new_authority_lineage-IsValid key limits a b c d = record {
    may_retain = a;
    may_record = b;
    image_retainable = c;
    machine = d;
    sorted = tt;
    counted = refl;
    within_count = omega arith;
    within_bytes = omega arith;
    evidence_sorted = tt;
    evidence_fits = omega arith;
    retained_emitted = refl;
    evidence_emitted = refl;
    confirmed_emitted = tt;
    generations = tt;
    state_valid = (refl, tt, tt);
    pending_valid = tt;
  }

  pub cancel_pending-Keeps : (l : AuthorityLineage S D) → IsValid l → Keeps l (cancel_pending l).0
  cancel_pending-Keeps l v = (
    record {
      may_retain = v.may_retain;
      may_record = v.may_record;
      image_retainable = v.image_retainable;
      machine = v.machine;
      sorted = v.sorted;
      counted = v.counted;
      within_count = v.within_count;
      within_bytes = v.within_bytes;
      evidence_sorted = v.evidence_sorted;
      evidence_fits = v.evidence_fits;
      retained_emitted = v.retained_emitted;
      evidence_emitted = v.evidence_emitted;
      confirmed_emitted = v.confirmed_emitted;
      generations = v.generations;
      state_valid = same_state l.state v.state_valid;
      pending_valid = tt;
    },
    record {
      images = omega arith;
      evidence = omega arith;
      bytes = omega arith;
      accounted = omega arith;
    },
  )
    where
      same_state :
          (s : AuthorityReplicationState) → IsState l s → IsState (record l { pending = none }) s
      same_state (delta_eligible base) h = h
      same_state (full_snapshot_required reason generation watermark) h = h
