-- ===== src/Replication/Authority/Emitting.antt =====
-- replication/authority.rs: preparation, emission and eviction, and the invariant.
use runen_net.Prelude.{
  ℕ, suc, ◌+◌, ◌≤◌, ◌≡◌, refl, ap, true, false, Option, none, some, [], ◌∷◌, leb, nat_eq, length,
  is_some, arith,
}
use runen_net.Collections.BTreeMap.{BTreeMap, total, IsSorted}
use runen_net.Collections.BTreeMap
use runen_net.Replication.Model.{AccountedState}
use runen_net.Replication.Authority.Types.{
  RetainedState, EmissionEvidence, AuthorityReplicationState, delta_eligible,
  full_snapshot_required, AuthorityLineage,
}
use runen_net.Replication.Authority.Guards.{is_base, base_of, at_or_below}
use runen_net.Replication.Authority.Lineage.{target_error}
use runen_net.Replication.Authority.Emission.{IsBelow}
use runen_net.Replication.Authority.Validity.{
  IsEmitted, IsUpTo, is_recovery_of, generation_upto, IsState, IsValid,
}
use runen_net.Replication.Authority.Types.{SnapshotKind}
use runen_net.Replication.Authority.Guards.{drop_oldest}
use runen_net.Replication.Authority.Lineage.{retain_emission_evidence, record_emitted_state}
use runen_net.Replication.Authority.Emission.{
  drop_oldest-All, drop_oldest-IsSortedFrom, length-drop_oldest, retain_authority_state-IsRetention,
  absent_below,
}

pub fresh-IsBelow :
    {A : Type 0} (greatest : Option ℕ) (m : BTreeMap A) (cursor : ℕ)
    → IsEmitted greatest m
    → at_or_below cursor greatest ≡ false
    → IsBelow cursor m
fresh-IsBelow none [] cursor e h = tt
fresh-IsBelow none (x ∷ m) cursor e h = absurd (cc)
fresh-IsBelow (some g) [] cursor e h = tt
fresh-IsBelow (some g) (x ∷ m) cursor e h = (ground arith, fresh-IsBelow (some g) m cursor e.1 h)

raised : {A : Type 0} (m : BTreeMap A) (cursor : ℕ) → IsBelow cursor m → IsBelow (suc cursor) m
raised [] cursor a = tt
raised (x ∷ m) cursor a = (omega arith, raised m cursor a.1)

within_raised :
    (o greatest : Option ℕ) (cursor : ℕ)
    → IsUpTo o greatest
    → at_or_below cursor greatest ≡ false
    → IsUpTo o (some cursor)
within_raised none greatest cursor h f = tt
within_raised (some c) none cursor h f = cc
within_raised (some c) (some g) cursor h f = ground arith

below_both :
    (cursor c : ℕ) (o : Option ℕ)
    → at_or_below c o ≡ true
    → at_or_below cursor o ≡ false
    → leb cursor c ≡ false
below_both cursor c none u f = cc
below_both cursor c (some o) u f = ground arith

pub past_watermark :
    (cursor : ℕ) (watermark greatest : Option ℕ)
    → IsUpTo watermark greatest
    → at_or_below cursor greatest ≡ false
    → at_or_below cursor watermark ≡ false
past_watermark cursor none greatest u f = refl
past_watermark cursor (some c) greatest u f = below_both cursor c greatest u f

module _ {S D : Type 0} where
  -- An emitted snapshot: what it needs was reserved while it was pending.
  pub emitted-IsValid :
      (l : AuthorityLineage S D) (cursor tick : ℕ) (image : AccountedState S) (kind : SnapshotKind)
      (g : Option ℕ)
      → IsValid l
      → target_error l cursor tick ≡ none
      → image.accounted_bytes ≤ l.limits.max_state_image_bytes
      → generation_upto g l.generation ≡ true
      → l.pending ≡ none
      → let l' = record_emitted_state l cursor tick image kind g in
        IsValid l'
        × (l'.pending ≡ none)
        × (length l'.retained ≤ length l.retained + 1)
        × (length l'.evidence ≤ length l.evidence + 1)
        × (l'.retained_bytes ≤ l.retained_bytes + image.accounted_bytes)
  unfolding record_emitted_state retain_emission_evidence
  emitted-IsValid l cursor tick image kind g v fresh fits upto idle =
      let newer : at_or_below cursor l.greatest_emitted ≡ false = ground arith in
      let (kept, bytes, q, r) =
        retain_authority_state-IsRetention
          (record l { greatest_emitted = some cursor; greatest_emitted_tick = some tick }) cursor
          tick image v.sorted v.counted v.within_count v.within_bytes v.may_retain
          (omega (arith, v.image_retainable))
          (fresh-IsBelow l.greatest_emitted l.retained cursor v.retained_emitted newer) in
      let dropped = length-drop_oldest max l.evidence v.may_record in
      let evidence_below =
        drop_oldest-All (λ e. suc e.0 ≤ cursor) max l.evidence
          (fresh-IsBelow l.greatest_emitted l.evidence cursor v.evidence_emitted newer) in
      let added =
        BTreeMap.length-insert_absent older cursor new (absent_below older cursor evidence_below) in
      rw q (
        record {
          may_retain = v.may_retain;
          may_record = v.may_record;
          image_retainable = v.image_retainable;
          machine = v.machine;
          sorted = r.sorted;
          counted = r.counted;
          within_count = r.within_count;
          within_bytes = r.within_bytes;
          evidence_sorted =
              BTreeMap.insert-IsSortedFrom 0 older cursor new (omega arith)
                (drop_oldest-IsSortedFrom 0 max l.evidence v.evidence_sorted);
          evidence_fits = omega (arith, added, dropped.0);
          retained_emitted = r.below;
          evidence_emitted =
              BTreeMap.All-insert (λ e. suc e.0 ≤ suc cursor) older cursor new (omega arith)
                (raised older cursor evidence_below);
          confirmed_emitted =
              within_raised l.latest_confirmed l.greatest_emitted cursor v.confirmed_emitted newer;
          generations =
              BTreeMap.All-insert (λ e. generation_upto e.1.recovery_generation l.generation ≡ true)
                older cursor new upto
                (drop_oldest-All (λ e. generation_upto e.1.recovery_generation l.generation ≡ true)
                  max l.evidence v.generations);
          state_valid = state_after l.state refl v.state_valid newer kept bytes r.base_kept;
          pending_valid = rw idle tt;
        },
        idle,
        r.one_more,
        omega (arith, added, dropped.1),
        omega (arith, r.bytes_more, v.counted),
      )
    where
      max : ℕ
      max = l.limits.max_emission_evidence_per_lineage

      older : BTreeMap EmissionEvidence
      older = drop_oldest max l.evidence

      new : EmissionEvidence
      new = record { kind = kind; recovery_generation = g }

      after : BTreeMap (RetainedState S) → ℕ → AuthorityLineage S D
      after kept bytes = record l {
        greatest_emitted = some cursor;
        greatest_emitted_tick = some tick;
        retained = kept;
        retained_bytes = bytes;
        evidence = BTreeMap.insert older cursor new;
      }

      state_after :
          (s : AuthorityReplicationState)
          → l.state ≡ s
          → IsState l s
          → at_or_below cursor l.greatest_emitted ≡ false
          → (kept : BTreeMap (RetainedState S)) (bytes : ℕ)
          → ((base : ℕ)
              → is_base (base_of l.state) base ≡ true
              → is_some (BTreeMap.get l.retained base) ≡ true
              → is_some (BTreeMap.get kept base) ≡ true)
          → IsState (after kept bytes) s
      state_after (delta_eligible base) e h f kept bytes held =
          (h.0, held base (rw (ap base_of e) (ground arith)) h.1)
      state_after (full_snapshot_required reason generation watermark) e h f kept bytes held = (
        h.0,
        within_raised watermark l.greatest_emitted cursor h.1 f,
        BTreeMap.All-insert
            (λ x. is_recovery_of generation x.1 ≡ true → at_or_below x.0 watermark ≡ false) older
            cursor new (λ k. past_watermark cursor watermark l.greatest_emitted h.1 f)
            (drop_oldest-All
              (λ x. is_recovery_of generation x.1 ≡ true → at_or_below x.0 watermark ≡ false) max
              l.evidence h.2),
      )
