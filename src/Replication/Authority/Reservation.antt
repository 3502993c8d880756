-- ===== src/Replication/Authority/Reservation.antt =====
-- replication/authority.rs: the aggregate limits of a session, and the reservations against them.
use runen_net.Prelude.{
  ℕ, ◌+◌, ◌≤◌, ◌≡◌, sym, true, Option, some, if◌then◌else◌, nat_eq, length, arith, Bool-cases,
  Option-cases, inl, inr, All, Result, ok, err, u64_mod, ltb,
}
use runen_net.Collections.HashMap.{HashMap, total, total-sum, checked_sum, checked_sum-total}
use runen_net.Collections.HashMap
use runen_net.Replication.Model.{AuthorityAggregateLimits}
use runen_net.Replication.Authority.Types.{
  AuthorityLineage, pending_state_bytes, pending_candidate_bytes, has_pending,
  AuthorityPrepareError, PendingSnapshotSummary,
}
use runen_net.Replication.Authority.Lineage
use runen_net.Replication.Authority.Validity.{IsValid, Keeps, cancel_pending-Keeps, same-Keeps}
use runen_net.Replication.Authority.Pending.{IsPreparation, prepared-IsValid}
use runen_net.Replication.Authority.Sessions.{
  AuthorityReplicationSession, fits_sum, put, new_authority_session, aggregate_reservations_fit,
  check_reservation,
}
use mathlib.Core.Path.{subst}

module _ {S D : Type 0} where
  abbrev pub pending_need : AuthorityLineage S D → ℕ
  pending_need l = if has_pending l then 1 else 0

  -- What a lineage takes of each aggregate limit, its pending candidate included.
  abbrev pub image_need : AuthorityLineage S D → ℕ
  image_need l = length l.retained + pending_need l

  abbrev pub evidence_need : AuthorityLineage S D → ℕ
  evidence_need l = length l.evidence + pending_need l

  abbrev pub byte_need : AuthorityLineage S D → ℕ
  byte_need l = l.retained_bytes + pending_state_bytes l

  abbrev pub candidate_need : AuthorityLineage S D → ℕ
  candidate_need l = l.retained_bytes + pending_candidate_bytes l

  pub record IsValidSession (a : AuthorityReplicationSession S D) : Type 0 where
    pub valid : All (λ e. IsValid e.1) a.lineages
    pub lineages_fit : length a.lineages ≤ a.limits.max_lineages
    pub images_fit : total image_need a.lineages ≤ a.limits.max_retained_images
    pub evidence_fits : total evidence_need a.lineages ≤ a.limits.max_emission_evidence
    pub bytes_fit : total byte_need a.lineages ≤ a.limits.max_retained_state_bytes
    pub candidates_fit : total candidate_need a.lineages ≤ a.limits.max_state_bytes

  pub new_authority_session-IsValidSession :
      (session : ℕ) (limits : AuthorityAggregateLimits)
      → IsValidSession (new_authority_session session limits)
  unfolding new_authority_session
  new_authority_session-IsValidSession session limits = record {
    valid = tt;
    lineages_fit = omega arith;
    images_fit = omega arith;
    evidence_fits = omega arith;
    bytes_fit = omega arith;
    candidates_fit = omega arith;
  }

  -- A lineage in place of one that needed as much.
  pub put-IsValidSession :
      (a : AuthorityReplicationSession S D) (participant : ℕ) (l l' : AuthorityLineage S D)
      → HashMap.get a.lineages participant ≡ some l
      → Keeps l l'
      → IsValidSession a
      → IsValidSession (put a participant l')
  put-IsValidSession a participant l l' h k v = record {
    valid = HashMap.All-insert IsValid a.lineages participant l' k.0 v.valid;
    lineages_fit =
        omega (arith, HashMap.length-insert_present a.lineages participant l' l h, v.lineages_fit);
    images_fit = omega (
      arith,
      HashMap.total-insert_present image_need a.lineages participant l' l h,
      k.1.images,
      v.images_fit,
    );
    evidence_fits = omega (
      arith,
      HashMap.total-insert_present evidence_need a.lineages participant l' l h,
      k.1.evidence,
      v.evidence_fits,
    );
    bytes_fit = omega (
      arith,
      HashMap.total-insert_present byte_need a.lineages participant l' l h,
      k.1.bytes,
      v.bytes_fit,
    );
    candidates_fit = omega (
      arith,
      HashMap.total-insert_present candidate_need a.lineages participant l' l h,
      k.1.accounted,
      v.candidates_fit,
    );
  }

  fits_sum-le :
      (f : AuthorityLineage S D → ℕ) (m : HashMap ℕ (AuthorityLineage S D)) (o : Option ℕ)
      (t limit : ℕ)
      → ((n : ℕ) → o ≡ some n → n ≡ t)
      → fits_sum (checked_sum f 0 m) o limit ≡ true
      → total f m + t ≤ limit
  fits_sum-le f m o t limit known h = elim (Option-cases (checked_sum f 0 m)) [
    | inl e ↦ absurd (ground arith)
    | inr (x, e) ↦ elim (Option-cases o) [
      | inl q ↦ absurd (ground arith)
      | inr (y, q) ↦ elim (Bool-cases (ltb (x + y) u64_mod)) [
        | inr w ↦ absurd (ground arith)
        | inl w ↦ ground (arith, checked_sum-total f 0 m x e, known y q)
      ]
    ]
  ]

  pub reserved-IsValidSession :
      (a : AuthorityReplicationSession S D)
      → All (λ e. IsValid e.1) a.lineages
      → length a.lineages ≤ a.limits.max_lineages
      → aggregate_reservations_fit a ≡ true
      → IsValidSession a
  unfolding aggregate_reservations_fit
  reserved-IsValidSession a valid few fit = record {
    valid = valid;
    lineages_fit = few;
    images_fit = omega (
      arith,
      total-sum (λ l. length l.retained) pending_need a.lineages,
      fits_sum-le (λ l. length l.retained) a.lineages (some (total pending_need a.lineages))
          (total pending_need a.lineages) a.limits.max_retained_images (λ n e. ground arith)
          (ground arith),
    );
    evidence_fits = omega (
      arith,
      total-sum (λ l. length l.evidence) pending_need a.lineages,
      fits_sum-le (λ l. length l.evidence) a.lineages (some (total pending_need a.lineages))
          (total pending_need a.lineages) a.limits.max_emission_evidence (λ n e. ground arith)
          (ground arith),
    );
    bytes_fit = omega (
      arith,
      total-sum (λ l. l.retained_bytes) pending_state_bytes a.lineages,
      fits_sum-le (λ l. l.retained_bytes) a.lineages (checked_sum pending_state_bytes 0 a.lineages)
          (total pending_state_bytes a.lineages) a.limits.max_retained_state_bytes
          (λ n e. omega (arith, checked_sum-total pending_state_bytes 0 a.lineages n e))
          (ground arith),
    );
    candidates_fit = omega (
      arith,
      total-sum (λ l. l.retained_bytes) pending_candidate_bytes a.lineages,
      fits_sum-le (λ l. l.retained_bytes) a.lineages
          (checked_sum pending_candidate_bytes 0 a.lineages)
          (total pending_candidate_bytes a.lineages) a.limits.max_state_bytes
          (λ n e. omega (arith, checked_sum-total pending_candidate_bytes 0 a.lineages n e))
          (ground arith),
    );
  }

  -- A preparation reserves what its candidate may take, or leaves nothing pending.
  pub check_reservation-IsValidSession :
      (a : AuthorityReplicationSession S D) (participant : ℕ) (l : AuthorityLineage S D)
      (r : AuthorityLineage S D × Result PendingSnapshotSummary AuthorityPrepareError)
      → HashMap.get a.lineages participant ≡ some l
      → IsValidSession a
      → IsValid l
      → IsPreparation l r
      → IsValidSession (check_reservation a participant r).0
  unfolding check_reservation
  check_reservation-IsValidSession a participant l (l', err e) h v w (inl (q, bad)) =
      put-IsValidSession a participant l l' h (subst (Keeps l) (sym q) (same-Keeps l w)) v
  check_reservation-IsValidSession a participant l (l', err e) h v w (inr (c, idle, p, q, good)) =
      absurd (cc)
  check_reservation-IsValidSession a participant l (l', ok summary) h v w (inl (q, bad)) =
      absurd (cc)
  check_reservation-IsValidSession a participant l (l', ok summary) h v w
        (inr (c, idle, p, q, good)) =
      elim (Bool-cases (aggregate_reservations_fit (put a participant l'))) [
        | inl fit ↦
            rw (fit, check_reservation)
              (reserved-IsValidSession (put a participant l')
                (HashMap.All-insert IsValid a.lineages participant l'
                  (subst IsValid (sym q) (prepared-IsValid l c w p)) v.valid)
                (omega (
                  arith,
                  HashMap.length-insert_present a.lineages participant l' l h,
                  v.lineages_fit,
                ))
                fit)
        | inr fit ↦
            rw (fit, check_reservation)
              (put-IsValidSession a participant l (Lineage.cancel_pending l').0 h
                (subst (λ x. Keeps l (Lineage.cancel_pending x).0) (sym q)
                  (cancel_pending-Keeps l w))
                v)
      ]
