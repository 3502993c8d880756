-- ===== src/Replication/Authority/Recovery.antt =====
-- replication/authority.rs: recoveries, acknowledgements and evictions, and the invariant.
use runen_net.Prelude.{
  ℕ, ◌+◌, ◌≡◌, refl, true, Option, none, some, [], ◌∷◌, ltb, nat_eq, arith, Bool-cases,
  Option-cases, inl, inr, All, u64_mod,
}
use runen_net.Collections.BTreeMap.{BTreeMap}
use runen_net.Replication.Authority.Types.{
  EmissionEvidence, AuthorityRecoveryReason, AuthorityLineage,
}
use runen_net.Replication.Authority.Guards.{base_of, designates}
use runen_net.Replication.Authority.Lineage.{install_new_recovery, recover_anew}
use runen_net.Session.State.{Session}
use runen_net.Replication.Authority.Types.{connection_replacement}
use runen_net.Replication.Authority.Lineage.{
  require_full_recovery, connection_replaced, is_own_authorized,
}
use runen_net.Replication.Authority.Validity.{
  IsUpTo, generation_upto, IsNewEvidence, IsValid, Keeps, same-Keeps,
}

All-up :
    (g : ℕ) (m : BTreeMap EmissionEvidence)
    → All (λ e. generation_upto e.1.recovery_generation g ≡ true) m
    → All (λ e. generation_upto e.1.recovery_generation (g + 1) ≡ true) m
All-up g [] a = tt
All-up g ((c, e) ∷ m) a = (up e.recovery_generation a.0, All-up g m a.1)
  where
    up : (o : Option ℕ) → generation_upto o g ≡ true → generation_upto o (g + 1) ≡ true
    up none h = refl
    up (some k) h = ground arith

none_yet :
    (g : ℕ) (watermark : Option ℕ) (m : BTreeMap EmissionEvidence)
    → All (λ e. generation_upto e.1.recovery_generation g ≡ true) m
    → IsNewEvidence (g + 1) watermark m
none_yet g watermark [] a = tt
none_yet g watermark ((c, e) ∷ m) a =
    ((λ h. absurd (early e.recovery_generation a.0 (ground arith))), none_yet g watermark m a.1)
  where
    early : (o : Option ℕ) → generation_upto o g ≡ true → designates o (g + 1) ≡ true → ⊥
    early none h k = cc
    early (some k') h k = ground arith

IsUpTo-itself : (o : Option ℕ) → IsUpTo o o
IsUpTo-itself none = tt
IsUpTo-itself (some c) = ground arith

module _ {S D : Type 0} where
  -- A new recovery in the next generation, from a lineage that is valid but for its state.
  pub installed-Keeps :
      (l : AuthorityLineage S D) (confirmed : Option ℕ) (reason : AuthorityRecoveryReason)
      → IsValid l
      → IsUpTo confirmed l.greatest_emitted
      → Keeps l (
          install_new_recovery
            (record l { latest_confirmed = confirmed })
            reason
            (l.generation + 1))
  unfolding install_new_recovery
  installed-Keeps l confirmed reason v h = (
    record {
      may_retain = v.may_retain;
      may_record = v.may_record;
      image_retainable = v.image_retainable;
      machine = v.machine;
      sorted = v.sorted;
      counted = v.counted;
      within_count = v.within_count;
      within_bytes = v.within_bytes;
      evidence_sorted = v.evidence_sorted;
      evidence_fits = v.evidence_fits;
      retained_emitted = v.retained_emitted;
      evidence_emitted = v.evidence_emitted;
      confirmed_emitted = h;
      generations = All-up l.generation l.evidence v.generations;
      state_valid = (
        refl,
        IsUpTo-itself l.greatest_emitted,
        none_yet l.generation l.greatest_emitted l.evidence v.generations,
      );
      pending_valid = tt;
    },
    record {
      images = omega arith;
      evidence = omega arith;
      bytes = omega arith;
      accounted = omega arith;
    },
  )

  pub recover_anew-Keeps :
      (l : AuthorityLineage S D) (reason : AuthorityRecoveryReason)
      → IsValid l
      → Keeps l (recover_anew l reason).0
  unfolding recover_anew
  recover_anew-Keeps l reason v = elim (Bool-cases (ltb (l.generation + 1) u64_mod)) [
    | inl e ↦
        rw (e, recover_anew) (installed-Keeps l l.latest_confirmed reason v v.confirmed_emitted)
    | inr e ↦ rw (e, recover_anew) (same-Keeps l v)
  ]

  pub require_full_recovery-Keeps :
      (l : AuthorityLineage S D) (reason : AuthorityRecoveryReason)
      → IsValid l
      → Keeps l (require_full_recovery l reason).0
  unfolding require_full_recovery
  require_full_recovery-Keeps l reason v = elim (Option-cases (base_of l.state)) [
    | inl e ↦ rw (e, require_full_recovery) (same-Keeps l v)
    | inr (b, e) ↦ rw (e, require_full_recovery) (recover_anew-Keeps l reason v)
  ]

  pub connection_replaced-Keeps :
      (l : AuthorityLineage S D) (s : Session) (connection : ℕ)
      → IsValid l
      → Keeps l (connection_replaced l s connection).0
  unfolding connection_replaced
  connection_replaced-Keeps l s connection v =
      elim (Bool-cases (is_own_authorized l s connection)) [
        | inr e ↦ rw (e, connection_replaced) (same-Keeps l v)
        | inl e ↦ rw (e, connection_replaced) (recover_anew-Keeps l connection_replacement v)
      ]
