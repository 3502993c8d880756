-- ===== src/Replication/Client/Commit.antt =====
-- replication/client.rs: `commit_with_plan` on a planned commit.
use mathlib.Core.Path.{subst}
use runen_net.Prelude.{
  ℕ, checked_add-eq_some, suc, ◌+◌, ◌-◌, ◌≤◌, ◌<◌, ◌≡◌, refl, sym, Option, none, some, [], ◌∷◌,
  nat_eq, length, arith, Bool-cases, inl, inr, All,
}
use runen_net.Collections.BTreeMap.{BTreeMap, total}
use runen_net.Collections.BTreeMap
use runen_net.Replication.Model.{key_eq, AccountedState}
use runen_net.Replication.Client.Lineage.{
  ClientLineage, RetainedState, CommitPlan, ClientRecoveryReason, synchronized, bytes_of,
  state_image_fits, plan_commit, commit_with_plan, classify_cursor, current_retained,
}
use runen_net.Replication.Client.Plan.{IsPlan, plan_commit-IsPlan, plan_commit-none}
use runen_net.Replication.Client.Survivors.{survivors, survivors-All, survivors-IsSortedFrom}
use runen_net.Replication.Client.Validity.{IsNewest, IsBoundary, IsValid}

-- The cursor is newer than the current one.
abbrev pub IsNewer : Option ℕ → ℕ → Type 0
IsNewer none cursor = Unit
IsNewer (some current) cursor = current < cursor

newer-IsBoundary :
    (current : Option ℕ) (boundary : Option (ℕ × ClientRecoveryReason)) (cursor : ℕ)
    → IsBoundary current boundary
    → IsNewer current cursor
    → IsBoundary (some cursor) boundary
newer-IsBoundary current none cursor h n = tt
newer-IsBoundary none (some b) cursor h n = absurd h
newer-IsBoundary (some c) (some b) cursor h n = omega arith

module _ {S : Type 0} where
  pub classify_cursor-IsNewer :
      (l : ClientLineage S) (cursor : ℕ)
      → classify_cursor l cursor ≡ none
      → IsNewer l.current cursor
  unfolding classify_cursor
  classify_cursor-IsNewer l cursor h = go l.current refl
    where
      go : (o : Option ℕ) → l.current ≡ o → IsNewer o cursor
      go none e = tt
      go (some c) e = ground arith

  abbrev pub held : ℕ → AccountedState S → RetainedState S
  held tick image = record { tick = tick; image = image }

  abbrev pub after_commit :
      ClientLineage S → ℕ → ℕ → AccountedState S → BTreeMap (RetainedState S) → ClientLineage S
  after_commit l cursor tick image kept = record l {
    retained_bytes = total bytes_of kept + image.accounted_bytes;
    retained = BTreeMap.insert kept cursor (held tick image);
    current = some cursor;
    state = synchronized;
  }

  below_newer :
      (current : Option ℕ) (m : BTreeMap (RetainedState S)) (cursor : ℕ)
      → IsNewest current m
      → IsNewer current cursor
      → All (λ e. suc e.0 ≤ cursor) m
  below_newer none m cursor h n = subst (All (λ e. suc e.0 ≤ cursor)) (sym h) tt
  below_newer (some c) m cursor h n = raise m h.1
    where
      raise :
          (m : BTreeMap (RetainedState S)) → All (λ e. e.0 ≤ c) m → All (λ e. suc e.0 ≤ cursor) m
      raise [] a = tt
      raise (x ∷ m) a = (omega arith, raise m a.1)

  absent :
      (m : BTreeMap (RetainedState S)) (cursor : ℕ)
      → All (λ e. suc e.0 ≤ cursor) m
      → BTreeMap.get m cursor ≡ none
  unfolding BTreeMap.get
  absent [] cursor a = refl
  absent ((i, r) ∷ m) cursor a = ground (arith, absent m cursor a.1)

  weaken :
      (m : BTreeMap (RetainedState S)) (cursor : ℕ)
      → All (λ e. suc e.0 ≤ cursor) m
      → All (λ e. e.0 ≤ cursor) m
  weaken [] cursor a = tt
  weaken (x ∷ m) cursor a = (omega arith, weaken m cursor a.1)

  kept_of : ClientLineage S → ℕ → BTreeMap (RetainedState S)
  kept_of l bytes =
      survivors l.limits.max_retained_images_per_lineage
        (l.limits.max_retained_state_bytes_per_lineage - bytes) l.retained (length l.retained)
        l.retained_bytes

  -- The search for a plan does not panic on a valid lineage.
  pub plan_commit-some :
      (l : ClientLineage S) (bytes : ℕ)
      → IsValid l
      → (o : Option CommitPlan) × (plan_commit l bytes ≡ some o)
  plan_commit-some l bytes v = elim (Bool-cases (state_image_fits l bytes)) [
    | inl e ↦ let (plan, q, p) = plan_commit-IsPlan l bytes v.counted v.typed e in (some plan, q)
    | inr e ↦ (none, plan_commit-none l bytes e)
  ]

  -- On a valid lineage and for a newer cursor, a plan is carried out without a panic; the lineage
  -- stays valid, counts as the plan says, and its current image is the one committed.
  pub commit_with_plan-IsValid :
      (l : ClientLineage S) (cursor tick : ℕ) (image : AccountedState S) (plan : CommitPlan)
      → IsValid l
      → IsNewer l.current cursor
      → plan_commit l image.accounted_bytes ≡ some (some plan)
      → (l' : ClientLineage S) × (commit_with_plan l cursor tick image plan ≡ some l')
        × IsValid l'
        × (length l'.retained ≡ plan.resulting_count)
        × (l'.retained_bytes ≡ plan.resulting_bytes)
        × (current_retained l' ≡ some (held tick image))
        × (l'.current ≡ some cursor)
        × (l'.state ≡ synchronized)
        × (l'.latest_recovery_boundary ≡ l.latest_recovery_boundary)
  unfolding kept_of commit_with_plan current_retained
  commit_with_plan-IsValid l cursor tick image plan v newer planned =
      elim (Bool-cases (state_image_fits l bytes)) [
        | inl e ↦
            let (plan', q, (gone, p)) = plan_commit-IsPlan l bytes v.counted v.typed e in
            carried
              (subst (λ (x : CommitPlan). IsPlan l bytes x gone (kept_of l bytes)) (cc (q, planned))
                p)
              (ground arith)
        | inr e ↦ absurd (cc (planned, plan_commit-none l bytes e))
      ]
    where
      bytes : ℕ
      bytes = image.accounted_bytes

      kept : BTreeMap (RetainedState S)
      kept = kept_of l bytes

      kept_below : All (λ e. suc e.0 ≤ cursor) kept
      kept_below =
          survivors-All (λ e. suc e.0 ≤ cursor) _ _ l.retained (length l.retained) l.retained_bytes
            (below_newer l.current l.retained cursor v.newest newer)

      gap : BTreeMap.get kept cursor ≡ none
      gap = absent kept cursor kept_below

      result : ClientLineage S
      result = after_commit l cursor tick image kept

      carried :
          {gone : BTreeMap (RetainedState S)}
          → IsPlan l bytes plan gone kept
          → bytes ≤ l.limits.max_state_image_bytes
          → (l' : ClientLineage S) × (commit_with_plan l cursor tick image plan ≡ some l')
            × IsValid l'
            × (length l'.retained ≡ plan.resulting_count)
            × (l'.retained_bytes ≡ plan.resulting_bytes)
            × (current_retained l' ≡ some (held tick image))
            × (l'.current ≡ some cursor)
            × (l'.state ≡ synchronized)
            × (l'.latest_recovery_boundary ≡ l.latest_recovery_boundary)
      carried p small = (
        result,
        rw
            (
              p.carried_out,
              checked_add-eq_some (total bytes_of kept) bytes
                  (omega (arith, p.measured, p.within_bytes, v.typed.2)),
              commit_with_plan,
            )
            refl,
        record {
          sorted = BTreeMap.insert-IsSortedFrom 0 kept cursor (held tick image) (omega arith) (
              survivors-IsSortedFrom 0 _ _ l.retained (length l.retained) l.retained_bytes
                v.sorted);
          counted =
              omega
                (arith, BTreeMap.total-insert_absent bytes_of kept cursor (held tick image) gap);
          within_count = omega (
            arith,
            BTreeMap.length-insert_absent kept cursor (held tick image) gap,
            p.counted,
            p.within_count,
          );
          within_bytes = omega (arith, p.measured, p.within_bytes);
          typed = v.typed;
          images_fit =
              BTreeMap.All-insert (λ e. bytes_of e.1 ≤ l.limits.max_state_image_bytes) kept cursor
                (held tick image) small
                (survivors-All (λ e. bytes_of e.1 ≤ l.limits.max_state_image_bytes) _ _ l.retained
                  (length l.retained) l.retained_bytes v.images_fit);
          newest = (
            ground (arith, BTreeMap.get-insert kept cursor cursor (held tick image)),
            BTreeMap.All-insert (λ e. e.0 ≤ cursor) kept cursor (held tick image) (omega arith)
                (weaken kept cursor kept_below),
          );
          synced = λ e. refl;
          boundary = newer-IsBoundary l.current l.latest_recovery_boundary cursor v.boundary newer;
        },
        omega (arith, BTreeMap.length-insert_absent kept cursor (held tick image) gap, p.counted),
        omega (arith, p.measured),
        ground (arith, BTreeMap.get-insert kept cursor cursor (held tick image)),
        refl,
        refl,
        refl,
      )
