-- ===== src/Replication/Client/Plan.antt =====
-- replication/client.rs: `plan_commit`, and what it promises of the plan.
use runen_net.Prelude.{
  ℕ, List, checked_add-eq_some, ◌+◌, ◌-◌, ◌≤◌, ◌<◌, ◌≡◌, refl, ap, ◌∙◌, true, false, none, some,
  ◌++◌, nat_eq, length, arith,
}
use runen_net.Collections.BTreeMap.{BTreeMap, total}
use runen_net.Replication.Model.{IsTypedLimits}
use runen_net.Replication.Client.Lineage.{
  ClientLineage, RetainedState, CommitPlan, bytes_of, state_image_fits, has_room, planned,
  plan_loop, plan_commit, evict_all,
}
use runen_net.Replication.Client.Survivors.{
  room_after, survivors, plan_loop-survivors, survivors_fit, survivors-suffix, survivors_longest,
}

module _ {S : Type 0} where
  -- A plan: the images that it evicts are the oldest, in order; what is kept with the new image
  -- respects both limits; and no larger part of the newest images would have left room for it.
  pub record IsPlan (l : ClientLineage S) (bytes : ℕ) (plan : CommitPlan)
      (gone kept : BTreeMap (RetainedState S)) : Type 0 where
    pub split : l.retained ≡ gone ++ kept
    pub carried_out :
        evict_all l.retained l.retained_bytes plan.evict ≡ some (kept, total bytes_of kept)
    pub counted : plan.resulting_count ≡ length kept + 1
    pub measured : plan.resulting_bytes ≡ total bytes_of kept + bytes
    pub within_count : plan.resulting_count ≤ l.limits.max_retained_images_per_lineage
    pub within_bytes : plan.resulting_bytes ≤ l.limits.max_retained_state_bytes_per_lineage
    pub longest :
        (front back : BTreeMap (RetainedState S))
        → l.retained ≡ front ++ back
        → length back + 1 ≤ l.limits.max_retained_images_per_lineage
        → total bytes_of back + bytes ≤ l.limits.max_retained_state_bytes_per_lineage
        → length back ≤ length kept

  -- An image over one of the three byte limits has no plan.
  pub plan_commit-none :
      (l : ClientLineage S) (bytes : ℕ)
      → state_image_fits l bytes ≡ false
      → plan_commit l bytes ≡ some none
  unfolding plan_commit
  plan_commit-none l bytes e = rw (plan_commit, e) refl

  plan_commit-planned :
      (l : ClientLineage S) (bytes count left : ℕ) (evict : List ℕ)
      → state_image_fits l bytes ≡ true
      → plan_loop l.limits.max_retained_images_per_lineage
          l.limits.max_retained_state_bytes_per_lineage bytes l.retained
          (length l.retained)
          l.retained_bytes
        ≡ some (count, left, evict)
      → IsTypedLimits l.limits
      → count < l.limits.max_retained_images_per_lineage
      → left + bytes ≤ l.limits.max_retained_state_bytes_per_lineage
      → plan_commit l bytes
        ≡ some (
            some (record {
              evict = evict;
              resulting_count = count + 1;
              resulting_bytes = left + bytes;
            }))
  unfolding plan_commit planned
  plan_commit-planned l bytes count left evict e q (positive, small_count, small_bytes) short
        small =
      let max_count = l.limits.max_retained_images_per_lineage in
      let max_bytes = l.limits.max_retained_state_bytes_per_lineage in
      let room : has_room max_count max_bytes bytes count left ≡ some true =
        room_after max_count max_bytes bytes count left (omega arith) ∙ ap some (ground arith) in
      rw
        (
          plan_commit,
          e,
          q,
          room,
          planned,
          checked_add-eq_some count 1 (omega arith),
          checked_add-eq_some left bytes (omega arith),
        )
        refl

  -- On a lineage that counts its bytes right, may retain an image and has limits of their types, a
  -- plan is found without a panic for every image that fits the three byte limits, whatever is
  -- retained. It evicts a front of the retained images, counts what is left right, meets both limits,
  -- and evicts no more than it must.
  pub plan_commit-IsPlan :
      (l : ClientLineage S) (bytes : ℕ)
      → l.retained_bytes ≡ total bytes_of l.retained
      → IsTypedLimits l.limits
      → state_image_fits l bytes ≡ true
      → (plan : CommitPlan) × (plan_commit l bytes ≡ some (some plan))
        × ((gone : BTreeMap (RetainedState S)) × IsPlan l bytes plan gone (
              survivors l.limits.max_retained_images_per_lineage
                (l.limits.max_retained_state_bytes_per_lineage - bytes)
                l.retained
                (length l.retained)
                l.retained_bytes))
  plan_commit-IsPlan l bytes h typed e =
      let max_count = l.limits.max_retained_images_per_lineage in
      let max_bytes = l.limits.max_retained_state_bytes_per_lineage in
      let room = max_bytes - bytes in
      let kept = survivors max_count room l.retained (length l.retained) l.retained_bytes in
      let fits : bytes ≤ max_bytes = ground arith in
      let (evict, loop, carried) =
        plan_loop-survivors max_count max_bytes bytes l.retained (length l.retained)
          l.retained_bytes fits refl h in
      let (short, small) =
        survivors_fit max_count room l.retained (length l.retained) l.retained_bytes typed.0 refl
          h in
      let (gone, q) =
        survivors-suffix max_count room l.retained (length l.retained) l.retained_bytes refl h in
      (
        record {
          evict = evict;
          resulting_count = length kept + 1;
          resulting_bytes = total bytes_of kept + bytes;
        },
        plan_commit-planned l bytes (length kept) (total bytes_of kept) evict e loop typed short
            (omega (arith, small, fits)),
        (
          gone,
          record {
            split = q;
            carried_out = carried;
            counted = refl;
            measured = refl;
            within_count = omega (arith, short);
            within_bytes = omega (arith, small, fits);
            longest = λ front back s n t.
                survivors_longest max_count room l.retained (length l.retained) l.retained_bytes
                  refl h front back s (omega arith) (omega arith);
          },
        ),
      )
