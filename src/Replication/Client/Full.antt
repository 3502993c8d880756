-- ===== src/Replication/Client/Full.antt =====
-- replication/client.rs: the application of a full snapshot, `apply_full`.
use runen_net.Replication.Client.Apply.{apply_full}
use runen_net.Prelude.{
  ℕ, ◌≡◌, refl, ap, Bool, true, false, Option, none, some, nat_eq, arith, inl, inr, ◌⊎◌, Result, ok,
  err,
}
use runen_net.Replication.Model.{ReplicationLineageKey, key_eq, FullSnapshot}
use runen_net.Replication.Client.Lineage.{
  ClientLineage, ClientSnapshotOutcome, stale, duplicate_current, classify_cursor,
}
use runen_net.Replication.Client.Sets.{ClientReplicationSet, Reply, set_error, lineage}
use runen_net.Replication.Client.Sets.{unknown_lineage}
use runen_net.Replication.Client.Lineage.{tick_regresses_current, tick_regression}
use runen_net.Replication.Client.Aggregate.{IsValidSet}
use runen_net.Replication.Client.Applying.{
  is_committed, IsCommit, IsCommitEnd, no_room, host_failed, done, commit_image-CommitsTo,
}

pub classify_cursor_refuses :
    {S : Type 0} (E : Type 0) (l : ClientLineage S) (target : ℕ) (o : ClientSnapshotOutcome)
    → classify_cursor l target ≡ some o
    → is_committed {E = E} (ok o) ≡ false
unfolding classify_cursor
classify_cursor_refuses E l target stale h = refl
classify_cursor_refuses E l target duplicate_current h = refl
classify_cursor_refuses E l target o h = ground arith

module _ {S E : Type 0} where
  -- What a full snapshot may do: nothing, or a commit to a known lineage whose tick does not go back.
  abbrev pub IsFullEnd :
      ClientReplicationSet S
      → ReplicationLineageKey
      → FullSnapshot S
      → (S → Result (Unit {0}) E)
      → ClientReplicationSet S
      → Reply E
      → Type 0
  IsFullEnd set key snapshot host_commit set' reply =
      ((set' ≡ set) × (is_committed reply ≡ false))
      ⊎ ((l : ClientLineage S) × (lineage set key ≡ some l)
          × (tick_regresses_current l snapshot.target_tick ≡ false)
          × IsCommit set key l snapshot.target_cursor snapshot.target_tick snapshot.image
              host_commit set' reply)

  abbrev pub AppliesFull :
      ClientReplicationSet S
      → ReplicationLineageKey
      → FullSnapshot S
      → (S → Result (Unit {0}) E)
      → Type 0
  AppliesFull set key snapshot host_commit =
      (set' : ClientReplicationSet S) × (reply : Reply E) × (apply_full set key snapshot host_commit
        ≡ some (set', reply))
      × IsValidSet set'
      × IsFullEnd set key snapshot host_commit set' reply

  -- On a valid set `apply_full` never panics and leaves a valid set, within the aggregate limits.
  -- Either nothing changes and the reply is not `committed`, or the lineage is known, the host
  -- agreed, and the snapshot is the newer, synchronized current image of the lineage.
  pub apply_full-AppliesFull :
      (set : ClientReplicationSet S) (key : ReplicationLineageKey) (snapshot : FullSnapshot S)
      (host_commit : S → Result (Unit {0}) E)
      → IsValidSet set
      → AppliesFull set key snapshot host_commit
  unfolding apply_full
  apply_full-AppliesFull set key snapshot host_commit v = known (lineage set key) refl
    where
      target : ℕ
      target = snapshot.target_cursor

      ending :
          (l : ClientLineage S) (set' : ClientReplicationSet S) (reply : Reply E)
          → lineage set key ≡ some l
          → tick_regresses_current l snapshot.target_tick ≡ false
          → IsCommitEnd set key l target snapshot.target_tick snapshot.image host_commit set set'
              reply
          → IsFullEnd set key snapshot host_commit set' reply
      ending l set' reply h t (no_room s r) = inl (s, ap is_committed r)
      ending l set' reply h t (host_failed e a s r) = inl (s, ap is_committed r)
      ending l set' reply h t (done c) = inr (l, h, t, c)

      ticked :
          (l : ClientLineage S) (b : Bool)
          → lineage set key ≡ some l
          → classify_cursor l target ≡ none
          → tick_regresses_current l snapshot.target_tick ≡ b
          → AppliesFull set key snapshot host_commit
      ticked l true h c t =
          (set, ok tick_regression, rw (h, c, t, apply_full) refl, v, inl (refl, refl))
      ticked l false h c t =
          let (set', reply, q, valid, end) =
            commit_image-CommitsTo set key l target snapshot.target_tick snapshot.image host_commit
              set v v h c in
          (set', reply, rw (h, c, t, apply_full) q, valid, ending l set' reply h t end)

      classified :
          (l : ClientLineage S) (o : Option ClientSnapshotOutcome)
          → lineage set key ≡ some l
          → classify_cursor l target ≡ o
          → AppliesFull set key snapshot host_commit
      classified l (some o) h c = (
        set,
        ok o,
        rw (h, c, apply_full) refl,
        v,
        inl (refl, classify_cursor_refuses E l target o c),
      )
      classified l none h c = ticked l (tick_regresses_current l snapshot.target_tick) h c refl

      known :
          (o : Option (ClientLineage S))
          → lineage set key ≡ o
          → AppliesFull set key snapshot host_commit
      known none h =
          (set, err (set_error unknown_lineage), rw (h, apply_full) refl, v, inl (refl, refl))
      known (some l) h = classified l (classify_cursor l target) h refl
