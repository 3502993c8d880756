-- ===== src/Replication/Client/Applying.antt =====
-- replication/client.rs: the end that a full and a delta snapshot share, `commit_image`.
use runen_net.Replication.Client.Apply.{commit_image}
use runen_net.Prelude.{
  ℕ, ◌≡◌, refl, Bool, true, false, Option, none, some, nat_eq, arith, Result, ok, err,
}
use runen_net.Replication.Model.{ReplicationLineageKey, key_eq, AccountedState}
use runen_net.Replication.Client.Lineage.{
  ClientLineage, CommitPlan, synchronized, committed, state_resource_failure, classify_cursor,
  plan_commit, current_retained,
}
use runen_net.Replication.Client.Sets.{
  ClientReplicationSet, Reply, host_commit_failure, lineage, put_lineage, aggregate_commit_fits,
}
use runen_net.Replication.Client.Commit.{
  IsNewer, classify_cursor-IsNewer, held, plan_commit-some, commit_with_plan-IsValid,
}
use runen_net.Replication.Client.Aggregate.{
  IsValidSet, lineage-IsValid, put_lineage-IsValidSet, aggregate_commit_fits-total,
}

abbrev pub is_committed : {E : Type 0} → Reply E → Bool
is_committed (ok (committed cursor)) = true
is_committed other = false

module _ {S E : Type 0} where
  -- A snapshot was committed: the host agreed, the cursor moved forward to the target, the image is
  -- the current one of the lineage, which is synchronized and keeps its recovery boundary.
  pub record IsCommit (set : ClientReplicationSet S) (key : ReplicationLineageKey)
      (l : ClientLineage S) (target tick : ℕ) (image : AccountedState S)
      (host_commit : S → Result (Unit {0}) E) (set' : ClientReplicationSet S) (reply : Reply E)
      : Type 0 where
    pub after : ClientLineage S
    pub replied : reply ≡ ok (committed target)
    pub stored : set' ≡ put_lineage set key after
    pub agreed : host_commit image.state ≡ ok tt
    pub newer : IsNewer l.current target
    pub cursor : after.current ≡ some target
    pub image_held : current_retained after ≡ some (held tick image)
    pub synced : after.state ≡ synchronized
    pub same_boundary : after.latest_recovery_boundary ≡ l.latest_recovery_boundary

  -- The three ends of a commit: refused for want of room, refused by the host, or done.
  pub data IsCommitEnd (set : ClientReplicationSet S) (key : ReplicationLineageKey)
      (l : ClientLineage S) (target tick : ℕ) (image : AccountedState S)
      (host_commit : S → Result (Unit {0}) E) (failed set' : ClientReplicationSet S)
      (reply : Reply E) : Type 0 where
    no_room :
        set' ≡ set
        → reply ≡ ok state_resource_failure
        → IsCommitEnd set key l target tick image host_commit failed set' reply
    host_failed :
        (source : E)
        → host_commit image.state ≡ err source
        → set' ≡ failed
        → reply ≡ err (host_commit_failure source)
        → IsCommitEnd set key l target tick image host_commit failed set' reply
    done :
        IsCommit set key l target tick image host_commit set' reply
        → IsCommitEnd set key l target tick image host_commit failed set' reply

  abbrev pub CommitsTo :
      ClientReplicationSet S
      → ReplicationLineageKey
      → ClientLineage S
      → ℕ
      → ℕ
      → AccountedState S
      → (S → Result (Unit {0}) E)
      → ClientReplicationSet S
      → Type 0
  CommitsTo set key l target tick image host_commit failed =
      (set' : ClientReplicationSet S) × (reply : Reply E) × (commit_image set key l target tick
          image host_commit failed
        ≡ some (set', reply))
      × IsValidSet set'
      × IsCommitEnd set key l target tick image host_commit failed set' reply

  -- On a valid set a commit of a newer cursor does not panic, keeps the set valid, and ends in one
  -- of the three ways.
  pub commit_image-CommitsTo :
      (set : ClientReplicationSet S) (key : ReplicationLineageKey) (l : ClientLineage S)
      (target tick : ℕ) (image : AccountedState S) (host_commit : S → Result (Unit {0}) E)
      (failed : ClientReplicationSet S)
      → IsValidSet set
      → IsValidSet failed
      → lineage set key ≡ some l
      → classify_cursor l target ≡ none
      → CommitsTo set key l target tick image host_commit failed
  unfolding commit_image
  commit_image-CommitsTo set key l target tick image host_commit failed v w h fresh =
      let (o, answered) =
        plan_commit-some l image.accounted_bytes (lineage-IsValid set key l v h) in
      planned o answered
    where
      newer : IsNewer l.current target
      newer = classify_cursor-IsNewer l target fresh

      committing :
          (plan : CommitPlan) (u : Unit {0})
          → plan_commit l image.accounted_bytes ≡ some (some plan)
          → aggregate_commit_fits set l plan image.accounted_bytes ≡ true
          → host_commit image.state ≡ ok u
          → CommitsTo set key l target tick image host_commit failed
      committing plan u p fits agreed =
          let (l', q, valid, count, bytes, held_image, cursor, synced, boundary) =
            commit_with_plan-IsValid l target tick image plan (lineage-IsValid set key l v h) newer
              p in
          (
            put_lineage set key l',
            ok (committed target),
            rw (p, fits, agreed, q, commit_image) refl,
            put_lineage-IsValidSet set key l l' v h valid
                (omega
                  (arith, (aggregate_commit_fits-total set l plan image.accounted_bytes fits).0))
                (omega
                  (arith, (aggregate_commit_fits-total set l plan image.accounted_bytes fits).1)),
            done (record {
              after = l';
              replied = refl;
              stored = refl;
              agreed = agreed;
              newer = newer;
              cursor = cursor;
              image_held = held_image;
              synced = synced;
              same_boundary = boundary;
            }),
          )

      asked :
          (plan : CommitPlan) (r : Result (Unit {0}) E)
          → plan_commit l image.accounted_bytes ≡ some (some plan)
          → aggregate_commit_fits set l plan image.accounted_bytes ≡ true
          → host_commit image.state ≡ r
          → CommitsTo set key l target tick image host_commit failed
      asked plan (err source) p fits e = (
        failed,
        err (host_commit_failure source),
        rw (p, fits, e, commit_image) refl,
        w,
        host_failed source e refl refl,
      )
      asked plan (ok u) p fits e = committing plan u p fits e

      fitting :
          (plan : CommitPlan) (b : Bool)
          → plan_commit l image.accounted_bytes ≡ some (some plan)
          → aggregate_commit_fits set l plan image.accounted_bytes ≡ b
          → CommitsTo set key l target tick image host_commit failed
      fitting plan false p e =
          (set, ok state_resource_failure, rw (p, e, commit_image) refl, v, no_room refl refl)
      fitting plan true p e = asked plan (host_commit image.state) p e refl

      planned :
          (o : Option CommitPlan)
          → plan_commit l image.accounted_bytes ≡ some o
          → CommitsTo set key l target tick image host_commit failed
      planned none p =
          (set, ok state_resource_failure, rw (p, commit_image) refl, v, no_room refl refl)
      planned (some plan) p =
          fitting plan (aggregate_commit_fits set l plan image.accounted_bytes) p refl
