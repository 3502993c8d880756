-- ===== src/Replication/Client/Delta.antt =====
-- replication/client.rs: the application of a delta snapshot, `apply_delta`.
use runen_net.Replication.Client.Apply.{apply_delta, apply_on_base, apply_reconstructed, recovers}
use runen_net.Prelude.{
  ◌≤◌, ◌<◌, ◌≡◌, refl, ap, Bool, true, false, Option, none, some, ltb, leb, nat_eq, arith,
  Bool-cases, inl, inr, Result, ok, err,
}
use runen_net.Replication.Model.{ReplicationLineageKey, key_eq, AccountedState, DeltaSnapshot}
use runen_net.Replication.Client.Lineage
use runen_net.Replication.Client.Lineage.{
  ClientLineage, RetainedState, CommitPlan, ClientRecoveryReason, ClientSnapshotOutcome,
  synchronized, committed, stale, duplicate_current, state_resource_failure, classify_cursor,
  plan_commit, commit_with_plan, current_retained,
}
use runen_net.Replication.Client.Sets.{ClientReplicationSet, Reply, set_error, lineage, put_lineage}
use runen_net.Collections.BTreeMap
use runen_net.Replication.Client.Sets.{
  enter_recovery, Reconstruct, DeltaReconstructionError, malformed, reconstruction_failed,
  unknown_lineage,
}
use runen_net.Replication.Client.Lineage.{
  tick_regresses_current, tick_regression, delta_tick_regression, delta_commit_failure,
  delta_blocked_by_recovery, is_synchronized,
}
use runen_net.Replication.Client.Aggregate.{IsValidSet, recovering-IsValidSet}
use runen_net.Replication.Client.Applying.{
  is_committed, IsCommit, IsCommitEnd, no_room, host_failed, done, commit_image-CommitsTo,
}
use runen_net.Replication.Client.Full.{classify_cursor_refuses}

module _ {S D E : Type 0} where
  -- A delta was committed: its base is retained, older than the target and not later in ticks, the
  -- lineage was synchronized, and the reconstruction from the base gave the image.
  pub record IsDeltaCommit (set : ClientReplicationSet S) (key : ReplicationLineageKey)
      (l : ClientLineage S) (snapshot : DeltaSnapshot D) (reconstruct : Reconstruct S D)
      (host_commit : S → Result (Unit {0}) E) (set' : ClientReplicationSet S) (reply : Reply E)
      : Type 0 where
    pub base : RetainedState S
    pub candidate : AccountedState S
    pub known : lineage set key ≡ some l
    pub was_synchronized : is_synchronized l.state ≡ true
    pub base_retained : BTreeMap.get l.retained snapshot.base_cursor ≡ some base
    pub base_older : snapshot.base_cursor < snapshot.target_cursor
    pub base_tick : base.tick ≤ snapshot.target_tick
    pub tick_kept : tick_regresses_current l snapshot.target_tick ≡ false
    pub reconstructed :
        reconstruct base.image.state snapshot.delta l.limits.max_candidate_bytes_per_lineage
        ≡ ok candidate
    pub commit :
        IsCommit set key l snapshot.target_cursor snapshot.target_tick candidate host_commit set'
          reply

  -- What a delta may do: nothing, put its lineage into recovery, or commit.
  pub data IsDeltaEnd (set : ClientReplicationSet S) (key : ReplicationLineageKey)
      (snapshot : DeltaSnapshot D) (reconstruct : Reconstruct S D)
      (host_commit : S → Result (Unit {0}) E) (set' : ClientReplicationSet S) (reply : Reply E)
      : Type 0 where
    unchanged :
        set' ≡ set
        → is_committed reply ≡ false
        → IsDeltaEnd set key snapshot reconstruct host_commit set' reply
    recovering :
        (l : ClientLineage S) (reason : ClientRecoveryReason)
        → lineage set key ≡ some l
        → is_synchronized l.state ≡ true
        → set' ≡ put_lineage set key (Lineage.enter_recovery l reason)
        → is_committed reply ≡ false
        → IsDeltaEnd set key snapshot reconstruct host_commit set' reply
    delta_committed :
        (l : ClientLineage S)
        → IsDeltaCommit set key l snapshot reconstruct host_commit set' reply
        → IsDeltaEnd set key snapshot reconstruct host_commit set' reply

  abbrev pub AppliesDelta :
      ClientReplicationSet S
      → ReplicationLineageKey
      → DeltaSnapshot D
      → Reconstruct S D
      → (S → Result (Unit {0}) E)
      → Option (ClientReplicationSet S × Reply E)
      → Type 0
  AppliesDelta set key snapshot reconstruct host_commit answer =
      (set' : ClientReplicationSet S) × (reply : Reply E) × (answer ≡ some (set', reply))
      × IsValidSet set'
      × IsDeltaEnd set key snapshot reconstruct host_commit set' reply

  module _ (set : ClientReplicationSet S) (key : ReplicationLineageKey) (snapshot : DeltaSnapshot D)
      (reconstruct : Reconstruct S D) (host_commit : S → Result (Unit {0}) E)
      (v : IsValidSet set) where
    recovers-AppliesDelta :
        (l : ClientLineage S) (reason : ClientRecoveryReason) (outcome : ClientSnapshotOutcome)
        → lineage set key ≡ some l
        → is_synchronized l.state ≡ true
        → is_committed {E = E} (ok outcome) ≡ false
        → AppliesDelta set key snapshot reconstruct host_commit (recovers set key reason outcome)
    unfolding recovers enter_recovery
    recovers-AppliesDelta l reason outcome h s o = (
      put_lineage set key (Lineage.enter_recovery l reason),
      ok outcome,
      rw (h, recovers, enter_recovery) refl,
      recovering-IsValidSet set key l reason v h,
      recovering l reason h s refl o,
    )

    -- With the base found, the candidate is reconstructed and committed.
    module _ (l : ClientLineage S) (h : lineage set key ≡ some l)
        (s : is_synchronized l.state ≡ true) where
      committing :
          (base : RetainedState S) (candidate : AccountedState S)
          → classify_cursor l snapshot.target_cursor ≡ none
          → snapshot.base_cursor < snapshot.target_cursor
          → tick_regresses_current l snapshot.target_tick ≡ false
          → BTreeMap.get l.retained snapshot.base_cursor ≡ some base
          → base.tick ≤ snapshot.target_tick
          → reconstruct base.image.state snapshot.delta l.limits.max_candidate_bytes_per_lineage
            ≡ ok candidate
          → AppliesDelta set key snapshot reconstruct host_commit
              (apply_reconstructed set key l snapshot host_commit (ok candidate))
      unfolding apply_reconstructed
      committing base candidate c older t q bt r =
          let failed = put_lineage set key (Lineage.enter_recovery l delta_commit_failure) in
          let (set', reply, e, valid, end) =
            commit_image-CommitsTo set key l snapshot.target_cursor snapshot.target_tick candidate
              host_commit failed v (recovering-IsValidSet set key l delta_commit_failure v h) h c in
          (set', reply, e, valid, ending set' reply end)
        where
          ending :
              (set' : ClientReplicationSet S) (reply : Reply E)
              → IsCommitEnd set key l snapshot.target_cursor snapshot.target_tick candidate
                  host_commit
                  (put_lineage set key (Lineage.enter_recovery l delta_commit_failure))
                  set'
                  reply
              → IsDeltaEnd set key snapshot reconstruct host_commit set' reply
          ending set' reply (no_room e r') = unchanged e (ap is_committed r')
          ending set' reply (host_failed x a e r') =
              recovering l delta_commit_failure h s e (ap is_committed r')
          ending set' reply (done e) = delta_committed l (record {
            base = base;
            candidate = candidate;
            known = h;
            was_synchronized = s;
            base_retained = q;
            base_older = older;
            base_tick = bt;
            tick_kept = t;
            reconstructed = r;
            commit = e;
          })

      reconstructing :
          (base : RetainedState S) (answer : Result (AccountedState S) DeltaReconstructionError)
          → classify_cursor l snapshot.target_cursor ≡ none
          → snapshot.base_cursor < snapshot.target_cursor
          → tick_regresses_current l snapshot.target_tick ≡ false
          → BTreeMap.get l.retained snapshot.base_cursor ≡ some base
          → base.tick ≤ snapshot.target_tick
          → reconstruct base.image.state snapshot.delta l.limits.max_candidate_bytes_per_lineage
            ≡ answer
          → AppliesDelta set key snapshot reconstruct host_commit
              (apply_reconstructed set key l snapshot host_commit answer)
      unfolding apply_reconstructed
      reconstructing base (err malformed) c older t q bt r = recovers-AppliesDelta l _ _ h s refl
      reconstructing base (err reconstruction_failed) c older t q bt r =
          recovers-AppliesDelta l _ _ h s refl
      reconstructing base (ok candidate) c older t q bt r =
          committing base candidate c older t q bt r

      on_base :
          (found : Option (RetainedState S))
          → classify_cursor l snapshot.target_cursor ≡ none
          → snapshot.base_cursor < snapshot.target_cursor
          → tick_regresses_current l snapshot.target_tick ≡ false
          → BTreeMap.get l.retained snapshot.base_cursor ≡ found
          → AppliesDelta set key snapshot reconstruct host_commit
              (apply_on_base set key l snapshot reconstruct host_commit found)
      unfolding apply_on_base
      on_base none c older t q = recovers-AppliesDelta l _ _ h s refl
      on_base (some base) c older t q = elim (Bool-cases (ltb snapshot.target_tick base.tick)) [
        | inl e ↦ rw (e, apply_on_base) (recovers-AppliesDelta l _ _ h s refl)
        | inr e ↦
            rw (e, apply_on_base)
              (reconstructing base
                (reconstruct base.image.state snapshot.delta
                  l.limits.max_candidate_bytes_per_lineage)
                c older t q (ground arith) refl)
      ]

      -- A fresh target on a synchronized lineage.
      fresh :
          classify_cursor l snapshot.target_cursor ≡ none
          → AppliesDelta set key snapshot reconstruct host_commit
              (apply_delta set key snapshot reconstruct host_commit)
      unfolding apply_delta
      fresh c = elim (Bool-cases (leb snapshot.target_cursor snapshot.base_cursor)) [
        | inl e ↦ rw (h, c, s, e, apply_delta) (recovers-AppliesDelta l _ _ h s refl)
        | inr e ↦ elim (Bool-cases (tick_regresses_current l snapshot.target_tick)) [
          | inl t ↦ rw (h, c, s, e, t, apply_delta) (recovers-AppliesDelta l _ _ h s refl)
          | inr t ↦
              rw (h, c, s, e, t, apply_delta)
                (on_base (BTreeMap.get l.retained snapshot.base_cursor) c (ground arith) t refl)
        ]
      ]

  -- On a valid set `apply_delta` never panics and leaves a valid set, within the aggregate limits,
  -- whatever the reconstruction answers. Either nothing changes, or a synchronized lineage goes into
  -- recovery, or the delta is committed on a retained, older base.
  pub apply_delta-AppliesDelta :
      (set : ClientReplicationSet S) (key : ReplicationLineageKey) (snapshot : DeltaSnapshot D)
      (reconstruct : Reconstruct S D) (host_commit : S → Result (Unit {0}) E)
      → IsValidSet set
      → AppliesDelta set key snapshot reconstruct host_commit
          (apply_delta set key snapshot reconstruct host_commit)
  unfolding apply_delta
  apply_delta-AppliesDelta set key snapshot reconstruct host_commit v =
      known_or (lineage set key) refl
    where
      Goal : Type 0
      Goal =
          AppliesDelta set key snapshot reconstruct host_commit
            (apply_delta set key snapshot reconstruct host_commit)

      synchronized_or :
          (l : ClientLineage S) (b : Bool)
          → lineage set key ≡ some l
          → classify_cursor l snapshot.target_cursor ≡ none
          → is_synchronized l.state ≡ b
          → Goal
      synchronized_or l true h c s = fresh set key snapshot reconstruct host_commit v l h s c
      synchronized_or l false h c s = (
        set,
        ok delta_blocked_by_recovery,
        rw (h, c, s, apply_delta) refl,
        v,
        unchanged refl refl,
      )

      classified :
          (l : ClientLineage S) (o : Option ClientSnapshotOutcome)
          → lineage set key ≡ some l
          → classify_cursor l snapshot.target_cursor ≡ o
          → Goal
      classified l (some o) h c = (
        set,
        ok o,
        rw (h, c, apply_delta) refl,
        v,
        unchanged refl (classify_cursor_refuses E l snapshot.target_cursor o c),
      )
      classified l none h c = synchronized_or l (is_synchronized l.state) h c refl

      known_or : (o : Option (ClientLineage S)) → lineage set key ≡ o → Goal
      known_or none h =
          (set, err (set_error unknown_lineage), rw (h, apply_delta) refl, v, unchanged refl refl)
      known_or (some l) h = classified l (classify_cursor l snapshot.target_cursor) h refl
