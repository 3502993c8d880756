-- ===== src/Replication/Client/Witnesses.antt =====
-- replication/client.rs: the theorems on lineages and sets, at concrete ones. States, deltas and
-- host errors are numbers; a delta is added to the base.
use runen_net.Replication.Client.Apply.{apply_delta}
use runen_net.Prelude.{ℕ, ◌+◌, ◌≡◌, refl, none, some, List, [], ◌∷◌, arith, nat_eq, Result, ok}
use runen_net.Collections.BTreeMap.{BTreeMap, total}
use runen_net.Collections.BTreeMap
use runen_net.Replication.Model.{
  ReplicationLineageKey, key_eq, AccountedState, ReplicationRetentionLimits, ClientAggregateLimits,
  FullSnapshot, DeltaSnapshot,
}
use runen_net.Replication.Client.Lineage.{
  ClientLineage, RetainedState, CommitPlan, synchronized, plan_commit,
}
use runen_net.Replication.Client.Sets.{ClientReplicationSet, new_set}
use runen_net.Replication.Client.Plan.{IsPlan, plan_commit-IsPlan}
use runen_net.Replication.Client.Survivors.{survivors}
use runen_net.Replication.Client.Validity.{IsValid}
use runen_net.Replication.Client.Aggregate.{IsValidSet}
use runen_net.Replication.Client.Full.{AppliesFull, apply_full-AppliesFull}
use runen_net.Replication.Client.Delta.{AppliesDelta, apply_delta-AppliesDelta}
use runen_net.Replication.Client.History.{
  Call, adds, removes, applies_full, applies_delta, run, run-new_set-IsValidSet,
}

abbrev key : ReplicationLineageKey
key = record { session = 7; participant = 1 }

abbrev retention : ReplicationRetentionLimits
retention = record {
  max_state_image_bytes = 20;
  max_retained_images_per_lineage = 2;
  max_retained_state_bytes_per_lineage = 30;
  max_candidate_bytes_per_lineage = 20;
  max_emission_evidence_per_lineage = 4;
}

abbrev image : ℕ → AccountedState ℕ
image state = record { state = state; accounted_bytes = 10 }

-- Two images are retained, the newer one current.
abbrev synchronized_lineage : ClientLineage ℕ
synchronized_lineage = record {
  key = key;
  limits = retention;
  state = synchronized;
  current = some 3;
  latest_recovery_boundary = none;
  retained =
      (2, record { tick = 7; image = image 41 }) ∷ (3, record { tick = 8; image = image 42 }) ∷ [];
  retained_bytes = 20;
}

synchronized_lineage-IsValid : IsValid synchronized_lineage
unfolding BTreeMap.get
synchronized_lineage-IsValid = record {
  sorted = (omega arith, (omega arith, tt));
  counted = refl;
  within_count = omega arith;
  within_bytes = omega arith;
  typed = (omega arith, omega arith, omega arith);
  images_fit = (omega arith, (omega arith, tt));
  newest = (refl, (omega arith, (omega arith, tt)));
  synced = λ e. refl;
  boundary = tt;
}

abbrev aggregate : ClientAggregateLimits
aggregate = record { max_lineages = 2; max_retained_images = 3; max_retained_state_bytes = 40 }

abbrev one_lineage : ClientReplicationSet ℕ
one_lineage = record { limits = aggregate; lineages = (key, synchronized_lineage) ∷ [] }

one_lineage-IsValidSet : IsValidSet one_lineage
one_lineage-IsValidSet = record {
  valid = (synchronized_lineage-IsValid, tt);
  lineages_fit = omega arith;
  images_fit = omega arith;
  bytes_fit = omega arith;
}

plan_commit-IsPlan_example :
    (plan : CommitPlan) × (plan_commit synchronized_lineage 10 ≡ some (some plan))
    × ((gone : BTreeMap (RetainedState ℕ)) × IsPlan synchronized_lineage 10 plan gone
          (survivors 2 20 synchronized_lineage.retained 2 20))
plan_commit-IsPlan_example =
    plan_commit-IsPlan synchronized_lineage 10 refl (omega arith, omega arith, omega arith) refl

abbrev agrees : ℕ → Result (Unit {0}) ℕ
agrees state = ok tt

abbrev full : FullSnapshot ℕ
full = record { target_cursor = 4; target_tick = 9; image = image 50 }

abbrev delta : DeltaSnapshot ℕ
delta = record { base_cursor = 3; target_cursor = 5; target_tick = 9; delta = 6 }

apply_full-AppliesFull_example : AppliesFull one_lineage key full agrees
apply_full-AppliesFull_example =
    apply_full-AppliesFull one_lineage key full agrees one_lineage-IsValidSet

apply_delta-AppliesDelta_example :
    AppliesDelta one_lineage key delta
      (λ base d limit. ok (image (base + d)))
      agrees
      (apply_delta one_lineage key delta (λ base d limit. ok (image (base + d))) agrees)
apply_delta-AppliesDelta_example =
    apply_delta-AppliesDelta one_lineage key delta (λ base d limit. ok (image (base + d))) agrees
      one_lineage-IsValidSet

abbrev calls : List (Call ℕ ℕ ℕ)
calls =
    adds key retention
    ∷ applies_full key full agrees
    ∷ applies_delta key delta (λ base d limit. ok (image (base + d))) agrees
    ∷ removes key
    ∷ []

run-new_set-IsValidSet_example :
    (set : ClientReplicationSet ℕ) × (run (new_set aggregate) calls ≡ some set) × IsValidSet set
run-new_set-IsValidSet_example =
    run-new_set-IsValidSet aggregate calls
      ((omega arith, omega arith, omega arith), (tt, (tt, (tt, tt))))
