-- ===== src/Input/Prediction/Witnesses.antt =====
-- input/prediction.rs: the theorems on predictions, at concrete ones. States, inputs and errors are
-- numbers; the world is the list of the inputs replayed so far.
use runen_net.Prelude.{
  ℕ, ◌≡◌, refl, none, some, List, [], ◌∷◌, arith, nat_eq, Result, ok, err, if◌then◌else◌, ◌==◌,
}
use runen_net.Collections.BTreeMap.{split_off, total}
use runen_net.Collections.BTreeMap
use runen_net.Replication.Model.{ReplicationLineageKey, key_eq}
use runen_net.Replication.Client.Lineage.{ClientLineage, synchronized}
use runen_net.Replication.Client.Sets.{ClientReplicationSet}
use runen_net.Replication.Client.Aggregate.{IsValidSet}
use runen_net.Input.Prediction.State.{PredictionLineage, active}
use runen_net.Input.Prediction.Observation.{reconcile_committed, observe_replication}
use runen_net.Input.Prediction.Validity.{IsValid}
use runen_net.Input.Prediction.Reconciliation.{
  replay_each, replayed, advanced, reconcile_committed-replayed,
}
use runen_net.Input.Prediction.Soundness.{IsSound, observe_replication-IsSound}
use runen_net.Input.Prediction.History.{
  Call, admits, observes, fails_locally, confirms, reconnects, Keeps, run, run-Keeps,
}

abbrev key : ReplicationLineageKey
key = record { session = 7; participant = 1 }

-- The client has committed tick 6.
abbrev committed_lineage : ClientLineage ℕ
committed_lineage = record {
  key = key;
  limits = record {
    max_state_image_bytes = 20;
    max_retained_images_per_lineage = 2;
    max_retained_state_bytes_per_lineage = 30;
    max_candidate_bytes_per_lineage = 20;
    max_emission_evidence_per_lineage = 4;
  };
  state = synchronized;
  current = some 3;
  latest_recovery_boundary = none;
  retained = (3, record { tick = 6; image = record { state = 41; accounted_bytes = 10 } }) ∷ [];
  retained_bytes = 10;
}

abbrev client : ClientReplicationSet ℕ
client = record {
  limits = record { max_lineages = 2; max_retained_images = 3; max_retained_state_bytes = 40 };
  lineages = (key, committed_lineage) ∷ [];
}

client-IsValidSet : IsValidSet client
unfolding BTreeMap.get
client-IsValidSet = record {
  valid = (
    record {
      sorted = (omega arith, tt);
      counted = refl;
      within_count = omega arith;
      within_bytes = omega arith;
      typed = (omega arith, omega arith, omega arith);
      images_fit = (omega arith, tt);
      newest = (refl, (omega arith, tt));
      synced = λ e. refl;
      boundary = tt;
    },
    tt,
  );
  lineages_fit = omega arith;
  images_fit = omega arith;
  bytes_fit = omega arith;
}

-- Three inputs are pending, ahead of tick 5.
abbrev predicted : PredictionLineage ℕ
predicted = record {
  key = key;
  limits = record { max_pending_inputs = 4; max_pending_bytes = 20; max_future_tick_distance = 4 };
  state = active 5;
  pending =
      (6, record { value = 60; accounted_bytes = 2 })
      ∷ (7, record { value = 70; accounted_bytes = 3 })
      ∷ (8, record { value = 80; accounted_bytes = 4 })
      ∷ [];
  pending_bytes = 9;
  last_observed_commit = some 2;
  last_observed_recovery_boundary = none;
}

predicted-IsValid : IsValid predicted
predicted-IsValid = record {
  sorted = (omega arith, (omega arith, (omega arith, tt)));
  counted = refl;
  few = omega arith;
  within_bytes = omega arith;
  count_machine = omega arith;
  bytes_machine = omega arith;
  ahead =
      ((omega arith, omega arith), ((omega arith, omega arith), ((omega arith, omega arith), tt)));
  ended = λ e. absurd (cc);
}

-- Every input is applied but 90.
abbrev applies : List ℕ → ℕ → ℕ → List ℕ × Result (Unit {0}) ℕ
applies log tick input = if input == 90 then (log, err tick) else (input ∷ log, ok tt)

reconcile_committed-replayed_example :
    reconcile_committed applies predicted [] 3 6
    ≡ replayed applies
        (advanced predicted 3 6)
        6
        (split_off predicted.pending 7)
        (replay_each applies [] (split_off predicted.pending 7))
reconcile_committed-replayed_example =
    reconcile_committed-replayed applies predicted [] 3 6 5 predicted-IsValid refl (omega arith)

observe_replication-IsSound_example :
    IsSound predicted (observe_replication applies predicted [] client)
observe_replication-IsSound_example =
    observe_replication-IsSound applies predicted [] client predicted-IsValid client-IsValidSet

abbrev calls : List (Call ℕ ℕ)
calls = observes client ∷ admits 9 90 1 ∷ fails_locally ∷ confirms client ∷ reconnects client ∷ []

run-Keeps_example : Keeps predicted (run applies predicted [] calls)
run-Keeps_example =
    run-Keeps applies calls predicted [] (client-IsValidSet, (tt, (tt, (tt, (tt, tt)))))
      predicted-IsValid
