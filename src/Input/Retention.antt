-- ===== src/Input/Retention.antt =====
-- input/authority.rs: the accounting of retained inputs.
use runen_net.Prelude.{
  ℕ, ◌+◌, ◌≤◌, ◌≡◌, Option, none, some, [], ◌∷◌, nat_eq, length, arith, All, IsU64,
}
use runen_net.Collections.HashMap.{
  HashMap, total-insert_present, total-insert_absent, Distinct, insert-Distinct,
}
use runen_net.Collections.HashMap
use runen_net.Collections.BTreeMap.{BTreeMap}
use runen_net.Collections.BTreeMap
use runen_net.Input.Model.{span}
use runen_net.Input.Authority.{
  RetainedInput, ParticipantInputState, AuthorityInputSession, input_bytes, count_removed,
}

module _ {I : Type 0} where
  abbrev pub key_count : ParticipantInputState I → ℕ
  key_count p = length p.retained

  abbrev pub byte_count : ParticipantInputState I → ℕ
  byte_count p = p.retained_bytes

  -- A participant's inputs are counted right, within its limits and its window.
  pub record IsValidState (p : ParticipantInputState I) : Type 0 where
    pub sorted : BTreeMap.IsSorted p.retained
    pub counted : p.retained_bytes ≡ BTreeMap.total input_bytes p.retained
    pub keys_fit : length p.retained ≤ p.limits.max_retained_keys_per_participant
    pub bytes_fit : p.retained_bytes ≤ p.limits.max_retained_bytes_per_participant
    pub from_minimum : All (λ e. p.window.minimum ≤ e.0) p.retained
    pub to_maximum : All (λ e. e.0 ≤ p.window.maximum) p.retained
    pub within_horizon : span p.window ≤ p.limits.max_future_tick_distance

  -- So is every participant, and the totals agree and respect the aggregate limits.
  pub record IsValidInput (a : AuthorityInputSession I) : Type 0 where
    pub states : All (λ e. IsValidState e.1) a.participants
    pub distinct : HashMap.Distinct a.participants
    pub keys : a.retained_keys ≡ HashMap.total key_count a.participants
    pub bytes : a.retained_bytes ≡ HashMap.total byte_count a.participants
    pub keys_fit : a.retained_keys ≤ a.limits.max_retained_keys
    pub bytes_fit : a.retained_bytes ≤ a.limits.max_retained_bytes
    pub machine_keys : IsU64 a.limits.max_retained_keys
    pub machine_bytes : IsU64 a.limits.max_retained_bytes

  -- The session after a participant's state was replaced.
  abbrev pub with_state :
      AuthorityInputSession I → ℕ → ParticipantInputState I → ℕ → ℕ → AuthorityInputSession I
  with_state a participant p keys bytes = record a {
    participants = HashMap.insert a.participants participant p;
    retained_keys = keys;
    retained_bytes = bytes;
  }

  pub with_state-IsValidInput :
      (a : AuthorityInputSession I) (participant : ℕ) (p q : ParticipantInputState I)
      (keys bytes : ℕ)
      → IsValidInput a
      → HashMap.get a.participants participant ≡ some p
      → IsValidState q
      → keys + length p.retained ≡ a.retained_keys + length q.retained
      → bytes + p.retained_bytes ≡ a.retained_bytes + q.retained_bytes
      → keys ≤ a.limits.max_retained_keys
      → bytes ≤ a.limits.max_retained_bytes
      → IsValidInput (with_state a participant q keys bytes)
  with_state-IsValidInput a participant p q keys bytes v h w k b kf bf = record {
    states = HashMap.All-insert IsValidState a.participants participant q w v.states;
    distinct = HashMap.insert-Distinct a.participants participant q v.distinct;
    keys = omega (arith, v.keys, total-insert_present key_count a.participants participant q p h);
    bytes =
        omega (arith, v.bytes, total-insert_present byte_count a.participants participant q p h);
    keys_fit = kf;
    bytes_fit = bf;
    machine_keys = v.machine_keys;
    machine_bytes = v.machine_bytes;
  }

  -- The removal loop does not overflow below 2^64.
  pub count_removed-total :
      (m : BTreeMap (RetainedInput I)) (keys bytes : ℕ)
      → IsU64 (keys + length m)
      → IsU64 (bytes + BTreeMap.total input_bytes m)
      → count_removed m keys bytes ≡ some (keys + length m, bytes + BTreeMap.total input_bytes m)
  unfolding count_removed
  count_removed-total [] keys bytes h k = ground arith
  count_removed-total ((tick, r) ∷ m) keys bytes h k = ground (
    arith,
    count_removed-total m (keys + 1) (bytes + r.accounted_bytes) (omega arith) (omega arith),
  )

  -- The input that is retained for a participant and a tick.
  abbrev pub input_in : Option (ParticipantInputState I) → ℕ → Option (RetainedInput I)
  input_in none tick = none
  input_in (some p) tick = BTreeMap.get p.retained tick

  abbrev pub input_at : AuthorityInputSession I → ℕ → ℕ → Option (RetainedInput I)
  input_at a participant tick = input_in (HashMap.get a.participants participant) tick
