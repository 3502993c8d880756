-- ===== src/Input/Model.antt =====
-- input/model.rs: windows and limits. A tick is a number.
use runen_net.Prelude.{ℕ, ◌-◌, if◌then◌else◌, ltb, Result, ok, err}
use runen_net.Identity.{SimulationTick}

pub record InputWindow : Type 0 where
  pub minimum : SimulationTick
  pub maximum : SimulationTick

pub data InputWindowError : Type 0 where
  maximum_before_minimum : InputWindowError

-- `InputWindow::new`.
unfoldable pub new_window : SimulationTick → SimulationTick → Result InputWindow InputWindowError
new_window minimum maximum =
    if ltb maximum minimum
    then err maximum_before_minimum
    else ok (record { minimum = minimum; maximum = maximum })

-- The constructor keeps the maximum at or above the minimum, so the subtraction does not wrap.
abbrev pub span : InputWindow → ℕ
span w = w.maximum - w.minimum

pub record AuthorityInputLimits : Type 0 where
  pub max_batch_bytes : ℕ
  pub max_retained_keys_per_participant : ℕ
  pub max_retained_bytes_per_participant : ℕ
  pub max_future_tick_distance : ℕ

pub data AuthorityInputLimitError : Type 0 where
  batch_exceeds_participant_budget : AuthorityInputLimitError

-- `AuthorityInputLimits::new`.
unfoldable pub new_input_limits :
    ℕ → ℕ → ℕ → ℕ → Result AuthorityInputLimits AuthorityInputLimitError
new_input_limits batch_bytes keys bytes distance =
    if ltb bytes batch_bytes
    then err batch_exceeds_participant_budget
    else ok (record {
      max_batch_bytes = batch_bytes;
      max_retained_keys_per_participant = keys;
      max_retained_bytes_per_participant = bytes;
      max_future_tick_distance = distance;
    })

pub record AuthorityInputAggregateLimits : Type 0 where
  pub max_retained_keys : ℕ
  pub max_retained_bytes : ℕ

pub data AuthorityInputOutcome : Type 0 where
  input_accepted duplicate_input conflicting_input stale_input : AuthorityInputOutcome
  future_input_outside_window input_resource_rejected unauthorized_input : AuthorityInputOutcome
