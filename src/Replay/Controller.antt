-- ===== src/Replay/Controller.antt =====
-- `ReplayController` of src/industrial_reliability/replay.py
pub mod Status
use Prim.Native.String.{◌++◌ as ◌<>◌}
use industrial_reliability_p.Base.{
  ℕ, String, Bool, true, false, Option, none, some, not, ◌==◌, or_else, if◌then◌else◌, Result, ok,
  err, replay_contract_error, ◌>>=◌, ◌>>◌,
}
use industrial_reliability_p.Platform.{Uuid, Datetime, Platform}
use industrial_reliability_p.Ids.{runtime_id}
use industrial_reliability_p.Messages.{
  Action, start, pause, resume, stop, ReplayState, created, running, paused, stopped, completed,
  failed, ReplayCommandV1, ReplayStatusV1,
}
use industrial_reliability_p.Messages.Validate.{validate_status}

-- ALLOWED_TRANSITIONS
unfoldable pub is_allowed : ReplayState → Action → Bool
is_allowed created start = true
is_allowed running pause = true
is_allowed running stop = true
is_allowed paused resume = true
is_allowed paused stop = true
is_allowed _ _ = false

pub record ReplayController : Type 0 where
  pub session_id : Uuid
  pub source_dataset_sha256 : String
  pub contract_sha256 : String
  pub state : ReplayState
  pub speed : ℕ
  pub range_start : Option Datetime
  pub range_end : Option Datetime
  pub current_source_timestamp : Option Datetime
  pub last_sequence : Option ℕ
  pub error_code : Option String

-- `ReplayController.created`
unfoldable pub new_controller : Uuid → String → String → ReplayController
new_controller session_id dataset_sha256 contract_sha256 = record {
  session_id = session_id;
  source_dataset_sha256 = dataset_sha256;
  contract_sha256 = contract_sha256;
  state = created;
  speed = 1;
  range_start = none;
  range_end = none;
  current_source_timestamp = none;
  last_sequence = none;
  error_code = none;
}

-- the four branches of `apply` behind its two guards
unfoldable pub apply_action : ReplayController → ReplayCommandV1 → Action → ReplayController
apply_action c command start = record c {
  source_dataset_sha256 = command.source_dataset_sha256;
  contract_sha256 = command.contract_sha256;
  state = running;
  speed = command.speed;
  range_start = command.range_start;
  range_end = command.range_end;
  current_source_timestamp = some command.source_timestamp;
  last_sequence = some 0;
  error_code = none;
}
apply_action c command pause = record c {
  state = paused;
  current_source_timestamp = some command.source_timestamp;
  error_code = none;
}
apply_action c command resume = record c {
  state = running;
  speed = command.speed;
  current_source_timestamp = some command.source_timestamp;
  error_code = none;
}
apply_action c command stop = record c {
  state = stopped;
  current_source_timestamp = some command.source_timestamp;
  last_sequence = some (or_else c.last_sequence 0);
  error_code = none;
}

unfoldable pub apply : ReplayController → ReplayCommandV1 → Result ReplayController
unfolding is_allowed apply_action
apply c command =
    if not (command.replay_session_id == c.session_id)
    then err replay_contract_error
    else if not (is_allowed c.state command.action)
    then err replay_contract_error
    else ok (apply_action c command command.action)

unfoldable pub mark_completed : ReplayController → ℕ → Datetime → ReplayController
mark_completed c last_sequence source_timestamp = record c {
  state = completed;
  current_source_timestamp = some source_timestamp;
  last_sequence = some last_sequence;
  error_code = none;
}

unfoldable pub mark_failed : ReplayController → String → ℕ → Datetime → ReplayController
mark_failed c error_code last_sequence source_timestamp = record c {
  state = failed;
  current_source_timestamp = some source_timestamp;
  last_sequence = some last_sequence;
  error_code = some error_code;
}

-- `datetime(2020, 1, 1)`: 737424 days after `datetime.min`
abbrev pub year_2020 : Datetime
year_2020 = record { tick = 63713433600000000; aware = false }

abbrev pub state_str : ReplayState → String
state_str created = "CREATED"
state_str running = "RUNNING"
state_str paused = "PAUSED"
state_str stopped = "STOPPED"
state_str completed = "COMPLETED"
state_str failed = "FAILED"

module _ (P : Platform) where
  open P use {int_str}

  abbrev sequence_str : Option ℕ → String
  sequence_str none = "None"
  sequence_str (some n) = int_str n

  -- `status`, with the time that `datetime.now(UTC)` gives
  unfoldable pub status : ReplayController → ℕ → Result ReplayStatusV1
  unfolding runtime_id
  status c now = do
    message_id ←
        runtime_id P "status" c.session_id
          (state_str c.state <> ":" <> sequence_str c.last_sequence)
    let built : ReplayStatusV1 = record {
      message_id = message_id;
      replay_session_id = c.session_id;
      source_dataset_sha256 = c.source_dataset_sha256;
      contract_sha256 = c.contract_sha256;
      source_timestamp = or_else c.current_source_timestamp (or_else c.range_start year_2020);
      emitted_at = record { tick = now; aware = true };
      state = c.state;
      last_sequence = c.last_sequence;
      error_code = c.error_code;
    }
    validate_status built
    ok built
