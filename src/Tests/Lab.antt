-- ===== src/Tests/Lab.antt =====
-- The lab at concrete inputs.
use industrial_reliability_p.Base.{
  ℕ, ◌+◌, ◌≡◌, refl, String, Bool, true, false, none, some, [], ◌∷◌, get, put, Result, ok, err,
  command_revision_conflict_error,
}
use industrial_reliability_p.Lab.Contracts.{
  tank, port_a, PortRef, Asset, Pipe, flow, at_pipe, Sensor, LabDefinition,
}
use industrial_reliability_p.Lab.Validation.{validate_lab}
use industrial_reliability_p.Lab.Validation.Distinct.{distinct_by}
use industrial_reliability_p.Lab.Validation.Runnable.{is_runnable}
use industrial_reliability_p.Lab.Validation.Eligible.{eligible, validate_lab-eligible}
use industrial_reliability_p.Lab.Tables.{
  running, rejected, EngineCheckpoint, CommandRequest, CommandReceipt, RunRow, LabDatabase,
}
use industrial_reliability_p.Lab.Store.{
  find_revision, insert_revision, next_revision, save_lab, get_lab, find_command, accept_command,
  submit_command, insert_events, insert_messages, write_checkpoint, checkpoint,
}
use industrial_reliability_p.Lab.Store.Revisions.{get_lab-save_lab}
use industrial_reliability_p.Lab.Store.Commands.{submit_command_again, submit_command-conflict}
use industrial_reliability_p.Lab.Store.Checkpoints.{checkpoint_once}

abbrev asset : ℕ → Asset ℕ
asset n = record {
  asset_id = n;
  kind = tank;
  position_m = (0, 0, 0);
  rotation_y_rad = 0;
  parameters = [];
}

abbrev end_of : ℕ → PortRef
end_of n = record { asset_id = n; port = port_a }

abbrev pipe : Pipe ℕ
pipe = record {
  pipe_id = 10;
  from_port = end_of 1;
  to_port = end_of 2;
  conductance_kg_s_pa = 1;
  waypoints_m = [];
}

abbrev sensor : Sensor ℕ
sensor = record {
  sensor_id = 20;
  kind = flow;
  target = at_pipe 10;
  noise_std = 0;
  alarm_low = none;
  alarm_high = none;
}

abbrev pub lab : LabDefinition ℕ
lab = record {
  lab_id = 5;
  revision = 1;
  name = "two tanks";
  assets = asset 1 ∷ asset 2 ∷ [];
  pipes = pipe ∷ [];
  sensors = sensor ∷ [];
  scene_revision = "scene-v1";
}

validate_lab-eligible_example : eligible (validate_lab lab) ≡ ok (is_runnable lab)
validate_lab-eligible_example = validate_lab-eligible lab refl

-- the lab is runnable, and not with a pipe to an asset that is missing
runs : is_runnable lab ≡ true
unfolding distinct_by
runs = refl

misses : is_runnable (record lab { pipes = record pipe { to_port = end_of 3 } ∷ [] }) ≡ false
unfolding distinct_by
misses = refl

abbrev digest : LabDefinition ℕ → String
digest definition = "d"

abbrev empty_database : LabDatabase ℕ
empty_database = record {
  labs = [];
  revisions = [];
  runs = [];
  commands = [];
  events = [];
  outbox = [];
  history = [];
}

abbrev saved_database : LabDatabase ℕ
saved_database = record empty_database {
  labs = (5, record { name = "two tanks"; current_revision = 1 }) ∷ [];
  revisions = record { lab_id = 5; revision = 1; definition = lab; digest = "d" } ∷ [];
}

saves : save_lab digest lab 0 empty_database ≡ ok (saved_database, lab)
unfolding save_lab next_revision insert_revision find_revision get put
saves = refl

get_lab-save_lab_example :
    (get_lab 5 none saved_database ≡ some lab)
    × (get_lab 5 (some 1) saved_database ≡ some lab)
    × (next_revision (get 5 saved_database.labs) 1 ≡ ok (1 + 1))
get_lab-save_lab_example = get_lab-save_lab digest lab lab 0 empty_database saved_database saves

abbrev engine_checkpoint : ℕ → EngineCheckpoint ℕ
engine_checkpoint tick = record {
  tick = tick;
  physical = record { tick = tick; pressures_pa = []; flows_kg_s = []; operating_modes = [] };
  controls = record { setpoints = []; active_faults = [] };
  accepted_scanned_sequence = 0;
  pending_command_ids = [];
  definition_digest = "d";
  profile_digest = "p";
  sampling_digest = "s";
}

abbrev run_row : RunRow ℕ
run_row = record {
  spec = record {
    lab_id = 5;
    lab_revision = 1;
    seed = 42;
    speed = 1;
    max_ticks = some 100;
    baseline_id = none;
  };
  status = running;
  tick = 0;
  control_revision = 0;
  accepted_sequence = 0;
  event_sequence = 0;
  fence = 0;
  definition_digest = "d";
  checkpoint = engine_checkpoint 0;
}

abbrev run_database : LabDatabase ℕ
run_database = record saved_database { runs = (7, run_row) ∷ [] }

abbrev request : ℕ → CommandRequest
request n = record {
  command_id = n;
  expected_control_revision = 0;
  action = "SET_VALVE_OPENING";
  target_id = some 1;
  parameters = "{}";
}

abbrev hash_of : CommandRequest → String
hash_of r = "h"

-- the database and the receipt behind a submission
abbrev answered :
    Result (LabDatabase ℕ × CommandReceipt)
    → LabDatabase ℕ × CommandReceipt
    → LabDatabase ℕ × CommandReceipt
answered (err e) d = d
answered (ok r) d = r

abbrev no_receipt : CommandReceipt
no_receipt = record {
  command_id = 0;
  status = rejected;
  accepted_sequence = 0;
  effective_tick = none;
  control_revision = 0;
  reason_code = none;
}

unfoldable after_first : LabDatabase ℕ × CommandReceipt
after_first =
    answered (submit_command hash_of 7 (request 30) run_database) (run_database, no_receipt)

first_accepted :
    submit_command hash_of 7 (request 30) run_database ≡ ok (after_first.0, after_first.1)
unfolding after_first submit_command find_command accept_command get put
first_accepted = refl

submit_command_again_example :
    submit_command hash_of 7 (request 30) after_first.0 ≡ ok (after_first.0, after_first.1)
submit_command_again_example =
    submit_command_again hash_of 7 (request 30) run_database after_first.0 after_first.1
      first_accepted

unknown_command : (n : ℕ) → find_command 7 n run_database.commands ≡ none
unfolding find_command
unknown_command n = refl

submit_command-conflict_example :
    submit_command hash_of 7 (request 31) after_first.0 ≡ err command_revision_conflict_error
submit_command-conflict_example =
    submit_command-conflict hash_of 7 (request 30) (request 31) run_database after_first.0
      after_first.1 first_accepted (unknown_command 30) (unknown_command 31) refl refl

abbrev written : Result (LabDatabase ℕ × Bool) → LabDatabase ℕ
written (err e) = run_database
written (ok (db, flag)) = db

unfoldable after_checkpoint : LabDatabase ℕ
after_checkpoint = written (checkpoint 7 0 0 (engine_checkpoint 2) [] [] run_database)

checkpoint_written :
    checkpoint 7 0 0 (engine_checkpoint 2) [] [] run_database ≡ ok (after_checkpoint, true)
unfolding after_checkpoint checkpoint write_checkpoint insert_events insert_messages get put
checkpoint_written = refl

checkpoint_once_example :
    checkpoint 7 1 0 (engine_checkpoint 4) [] [] after_checkpoint ≡ ok (after_checkpoint, false)
checkpoint_once_example =
    checkpoint_once 7 0 1 0 (engine_checkpoint 2) (engine_checkpoint 4) [] [] [] [] run_database
      after_checkpoint checkpoint_written refl
