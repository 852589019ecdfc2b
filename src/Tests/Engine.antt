-- ===== src/Tests/Engine.antt =====
-- The sensors and the engine's commands at concrete inputs.
use industrial_reliability_p.Base.{ℕ, ◌≡◌, refl, true, none, some, [], ◌∷◌, ok}
use industrial_reliability_p.Lab.Validation.{validate_lab}
use industrial_reliability_p.Lab.Validation.Distinct.{distinct_by}
use industrial_reliability_p.Lab.Validation.Eligible.{eligible, validate_lab-eligible}
use industrial_reliability_p.Lab.Tables.{PhysicalState, ActiveFault, ControlState}
use industrial_reliability_p.Lab.Sensors.{Mathematics, ObservedRun, observe}
use industrial_reliability_p.Lab.Sensors.Complete.{IsComplete, observe-IsComplete}
use industrial_reliability_p.Lab.Engine.{
  CommandParameters, clear_faults, execute_command_in_controls,
}
use industrial_reliability_p.Lab.Engine.Faults.{
  Distinct, one_per_kind, execute_command_in_controls-Distinct,
}
use industrial_reliability_p.Tests.Toy.{toy}
use industrial_reliability_p.Tests.Lab.{lab}

abbrev mathematics : Mathematics ℕ
mathematics = record {
  sqrt = λ x. x;
  log = λ x. x;
  cos = λ x. x;
  pi = 3;
  digest_words = λ s. (1, 2);
}

abbrev observed_run : ObservedRun ℕ
observed_run = record { run_id = 7; seed = 42; definition = lab; profile_digest = "p" }

abbrev state : PhysicalState ℕ
state = record { tick = 20; pressures_pa = []; flows_kg_s = ("u", 4) ∷ []; operating_modes = [] }

abbrev dropout : ActiveFault ℕ
dropout = record { target_id = 20; kind = "SENSOR_DROPOUT"; port = none; values = [] }

abbrev controls : ControlState ℕ
controls = record { setpoints = []; active_faults = dropout ∷ [] }

two_tanks_may_run : eligible (validate_lab lab) ≡ ok true
unfolding distinct_by
two_tanks_may_run = validate_lab-eligible lab refl

observe-IsComplete_example :
    IsComplete toy mathematics observed_run state lab.sensors
      (observe toy mathematics observed_run state controls)
observe-IsComplete_example =
    observe-IsComplete toy mathematics observed_run state controls refl two_tanks_may_run

abbrev parameters : CommandParameters ℕ
parameters = record {
  load = none;
  enabled = none;
  opening = none;
  load_factor = none;
  kind = some "SENSOR_DROPOUT";
  port = none;
  values = [];
}

one_fault : one_per_kind controls ≡ true
unfolding distinct_by
one_fault = refl

execute_command_in_controls-Distinct_example :
    Distinct toy (execute_command_in_controls toy controls "INJECT_FAULT" (some 20) parameters)
execute_command_in_controls-Distinct_example =
    execute_command_in_controls-Distinct toy controls "INJECT_FAULT" (some 20) parameters one_fault

-- a fault that is injected twice is active once
injected_once :
    execute_command_in_controls toy controls "INJECT_FAULT" (some 20) parameters ≡ ok controls
unfolding execute_command_in_controls clear_faults
injected_once = refl
