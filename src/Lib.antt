-- ===== src/Lib.antt =====
-- The runtime of the industrial reliability platform: telemetry of one compressor is replayed from
-- a prepared file, grouped into five-minute windows of features, scored, and turned into alerts.
--
-- The parts, and the file that models each (paths from the repository's root):
-- - Platform: what the code takes from outside: floats and numpy's statistics, uuid5, SHA-256 and
--   the rendering of values. Its fields are parameters of every definition that uses them.
-- - Ids: src/industrial_reliability/runtime_ids.py.
-- - Messages, Messages/Validate: the message records of
--   src/industrial_reliability/runtime_messages.py and the validators that their construction
--   runs, with the signal bounds of phase1b_contracts.py.
-- - Alert/Model, Alert/State: the records of src/industrial_reliability/alert_state.py, and the
--   state machine that opens, updates, resolves and reopens alerts. transition is transition; each
--   handler has its source's name.
-- - Alert/Policy: src/industrial_reliability/alert_policy.py, the simulation of a policy over
--   scored rows and the selection of a policy. Alert/Agreement relates the two machines.
-- - Alert/Tables, Alert/Store: the rows of the alert tables of
--   src/industrial_reliability/persistence.py, and its transactions on them with the constraints
--   of db/migrations; Alert/Consumer: process and the outbox dispatch of alert_consumer.py, and
--   the batch loop of alert_service.py.
-- - Replay/Controller: ReplayController of src/industrial_reliability/replay.py; Replay/Source:
--   ReplaySource.iter_events of the same file.
-- - Replay/Store: the table replay_checkpoints of src/industrial_reliability/persistence.py, an
--   association list.
-- - Replay/Session, Replay/Service: the state of src/industrial_reliability/replay_service.py, and
--   its commands and the task that streams events, as a step function.
-- - Features/Bins, Features/Statistics, Features/Buffer, Features/Builder: _compute_bin_end of
--   phase1b_features.py, causal_features.py, and OnlineFeatureBuilder of online_features.py.
-- - Evaluation: src/industrial_reliability/evaluation.py, with the failure events of contracts.py.
--   Evaluation/Scores has the score frame and the threshold, Evaluation/Episodes build_episodes,
--   Evaluation/Events the events and their match to episodes, Evaluation/Evaluate evaluate. A
--   score frame is a list of rows; scikit-learn's average precision and numpy's quantile are
--   arguments.
-- - Scoring: ScoringClient of src/industrial_reliability/scoring_client.py; the replies of the
--   service are an argument.
-- - Worker: src/industrial_reliability/worker.py. Worker/Model has the state of StreamingWorker,
--   with what it sends as a list of effects, Worker/Session the operations on a session
--   (_process_feature, _fail_session, _complete_session), Worker/Records the handlers of records
--   and the loop of run.
-- - Lab/Contracts, Lab/Validation: the definition of a virtual lab, the validators of its models
--   and validate_lab, of src/industrial_reliability/lab/contracts.py; Lab/Tables, Lab/Store: the
--   rows of db/migrations/006_virtual_lab.sql and the operations of LabStore of lab/store.py, each
--   a transaction; Lab/Sensors: observe of lab/simulation/sensors.py; Lab/Engine:
--   execute_command_in_controls of lab/engine.py; Lab/Analysis: evaluate_sensor_observation of
--   lab/analysis.py; Lab/Outbox: dispatch_batch and publish_pending_sync of lab/outbox.py.
-- - Base: the language's Result and list helpers on native numbers. Tests: concrete inputs.
--
-- How they interact: a replay command goes to Replay/Service, which streams the events of
-- Replay/Source and writes checkpoints to Replay/Store; the scoring worker pushes each event into
-- Features/Builder and scores the windows that it emits; Alert/Consumer reads each decision, loads
-- the state of its session from Alert/Store, gives both to Alert/State and stores the result in
-- one transaction.
--
-- Conventions. A datetime is its number of microseconds with a flag for a time zone; comparisons
-- of datetimes are comparisons of the numbers, so the code's refusal to compare a naive with an
-- aware time is not modelled. A raise is an err of Base/Raise. Identifiers and sequence numbers
-- are natural numbers, which do not overflow in Python. Nothing runs on fuel: every loop of the
-- source is over a list. The values that uuid4 and the clock give are arguments. A generator is
-- the list of what it yields with the exception that ends it. The replay task is cut at its
-- awaits, and the steps of Replay/Service may come in any order; pacing between events and the
-- metrics are left out. The worker's sends and commits succeed: one that raises ends the run, so
-- what was sent is then a prefix of what the model sends. A call that raises in the worker gives
-- the state that it leaves.
--
-- Not modelled: the Kafka and HTTP clients, the web services, the queries that only read for the
-- web API, training and benchmark scripts, the gates of the project's phases, and of the lab its
-- solver, the loop of its engine and its web service. PostgreSQL is taken to run each statement
-- atomically.
pub mod Base
pub mod Platform
pub mod Ids
pub mod Messages
pub mod Alert
pub mod Replay
pub mod Features
pub mod Evaluation
pub mod Scoring
pub mod Worker
pub mod Lab
mod Tests
