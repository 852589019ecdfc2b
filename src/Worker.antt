-- ===== src/Worker.antt =====
-- `StreamingWorker` of src/industrial_reliability/worker.py, started. A handler gives the worker behind it and
-- whether it raised: what was sent before an exception stays sent. Metrics are left out; pydantic's reading
-- of a record, the replies of the scoring service, the clock and new identifiers are arguments.
pub mod Model
pub mod Session
pub mod Records
pub mod Windows
pub mod Published
pub mod Silence
pub mod Contained
