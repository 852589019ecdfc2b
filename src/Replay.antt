-- ===== src/Replay.antt =====
-- The replay of prepared telemetry: src/industrial_reliability/replay.py (Controller, Source) and
-- replay_service.py (Service).
pub mod Controller
pub mod Source
pub mod Store
pub mod Session
pub mod Service
