-- ===== src/Lab.antt =====
-- The virtual lab, src/industrial_reliability/lab: its definitions and their validation, and its store.
pub mod Contracts
pub mod Validation
pub mod Tables
pub mod Store
pub mod Sensors
pub mod Engine
pub mod Analysis
pub mod Outbox
