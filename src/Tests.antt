-- ===== src/Tests.antt =====
-- Concrete inputs: a platform whose floats are whole numbers, and the theorems at inputs that meet
-- their hypotheses.
mod Toy
mod Alerts
mod Consumer
mod Replay
mod Features
mod Evaluation
mod Worker
mod Lab
mod Analysis
mod Outbox
mod Engine
