-- ===== src/Evaluation.antt =====
-- src/industrial_reliability/evaluation.py: threshold calibration, and the evaluation of alert episodes against
-- the failure events of the holdout period. A score frame is the list of its rows, whose columns are typed.
pub mod Scores
pub mod Episodes
pub mod Events
pub mod Evaluate
