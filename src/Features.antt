-- ===== src/Features.antt =====
-- Features of the telemetry: src/industrial_reliability/causal_features.py (Statistics), the bins of
-- phase1b_features.py (Bins) and online_features.py (Builder).
pub mod Bins
pub mod Statistics
pub mod Buffer
pub mod Builder
