-- ===== src/Alert.antt =====
-- The alert lifecycle: src/industrial_reliability/alert_state.py (State), alert_policy.py (Policy), the alert
-- tables of persistence.py (Tables, Store) and the service around them, alert_consumer.py and alert_service.py (Consumer).
pub mod Model
pub mod State
pub mod Policy
pub mod Agreement
pub mod Tables
pub mod Store
pub mod Consumer
