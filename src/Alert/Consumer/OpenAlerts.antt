-- ===== src/Alert/Consumer/OpenAlerts.antt =====
-- The OPEN alert of a session, whatever records are delivered.
use industrial_reliability_p.Base.{
  ◌≡◌, refl, sym, subst, String, Option, none, some, List, [], ◌∷◌, any, All, Result-cases,
  Bool-cases, inl, inr, ◌==◌,
}
use industrial_reliability_p.Platform.{Uuid, Datetime, Platform}
use industrial_reliability_p.Messages.{ScoreDecisionV1}
use industrial_reliability_p.Messages.Validate.{validate_status}
use industrial_reliability_p.Alert.Model.{LockedAlertPolicyV1, AlertState}
use industrial_reliability_p.Alert.Tables.{find_state}
use industrial_reliability_p.Alert.Store.{record_replay_status}
use industrial_reliability_p.Alert.Store.OpenAlerts.{open_ids, singleton}
use industrial_reliability_p.Alert.Consumer.{
  Fresh, AlertConsumer, matches_identity, failed_status, fail_session, process_decision, process,
  process_all,
}
use industrial_reliability_p.Alert.Consumer.Commit.{
  empty_store, active_of, Tracked, Tracked-open_ids, Consistent, commit_decision-Consistent,
}

module _ (P : Platform) {B : Type 0} (decode : B → Option (ScoreDecisionV1 P.Float))
    (policy : LockedAlertPolicyV1 P.Float) (machine_id : String) (session : Uuid) where
  open P use {Float}

  fail_session-Consistent :
      (fresh : Fresh) (id : Uuid) (ts : Datetime) (code : String) (c : AlertConsumer Float B)
      → Consistent P decode policy machine_id session c.store
      → Consistent P decode policy machine_id session
          (fail_session P decode policy machine_id fresh id ts code c).0.store
  unfolding fail_session record_replay_status
  fail_session-Consistent fresh id ts code c k =
      elim (Result-cases
        (validate_status (failed_status P decode policy machine_id fresh id ts code))) [
          | inr (e, invalid) ↦ rw (fail_session, invalid) k
          | inl (u, valid) ↦
              rw (fail_session, valid)
                (kept (find_state session machine_id c.store.alert_runtime_states) k)
        ]
    where
      kept :
          (o : Option AlertState)
          → Tracked o c.store
          → Tracked o (
              record_replay_status
                (failed_status P decode policy machine_id fresh id ts code)
                c.store)
      kept none h = h
      kept (some s) h = h

  process_decision-Consistent :
      (fresh : Fresh) (d : ScoreDecisionV1 Float) (c : AlertConsumer Float B)
      → d.replay_session_id ≡ session
      → Consistent P decode policy machine_id session c.store
      → Consistent P decode policy machine_id session
          (process_decision P decode policy machine_id fresh d c).0.store
  unfolding process_decision
  process_decision-Consistent fresh d c at k =
      elim (Bool-cases (any (λ s. s == d.replay_session_id) c.failed_sessions)) [
        | inl skip ↦ rw (process_decision, skip) k
        | inr live ↦ elim (Bool-cases (matches_identity P decode policy machine_id d)) [
          | inl ours ↦
              rw (process_decision, live, ours)
                (commit_decision-Consistent P decode policy machine_id session fresh d c at k)
          | inr foreign ↦
              rw (process_decision, live, foreign)
                (fail_session-Consistent fresh d.replay_session_id d.source_timestamp
                  "CONTRACT_MISMATCH" c k)
        ]
      ]

  -- a record that is no decision, or a decision of the session
  abbrev pub OfSession : Fresh × B → Type 0
  OfSession (fresh, raw) = elim (decode raw) [
    | none ↦ Unit
    | some d ↦ d.replay_session_id ≡ session
  ]

  process-Consistent :
      (fresh : Fresh) (raw : B) (c : AlertConsumer Float B)
      → OfSession (fresh, raw)
      → Consistent P decode policy machine_id session c.store
      → Consistent P decode policy machine_id session
          (process P decode policy machine_id fresh raw c).0.store
  unfolding process
  process-Consistent fresh raw c at k = go (decode raw) refl at
    where
      go :
          (o : Option (ScoreDecisionV1 Float))
          → decode raw ≡ o
          → elim o as (λ x. Type 0) [ none ↦ Unit | some d ↦ d.replay_session_id ≡ session ]
          → Consistent P decode policy machine_id session
              (process P decode policy machine_id fresh raw c).0.store
      go none e at = elim (Bool-cases c.has_producer) [
        | inl able ↦ rw (process, e, able) k
        | inr unable ↦ rw (process, e, unable) k
      ]
      go (some d) e at = rw (process, e) (process_decision-Consistent fresh d c at k)

  process_all-Consistent :
      (records : List (Fresh × B)) (c : AlertConsumer Float B)
      → All OfSession records
      → Consistent P decode policy machine_id session c.store
      → Consistent P decode policy machine_id session
          (process_all P decode policy machine_id records c).store
  process_all-Consistent [] c a k = k
  process_all-Consistent ((fresh, raw) ∷ rest) c a k =
      process_all-Consistent rest _ a.1 (process-Consistent fresh raw c a.0 k)

  -- One open alert: a consumer starts on an empty store and is given any records, in any order, that are
  -- malformed or decisions of one session, also repeated, late or of another identity. Then the OPEN rows
  -- of `alerts` are one row, that of the active alert of the stored state, or none where no alert is
  -- active.
  pub process_all-open_ids :
      (records : List (Fresh × B)) (c : AlertConsumer Float B)
      → c.store ≡ empty_store
      → All OfSession records
      → let store = (process_all P decode policy machine_id records c).store in
        open_ids store.alerts
        ≡ singleton (active_of (find_state session machine_id store.alert_runtime_states))
  unfolding find_state
  process_all-open_ids records c e a =
      let c' = process_all P decode policy machine_id records c in
      Tracked-open_ids (find_state session machine_id c'.store.alert_runtime_states) c'.store (
        process_all-Consistent records c a
          (subst (Consistent P decode policy machine_id session) (sym e) (refl, tt)))
