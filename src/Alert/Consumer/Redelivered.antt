-- ===== src/Alert/Consumer/Redelivered.antt =====
-- Redelivery of a record that was committed.
use industrial_reliability_p.Base.{
  ◌≡◌, refl, ap, subst, ◌∙◌, String, false, Option, some, any, arith, ok, Result-cases,
  Option-cases, Bool-cases, inl, inr, ◌==◌,
}
use industrial_reliability_p.Platform.{Uuid, Datetime, Platform}
use industrial_reliability_p.Messages.{ScoreDecisionV1}
use industrial_reliability_p.Alert.Model.{LockedAlertPolicyV1}
use industrial_reliability_p.Alert.State.{transition}
use industrial_reliability_p.Alert.Store.{load_alert_state, record_decision_transition}
use industrial_reliability_p.Alert.Store.Redelivery.{
  record-stored, record-again, transition-remembers, transition-again, load_alert_state-IsStateOf,
  load-stored,
}
use industrial_reliability_p.Alert.Consumer.{
  committed, Fresh, AlertConsumer, matches_identity, fail_session, commit_decision,
  process_decision, process,
}

module _ (P : Platform) {B : Type 0} (decode : B → Option (ScoreDecisionV1 P.Float))
    (policy : LockedAlertPolicyV1 P.Float) (machine_id : String) where
  open P use {Float}

  commit_decision-again :
      (fresh fresh' : Fresh) (d : ScoreDecisionV1 Float) (c c' : AlertConsumer Float B)
      → commit_decision P decode policy machine_id fresh d c ≡ (c', ok committed)
      → commit_decision P decode policy machine_id fresh' d c' ≡ (c', ok committed)
  unfolding commit_decision
  commit_decision-again fresh fresh' d c c' h =
      elim (Result-cases
        (load_alert_state P fresh.draw d.replay_session_id machine_id (some policy) c.store)) [
          | inr (e, failed) ↦ absurd (ground arith)
          | inl ((s, loaded), read) ↦ elim (Result-cases (transition P fresh.draw s d policy)) [
            | inr (e, failed) ↦ absurd (ground arith)
            | inl (r, moved) ↦ elim (Result-cases (record_decision_transition d r loaded)) [
              | inr (e, failed) ↦ absurd (ground arith)
              | inl (db, stored) ↦
                  let key =
                    load_alert_state-IsStateOf P fresh.draw policy d.replay_session_id machine_id
                      c.store loaded s read in
                  let after = transition-remembers P fresh.draw policy s d r moved in
                  let (known, has, (states, runtime)) = record-stored d r loaded db stored in
                  let reads =
                    load-stored P fresh'.draw policy d.replay_session_id machine_id db r.state
                      states (after.0 ∙ key.0, after.1 ∙ key.1) runtime in
                  let stays = transition-again P fresh'.draw policy r.state d after.2 in
                  let writes = record-again d r.state db states known has runtime in
                  let e : record c { store = db } ≡ c' = ground arith in
                  subst
                    (λ x. commit_decision P decode policy machine_id fresh' d x ≡ (x, ok committed))
                    e (rw (commit_decision, reads, stays, writes) refl)
            ]
          ]
        ]

  commit_decision-sessions :
      (fresh : Fresh) (d : ScoreDecisionV1 Float) (c c' : AlertConsumer Float B)
      → commit_decision P decode policy machine_id fresh d c ≡ (c', ok committed)
      → c'.failed_sessions ≡ c.failed_sessions
  unfolding commit_decision
  commit_decision-sessions fresh d c c' h = ground arith

  fail_session-uncommitted :
      (fresh : Fresh) (session : Uuid) (ts : Datetime) (code : String)
      (c c' : AlertConsumer Float B)
      → fail_session P decode policy machine_id fresh session ts code c ≡ (c', ok committed)
      → ⊥
  unfolding fail_session
  fail_session-uncommitted fresh session ts code c c' h = ground arith

  process_decision-again :
      (fresh fresh' : Fresh) (d : ScoreDecisionV1 Float) (c c' : AlertConsumer Float B)
      → process_decision P decode policy machine_id fresh d c ≡ (c', ok committed)
      → process_decision P decode policy machine_id fresh' d c' ≡ (c', ok committed)
  unfolding process_decision
  process_decision-again fresh fresh' d c c' h =
      elim (Bool-cases (any (λ s. s == d.replay_session_id) c.failed_sessions)) [
        | inl skip ↦ absurd (ground arith)
        | inr live ↦ elim (Bool-cases (matches_identity P decode policy machine_id d)) [
          | inr foreign ↦ absurd (
              fail_session-uncommitted fresh d.replay_session_id d.source_timestamp
                "CONTRACT_MISMATCH" c c' (ground arith))
          | inl ours ↦
              let first : commit_decision P decode policy machine_id fresh d c
                  ≡ (c', ok committed) =
                ground arith in
              let live' : any (λ s. s == d.replay_session_id) c'.failed_sessions ≡ false =
                ap (any (λ s. s == d.replay_session_id))
                  (commit_decision-sessions fresh d c c' first)
                ∙ live in
              rw (process_decision, live', ours) (commit_decision-again fresh fresh' d c c' first)
        ]
      ]

  -- Redelivery: when `process` has committed a record, then processing the same record again, whatever
  -- identifiers and times the second call draws, commits it again and leaves the consumer as it is: no
  -- row of any table changes and nothing is sent.
  pub process_again :
      (fresh fresh' : Fresh) (raw : B) (c c' : AlertConsumer Float B)
      → process P decode policy machine_id fresh raw c ≡ (c', ok committed)
      → process P decode policy machine_id fresh' raw c' ≡ (c', ok committed)
  unfolding process
  process_again fresh fresh' raw c c' h = elim (Option-cases (decode raw)) [
    | inl broken ↦ absurd (ground arith)
    | inr (d, decoded) ↦
        rw (process, decoded) (process_decision-again fresh fresh' d c c' (ground arith))
  ]
