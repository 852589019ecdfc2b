-- ===== src/Alert/Consumer/Commit.antt =====
-- What a commit of a decision does to the OPEN alerts of its session.
use industrial_reliability_p.Base.{
  ◌≡◌, refl, sym, ap, subst, ◌∙◌, String, Option, none, some, List, [], ◌∷◌, arith, All, ok,
  Result-cases, Option-cases, inl, inr,
}
use industrial_reliability_p.Platform.{Uuid, Platform}
use industrial_reliability_p.Messages.{ScoreDecisionV1}
use industrial_reliability_p.Alert.Model.{
  LockedAlertPolicyV1, AlertState, empty, TransitionResult, Draw,
}
use industrial_reliability_p.Alert.State.{transition}
use industrial_reliability_p.Alert.State.Lifecycle.{Lifecycle, transition-Lifecycle}
use industrial_reliability_p.Alert.Tables.{Database, find_state, upsert_state}
use industrial_reliability_p.Alert.Store.{
  decisions_of, reconstruct_alert_state, load_alert_state, record_decision_transition,
}
use industrial_reliability_p.Alert.Store.Redelivery.{
  IsStateOf, transition-remembers, load_alert_state-IsStateOf, find_state-upsert_state,
}
use industrial_reliability_p.Alert.Store.OpenAlerts.{
  IsClosed, Tracks, open_ids, singleton, tracked-open_ids, record-alerts, record-Tracks,
}
use industrial_reliability_p.Alert.Consumer.{Fresh, AlertConsumer, commit_decision}

-- a store without rows
abbrev pub empty_store : {F : Type 0} → Database F
empty_store = record {
  replay_sessions = [];
  score_decisions = [];
  alerts = [];
  alert_events = [];
  evidence_snapshots = [];
  alert_outbox = [];
  alert_runtime_states = [];
}

abbrev pub active_of : Option AlertState → Option Uuid
active_of none = none
active_of (some s) = s.active_alert_id

module _ {F : Type 0} where
  -- the rows of `alerts` follow the state of the session; without a state, no decision is stored
  abbrev pub Tracked : Option AlertState → Database F → Type 0
  Tracked none db = (db.score_decisions ≡ []) × All IsClosed db.alerts
  Tracked (some s) db = Tracks s.active_alert_id db.alerts

  pub Tracked-open_ids :
      (o : Option AlertState) (db : Database F)
      → Tracked o db
      → open_ids db.alerts ≡ singleton (active_of o)
  Tracked-open_ids none db h = tracked-open_ids none db.alerts h.1
  Tracked-open_ids (some s) db h = tracked-open_ids s.active_alert_id db.alerts h

module _ (P : Platform) {B : Type 0} (decode : B → Option (ScoreDecisionV1 P.Float))
    (policy : LockedAlertPolicyV1 P.Float) (machine_id : String) (session : Uuid) where
  open P use {Float}

  abbrev pub Consistent : Database Float → Type 0
  Consistent db = Tracked (find_state session machine_id db.alert_runtime_states) db

  reads_empty :
      (draw : Draw) (db : Database Float) (ds : List (ScoreDecisionV1 Float))
      → ds ≡ []
      → reconstruct_alert_state P draw session machine_id (some policy) (decisions_of session ds) db
        ≡ ok (empty session machine_id, db)
  unfolding reconstruct_alert_state decisions_of
  reads_empty draw db [] e = refl
  reads_empty draw db (d ∷ ds) e = absurd (cc)

  -- what is loaded from a consistent store: the store as it is, and a state that its rows follow
  load-Tracks :
      (draw : Draw) (db db' : Database Float) (s : AlertState)
      → Consistent db
      → load_alert_state P draw session machine_id (some policy) db ≡ ok (s, db')
      → (db' ≡ db) × Tracks s.active_alert_id db.alerts
  unfolding load_alert_state
  load-Tracks draw db db' s c h =
      elim (Option-cases (find_state session machine_id db.alert_runtime_states)) [
        | inr (t, found) ↦
            let rows : Tracks t.active_alert_id db.alerts = subst (λ o. Tracked o db) found c in
            let same : t ≡ s = ground arith in
            (ground arith, subst (λ x. Tracks x.active_alert_id db.alerts) same rows)
        | inl absent ↦
            let (bare, closed) = subst (λ o. Tracked o db) absent c in
            let read : load_alert_state P draw session machine_id (some policy) db
                ≡ ok (empty session machine_id, db) =
              rw (load_alert_state, absent) (reads_empty draw db db.score_decisions bare) in
            let same : empty session machine_id ≡ s = ground arith in
            (ground arith, subst (λ x. Tracks x.active_alert_id db.alerts) same closed)
      ]

  transition-moves :
      (draw : Draw) (s : AlertState) (d : ScoreDecisionV1 Float) (r : TransitionResult Float)
      → transition P draw s d policy ≡ ok r
      → Lifecycle d.source_timestamp s (ok r)
  transition-moves draw s d r h =
      subst (Lifecycle d.source_timestamp s) h (transition-Lifecycle P draw policy s d)

  -- after a store, the row of the session's state is the new state
  stored-Consistent :
      (draw : Draw) (s : AlertState) (d : ScoreDecisionV1 Float) (r : TransitionResult Float)
      (db db' : Database Float)
      → IsStateOf session machine_id s
      → transition P draw s d policy ≡ ok r
      → record_decision_transition d r db ≡ ok db'
      → Tracks s.active_alert_id db.alerts
      → Consistent db'
  stored-Consistent draw s d r db db' key moved stored rows =
      let after = transition-remembers P draw policy s d r moved in
      let states = (record-alerts d r db db' stored).1 in
      let found : find_state session machine_id db'.alert_runtime_states ≡ some r.state =
        ap (find_state session machine_id) states
        ∙ ap (λ x. find_state x machine_id (upsert_state r.state db.alert_runtime_states))
            (sym (after.0 ∙ key.0))
        ∙ ap
            (λ x.
              find_state r.state.replay_session_id x (upsert_state r.state db.alert_runtime_states))
            (sym (after.1 ∙ key.1))
        ∙ find_state-upsert_state r.state db.alert_runtime_states in
      subst (λ o. Tracked o db') (sym found)
        (record-Tracks d s r db db' stored (transition-moves draw s d r moved) rows)

  pub commit_decision-Consistent :
      (fresh : Fresh) (d : ScoreDecisionV1 Float) (c : AlertConsumer Float B)
      → d.replay_session_id ≡ session
      → Consistent c.store
      → Consistent (commit_decision P decode policy machine_id fresh d c).0.store
  unfolding commit_decision
  commit_decision-Consistent fresh d c at k =
      elim (Result-cases
        (load_alert_state P fresh.draw d.replay_session_id machine_id (some policy) c.store)) [
          | inr (e, failed) ↦ rw (commit_decision, failed) k
          | inl ((s, loaded), read) ↦
              let here : load_alert_state P fresh.draw session machine_id (some policy) c.store
                  ≡ ok (s, loaded) =
                ap (λ x. load_alert_state P fresh.draw x machine_id (some policy) c.store) (sym at)
                ∙ read in
              let (same, rows) = load-Tracks fresh.draw c.store loaded s k here in
              elim (Result-cases (transition P fresh.draw s d policy)) [
                | inr (e, failed) ↦
                    rw (commit_decision, read, failed) (subst Consistent (sym same) k)
                | inl (r, moved) ↦ elim (Result-cases (record_decision_transition d r loaded)) [
                  | inr (e, failed) ↦
                      rw (commit_decision, read, moved, failed) (subst Consistent (sym same) k)
                  | inl (db, stored) ↦
                      rw (commit_decision, read, moved, stored)
                        (stored-Consistent fresh.draw s d r loaded db
                          (load_alert_state-IsStateOf P fresh.draw policy session machine_id c.store
                            loaded s here)
                          moved stored
                          (subst (λ x. Tracks s.active_alert_id x.alerts) (sym same) rows))
                ]
              ]
        ]
