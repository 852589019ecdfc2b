-- ===== src/Alert/Store/Redelivery.antt =====
-- A decision that is delivered again after it was stored changes nothing.
use industrial_reliability_p.Base.{
  ◌≡◌, refl, sym, ap, subst, ◌∙◌, String, Bool, true, Option, none, some, List, [], ◌∷◌, ◌++◌, any,
  ◌==◌, arith, ok, Result-cases, Option-cases, Bool-cases, inl, inr,
}
use text.Mathlib.Text.{◌==◌ as str_eq}
use text.Mathlib.TextEquality.{eq_iff}
use industrial_reliability_p.Platform.{Uuid, Platform}
use industrial_reliability_p.Messages.{ScoreDecisionV1, AlertEventV1, EvidenceSnapshotV1}
use industrial_reliability_p.Alert.Model.{
  LockedAlertPolicyV1, AlertState, empty, TransitionResult, Draw,
}
use industrial_reliability_p.Alert.State.{
  emit_anomaly_result, resolve_alert, handle_anomaly_trigger, handle_anomaly_update, handle_normal,
  transition,
}
use industrial_reliability_p.Alert.Tables.{Database, upsert_state, find_state, has_session}
use industrial_reliability_p.Alert.Store.{
  ensure_session_exists, insert_decision, insert_alert_event, insert_evidence, insert_outbox,
  has_decision, insert_event, record_decision_transition, decisions_of, replay_decisions,
  reconstruct_alert_state, load_alert_state,
}

str_eq_refl : (s : String) → str_eq s s ≡ true
str_eq_refl s = (eq_iff s s).1 refl

-- the state of a session and a machine
abbrev pub IsStateOf : Uuid → String → AlertState → Type 0
IsStateOf session machine_id s = (s.replay_session_id ≡ session) × (s.machine_id ≡ machine_id)

upsert_state-twice :
    (s : AlertState) (states : List AlertState)
    → upsert_state s (upsert_state s states) ≡ upsert_state s states
unfolding upsert_state
upsert_state-twice s [] = let e = str_eq_refl s.machine_id in ground arith
upsert_state-twice s (t ∷ states) =
    let e = str_eq_refl s.machine_id in ground (arith, upsert_state-twice s states)

pub find_state-upsert_state :
    (s : AlertState) (states : List AlertState)
    → find_state s.replay_session_id s.machine_id (upsert_state s states) ≡ some s
unfolding find_state upsert_state
find_state-upsert_state s [] = let e = str_eq_refl s.machine_id in ground arith
find_state-upsert_state s (t ∷ states) =
    let e = str_eq_refl s.machine_id in ground (arith, find_state-upsert_state s states)

find_state-IsStateOf :
    (session : Uuid) (machine_id : String) (states : List AlertState) (s : AlertState)
    → find_state session machine_id states ≡ some s
    → IsStateOf session machine_id s
unfolding find_state
find_state-IsStateOf session machine_id [] s h = absurd (cc)
find_state-IsStateOf session machine_id (t ∷ states) s h =
    ground
      (arith, find_state-IsStateOf session machine_id states s, (eq_iff t.machine_id machine_id).0)

any-append-here :
    {A : Type 0} (p : A → Bool) (xs : List A) (x : A) → p x ≡ true → any p (xs ++ x ∷ []) ≡ true
any-append-here p [] x h = ground arith
any-append-here p (y ∷ xs) x h = ground (arith, any-append-here p xs x h)

module _ {F : Type 0} where
  -- the tables that step 3 leaves alone
  abbrev Same : Database F → Database F → Type 0
  Same db db' =
      (db'.replay_sessions ≡ db.replay_sessions) × (db'.score_decisions ≡ db.score_decisions)

  insert_event-Same :
      (d : ScoreDecisionV1 F) (evidence : Option (EvidenceSnapshotV1 F))
      (event : Option AlertEventV1) (db db' : Database F)
      → insert_event d evidence event db ≡ ok db'
      → Same db db'
  unfolding insert_event insert_alert_event insert_evidence insert_outbox
  insert_event-Same d evidence none db db' h = ground arith
  insert_event-Same d none (some event) db db' h = ground arith
  insert_event-Same d (some snapshot) (some event) db db' h = ground arith

  ensure_session_exists-stored :
      (d : ScoreDecisionV1 F) (db : Database F)
      → has_session d.replay_session_id (ensure_session_exists d db).replay_sessions ≡ true
  unfolding ensure_session_exists
  ensure_session_exists-stored d db =
      elim (Bool-cases (has_session d.replay_session_id db.replay_sessions)) [
        | inl known ↦ rw (ensure_session_exists, known) known
        | inr new ↦
            rw (ensure_session_exists, new)
              (any-append-here (λ row. row.replay_session_id == d.replay_session_id)
                db.replay_sessions _ (ground arith))
      ]

  insert_decision-stored :
      (d : ScoreDecisionV1 F) (db db' : Database F)
      → insert_decision d db ≡ ok db'
      → (db'.replay_sessions ≡ db.replay_sessions)
        × (has_decision d.decision_id db'.score_decisions ≡ true)
  unfolding insert_decision
  insert_decision-stored d db db' h =
      let added =
        any-append-here (λ e. e.decision_id == d.decision_id) db.score_decisions d (ground arith) in
      grind arith

  pub record-stored :
      (d : ScoreDecisionV1 F) (r : TransitionResult F) (db db' : Database F)
      → record_decision_transition d r db ≡ ok db'
      → (has_session d.replay_session_id db'.replay_sessions ≡ true)
        × (has_decision d.decision_id db'.score_decisions ≡ true)
        × ((states : List AlertState) × (db'.alert_runtime_states ≡ upsert_state r.state states))
  unfolding record_decision_transition
  record-stored d r db db' h =
      elim (Result-cases (insert_decision d (ensure_session_exists d db))) [
        | inr (e, failed) ↦ absurd (ground arith)
        | inl (noted, inserted) ↦ elim (Result-cases (insert_event d r.evidence r.event noted)) [
          | inr (e, failed) ↦ absurd (ground arith)
          | inl (done, emitted) ↦
              let known = ensure_session_exists-stored d db in
              let stored = insert_decision-stored d (ensure_session_exists d db) noted inserted in
              let same = insert_event-Same d r.evidence r.event noted done emitted in
              let sessions : db'.replay_sessions ≡ done.replay_sessions = ground arith in
              let decisions : db'.score_decisions ≡ done.score_decisions = ground arith in
              (
                subst (λ xs. has_session d.replay_session_id xs ≡ true)
                    (sym (sessions ∙ same.0 ∙ stored.0)) known,
                subst (λ xs. has_decision d.decision_id xs ≡ true) (sym (decisions ∙ same.1))
                    stored.1,
                (done.alert_runtime_states, ground arith),
              )
        ]
      ]

  -- storing an event-free result with the stored state leaves the database as it is
  pub record-again :
      (d : ScoreDecisionV1 F) (s : AlertState) (db : Database F) (states : List AlertState)
      → has_session d.replay_session_id db.replay_sessions ≡ true
      → has_decision d.decision_id db.score_decisions ≡ true
      → db.alert_runtime_states ≡ upsert_state s states
      → record_decision_transition d (record { state = s; event = none; evidence = none }) db
        ≡ ok db
  unfolding record_decision_transition ensure_session_exists insert_decision insert_event
  record-again d s db states known stored runtime =
      let same : upsert_state s db.alert_runtime_states ≡ db.alert_runtime_states =
        ap (upsert_state s) runtime ∙ upsert_state-twice s states ∙ sym runtime in
      rw (record_decision_transition, ensure_session_exists, known, insert_decision, stored)
        (ap (λ xs. ok (record db { alert_runtime_states = xs })) same)

module _ (P : Platform) where
  open P use {Float}

  pub transition-remembers :
      (draw : Draw) (policy : LockedAlertPolicyV1 Float) (s : AlertState)
      (d : ScoreDecisionV1 Float) (r : TransitionResult Float)
      → transition P draw s d policy ≡ ok r
      → (r.state.replay_session_id ≡ s.replay_session_id)
        × (r.state.machine_id ≡ s.machine_id)
        × (r.state.last_decision_id ≡ some d.decision_id)
  unfolding transition handle_normal resolve_alert handle_anomaly_trigger handle_anomaly_update
      emit_anomaly_result
  transition-remembers draw policy s d r h = ground arith

  replay_decisions-IsStateOf :
      (draw : Draw) (policy : LockedAlertPolicyV1 Float) (ds : List (ScoreDecisionV1 Float))
      (s s' : AlertState)
      → replay_decisions P draw policy s ds ≡ ok s'
      → IsStateOf s.replay_session_id s.machine_id s'
  unfolding replay_decisions
  replay_decisions-IsStateOf draw policy [] s s' h = ground arith
  replay_decisions-IsStateOf draw policy (d ∷ ds) s s' h =
      elim (Result-cases (transition P draw s d policy)) [
        | inr (e, failed) ↦ absurd (ground arith)
        | inl (r, moved) ↦
            let ih = replay_decisions-IsStateOf draw policy ds r.state s' (ground arith) in
            let key = transition-remembers draw policy s d r moved in (ih.0 ∙ key.0, ih.1 ∙ key.1)
      ]

  reconstruct_alert_state-IsStateOf :
      (draw : Draw) (policy : LockedAlertPolicyV1 Float) (session : Uuid) (machine_id : String)
      (ds : List (ScoreDecisionV1 Float)) (db db' : Database Float) (s : AlertState)
      → reconstruct_alert_state P draw session machine_id (some policy) ds db ≡ ok (s, db')
      → IsStateOf session machine_id s
  unfolding reconstruct_alert_state
  reconstruct_alert_state-IsStateOf draw policy session machine_id [] db db' s h = ground arith
  reconstruct_alert_state-IsStateOf draw policy session machine_id (d ∷ ds) db db' s h =
      elim (Result-cases (replay_decisions P draw policy (empty session machine_id) (d ∷ ds))) [
        | inr (x, failed) ↦ absurd (ground arith)
        | inl (t, made) ↦
            let key =
              replay_decisions-IsStateOf draw policy (d ∷ ds) (empty session machine_id) t made in
            ground arith
      ]

  pub load_alert_state-IsStateOf :
      (draw : Draw) (policy : LockedAlertPolicyV1 Float) (session : Uuid) (machine_id : String)
      (db db' : Database Float) (s : AlertState)
      → load_alert_state P draw session machine_id (some policy) db ≡ ok (s, db')
      → IsStateOf session machine_id s
  unfolding load_alert_state
  load_alert_state-IsStateOf draw policy session machine_id db db' s h =
      elim (Option-cases (find_state session machine_id db.alert_runtime_states)) [
        | inr (t, found) ↦
            let key = find_state-IsStateOf session machine_id db.alert_runtime_states t found in
            ground arith
        | inl absent ↦
            reconstruct_alert_state-IsStateOf draw policy session machine_id
              (decisions_of session db.score_decisions) db db' s (ground arith)
      ]

  -- the state that was stored is the state that is loaded
  pub load-stored :
      (draw : Draw) (policy : LockedAlertPolicyV1 Float) (session : Uuid) (machine_id : String)
      (db : Database Float) (s : AlertState) (states : List AlertState)
      → IsStateOf session machine_id s
      → db.alert_runtime_states ≡ upsert_state s states
      → load_alert_state P draw session machine_id (some policy) db ≡ ok (s, db)
  unfolding load_alert_state
  load-stored draw policy session machine_id db s states key runtime =
      let found : find_state session machine_id db.alert_runtime_states ≡ some s =
        ap (find_state session machine_id) runtime
        ∙ ap (λ x. find_state x machine_id (upsert_state s states)) (sym key.0)
        ∙ ap (λ x. find_state s.replay_session_id x (upsert_state s states)) (sym key.1)
        ∙ find_state-upsert_state s states in
      rw (load_alert_state, found) refl

  -- a decision that the state has seen last leaves it as it is
  pub transition-again :
      (draw : Draw) (policy : LockedAlertPolicyV1 Float) (s : AlertState)
      (d : ScoreDecisionV1 Float)
      → s.last_decision_id ≡ some d.decision_id
      → transition P draw s d policy ≡ ok (record { state = s; event = none; evidence = none })
  unfolding transition
  transition-again draw policy s d h = ground arith
