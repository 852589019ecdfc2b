-- ===== src/Alert/State/Lifecycle.antt =====
-- The order in which the events of an alert may occur.
use industrial_reliability_p.Base.{
  ℕ, ◌+◌, ◌≡◌, none, some, List, [], ◌∷◌, ◌++◌, arith, Result, Result-cases, ok, err, refl, inl,
  inr, Bool-cases, Option-cases, ltb, or_else,
}
use industrial_reliability_p.Platform.{Uuid, Datetime, Platform}
use industrial_reliability_p.Messages.{
  AlertAction, opened, updated, resolved, reopened, ScoreDecisionV1, AlertEventV1,
}
use industrial_reliability_p.Alert.Model.{LockedAlertPolicyV1, AlertState, TransitionResult, Draw}
use industrial_reliability_p.Alert.State.{
  emit_anomaly_result, reopened_alert, resolve_alert, handle_anomaly_trigger, handle_anomaly_update,
  handle_normal, transition, build_event,
}
use industrial_reliability_p.Alert.State.Emit.{build_event_fields}

-- What an event of an alert, on a decision with a source time, says of the alerts that are active before and
-- after it.
abbrev pub Allowed : AlertAction → Uuid → Datetime → AlertState → AlertState → Type 0
Allowed opened alert at s s' =
    (s.active_alert_id ≡ none) × (s'.active_alert_id ≡ some alert) × (s'.resolved_at ≡ none)
Allowed reopened alert at s s' =
    (s.active_alert_id ≡ none)
    × (s.previous_alert_id ≡ some alert)
    × (s'.active_alert_id ≡ some alert)
Allowed updated alert at s s' = (s.active_alert_id ≡ some alert) × (s'.active_alert_id ≡ some alert)
Allowed resolved alert at s s' =
    (s.active_alert_id ≡ some alert)
    × (s'.active_alert_id ≡ none)
    × (s'.previous_alert_id ≡ some alert)
    × (s'.resolved_at ≡ some at)
    × (s'.last_source_timestamp ≡ some at)

-- Without an event the active alert stays; with one, it moves as its action allows.
abbrev pub Lifecycle : {F : Type 0} → Datetime → AlertState → Result (TransitionResult F) → Type 0
Lifecycle at s (err e) = Unit
Lifecycle at s (ok r) = elim r.event [
  | none ↦ (r.state.active_alert_id ≡ s.active_alert_id) × (r.evidence ≡ none)
  | some e ↦ Allowed e.action e.alert_id at s r.state
]

module _ (P : Platform) (draw : Draw) (policy : LockedAlertPolicyV1 P.Float) where
  open P use {Float}

  -- what an emission returns, if it returns
  emit_fields :
      (s : AlertState) (d : ScoreDecisionV1 Float) (action : AlertAction) (alert_id : Uuid)
      (first_det : Datetime) (streak : ℕ) (ids : List Uuid) (r : TransitionResult Float)
      → emit_anomaly_result P draw s d policy action alert_id first_det streak ids ≡ ok r
      → (e : AlertEventV1) × (r.event ≡ some e)
        × (e.action ≡ action)
        × (e.alert_id ≡ alert_id)
        × (r.state.active_alert_id ≡ some alert_id)
        × (r.state.resolved_at ≡ none)
  unfolding emit_anomaly_result
  emit_fields s d action alert_id first_det streak ids r h =
      elim (Result-cases
        (build_event P draw s d policy action alert_id first_det d.source_timestamp ids)) [
          | inl (e, built) ↦
              let f =
                build_event_fields P draw s d policy action alert_id first_det d.source_timestamp
                  ids built in
              (e, ground arith, f.0, f.1, ground arith, ground arith)
          | inr (x, failed) ↦ absurd (ground arith)
        ]

  emit-Lifecycle :
      (s : AlertState) (d : ScoreDecisionV1 Float) (action : AlertAction) (alert_id : Uuid)
      (first_det : Datetime) (streak : ℕ) (ids : List Uuid)
      → ((t : AlertState)
          → t.active_alert_id ≡ some alert_id
          → t.resolved_at ≡ none
          → Allowed action alert_id d.source_timestamp s t)
      → Lifecycle d.source_timestamp s
          (emit_anomaly_result P draw s d policy action alert_id first_det streak ids)
  emit-Lifecycle s d action alert_id first_det streak ids h =
      go (emit_anomaly_result P draw s d policy action alert_id first_det streak ids)
        (emit_fields s d action alert_id first_det streak ids)
    where
      go :
          (m : Result (TransitionResult Float))
          → ((r : TransitionResult Float)
              → m ≡ ok r
              → (e : AlertEventV1) × (r.event ≡ some e)
                × (e.action ≡ action)
                × (e.alert_id ≡ alert_id)
                × (r.state.active_alert_id ≡ some alert_id)
                × (r.state.resolved_at ≡ none))
          → Lifecycle d.source_timestamp s m
      go (err x) k = tt
      go (ok r) k =
          let (e, event, act, alert, active, fresh) = k r refl in
          rw (event, act, alert) (h r.state active fresh)

  reopened_alert-eq-previous :
      (s : AlertState) (d : ScoreDecisionV1 Float) (previous : Uuid)
      → reopened_alert P s d policy ≡ some previous
      → s.previous_alert_id ≡ some previous
  unfolding reopened_alert
  reopened_alert-eq-previous s d previous h = ground arith

  trigger-Lifecycle :
      (s : AlertState) (d : ScoreDecisionV1 Float) (streak : ℕ) (ids : List Uuid)
      → s.active_alert_id ≡ none
      → Lifecycle d.source_timestamp s (handle_anomaly_trigger P draw s d policy streak ids)
  unfolding handle_anomaly_trigger
  trigger-Lifecycle s d streak ids inactive =
      elim (Bool-cases (ltb streak policy.persistence_decisions)) [
        | inl waiting ↦ rw waiting (ground arith)
        | inr due ↦ elim (Option-cases (reopened_alert P s d policy)) [
          | inl fresh ↦
              rw (due, fresh)
                (emit-Lifecycle s d opened _ _ streak ids
                  (λ t active clear. (inactive, active, clear)))
          | inr (previous, again) ↦
              rw (due, again)
                (emit-Lifecycle s d reopened previous _ streak ids (λ t active clear.
                  (inactive, reopened_alert-eq-previous s d previous again, active)))
        ]
      ]

  update-Lifecycle :
      (s : AlertState) (d : ScoreDecisionV1 Float) (streak : ℕ) (ids : List Uuid)
      → Lifecycle d.source_timestamp s (handle_anomaly_update P draw s d policy streak ids)
  unfolding handle_anomaly_update
  update-Lifecycle s d streak ids = elim (Option-cases s.active_alert_id) [
    | inl inactive ↦ rw inactive tt
    | inr (alert, active) ↦ ground (
      arith,
      emit-Lifecycle s d updated alert (or_else s.first_detection d.source_timestamp) streak ids
          (λ t after clear. (active, after)),
    )
  ]

  normal-Lifecycle :
      (s : AlertState) (d : ScoreDecisionV1 Float)
      → Lifecycle d.source_timestamp s (handle_normal P draw s d policy)
  unfolding handle_normal resolve_alert
  normal-Lifecycle s d = grind (arith, build_event_fields)

  -- Whatever the state, the decision and the policy: a transition that returns without an event leaves
  -- the active alert and gives no evidence; OPENED and REOPENED come only while no alert is active and make
  -- theirs active, REOPENED the one resolved before; UPDATED and RESOLVED name the active alert, and
  -- RESOLVED clears it, remembers it as the previous one, and notes the source time of the decision as the time
  -- of the resolution and of the last decision.
  pub transition-Lifecycle :
      (s : AlertState) (d : ScoreDecisionV1 Float)
      → Lifecycle d.source_timestamp s (transition P draw s d policy)
  unfolding transition
  transition-Lifecycle s d =
      let ids : List Uuid = s.anomaly_decision_ids ++ d.decision_id ∷ [] in
      let n : ℕ = s.anomaly_streak + 1 in
      ground (arith, trigger-Lifecycle s d n ids, update-Lifecycle s d n ids, normal-Lifecycle s d)
