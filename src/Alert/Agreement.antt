-- ===== src/Alert/Agreement.antt =====
-- The simulation of alert_policy.py counts what the state machine of alert_state.py does.
use industrial_reliability_p.Base.{
  subst, String, ℕ, ◌+◌, ◌≤◌, ◌≡◌, refl, Bool, true, false, Option, none, some, List, [], ◌∷◌, ◌++◌,
  arith, Result, ok, err, is_some, opt_eq, if◌then◌else◌, leb,
}
use industrial_reliability_p.Platform.{Uuid, Datetime, Platform}
use industrial_reliability_p.Messages.{AlertAction, opened, ScoreDecisionV1, AlertEventV1}
use industrial_reliability_p.Messages.Validate.{is_hex64, char_count}
use industrial_reliability_p.Alert.Model.{
  LockedAlertPolicyV1, AlertState, TransitionResult, Draw, empty,
}
use industrial_reliability_p.Alert.State.{
  emit_anomaly_result, resolve_alert, reopened_alert, handle_anomaly_trigger, handle_anomaly_update,
  handle_normal, transition,
}
use industrial_reliability_p.Alert.State.Emit.{IsAccepted, build_event_fields}
use industrial_reliability_p.Alert.State.Invariant.{IsWellFormed, Keeps, in_order_Keeps}
use industrial_reliability_p.Alert.Policy.{
  ScoreRow, Simulation, idle, simulate_row, simulate_rows, simulate_alert_stream,
}

abbrev pub is_opened : AlertAction → Bool
is_opened opened = true
is_opened _ = false

-- 1 for a transition that opens an alert, 0 for any other
abbrev pub opened_events : Option AlertEventV1 → ℕ
opened_events none = 0
opened_events (some e) = if is_opened e.action then 1 else 0

-- While no alert is active, the last resolution is the state's, and the alert it resolved is known.
abbrev pub Resolution : Option Uuid → Option Uuid → Option Datetime → Option Datetime → Type 0
Resolution (some active) previous resolved_at last = Unit
Resolution none none none last = last ≡ none
Resolution none (some previous) (some t) last = last ≡ some t
Resolution none _ _ last = ⊥

pub record Agrees (s : AlertState) (sim : Simulation) : Type 0 where
  pub active : sim.is_active ≡ is_some s.active_alert_id
  pub anomalies : sim.anomaly_streak ≡ s.anomaly_streak
  pub normals : sim.normal_streak ≡ s.normal_streak
  pub resolution :
      Resolution s.active_alert_id s.previous_alert_id s.resolved_at sim.last_resolution

-- a transition that returned agrees with the simulation's next variables
abbrev pub Follows : {F : Type 0} → Result (TransitionResult F) → Simulation → Simulation → Type 0
Follows (ok r) sim sim' =
    Agrees r.state sim'
    × (sim'.episodes ≡ sim.episodes + opened_events r.event)
    × (sim'.alert_window_count
        ≡ sim.alert_window_count + (if is_some r.state.active_alert_id then 1 else 0))
Follows (err e) sim sim' = Unit

pub Keeps-eq-ok :
    {F : Type 0} (m : Result (TransitionResult F))
    → Keeps m
    → (r : TransitionResult F) × (m ≡ ok r) × IsWellFormed r.state
Keeps-eq-ok (ok r) h = (r, refl, h)
Keeps-eq-ok (err e) h = absurd h

module _ (P : Platform) (policy : LockedAlertPolicyV1 P.Float) where
  open P use {Float}

  -- the row of the calibration frame that a decision makes
  abbrev pub row_of : ScoreDecisionV1 Float → ScoreRow
  row_of d = record {
    split = "calibration";
    window_start = d.source_timestamp;
    window_end = d.source_timestamp;
    is_anomaly = d.is_anomaly;
  }

  abbrev next_row : Simulation → ScoreDecisionV1 Float → Simulation
  next_row sim d =
      simulate_row policy.persistence_decisions policy.cooldown_decisions policy.merge_gap_seconds
        sim (row_of d)

  -- what an emission leaves, if it returns
  emit_fields :
      (draw : Draw) (s : AlertState) (d : ScoreDecisionV1 Float) (action : AlertAction)
      (alert_id : Uuid) (first_det : Datetime) (streak : ℕ) (ids : List Uuid)
      (r : TransitionResult Float)
      → emit_anomaly_result P draw s d policy action alert_id first_det streak ids ≡ ok r
      → (r.state.active_alert_id ≡ some alert_id)
        × (r.state.anomaly_streak ≡ streak)
        × (r.state.normal_streak ≡ 0)
        × (opened_events r.event ≡ (if is_opened action then 1 else 0))
  unfolding emit_anomaly_result
  emit_fields draw s d action alert_id first_det streak ids r h = grind (arith, build_event_fields)

  trigger-Follows :
      (draw : Draw) (s : AlertState) (sim : Simulation) (d : ScoreDecisionV1 Float)
      → Agrees s sim
      → s.active_alert_id ≡ none
      → d.is_anomaly ≡ true
      → Follows
          (handle_anomaly_trigger P draw s d policy
            (s.anomaly_streak + 1)
            (s.anomaly_decision_ids ++ d.decision_id ∷ []))
          sim
          (next_row sim d)
  unfolding handle_anomaly_trigger reopened_alert simulate_row
  trigger-Follows draw s sim d a inactive anomaly =
      grind (arith, emit_fields, a.active, a.anomalies, a.normals, a.resolution)

  update-Follows :
      (draw : Draw) (s : AlertState) (sim : Simulation) (d : ScoreDecisionV1 Float)
      → Agrees s sim
      → is_some s.active_alert_id ≡ true
      → d.is_anomaly ≡ true
      → Follows
          (handle_anomaly_update P draw s d policy
            (s.anomaly_streak + 1)
            (s.anomaly_decision_ids ++ d.decision_id ∷ []))
          sim
          (next_row sim d)
  unfolding handle_anomaly_update simulate_row
  update-Follows draw s sim d a active anomaly =
      grind (arith, emit_fields, a.active, a.anomalies, a.normals)

  normal-Follows :
      (draw : Draw) (s : AlertState) (sim : Simulation) (d : ScoreDecisionV1 Float)
      → Agrees s sim
      → d.is_anomaly ≡ false
      → Follows (handle_normal P draw s d policy) sim (next_row sim d)
  unfolding handle_normal resolve_alert simulate_row
  normal-Follows draw s sim d a normal =
      grind (arith, build_event_fields, a.active, a.anomalies, a.normals, a.resolution)

  transition-Follows :
      (draw : Draw) (s : AlertState) (sim : Simulation) (d : ScoreDecisionV1 Float)
      → Agrees s sim
      → opt_eq (some d.decision_id) s.last_decision_id ≡ false
      → Follows (transition P draw s d policy) sim (next_row sim d)
  unfolding transition
  transition-Follows draw s sim d a fresh = ground (
    arith,
    trigger-Follows draw s sim d a,
    update-Follows draw s sim d a,
    normal-Follows draw s sim d a,
  )

  -- a transition that returns remembers its decision
  abbrev Remembers : Result (TransitionResult Float) → ScoreDecisionV1 Float → Type 0
  Remembers (ok r) d =
      (r.state.last_decision_id ≡ some d.decision_id)
      × (r.state.last_source_timestamp ≡ some d.source_timestamp)
  Remembers (err e) d = Unit

  transition-Remembers :
      (draw : Draw) (s : AlertState) (d : ScoreDecisionV1 Float)
      → opt_eq (some d.decision_id) s.last_decision_id ≡ false
      → Remembers (transition P draw s d policy) d
  unfolding transition handle_anomaly_trigger handle_anomaly_update handle_normal resolve_alert
      emit_anomaly_result
  transition-Remembers draw s d fresh = ground arith

  -- Decisions that `IsAccepted` describes, each with what its transition draws, in strictly
  -- increasing order of source time, none of them the repetition of the one before.
  abbrev pub Admissible :
      Option Uuid → Option Datetime → List (Draw × ScoreDecisionV1 Float) → Type 0
  Admissible last seen [] = Unit
  Admissible last seen ((draw, d) ∷ rest) =
      IsAccepted P d
      × (opt_eq (some d.decision_id) last ≡ false)
      × (elim seen [ none ↦ false | some t ↦ leb d.source_timestamp.tick t.tick ] ≡ false)
      × Admissible (some d.decision_id) (some d.source_timestamp) rest

  -- the state machine run over the decisions, counting the OPENED events and the decisions after which
  -- an alert is active
  unfoldable pub run_alerts :
      AlertState → ℕ × ℕ → List (Draw × ScoreDecisionV1 Float) → Result (ℕ × ℕ)
  run_alerts s counts [] = ok counts
  run_alerts s counts ((draw, d) ∷ rest) = elim (transition P draw s d policy) [
    | err e ↦ err e
    | ok r ↦
        run_alerts r.state
          (
            counts.0 + opened_events r.event,
            counts.1 + (if is_some r.state.active_alert_id then 1 else 0),
          )
          rest
  ]

  abbrev pub rows_of : List (Draw × ScoreDecisionV1 Float) → List ScoreRow
  rows_of [] = []
  rows_of ((draw, d) ∷ rest) = row_of d ∷ rows_of rest

  run_alerts-simulate :
      (xs : List (Draw × ScoreDecisionV1 Float)) (s : AlertState) (sim : Simulation)
      → is_hex64 policy.policy_sha256 ≡ true
      → IsWellFormed s
      → Agrees s sim
      → Admissible s.last_decision_id s.last_source_timestamp xs
      → let last =
          simulate_rows policy.persistence_decisions policy.cooldown_decisions
            policy.merge_gap_seconds sim
            (rows_of xs) in
        run_alerts s (sim.episodes, sim.alert_window_count) xs
        ≡ ok (last.episodes, last.alert_window_count)
  unfolding run_alerts simulate_rows
  run_alerts-simulate [] s sim hp w a adm = refl
  run_alerts-simulate ((draw, d) ∷ rest) s sim hp w a adm =
      let sim' : Simulation = next_row sim d in
      let (r, e, kept) =
        Keeps-eq-ok (transition P draw s d policy)
          (in_order_Keeps P draw policy s d adm.0 hp w adm.2) in
      let f : Follows (ok r) sim sim' =
        subst (λ t. Follows t sim sim') e (transition-Follows draw s sim d a adm.1) in
      let m : Remembers (ok r) d =
        subst (λ t. Remembers t d) e (transition-Remembers draw s d adm.1) in
      rw (e, run_alerts, ← f.1, ← f.2)
        (run_alerts-simulate rest r.state sim' hp kept f.0 (rw (m.0, m.1) adm.3))

  -- For every machine with a name, every policy with a well-formed hash and every sequence of decisions, in
  -- strictly increasing order of source time, none with the id of the one before, each accepted by its model
  -- and with evidence values that have a name and give finite numbers and an absolute deviation that is not
  -- negative, the state machine of alert_state.py, started empty, raises on none of them, and the number
  -- of OPENED events and of decisions after which an alert is active are the two counts that the
  -- simulation of alert_policy.py returns for the rows of those decisions.
  pub simulation_counts_alerts :
      (session : Uuid) (machine_id : String) (xs : List (Draw × ScoreDecisionV1 Float))
      → is_hex64 policy.policy_sha256 ≡ true
      → 1 ≤ char_count machine_id
      → Admissible none none xs
      → run_alerts (empty session machine_id) (0, 0) xs
        ≡ ok (
            simulate_alert_stream policy.persistence_decisions policy.cooldown_decisions
              policy.merge_gap_seconds
              (rows_of xs))
  unfolding simulate_alert_stream
  simulation_counts_alerts session machine_id xs hp hm adm =
      run_alerts-simulate xs (empty session machine_id) idle hp
        (record { machine = hm; detections = tt; active = tt })
        (record { active = refl; anomalies = refl; normals = refl; resolution = refl }) adm
