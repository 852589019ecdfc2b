-- ===== src/Alert/State/Invariant.antt =====
-- The invariant of `AlertState`, that `transition` keeps it, and that `transition` then raises only
-- its ordering error.
use industrial_reliability_p.Base.{
  ℕ, ◌≤◌, ◌+◌, ◌≡◌, true, false, Option, none, some, List, [], ◌∷◌, ◌++◌, length, length-append,
  arith, Result, ok, err, not, ◌||◌, inl, inr, Bool-cases, is_some, or_else, opt_eq, if◌then◌else◌,
  ordering_violation,
}
use industrial_reliability_p.Platform.{Uuid, Datetime, Platform}
use industrial_reliability_p.Messages.{ScoreDecisionV1, AlertAction, resolved}
use industrial_reliability_p.Messages.Validate.{is_hex64, char_count}
use industrial_reliability_p.Alert.Model.{LockedAlertPolicyV1, AlertState, TransitionResult, Draw}
use industrial_reliability_p.Alert.State.{
  out_of_order, emit_anomaly_result, resolve_alert, handle_anomaly_trigger, handle_anomaly_update,
  handle_normal, transition,
}
use industrial_reliability_p.Alert.State.Emit.{
  IsAccepted, build_event_total, build_evidence_snapshot_total,
}

-- The detections are both set or both unset; once set they are naive, in order, and not later than
-- the last decision seen.
abbrev pub Detections : Option Datetime → Option Datetime → Option Datetime → Type 0
Detections none none seen = Unit
Detections (some first) (some last) (some seen) =
    (first.aware ≡ false)
    × (last.aware ≡ false)
    × (first.tick ≤ last.tick)
    × (last.tick ≤ seen.tick)
Detections _ _ _ = ⊥

-- An active alert has a first detection and at least one decision.
abbrev pub ActiveAlert : Option Uuid → Option Datetime → List Uuid → Type 0
ActiveAlert none first ids = Unit
ActiveAlert (some alert) none ids = ⊥
ActiveAlert (some alert) (some first) ids = 1 ≤ length ids

pub record IsWellFormed (s : AlertState) : Type 0 where
  pub machine : 1 ≤ char_count s.machine_id
  pub detections : Detections s.first_detection s.last_detection s.last_source_timestamp
  pub active : ActiveAlert s.active_alert_id s.first_detection s.anomaly_decision_ids

-- A transition that returned, and left a well-formed state.
abbrev pub Keeps : {F : Type 0} → Result (TransitionResult F) → Type 0
Keeps (ok r) = IsWellFormed r.state
Keeps (err e) = ⊥

module _ (P : Platform) (draw : Draw) (policy : LockedAlertPolicyV1 P.Float) where
  open P use {Float}

  emit-Keeps :
      (s : AlertState) (d : ScoreDecisionV1 Float) (action : AlertAction) (alert_id : Uuid)
      (first_det : Datetime) (streak : ℕ) (ids : List Uuid)
      → IsAccepted P d
      → is_hex64 policy.policy_sha256 ≡ true
      → 1 ≤ char_count s.machine_id
      → 1 ≤ length ids
      → first_det.aware ≡ false
      → first_det.tick ≤ d.source_timestamp.tick
      → Keeps (emit_anomaly_result P draw s d policy action alert_id first_det streak ids)
  unfolding emit_anomaly_result
  emit-Keeps s d action alert_id first_det streak ids h hp hm hi hf le = ground (
    arith,
    build_event_total P draw s d policy action alert_id first_det d.source_timestamp ids,
    build_evidence_snapshot_total P draw alert_id d,
    h.naive,
  )

  -- the first detection that an update or a reopening reports
  first_detection_bounds :
      (s : AlertState) (d : ScoreDecisionV1 Float)
      → IsAccepted P d
      → IsWellFormed s
      → out_of_order P s d ≡ false
      → let first = or_else s.first_detection d.source_timestamp in
        (first.aware ≡ false) × (first.tick ≤ d.source_timestamp.tick)
  first_detection_bounds s d h w o = ground (arith, w.detections, h.naive)

  -- the last detection that a resolution reports
  last_detection_bounds :
      (s : AlertState) (d : ScoreDecisionV1 Float)
      → IsAccepted P d
      → IsWellFormed s
      → out_of_order P s d ≡ false
      → let first = or_else s.first_detection d.source_timestamp in
        let last = or_else s.last_detection d.source_timestamp in
        (last.aware ≡ false) × (first.tick ≤ last.tick) × (last.tick ≤ d.source_timestamp.tick)
  last_detection_bounds s d h w o = ground (arith, w.detections, h.naive)

  -- the detections stay in order when a later decision is seen
  later_Detections :
      (s : AlertState) (d : ScoreDecisionV1 Float)
      → IsWellFormed s
      → out_of_order P s d ≡ false
      → Detections s.first_detection s.last_detection (some d.source_timestamp)
  later_Detections s d w o = ground (arith, w.detections)

  handle_anomaly_trigger-Keeps :
      (s : AlertState) (d : ScoreDecisionV1 Float) (streak : ℕ) (ids : List Uuid)
      → IsAccepted P d
      → is_hex64 policy.policy_sha256 ≡ true
      → IsWellFormed s
      → out_of_order P s d ≡ false
      → 1 ≤ length ids
      → Keeps (handle_anomaly_trigger P draw s d policy streak ids)
  unfolding handle_anomaly_trigger
  handle_anomaly_trigger-Keeps s d streak ids h hp w o hi = grind (
    arith,
    emit-Keeps,
    first_detection_bounds s d h w o,
    later_Detections s d w o,
    h.naive,
    w.machine,
  )

  handle_anomaly_update-Keeps :
      (s : AlertState) (d : ScoreDecisionV1 Float) (streak : ℕ) (ids : List Uuid)
      → IsAccepted P d
      → is_hex64 policy.policy_sha256 ≡ true
      → IsWellFormed s
      → out_of_order P s d ≡ false
      → is_some s.active_alert_id ≡ true
      → 1 ≤ length ids
      → Keeps (handle_anomaly_update P draw s d policy streak ids)
  unfolding handle_anomaly_update
  handle_anomaly_update-Keeps s d streak ids h hp w o ha hi =
      grind (arith, emit-Keeps, first_detection_bounds s d h w o, w.machine)

  resolve_alert-Keeps :
      (s : AlertState) (d : ScoreDecisionV1 Float) (alert_id : Uuid) (streak : ℕ)
      → IsAccepted P d
      → is_hex64 policy.policy_sha256 ≡ true
      → IsWellFormed s
      → out_of_order P s d ≡ false
      → 1 ≤ length s.anomaly_decision_ids
      → Keeps (resolve_alert P draw s d policy alert_id streak)
  unfolding resolve_alert
  resolve_alert-Keeps s d alert_id streak h hp w o hi = ground (
    arith,
    first_detection_bounds s d h w o,
    last_detection_bounds s d h w o,
    w.machine,
    build_event_total P draw s d policy resolved alert_id
        (or_else s.first_detection d.source_timestamp) (or_else s.last_detection d.source_timestamp)
        s.anomaly_decision_ids,
  )

  handle_normal-Keeps :
      (s : AlertState) (d : ScoreDecisionV1 Float)
      → IsAccepted P d
      → is_hex64 policy.policy_sha256 ≡ true
      → IsWellFormed s
      → out_of_order P s d ≡ false
      → Keeps (handle_normal P draw s d policy)
  unfolding handle_normal
  handle_normal-Keeps s d h hp w o =
      grind (arith, resolve_alert-Keeps, later_Detections s d w o, w.machine, w.active)

  -- the part of `transition` behind its two guards
  pub in_order_Keeps :
      (s : AlertState) (d : ScoreDecisionV1 Float)
      → IsAccepted P d
      → is_hex64 policy.policy_sha256 ≡ true
      → IsWellFormed s
      → out_of_order P s d ≡ false
      → Keeps (transition P draw s d policy)
  unfolding transition
  in_order_Keeps s d h hp w o =
      let ids : List Uuid = s.anomaly_decision_ids ++ d.decision_id ∷ [] in
      let n : ℕ = s.anomaly_streak + 1 in
      let grown : 1 ≤ length ids =
        omega (arith, length-append s.anomaly_decision_ids (d.decision_id ∷ [])) in
      ground (
        arith,
        handle_anomaly_update-Keeps s d n ids h hp w o,
        handle_anomaly_trigger-Keeps s d n ids h hp w o,
        handle_normal-Keeps s d h hp w o,
      )

  -- From a well-formed state, on a policy with a well-formed hash and a decision that its model accepted and
  -- each of whose evidence values has a name and gives, as `FeatureDeviationV1` asks, finite numbers and an
  -- absolute deviation that is not negative: if the decision repeats the last one or is later than it, then `transition` returns and
  -- leaves a well-formed state; otherwise it raises `OrderingViolationError`, and nothing else.
  pub transition_total :
      (s : AlertState) (d : ScoreDecisionV1 Float)
      → IsAccepted P d
      → is_hex64 policy.policy_sha256 ≡ true
      → IsWellFormed s
      → if opt_eq (some d.decision_id) s.last_decision_id || not (out_of_order P s d)
        then Keeps (transition P draw s d policy)
        else transition P draw s d policy ≡ err ordering_violation
  transition_total s d h hp w = elim (Bool-cases (out_of_order P s d)) [
    | inl late ↦ rw late (unfold transition in ground arith)
    | inr fine ↦ let k = in_order_Keeps s d h hp w fine in ground arith
  ]
