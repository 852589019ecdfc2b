-- ===== src/Alert/State/Emit.antt =====
-- What the two message constructions of alert_state.py return, and when they return at all.
use industrial_reliability_p.Base.{
  ◌≤◌, ◌≡◌, true, false, List, [], ◌∷◌, All, refl, length, arith, ok, returns,
}
use industrial_reliability_p.Platform.{Uuid, Datetime, Platform}
use industrial_reliability_p.Messages.{
  AlertAction, EvidenceValueV1, ScoreDecisionV1, FeatureDeviationV1, AlertEventV1,
}
use industrial_reliability_p.Messages.Validate.{
  is_hex64, char_count, validate_deviation, validate_envelope, validate_alert_event,
  validate_evidence_snapshot,
}
use industrial_reliability_p.Alert.Model.{LockedAlertPolicyV1, AlertState, Draw}
use industrial_reliability_p.Alert.State.{
  build_deviations, build_evidence_snapshot, build_event, deviation_of,
}

-- The conditions of `FeatureDeviationV1`. `ScoreDecisionV1` checks neither the name of an evidence value nor
-- that the difference of its two numbers is finite.
pub record IsDeviation (P : Platform) (v : FeatureDeviationV1 P.Float) : Type 0 where
  pub named : 1 ≤ char_count v.feature_name
  pub nonnegative : P.is_nonneg v.absolute_deviation ≡ true
  pub observed : P.is_finite v.observed_value ≡ true
  pub baseline : P.is_finite v.baseline_value ≡ true
  pub absolute : P.is_finite v.absolute_deviation ≡ true

-- A decision that its model has accepted, and whose evidence values give deviations that theirs accepts.
pub record IsAccepted (P : Platform) (d : ScoreDecisionV1 P.Float) : Type 0 where
  pub dataset_hash : is_hex64 d.source_dataset_sha256 ≡ true
  pub contract_hash : is_hex64 d.contract_sha256 ≡ true
  pub naive : d.source_timestamp.aware ≡ false
  pub version : 1 ≤ char_count d.model_version
  pub deviations :
      All (λ (ev : EvidenceValueV1 P.Float). IsDeviation P (deviation_of P ev)) d.evidence_vector

module _ (P : Platform) where
  open P use {Float}

  build_deviations_total :
      (values : List (EvidenceValueV1 Float))
      → All (λ (ev : EvidenceValueV1 Float). IsDeviation P (deviation_of P ev)) values
      → (devs : List (FeatureDeviationV1 Float)) × (build_deviations P values ≡ ok devs)
  unfolding build_deviations validate_deviation
  build_deviations_total [] h = ([], refl)
  build_deviations_total (ev ∷ values) (first, later) =
      let (devs, built) = build_deviations_total values later in
      (
        deviation_of P ev ∷ devs,
        ground
            (arith, first.named, first.nonnegative, first.observed, first.baseline, first.absolute),
      )

  pub build_evidence_snapshot_total :
      (draw : Draw) (alert_id : Uuid) (d : ScoreDecisionV1 Float)
      → IsAccepted P d
      → returns (build_evidence_snapshot P draw alert_id d) ≡ true
  unfolding build_evidence_snapshot validate_evidence_snapshot validate_envelope
  build_evidence_snapshot_total draw alert_id d h =
      ground (arith, build_deviations_total d.evidence_vector h.deviations)

  -- the conditions under which `AlertEventV1` accepts an event for decision `d`
  pub build_event_total :
      (draw : Draw) (s : AlertState) (d : ScoreDecisionV1 Float)
      (policy : LockedAlertPolicyV1 Float) (action : AlertAction) (alert_id : Uuid)
      (first_det last_det : Datetime) (ids : List Uuid)
      → IsAccepted P d
      → is_hex64 policy.policy_sha256 ≡ true
      → 1 ≤ char_count s.machine_id
      → 1 ≤ length ids
      → first_det.aware ≡ false
      → last_det.aware ≡ false
      → first_det.tick ≤ last_det.tick
      → returns (build_event P draw s d policy action alert_id first_det last_det ids) ≡ true
  unfolding build_event validate_alert_event validate_envelope
  build_event_total draw s d policy action alert_id first_det last_det ids h hp hm hi hf hl le =
      ground (arith, h.dataset_hash, h.contract_hash, h.naive)

  -- an accepted event carries what it was built from
  pub build_event_fields :
      (draw : Draw) (s : AlertState) (d : ScoreDecisionV1 Float)
      (policy : LockedAlertPolicyV1 Float) (action : AlertAction) (alert_id : Uuid)
      (first_det last_det : Datetime) (ids : List Uuid) {e : AlertEventV1}
      → build_event P draw s d policy action alert_id first_det last_det ids ≡ ok e
      → (e.action ≡ action)
        × (e.alert_id ≡ alert_id)
        × (e.decision_ids ≡ ids)
        × (e.first_detection ≡ first_det)
        × (e.last_detection ≡ last_det)
        × (e.first_detection.tick ≤ e.last_detection.tick)
  unfolding build_event validate_alert_event
  build_event_fields draw s d policy action alert_id first_det last_det ids h = ground arith
