-- ===== src/Alert/Store/OpenAlerts.antt =====
-- The OPEN rows of `alerts` follow the active alert of the state machine.
use industrial_reliability_p.Base.{
  ◌≡◌, refl, sym, ap, subst, ◌∙◌, Bool, true, false, not, Option, none, some, List, [], ◌∷◌, ◌==◌,
  arith, All, if◌then◌else◌, ok, Result-cases, Bool-cases, inl, inr,
}
use industrial_reliability_p.Platform.{Uuid, Datetime}
use industrial_reliability_p.Messages.{
  AlertAction, opened, updated, resolved, reopened, ScoreDecisionV1, AlertEventV1,
  EvidenceSnapshotV1,
}
use industrial_reliability_p.Alert.Model.{AlertState, TransitionResult}
use industrial_reliability_p.Alert.State.Lifecycle.{Allowed, Lifecycle}
use industrial_reliability_p.Alert.Tables.{
  AlertRow, Database, alert_row_of, is_resolved, upsert_alert, upsert_state,
}
use industrial_reliability_p.Alert.Store.{
  ensure_session_exists, insert_decision, insert_alert_event, insert_evidence, insert_outbox,
  insert_event, record_decision_transition,
}

abbrev pub IsClosed : AlertRow → Type 0
IsClosed row = row.is_open ≡ false

-- Without an active alert every row is closed; otherwise the first row of the active alert is open, and
-- every other row is closed.
abbrev pub Tracks : Option Uuid → List AlertRow → Type 0
Tracks none rows = All IsClosed rows
Tracks (some alert) [] = ⊥
Tracks (some alert) (row ∷ rows) =
    if row.alert_id == alert
    then (row.is_open ≡ true) × All IsClosed rows
    else IsClosed row × Tracks (some alert) rows

-- the identifiers of the OPEN rows
abbrev pub open_ids : List AlertRow → List Uuid
open_ids [] = []
open_ids (row ∷ rows) =
    let rest = open_ids rows in if row.is_open then row.alert_id ∷ rest else rest

abbrev pub singleton : Option Uuid → List Uuid
singleton none = []
singleton (some alert) = alert ∷ []

-- the branch of a conditional type
then_branch : (A B : Type 0) (b : Bool) → b ≡ true → (if b then A else B) → A
then_branch A B false e h = absurd (cc)
then_branch A B true e h = h

else_branch : (A B : Type 0) (b : Bool) → b ≡ false → (if b then A else B) → B
else_branch A B false e h = h
else_branch A B true e h = absurd (cc)

closed-open_ids : (rows : List AlertRow) → All IsClosed rows → open_ids rows ≡ []
closed-open_ids [] h = refl
closed-open_ids (row ∷ rows) h = ground (arith, closed-open_ids rows h.1)

pub tracked-open_ids :
    (active : Option Uuid) (rows : List AlertRow)
    → Tracks active rows
    → open_ids rows ≡ singleton active
tracked-open_ids none rows h = closed-open_ids rows h
tracked-open_ids (some alert) [] h = absurd h
tracked-open_ids (some alert) (row ∷ rows) h = elim (Bool-cases (row.alert_id == alert)) [
  | inl here ↦
      let (o, closed) = then_branch _ _ (row.alert_id == alert) here h in
      let none_open = closed-open_ids rows closed in ground arith
  | inr there ↦
      let (c, rest) = else_branch _ _ (row.alert_id == alert) there h in
      let ih = tracked-open_ids (some alert) rows rest in ground arith
]

open-Tracks :
    (new : AlertRow) (rows : List AlertRow)
    → new.is_open ≡ true
    → All IsClosed rows
    → Tracks (some new.alert_id) (upsert_alert new rows)
unfolding upsert_alert
open-Tracks new [] o h = ground arith
open-Tracks new (row ∷ rows) o h = ground (arith, open-Tracks new rows o)

update-Tracks :
    (new : AlertRow) (rows : List AlertRow)
    → new.is_open ≡ true
    → Tracks (some new.alert_id) rows
    → Tracks (some new.alert_id) (upsert_alert new rows)
unfolding upsert_alert
update-Tracks new [] o h = absurd h
update-Tracks new (row ∷ rows) o h = ground (arith, update-Tracks new rows o)

close-Tracks :
    (new : AlertRow) (rows : List AlertRow)
    → new.is_open ≡ false
    → Tracks (some new.alert_id) rows
    → All IsClosed (upsert_alert new rows)
unfolding upsert_alert
close-Tracks new [] o h = absurd h
close-Tracks new (row ∷ rows) o h = elim (Bool-cases (row.alert_id == new.alert_id)) [
  | inl here ↦
      let (was_open, closed) = then_branch _ _ (row.alert_id == new.alert_id) here h in
      rw (upsert_alert, here) (o, closed)
  | inr there ↦
      let (c, rest) = else_branch _ _ (row.alert_id == new.alert_id) there h in
      rw (upsert_alert, there) (c, close-Tracks new rows o rest)
]

-- the row of an event that the state machine allows
Allowed-Tracks :
    (e : AlertEventV1) (action : AlertAction) (decision_id : Uuid) (ts : Datetime)
    (s s' : AlertState) (rows : List AlertRow)
    → e.action ≡ action
    → Allowed action e.alert_id ts s s'
    → Tracks s.active_alert_id rows
    → Tracks s'.active_alert_id (upsert_alert (alert_row_of e decision_id ts) rows)
Allowed-Tracks e opened decision_id ts s s' rows at (before, after, clear) h =
    subst (λ a. Tracks a (upsert_alert (alert_row_of e decision_id ts) rows)) (sym after)
      (open-Tracks (alert_row_of e decision_id ts) rows (ap (λ a. not (is_resolved a)) at)
        (subst (λ a. Tracks a rows) before h))
Allowed-Tracks e reopened decision_id ts s s' rows at (before, previous, after) h =
    subst (λ a. Tracks a (upsert_alert (alert_row_of e decision_id ts) rows)) (sym after)
      (open-Tracks (alert_row_of e decision_id ts) rows (ap (λ a. not (is_resolved a)) at)
        (subst (λ a. Tracks a rows) before h))
Allowed-Tracks e updated decision_id ts s s' rows at (before, after) h =
    subst (λ a. Tracks a (upsert_alert (alert_row_of e decision_id ts) rows)) (sym after)
      (update-Tracks (alert_row_of e decision_id ts) rows (ap (λ a. not (is_resolved a)) at)
        (subst (λ a. Tracks a rows) before h))
Allowed-Tracks e resolved decision_id ts s s' rows at (before, after, previous, noted, seen) h =
    subst (λ a. Tracks a (upsert_alert (alert_row_of e decision_id ts) rows)) (sym after)
      (close-Tracks (alert_row_of e decision_id ts) rows (ap (λ a. not (is_resolved a)) at)
        (subst (λ a. Tracks a rows) before h))

module _ {F : Type 0} where
  abbrev alerts_after : ScoreDecisionV1 F → Option AlertEventV1 → List AlertRow → List AlertRow
  alerts_after d none rows = rows
  alerts_after d (some event) rows =
      upsert_alert (alert_row_of event d.decision_id d.source_timestamp) rows

  insert_event-alerts :
      (d : ScoreDecisionV1 F) (evidence : Option (EvidenceSnapshotV1 F))
      (event : Option AlertEventV1) (db db' : Database F)
      → insert_event d evidence event db ≡ ok db'
      → (db'.alerts ≡ alerts_after d event db.alerts)
        × (db'.alert_runtime_states ≡ db.alert_runtime_states)
  unfolding insert_event insert_alert_event insert_evidence insert_outbox
  insert_event-alerts d evidence none db db' h = ground arith
  insert_event-alerts d none (some event) db db' h = ground arith
  insert_event-alerts d (some snapshot) (some event) db db' h = ground arith

  insert_decision-alerts :
      (d : ScoreDecisionV1 F) (db db' : Database F)
      → insert_decision d (ensure_session_exists d db) ≡ ok db'
      → (db'.alerts ≡ db.alerts) × (db'.alert_runtime_states ≡ db.alert_runtime_states)
  unfolding insert_decision ensure_session_exists
  insert_decision-alerts d db db' h = ground arith

  pub record-alerts :
      (d : ScoreDecisionV1 F) (r : TransitionResult F) (db db' : Database F)
      → record_decision_transition d r db ≡ ok db'
      → (db'.alerts ≡ alerts_after d r.event db.alerts)
        × (db'.alert_runtime_states ≡ upsert_state r.state db.alert_runtime_states)
  unfolding record_decision_transition
  record-alerts d r db db' h =
      elim (Result-cases (insert_decision d (ensure_session_exists d db))) [
        | inr (e, failed) ↦ absurd (ground arith)
        | inl (noted, inserted) ↦ elim (Result-cases (insert_event d r.evidence r.event noted)) [
          | inr (e, failed) ↦ absurd (ground arith)
          | inl (done, emitted) ↦
              let first = insert_decision-alerts d db noted inserted in
              let second = insert_event-alerts d r.evidence r.event noted done emitted in
              let rows : db'.alerts ≡ done.alerts = ground arith in
              let states : db'.alert_runtime_states
                  ≡ upsert_state r.state done.alert_runtime_states =
                ground arith in
              (
                rows ∙ second.0 ∙ ap (alerts_after d r.event) first.0,
                states ∙ ap (upsert_state r.state) (second.1 ∙ first.1),
              )
        ]
      ]

  -- storing a transition keeps the rows in step with the state
  pub record-Tracks :
      (d : ScoreDecisionV1 F) (s : AlertState) (r : TransitionResult F) (db db' : Database F)
      → record_decision_transition d r db ≡ ok db'
      → Lifecycle d.source_timestamp s (ok r)
      → Tracks s.active_alert_id db.alerts
      → Tracks r.state.active_alert_id db'.alerts
  record-Tracks d s r db db' h life tracks =
      subst (Tracks r.state.active_alert_id) (sym (record-alerts d r db db' h).0)
        (go r.event refl life)
    where
      go :
          (event : Option AlertEventV1)
          → r.event ≡ event
          → elim event as (λ x. Type 0) [
            | none ↦ (r.state.active_alert_id ≡ s.active_alert_id) × (r.evidence ≡ none)
            | some e ↦ Allowed e.action e.alert_id d.source_timestamp s r.state
          ]
          → Tracks r.state.active_alert_id (alerts_after d event db.alerts)
      go none at (same, bare) = subst (λ a. Tracks a db.alerts) (sym same) tracks
      go (some e) at allowed =
          Allowed-Tracks e e.action d.decision_id d.source_timestamp s r.state db.alerts refl
            allowed tracks
