-- ===== src/Alert/Consumer.antt =====
-- `AlertConsumer` and the outbox dispatcher of src/industrial_reliability/alert_consumer.py, and the batch loop
-- of alert_service.py. Kafka is the list of what was sent; the codec `decode` is a parameter, and metrics are
-- left out.
pub mod Redelivered
pub mod Commit
pub mod OpenAlerts
pub mod Outbox
pub mod Batch
use industrial_reliability_p.Base.{
  ℕ, ◌+◌, String, Bool, true, false, ◌&&◌, not, Option, none, some, List, [], ◌∷◌, ◌++◌, any, ◌==◌,
  if◌then◌else◌, Result, ok, err, runtime_error, ◌>>=◌,
}
use text.Mathlib.Text.{◌==◌ as str_eq}
use industrial_reliability_p.Platform.{Uuid, Datetime, Platform}
use industrial_reliability_p.Messages.{failed, ReplayStatusV1, ScoreDecisionV1, AlertEventV1}
use industrial_reliability_p.Messages.Validate.{validate_status}
use industrial_reliability_p.Alert.Model.{LockedAlertPolicyV1, Draw}
use industrial_reliability_p.Alert.State.{transition}
use industrial_reliability_p.Alert.Tables.{
  OutboxRow, Database, next_unpublished_outbox, mark_outbox_published,
}
use industrial_reliability_p.Alert.Store.{
  record_replay_status, record_decision_transition, load_alert_state,
}

pub data ProcessOutcome : Type 0 where
  committed session_failed quarantined skipped : ProcessOutcome

-- what one call draws from outside
pub record Fresh : Type 0 where
  pub status_message_id : Uuid
  pub now : ℕ
  pub draw : Draw

pub record AlertConsumer (F : Type 0) (B : Type 0) : Type 0 where
  pub failed_sessions : List Uuid
  pub store : Database F
  pub has_producer : Bool
  pub sent_statuses : List ReplayStatusV1
  pub sent_quarantine : List B

-- a record of the topic: its partition, its offset and its value
pub record Record (B : Type 0) : Type 0 where
  pub partition : ℕ
  pub offset : ℕ
  pub value : B

-- how a batch ends: the loop goes on, it halts at a failed session, or `process` raised
pub data BatchEnd : Type 0 where
  finished halted raised : BatchEnd

abbrev pub is_session_failed : ProcessOutcome → Bool
is_session_failed session_failed = true
is_session_failed _ = false

module _ (P : Platform) {B : Type 0} (decode : B → Option (ScoreDecisionV1 P.Float))
    (policy : LockedAlertPolicyV1 P.Float) (machine_id : String) where
  open P use {Float}

  -- `_assert_identity`
  unfoldable pub matches_identity : ScoreDecisionV1 Float → Bool
  matches_identity decision =
      str_eq decision.source_dataset_sha256 policy.source_dataset_sha256
      && str_eq decision.contract_sha256 policy.contract_sha256
      && str_eq decision.model_version policy.model_version

  abbrev pub failed_status : Fresh → Uuid → Datetime → String → ReplayStatusV1
  failed_status fresh session source_ts error_code = record {
    message_id = fresh.status_message_id;
    replay_session_id = session;
    source_dataset_sha256 = policy.source_dataset_sha256;
    contract_sha256 = policy.contract_sha256;
    source_timestamp = source_ts;
    emitted_at = record { tick = fresh.now; aware = true };
    state = failed;
    last_sequence = some 0;
    error_code = some error_code;
  }

  -- `_fail_session`, which remembers the session first
  unfoldable pub fail_session :
      Fresh
      → Uuid
      → Datetime
      → String
      → AlertConsumer Float B
      → AlertConsumer Float B × Result ProcessOutcome
  fail_session fresh session source_ts error_code c =
      let status : ReplayStatusV1 = failed_status fresh session source_ts error_code in
      let marked : AlertConsumer Float B = record c {
        failed_sessions = session ∷ c.failed_sessions;
      } in
      elim (validate_status status) [
        | err e ↦ (marked, err e)
        | ok checked ↦ (
          record marked {
            store = record_replay_status status c.store;
            sent_statuses =
                if c.has_producer then c.sent_statuses ++ status ∷ [] else c.sent_statuses;
          },
          ok session_failed,
        )
      ]

  -- the calls of the store around a transition; the two calls of the store are two transactions
  unfoldable pub commit_decision :
      Fresh
      → ScoreDecisionV1 Float
      → AlertConsumer Float B
      → AlertConsumer Float B × Result ProcessOutcome
  commit_decision fresh decision c =
      elim (load_alert_state P fresh.draw decision.replay_session_id machine_id (some policy)
        c.store) [
          | err e ↦ (c, err e)
          | ok (state, loaded) ↦
              let c' : AlertConsumer Float B = record c { store = loaded } in
              elim (transition P fresh.draw state decision policy) [
                | err e ↦ (c', err e)
                | ok result ↦ elim (record_decision_transition decision result loaded) [
                  | err e ↦ (c', err e)
                  | ok db ↦ (record c { store = db }, ok committed)
                ]
              ]
        ]

  unfoldable pub process_decision :
      Fresh
      → ScoreDecisionV1 Float
      → AlertConsumer Float B
      → AlertConsumer Float B × Result ProcessOutcome
  unfolding matches_identity fail_session commit_decision
  process_decision fresh decision c =
      if any (λ s. s == decision.replay_session_id) c.failed_sessions
      then (c, ok skipped)
      else if not (matches_identity decision)
      then fail_session fresh decision.replay_session_id decision.source_timestamp
          "CONTRACT_MISMATCH" c
      else commit_decision fresh decision c

  unfoldable pub process :
      Fresh → B → AlertConsumer Float B → AlertConsumer Float B × Result ProcessOutcome
  unfolding process_decision
  process fresh raw c = elim (decode raw) [
    | none ↦
        if c.has_producer
        then (record c { sent_quarantine = c.sent_quarantine ++ raw ∷ [] }, ok quarantined)
        else (c, err runtime_error)
    | some decision ↦ process_decision fresh decision c
  ]

  -- the records one after the other, whatever becomes of each
  abbrev pub process_all : List (Fresh × B) → AlertConsumer Float B → AlertConsumer Float B
  process_all [] c = c
  process_all ((fresh, raw) ∷ rest) c = process_all rest (process fresh raw c).0

  -- `_process_consumer_batch`: the consumer, the offsets that were committed, and how the batch ended
  unfoldable pub process_batch :
      List (Fresh × Record B)
      → AlertConsumer Float B
      → AlertConsumer Float B × List (ℕ × ℕ) × BatchEnd
  process_batch [] c = (c, [], finished)
  process_batch ((fresh, r) ∷ batch) c =
      let (c', result) = process fresh r.value c in
      let (after, offsets, end) = process_batch batch c' in
      elim result [
        | err e ↦ (c', [], raised)
        | ok outcome ↦
            if is_session_failed outcome
            then (c', [], halted)
            else (after, (r.partition, r.offset + 1) ∷ offsets, end)
      ]

-- `dispatch_one` with a send that succeeds: the rows, and what was sent
unfoldable pub dispatch_one : List OutboxRow → Bool × List OutboxRow × List AlertEventV1
dispatch_one rows = elim (next_unpublished_outbox rows) [
  | none ↦ (false, rows, [])
  | some row ↦ (true, mark_outbox_published row.message_id rows, row.payload ∷ [])
]
