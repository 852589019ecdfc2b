-- ===== src/Lab/Store.antt =====
-- `LabStore` of src/industrial_reliability/lab/store.py. Each method is one transaction: where it raises, the
-- database is as before. The digest of a definition and the hash of a request, SHA-256 of their JSON, are
-- parameters.
pub mod Commands
pub mod Revisions
pub mod Checkpoints
use industrial_reliability_p.Base.{
  ℕ, ◌+◌, ◌≡◌, String, Bool, true, false, ◌&&◌, ◌||◌, not, Option, none, some, List, [], ◌∷◌, ◌++◌,
  map, any, length, take, ltb, leb, ◌==◌, Dict, get, put, if◌then◌else◌, Result, ok, err,
  lab_revision_conflict_error, run_not_found_error, invalid_run_state_error,
  command_revision_conflict_error, command_identity_conflict_error, integrity_error, ◌>>=◌, ◌>>◌,
  require,
}
use text.Mathlib.Text.{◌==◌ as str_eq}
use industrial_reliability_p.Platform.{Uuid}
use industrial_reliability_p.Lab.Contracts.{LabDefinition}
use industrial_reliability_p.Lab.Tables.{
  is_final, accepted, EngineCheckpoint, CommandRequest, CommandReceipt, LabEvent, LabRow,
  RevisionRow, RunRow, CommandRow, OutboxMessage, LabOutboxRow, HistoryRow, LabDatabase,
}

-- the new revision: 1 for a first save, where 0 or 1 is expected, and otherwise the next one
unfoldable pub next_revision : Option LabRow → ℕ → Result ℕ
next_revision none expected =
    if expected == 0 || expected == 1 then ok 1 else err lab_revision_conflict_error
next_revision (some row) expected =
    if row.current_revision == expected
    then ok (row.current_revision + 1)
    else err lab_revision_conflict_error

-- the row of lab_commands by its primary key
unfoldable pub find_command : Uuid → Uuid → List CommandRow → Option CommandRow
find_command run_id command_id [] = none
find_command run_id command_id (row ∷ rows) =
    let rest = find_command run_id command_id rows in
    if row.run_id == run_id && row.receipt.command_id == command_id then some row else rest

-- the unique constraint of lab_commands on the run and the sequence
abbrev pub is_sequence_taken : Uuid → ℕ → List CommandRow → Bool
is_sequence_taken run_id sequence rows =
    any (λ row. row.run_id == run_id && row.receipt.accepted_sequence == sequence) rows

-- the insert of an event, whose keys are its id, and its run with its sequence
abbrev pub is_event_taken : Uuid → LabEvent → List LabEvent → Bool
is_event_taken run_id event rows =
    any
      (λ row.
        row.run_id == run_id && row.sequence == event.sequence || row.event_id == event.event_id)
      rows

unfoldable pub insert_events : Uuid → List LabEvent → List LabEvent → Result (List LabEvent)
insert_events run_id [] rows = ok rows
insert_events run_id (event ∷ events) rows = do
  require (not (is_event_taken run_id event rows)) integrity_error
  insert_events run_id events (rows ++ record event { run_id = run_id } ∷ [])

unfoldable pub insert_messages :
    Uuid → List OutboxMessage → List LabOutboxRow → Result (List LabOutboxRow)
insert_messages run_id [] rows = ok rows
insert_messages run_id (message ∷ messages) rows = do
  require (not (any (λ row. row.message.message_id == message.message_id) rows)) integrity_error
  insert_messages run_id messages
      (rows ++ record { run_id = run_id; message = message; published = false } ∷ [])

module _ {F : Type 0} where
  -- the row of lab_revisions by its primary key
  unfoldable pub find_revision : Uuid → ℕ → List (RevisionRow F) → Option (LabDefinition F)
  find_revision lab_id revision [] = none
  find_revision lab_id revision (row ∷ rows) =
      let rest = find_revision lab_id revision rows in
      if row.lab_id == lab_id && row.revision == revision then some row.definition else rest

  -- the insert into lab_revisions, whose primary key is the lab and the revision
  unfoldable pub insert_revision :
      RevisionRow F → List (RevisionRow F) → Result (List (RevisionRow F))
  insert_revision row rows = elim (find_revision row.lab_id row.revision rows) [
    | some definition ↦ err integrity_error
    | none ↦ ok (rows ++ row ∷ [])
  ]

  -- `save_lab`
  unfoldable pub save_lab :
      (LabDefinition F → String)
      → LabDefinition F
      → ℕ
      → LabDatabase F
      → Result (LabDatabase F × LabDefinition F)
  unfolding next_revision insert_revision
  save_lab digest_of definition expected_revision db = do
    let digest : String = digest_of definition
    new_rev ← next_revision (get definition.lab_id db.labs) expected_revision
    let rev_def : LabDefinition F = record definition { revision = new_rev }
    revisions ←
        insert_revision
          (record {
            lab_id = definition.lab_id;
            revision = new_rev;
            definition = rev_def;
            digest = digest;
          })
          db.revisions
    ok (
      record db {
        labs =
            put definition.lab_id (record { name = definition.name; current_revision = new_rev })
              db.labs;
        revisions = revisions;
      },
      rev_def,
    )

  -- `get_lab`, at the latest revision or at one
  unfoldable pub get_lab : Uuid → Option ℕ → LabDatabase F → Option (LabDefinition F)
  unfolding find_revision
  get_lab lab_id none db = elim (get lab_id db.labs) [
    | none ↦ none
    | some row ↦ find_revision lab_id row.current_revision db.revisions
  ]
  get_lab lab_id (some revision) db = find_revision lab_id revision db.revisions

  -- a command that is not known, on the row of its run
  unfoldable pub accept_command :
      String
      → Uuid
      → CommandRequest
      → RunRow F
      → LabDatabase F
      → Result (LabDatabase F × CommandReceipt)
  accept_command payload_hash run_id request run db = do
    require (not (is_final run.status)) invalid_run_state_error
    require (request.expected_control_revision == run.control_revision)
        command_revision_conflict_error
    let receipt : CommandReceipt = record {
      command_id = request.command_id;
      status = accepted;
      accepted_sequence = run.accepted_sequence + 1;
      effective_tick = none;
      control_revision = run.control_revision + 1;
      reason_code = none;
    }
    require (not (is_sequence_taken run_id (run.accepted_sequence + 1) db.commands)) integrity_error
    ok (
      record db {
        commands =
            db.commands
            ++ record {
              run_id = run_id;
              payload_hash = payload_hash;
              action = request.action;
              target_id = request.target_id;
              parameters = request.parameters;
              receipt = receipt;
            }
              ∷ [];
        runs =
            put run_id
              (record run {
                control_revision = run.control_revision + 1;
                accepted_sequence = run.accepted_sequence + 1;
              })
              db.runs;
      },
      receipt,
    )

  abbrev pub answer_command :
      String
      → Uuid
      → CommandRequest
      → LabDatabase F
      → Option CommandRow
      → Option (RunRow F)
      → Result (LabDatabase F × CommandReceipt)
  answer_command payload_hash run_id request db (some row) run =
      if str_eq row.payload_hash payload_hash
      then ok (db, row.receipt)
      else err command_identity_conflict_error
  answer_command payload_hash run_id request db none none = err run_not_found_error
  answer_command payload_hash run_id request db none (some run) =
      accept_command payload_hash run_id request run db

  -- `submit_command`
  unfoldable pub submit_command :
      (CommandRequest → String)
      → Uuid
      → CommandRequest
      → LabDatabase F
      → Result (LabDatabase F × CommandReceipt)
  unfolding accept_command find_command
  submit_command hash_of run_id request db =
      answer_command (hash_of request) run_id request db
        (find_command run_id request.command_id db.commands) (get run_id db.runs)

  -- the update of `checkpoint`, `WHERE run_id = ... AND fence = ... AND tick = ...`
  abbrev pub may_write : ℕ → ℕ → RunRow F → Bool
  may_write fence expected_tick run = run.fence == fence && run.tick == expected_tick

  unfoldable pub write_checkpoint :
      Uuid
      → EngineCheckpoint F
      → List LabEvent
      → List OutboxMessage
      → RunRow F
      → LabDatabase F
      → Result (LabDatabase F)
  unfolding insert_events insert_messages
  write_checkpoint run_id data_ events messages run db = do
    all_events ← insert_events run_id events db.events
    all_messages ← insert_messages run_id messages db.outbox
    ok (record db {
      runs =
          put run_id
            (record run {
              tick = data_.tick;
              checkpoint = data_;
              event_sequence = run.event_sequence + length events;
            })
            db.runs;
      events = all_events;
      outbox = all_messages;
    })

  abbrev pub checkpoint_row :
      Uuid
      → ℕ
      → ℕ
      → EngineCheckpoint F
      → List LabEvent
      → List OutboxMessage
      → LabDatabase F
      → Option (RunRow F)
      → Result (LabDatabase F × Bool)
  checkpoint_row run_id fence expected_tick data_ events messages db none = ok (db, false)
  checkpoint_row run_id fence expected_tick data_ events messages db (some run) =
      if may_write fence expected_tick run
      then (do db' ← write_checkpoint run_id data_ events messages run db; ok (db', true))
      else ok (db, false)

  -- `checkpoint`
  unfoldable pub checkpoint :
      Uuid
      → ℕ
      → ℕ
      → EngineCheckpoint F
      → List LabEvent
      → List OutboxMessage
      → LabDatabase F
      → Result (LabDatabase F × Bool)
  unfolding write_checkpoint
  checkpoint run_id fence expected_tick data_ events messages db =
      checkpoint_row run_id fence expected_tick data_ events messages db (get run_id db.runs)

  -- `append_history`, `ON CONFLICT (run_id, tick) DO NOTHING`
  unfoldable pub append_history : Uuid → ℕ → String → LabDatabase F → LabDatabase F
  append_history run_id tick frame db =
      if any (λ (row : HistoryRow). row.run_id == run_id && row.tick == tick) db.history
      then db
      else record db {
        history = db.history ++ record { run_id = run_id; tick = tick; frame = frame } ∷ [];
      }
