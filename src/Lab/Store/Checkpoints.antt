-- ===== src/Lab/Store/Checkpoints.antt =====
-- A tick of a run is written once.
use industrial_reliability_p.Base.{
  ℕ, ◌+◌, ◌≡◌, sym, ap, ◌∙◌, true, false, Option, none, some, List, length, ◌==◌, get, put, get-put,
  arith, Bool-cases, Result-cases, inl, inr, ok,
}
use industrial_reliability_p.Platform.{Uuid}
use industrial_reliability_p.Lab.Tables.{
  EngineCheckpoint, LabEvent, OutboxMessage, RunRow, LabDatabase,
}
use industrial_reliability_p.Lab.Store.{
  insert_events, insert_messages, may_write, write_checkpoint, checkpoint_row, checkpoint,
}

module _ {F : Type 0} where
  -- the run behind a checkpoint
  write_checkpoint-run :
      (run_id : Uuid) (data_ : EngineCheckpoint F) (events : List LabEvent)
      (messages : List OutboxMessage) (run : RunRow F) (db after : LabDatabase F)
      → write_checkpoint run_id data_ events messages run db ≡ ok after
      → get run_id after.runs
        ≡ some (record run {
          tick = data_.tick;
          checkpoint = data_;
          event_sequence = run.event_sequence + length events;
        })
  unfolding write_checkpoint
  write_checkpoint-run run_id data_ events messages run db after h =
      let next : RunRow F = record run {
        tick = data_.tick;
        checkpoint = data_;
        event_sequence = run.event_sequence + length events;
      } in
      elim (Result-cases (insert_events run_id events db.events)) [
        | inr (e, refused) ↦ absurd (ground arith)
        | inl (all_events, first) ↦
            elim (Result-cases (insert_messages run_id messages db.outbox)) [
              | inr (e, refused) ↦ absurd (ground arith)
              | inl (all_messages, second) ↦
                  let same : put run_id next db.runs ≡ after.runs = ground arith in
                  ap (get run_id) (sym same) ∙ get-put run_id next db.runs
            ]
      ]

  refused_run :
      (run_id : Uuid) (fence expected : ℕ) (data_ : EngineCheckpoint F) (events : List LabEvent)
      (messages : List OutboxMessage) (db : LabDatabase F) (run : RunRow F)
      → (run.tick == expected) ≡ false
      → checkpoint_row run_id fence expected data_ events messages db (some run) ≡ ok (db, false)
  refused_run run_id fence expected data_ events messages db run h = ground arith

  -- Where a checkpoint that moves the run from a tick to another one has been written, every checkpoint that
  -- expects the same tick of the run, whatever its fence and its data, is refused and changes nothing.
  pub checkpoint_once :
      (run_id : Uuid) (fence fence' expected : ℕ) (data_ data' : EngineCheckpoint F)
      (events events' : List LabEvent) (messages messages' : List OutboxMessage)
      (db after : LabDatabase F)
      → checkpoint run_id fence expected data_ events messages db ≡ ok (after, true)
      → (data_.tick == expected) ≡ false
      → checkpoint run_id fence' expected data' events' messages' after ≡ ok (after, false)
  unfolding checkpoint
  checkpoint_once run_id fence fence' expected data_ data' events events' messages messages' db
        after h moved =
      go (get run_id db.runs) h
    where
      go :
          (found : Option (RunRow F))
          → checkpoint_row run_id fence expected data_ events messages db found ≡ ok (after, true)
          → checkpoint run_id fence' expected data' events' messages' after ≡ ok (after, false)
      go none k = absurd (ground arith)
      go (some run) k = elim (Bool-cases (may_write fence expected run)) [
        | inr stale ↦ absurd (ground arith)
        | inl current ↦ elim (Result-cases (write_checkpoint run_id data_ events messages run db)) [
          | inr (e, refused) ↦ absurd (ground arith)
          | inl (written, done) ↦
              let same : written ≡ after = ground arith in
              let found =
                write_checkpoint-run run_id data_ events messages run db after
                  (done ∙ ap ok same) in
              ap (checkpoint_row run_id fence' expected data' events' messages' after) found
              ∙ refused_run run_id fence' expected data' events' messages' after
                  (record run {
                    tick = data_.tick;
                    checkpoint = data_;
                    event_sequence = run.event_sequence + length events;
                  })
                  moved
        ]
      ]
