-- ===== src/Tests/Outbox.antt =====
-- The outbox of the lab at concrete inputs.
use industrial_reliability_p.Base.{
  ℕ, ◌≡◌, refl, Bool, true, false, not, none, List, [], ◌∷◌, map, all, All, ◌⊎◌, length, ◌==◌,
  arith,
}
use industrial_reliability_p.Lab.Tables.{LabOutboxRow}
use industrial_reliability_p.Lab.Outbox.{
  insert_row, unpublished, id_of_row, send_rows, PayloadJson, dispatch_batch, publish_pending_sync,
}
use industrial_reliability_p.Lab.Outbox.Drains.{
  IsAccounted, dispatch_batch-IsAccounted, dispatch_batch_drains,
}
use industrial_reliability_p.Lab.Outbox.Rows.{IsSent}
use industrial_reliability_p.Tests.Toy.{toy}

abbrev json : PayloadJson
json = record { dumps = λ text. text; asset_id = λ text. none }

abbrev row : ℕ → ℕ → Bool → LabOutboxRow
row i tick published = record {
  run_id = 7;
  message = record {
    message_id = i;
    sensor_id = 20;
    tick = tick;
    topic = "irp.lab.observations.v1";
    payload = "p";
  };
  published = published;
}

abbrev rows : List LabOutboxRow
rows = row 1 40 false ∷ row 2 20 true ∷ row 3 20 false ∷ []

-- the broker refuses the message 1
abbrev refuses : ℕ → Bool
refuses i = not (i == 1)

dispatch_batch-IsAccounted_example :
    IsAccounted toy json refuses rows
      (dispatch_batch toy json refuses true 100 rows).sent
      rows
      (dispatch_batch toy json refuses true 100 rows).rows
    × ((dispatch_batch toy json refuses true 100 rows).count
        ≡ length (dispatch_batch toy json refuses true 100 rows).sent)
dispatch_batch-IsAccounted_example = dispatch_batch-IsAccounted toy json refuses true 100 rows

-- the row of the earlier tick goes first, and the refused one stays
stops :
    map (λ (r : LabOutboxRow). r.published) (dispatch_batch toy json refuses true 100 rows).rows
    ≡ false ∷ true ∷ true ∷ []
unfolding dispatch_batch send_rows unpublished insert_row
stops = refl

room : length (unpublished rows) ≡ 2
unfolding unpublished insert_row
room = refl

abbrev always : ℕ → Bool
always i = true

dispatch_batch_drains_example :
    (all (λ r. r.published) (dispatch_batch toy json always true 100 rows).rows ≡ true)
    × All
        (λ r.
          (r.published ≡ true)
          ⊎ IsSent toy json rows (dispatch_batch toy json always true 100 rows).sent (id_of_row r))
        rows
dispatch_batch_drains_example =
    dispatch_batch_drains toy json always 100 rows (λ i. refl) (ground (arith, room))

-- without a producer all of them are marked
marks : (publish_pending_sync 100 rows).1 ≡ 2
unfolding publish_pending_sync unpublished insert_row
marks = refl
