-- ===== src/Lab/Outbox.antt =====
-- `LabOutboxPublisher` of src/industrial_reliability/lab/outbox.py on the rows of lab_outbox. JSON and the answers
-- of the broker are parameters.
pub mod Rows
pub mod Drains
use industrial_reliability_p.Base.{
  ℕ, ◌+◌, String, Bool, true, false, ◌&&◌, ◌||◌, Option, none, some, List, [], ◌∷◌, map, length,
  take, any, ltb, ◌==◌, if◌then◌else◌,
}
use Prim.Native.String.{◌++◌ as ◌<>◌}
use industrial_reliability_p.Platform.{Uuid, Platform}
use industrial_reliability_p.Lab.Tables.{OutboxMessage, LabOutboxRow}

-- the calls of json on the payload of a row
pub record PayloadJson : Type 0 where
  pub dumps : String → String
  pub asset_id : String → Option String

-- what is given to the broker
pub record Sent : Type 0 where
  pub topic : String
  pub key : String
  pub value : String

-- `ORDER BY run_id, tick, sensor_id`
abbrev pub comes_first : LabOutboxRow → LabOutboxRow → Bool
comes_first a b =
    ltb a.run_id b.run_id
    || (a.run_id == b.run_id
        && (ltb a.message.tick b.message.tick
            || (a.message.tick == b.message.tick && ltb a.message.sensor_id b.message.sensor_id)))

unfoldable pub insert_row : LabOutboxRow → List LabOutboxRow → List LabOutboxRow
insert_row row [] = row ∷ []
insert_row row (other ∷ rows) =
    let later = insert_row row rows in
    if comes_first row other then row ∷ other ∷ rows else other ∷ later

-- `WHERE published_at IS NULL`, in order
unfoldable pub unpublished : List LabOutboxRow → List LabOutboxRow
unfolding insert_row
unpublished [] = []
unpublished (row ∷ rows) =
    let rest = unpublished rows in if row.published then rest else insert_row row rest

-- the query, with its limit
abbrev pub pending_rows : ℕ → List LabOutboxRow → List LabOutboxRow
pending_rows limit rows = take limit (unpublished rows)

abbrev pub id_of_row : LabOutboxRow → Uuid
id_of_row row = row.message.message_id

-- `UPDATE lab_outbox SET published_at = now() WHERE message_id = ANY(...)`
abbrev pub mark_row : List Uuid → LabOutboxRow → LabOutboxRow
mark_row published_ids row =
    if any (λ i. i == id_of_row row) published_ids then record row { published = true } else row

abbrev pub mark_published : List Uuid → List LabOutboxRow → List LabOutboxRow
mark_published published_ids rows = map (mark_row published_ids) rows

-- `publish_pending_sync`
unfoldable pub publish_pending_sync : ℕ → List LabOutboxRow → List LabOutboxRow × ℕ
unfolding unpublished
publish_pending_sync limit rows =
    let published_ids = map id_of_row (pending_rows limit rows) in
    (mark_published published_ids rows, length published_ids)

-- the rows that the loop sends, up to the first send that fails; the broker answers a message by its id
unfoldable pub send_rows : (Uuid → Bool) → List LabOutboxRow → List LabOutboxRow
send_rows accepts [] = []
send_rows accepts (row ∷ rows) =
    let rest = send_rows accepts rows in if accepts (id_of_row row) then row ∷ rest else []

-- a batch: the table behind, what the broker has accepted, and the count that is returned
pub record Batch : Type 0 where
  pub rows : List LabOutboxRow
  pub sent : List Sent
  pub count : ℕ

module _ (P : Platform) (J : PayloadJson) where
  open P use {uuid_str}
  open J use {dumps, asset_id}

  -- `payload_dict.get("asset_id", r["sensor_id"])`
  abbrev pub asset_or : Option String → Uuid → String
  asset_or none sensor_id = uuid_str sensor_id
  asset_or (some asset) sensor_id = asset

  -- the record that is sent for a row
  abbrev pub record_of : LabOutboxRow → Sent
  record_of row = record {
    topic = row.message.topic;
    key =
        uuid_str row.run_id
        <> ":"
        <> asset_or (asset_id row.message.payload) row.message.sensor_id
        <> ":"
        <> uuid_str row.message.sensor_id;
    value = dumps row.message.payload;
  }

  -- `dispatch_batch`; `running` is that the producer was started and not stopped
  unfoldable pub dispatch_batch : (Uuid → Bool) → Bool → ℕ → List LabOutboxRow → Batch
  unfolding send_rows unpublished
  dispatch_batch accepts false limit rows = record { rows = rows; sent = []; count = 0 }
  dispatch_batch accepts true limit rows =
      let done = send_rows accepts (pending_rows limit rows) in
      record {
        rows = mark_published (map id_of_row done) rows;
        sent = map record_of done;
        count = length done;
      }
