-- ===== src/Replay/Store.antt =====
-- The table `replay_checkpoints` of src/industrial_reliability/persistence.py: one row for each session, which
-- an upsert replaces and an update changes. `updated_at` only orders rows and is left out.
use industrial_reliability_p.Base.{
  ℕ, ◌≡◌, refl, Bool, true, false, Option, none, some, List, [], ◌∷◌, ◌==◌, arith, is_some,
  if◌then◌else◌, Result, ok, err, lookup_error,
}
use industrial_reliability_p.Platform.{Uuid, Datetime}
use industrial_reliability_p.Messages.{ReplayState, running, paused, ReplayCommandV1}

pub record ReplayCheckpoint : Type 0 where
  pub replay_session_id : Uuid
  pub command : ReplayCommandV1
  pub state : ReplayState
  pub last_sequence : ℕ
  pub source_timestamp : Option Datetime

-- `INSERT ... ON CONFLICT (replay_session_id) DO UPDATE`
unfoldable pub upsert : ReplayCheckpoint → List ReplayCheckpoint → List ReplayCheckpoint
upsert c [] = c ∷ []
upsert c (r ∷ rows) =
    if r.replay_session_id == c.replay_session_id then c ∷ rows else r ∷ upsert c rows

unfoldable pub record_replay_checkpoint :
    ReplayCommandV1
    → ReplayState
    → ℕ
    → Option Datetime
    → List ReplayCheckpoint
    → List ReplayCheckpoint
record_replay_checkpoint command state last_sequence source_timestamp = upsert (record {
  replay_session_id = command.replay_session_id;
  command = command;
  state = state;
  last_sequence = last_sequence;
  source_timestamp = source_timestamp;
})

unfoldable pub load_replay_checkpoint : Uuid → List ReplayCheckpoint → Option ReplayCheckpoint
load_replay_checkpoint session [] = none
load_replay_checkpoint session (r ∷ rows) =
    if r.replay_session_id == session then some r else load_replay_checkpoint session rows

-- `UPDATE replay_checkpoints SET state WHERE replay_session_id`
unfoldable pub set_state : Uuid → ReplayState → List ReplayCheckpoint → List ReplayCheckpoint
set_state session state [] = []
set_state session state (r ∷ rows) =
    if r.replay_session_id == session
    then record r { state = state } ∷ rows
    else r ∷ set_state session state rows

-- it raises `LookupError` where no row was updated
unfoldable pub update_replay_checkpoint_state :
    Uuid → ReplayState → List ReplayCheckpoint → Result (List ReplayCheckpoint)
unfolding load_replay_checkpoint set_state
update_replay_checkpoint_state session state rows =
    if is_some (load_replay_checkpoint session rows)
    then ok (set_state session state rows)
    else err lookup_error

abbrev pub is_incomplete : ReplayState → Bool
is_incomplete running = true
is_incomplete paused = true
is_incomplete _ = false

unfoldable pub load_incomplete_replays : List ReplayCheckpoint → List ReplayCheckpoint
load_incomplete_replays [] = []
load_incomplete_replays (r ∷ rows) =
    let rest = load_incomplete_replays rows in if is_incomplete r.state then r ∷ rest else rest

-- A row that is written is the one that is read for its session; the rows of other sessions stay.
pub load-upsert :
    (session : Uuid) (c : ReplayCheckpoint) (rows : List ReplayCheckpoint)
    → load_replay_checkpoint session (upsert c rows)
      ≡ (if c.replay_session_id == session then some c else load_replay_checkpoint session rows)
unfolding load_replay_checkpoint upsert
load-upsert session c [] = refl
load-upsert session c (r ∷ rows) = ground (arith, load-upsert session c rows)

abbrev pub with_state : ReplayState → Option ReplayCheckpoint → Option ReplayCheckpoint
with_state state none = none
with_state state (some r) = some (record r { state = state })

pub load-set_state :
    (session other : Uuid) (state : ReplayState) (rows : List ReplayCheckpoint)
    → load_replay_checkpoint session (set_state other state rows) ≡ (
        if other == session
        then with_state state (load_replay_checkpoint session rows)
        else load_replay_checkpoint session rows)
unfolding load_replay_checkpoint set_state
load-set_state session other state [] = ground arith
load-set_state session other state (r ∷ rows) =
    ground (arith, load-set_state session other state rows)
