-- ===== src/Evaluation/Events.antt =====
-- The failure events of src/industrial_reliability/contracts.py, and how evaluation.py matches them to episodes.
use industrial_reliability_p.Base.{
  ℕ, ◌+◌, String, Bool, true, ◌&&◌, ◌||◌, not, Option, none, some, List, [], ◌∷◌, ltb, leb, Result,
  ok, err, value_error, ◌>>◌, require,
}
use industrial_reliability_p.Platform.{Datetime}
use industrial_reliability_p.Evaluation.Scores.{EvaluationPolicy, seconds}
use industrial_reliability_p.Evaluation.Episodes.{Episode}

pub record Event : Type 0 where
  pub event_id : String
  pub failure_type : String
  pub source_start : Datetime
  pub source_end : Datetime
  pub source_precision : String
  pub paper_count : ℕ
  pub local_lps_transition : Option Datetime
  pub disagreement : Option String

-- `horizon_start <= t < event.source_end`; the horizon is added to `t`, since subtraction stops at 0 here
unfoldable pub in_horizon : ℕ → Event → Datetime → Bool
in_horizon horizon_seconds event t =
    leb event.source_start.tick (t.tick + seconds horizon_seconds)
    && ltb t.tick event.source_end.tick

-- `event.source_start <= t < event.source_end`
unfoldable pub in_source : Event → Datetime → Bool
in_source event t = leb event.source_start.tick t.tick && ltb t.tick event.source_end.tick

module _ {F : Type 0} where
  unfoldable pub episode_matches_event : EvaluationPolicy F → Event → Episode → Bool
  unfolding in_horizon
  episode_matches_event contract event episode =
      let detected_in_horizon =
        in_horizon contract.event_horizon_seconds event episode.detection_time in
      let overlaps_source =
        ltb episode.detection_time.tick event.source_end.tick
        && ltb event.source_start.tick
            (episode.last_detection_time.tick + seconds contract.stride_seconds) in
      detected_in_horizon || overlaps_source

abbrev pub is_valid_event : Event → Bool
is_valid_event event =
    not event.source_start.aware
    && not event.source_end.aware
    && ltb event.source_start.tick event.source_end.tick

unfoldable pub check_events : List Event → Result (Unit {0})
check_events [] = ok tt
check_events (event ∷ events) = do require (is_valid_event event) value_error; check_events events

unfoldable pub validated_events : List Event → Result (List Event)
unfolding check_events
validated_events [] = err value_error
validated_events (event ∷ events) = do check_events (event ∷ events); ok (event ∷ events)

-- the tests on one episode and the one before it
abbrev pub follows : Option Episode → Episode → Bool
follows none episode = true
follows (some previous) episode = ltb previous.last_detection_time.tick episode.detection_time.tick

abbrev pub is_consistent : Episode → Bool
is_consistent episode =
    ltb 0 episode.decision_count
    && leb episode.detection_time.tick episode.last_detection_time.tick
    && not episode.detection_time.aware
    && not episode.last_detection_time.aware

unfoldable pub check_episodes : Option Episode → List Episode → Result (Unit {0})
check_episodes previous [] = ok tt
check_episodes previous (episode ∷ episodes) = do
  require (is_consistent episode) value_error
  require (follows previous episode) value_error
  check_episodes (some episode) episodes

unfoldable pub validated_episodes : List Episode → Result (List Episode)
unfolding check_episodes
validated_episodes episodes = do check_episodes none episodes; ok episodes
