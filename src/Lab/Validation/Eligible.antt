-- ===== src/Lab/Validation/Eligible.antt =====
-- A lab is eligible to run exactly if it is well formed.
use industrial_reliability_p.Base.{
  ◌≡◌, ◌⊎◌, refl, ap, ◌∙◌, Bool, true, false, ◌&&◌, ◌||◌, not, List, [], ◌∷◌, ◌++◌, map, all, arith,
  Dict, get, has, if_intro, Bool-cases, inl, inr, Result, ok, err, ◌>>=◌,
}
use industrial_reliability_p.Platform.{Uuid}
use industrial_reliability_p.Lab.Contracts.{
  PortRef, Asset, Target, at_port, at_pipe, Sensor, LabDefinition, matches_kind,
}
use industrial_reliability_p.Lab.Validation.{
  plain_error, duplicate_sensor_id, empty_lab, LabValidationError, LabValidationResult, error_if,
  same_ends, check_assets, has_port, ends_of, check_pipes, check_target, check_sensors, is_empty,
  validate_lab,
}
use industrial_reliability_p.Lab.Validation.Distinct.{
  distinct_by, fresh_by, fresh_distinct, all_cong, is_empty-append,
}
use industrial_reliability_p.Lab.Validation.Runnable.{
  same_id, asset_ids, pipe_ids, port_exists, is_valid_pipe, is_valid_target, is_runnable, passes,
  pipe_ok, target_ok, error_if-empty, check_assets-fresh, lookup-port, check_pipes-fresh,
  check_pipes-ids, check_target-ok,
}

-- whether a validation found the lab eligible
abbrev pub eligible : Result LabValidationResult → Result Bool
eligible (err e) = err e
eligible (ok r) = ok r.run_eligible

passes-ok :
    (r : Result (List LabValidationError)) (b : Bool)
    → passes r ≡ ok b
    → (errors : List LabValidationError) × (r ≡ ok errors) × (is_empty errors ≡ b)
passes-ok (err e) b h = absurd (cc)
passes-ok (ok errors) b h = (errors, refl, cc)

append3 :
    (a b c : List LabValidationError) (p q r : Bool)
    → is_empty a ≡ p
    → is_empty b ≡ q
    → is_empty c ≡ r
    → is_empty (a ++ (b ++ c)) ≡ (p && (q && r))
append3 a b c p q r ha hb hc =
    let outer = is_empty-append a (b ++ c) in let inner = is_empty-append b c in cc

module _ {F : Type 0} where
  abbrev sensor_ids : List (Sensor F) → List Uuid
  sensor_ids sensors = map (λ (s : Sensor F). s.sensor_id) sensors

  abbrev kinds_match : List (Sensor F) → Bool
  kinds_match sensors = all (λ (s : Sensor F). matches_kind s.kind s.target) sensors

  abbrev sensors_ok : Dict (Asset F) → List Uuid → List Uuid → List (Sensor F) → Bool
  sensors_ok asset_map ids seen sensors =
      fresh_by same_id seen (sensor_ids sensors)
      && all (λ (s : Sensor F). target_ok asset_map ids s.target) sensors

  check_sensors-ok :
      (asset_map : Dict (Asset F)) (ids : List Uuid) (sensors : List (Sensor F)) (seen : List Uuid)
      → kinds_match sensors ≡ true
      → passes (check_sensors asset_map ids sensors seen)
        ≡ ok (sensors_ok asset_map ids seen sensors)
  unfolding check_sensors fresh_by
  check_sensors-ok asset_map ids [] seen h = refl
  check_sensors-ok asset_map ids (s ∷ sensors) seen h =
      let all_ids : List Uuid = s.sensor_id ∷ seen in
      let repeated = has s.sensor_id seen in
      let (target_errors, checked, target_same) =
        passes-ok (check_target asset_map ids s.kind s.target) (target_ok asset_map ids s.target)
          (check_target-ok asset_map ids s.kind s.target (ground arith)) in
      let (errors, rest, rest_same) =
        passes-ok (check_sensors asset_map ids sensors all_ids)
          (sensors_ok asset_map ids all_ids sensors)
          (check_sensors-ok asset_map ids sensors all_ids (ground arith)) in
      let error = plain_error duplicate_sensor_id in
      let both =
        append3 (error_if repeated error) target_errors errors (not repeated)
          (target_ok asset_map ids s.target) (sensors_ok asset_map ids all_ids sensors)
          (error_if-empty repeated error) target_same rest_same in
      rw (check_sensors, checked, rest)
        (ap ok (
          both
          ∙ swap (not repeated) (target_ok asset_map ids s.target)
              (fresh_by same_id all_ids (sensor_ids sensors))
              (all (λ (s : Sensor F). target_ok asset_map ids s.target) sensors)))
    where
      swap : (n t f a : Bool) → (n && (t && (f && a))) ≡ ((n && f) && (t && a))
      swap n t f a = ground arith

  abbrev asset_map_of : LabDefinition F → Dict (Asset F)
  asset_map_of d = (check_assets d.assets []).1

  abbrev pipe_ids_of : LabDefinition F → List Uuid
  pipe_ids_of d = (check_pipes (asset_map_of d) d.pipes [] []).1

  -- what the loops find is what the definition has, where its assets are distinct
  found_valid :
      (d : LabDefinition F)
      → distinct_by same_id (asset_ids d.assets) ≡ true
      → let asset_map = (check_assets d.assets []).1 in
        let ids = (check_pipes asset_map d.pipes [] []).1 in
        (all (pipe_ok asset_map) d.pipes ≡ all (is_valid_pipe d.assets) d.pipes)
        × (all (λ (s : Sensor F). target_ok asset_map ids s.target) d.sensors
            ≡ all (λ (s : Sensor F). is_valid_target d.assets d.pipes s.target) d.sensors)
  unfolding get
  found_valid d distinct =
      let asset_map = (check_assets d.assets []).1 in
      let ids = (check_pipes asset_map d.pipes [] []).1 in
      (
        all_cong (pipe_ok asset_map) (is_valid_pipe d.assets) d.pipes (λ pipe.
            let from_found = port_found pipe.from_port in
            let to_found = port_found pipe.to_port in cc),
        all_cong _ _ d.sensors (λ (s : Sensor F).
            target_found ids
              (λ i. check_pipes-ids asset_map d.pipes [] [] i ∙ or_false (has i (pipe_ids d.pipes)))
              s.target),
      )
    where
      or_false : (b : Bool) → (b || false) ≡ b
      or_false b = ground arith

      port_found :
          (ref : PortRef)
          → has_port ref.port (get ref.asset_id (check_assets d.assets []).1)
            ≡ port_exists d.assets ref
      port_found ref = ground (arith, lookup-port d.assets [] ref distinct)

      target_found :
          (ids : List Uuid)
          → ((i : Uuid) → has i ids ≡ has i (pipe_ids d.pipes))
          → (target : Target)
          → target_ok (check_assets d.assets []).1 ids target
            ≡ is_valid_target d.assets d.pipes target
      target_found ids h (at_port ref) = port_found ref
      target_found ids h (at_pipe i) = h i

  -- the verdicts of the loops, together
  verdicts :
      (d : LabDefinition F)
      → is_empty d.assets ≡ false
      → (is_empty (check_assets d.assets []).0
          && (is_empty (check_pipes (asset_map_of d) d.pipes [] []).0
              && sensors_ok (asset_map_of d) (pipe_ids_of d) [] d.sensors))
        ≡ is_runnable d
  unfolding get
  verdicts d nonempty = go (Bool-cases (distinct_by same_id (asset_ids d.assets)))
    where
      unique : is_empty (check_assets d.assets []).0 ≡ distinct_by same_id (asset_ids d.assets)
      unique =
          check_assets-fresh d.assets [] [] (λ k. refl)
          ∙ fresh_distinct same_id (asset_ids d.assets)

      go :
          (distinct_by same_id (asset_ids d.assets) ≡ true)
            ⊎ (distinct_by same_id (asset_ids d.assets) ≡ false)
          → (is_empty (check_assets d.assets []).0
              && (is_empty (check_pipes (asset_map_of d) d.pipes [] []).0
                  && sensors_ok (asset_map_of d) (pipe_ids_of d) [] d.sensors))
            ≡ is_runnable d
      go (inr repeated) = ground (arith, unique)
      go (inl distinct) =
          let pipes = check_pipes-fresh (asset_map_of d) d.pipes [] [] in
          let (valid_pipes, valid_targets) = found_valid d distinct in
          ground (
            arith,
            unique,
            pipes,
            valid_pipes,
            valid_targets,
            fresh_distinct same_id (pipe_ids d.pipes),
            fresh_distinct same_ends (map ends_of d.pipes),
            fresh_distinct same_id (sensor_ids d.sensors),
          )

  -- For a definition whose sensors have targets of their kinds: `validate_lab` returns, and it finds the lab
  -- eligible exactly if there is an asset, assets, pipes and sensors have distinct ids, each pipe joins two
  -- ports that exist and differ, no two pipes join the same two ports, and each sensor's target exists.
  pub validate_lab-eligible :
      (d : LabDefinition F)
      → all (λ (s : Sensor F). matches_kind s.kind s.target) d.sensors ≡ true
      → eligible (validate_lab d) ≡ ok (is_runnable d)
  unfolding validate_lab
  validate_lab-eligible d h =
      let (asset_errors, asset_map) = check_assets d.assets [] in
      let (pipe_errors, ids) = check_pipes asset_map d.pipes [] [] in
      let (sensor_errors, checked, same) =
        passes-ok (check_sensors asset_map ids d.sensors []) (sensors_ok asset_map ids [] d.sensors)
          (check_sensors-ok asset_map ids d.sensors [] h) in
      let refused : Result LabValidationResult =
        ok (record { run_eligible = false; errors = plain_error empty_lab ∷ [] }) in
      let validated : Result LabValidationResult = do
        found ← check_sensors asset_map ids d.sensors []
        let errors : List LabValidationError = asset_errors ++ (pipe_errors ++ found)
        ok (record { run_eligible = is_empty errors; errors = errors })
      in if_intro (λ r. eligible r ≡ ok (is_runnable d)) (is_empty d.assets) refused validated
        (λ none_there. ap ok (ground arith))
        (λ nonempty. rw checked (
          ap ok (
            append3 asset_errors pipe_errors sensor_errors (is_empty asset_errors)
              (is_empty pipe_errors) (sensors_ok asset_map ids [] d.sensors) refl refl same
            ∙ verdicts d nonempty)))
