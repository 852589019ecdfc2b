-- ===== src/Lab/Validation/Runnable.antt =====
-- `validate_lab` finds a lab eligible exactly if it is well formed.
use industrial_reliability_p.Base.{
  ◌≡◌, refl, sym, ap, ◌∙◌, Bool, true, false, ◌&&◌, ◌||◌, not, List, [], ◌∷◌, ◌++◌, map, any, all,
  arith, ◌==◌, is_some, Dict, get, put, get-put, get-put-other, has, if◌then◌else◌, Bool-cases, inl,
  inr, Result, ok, err,
}
use industrial_reliability_p.Platform.{Uuid}
use industrial_reliability_p.Lab.Contracts.{
  same_port_name, valid_ports, PortRef, same_port, Asset, Pipe, SensorKind, pressure, flow, Target,
  at_port, at_pipe, Sensor, LabDefinition, matches_kind,
}
use industrial_reliability_p.Lab.Validation.{
  duplicate_pipe_id, invalid_port_ref, self_loop_pipe, duplicate_pipe, plain_error, port_error,
  LabValidationError, error_if, same_ends, check_assets, has_port, check_end, ends_of, is_connected,
  check_pair, check_pipes, check_target, is_empty,
}
use industrial_reliability_p.Lab.Validation.Distinct.{distinct_by, fresh_by, is_empty-append}

abbrev pub same_id : Uuid → Uuid → Bool
same_id a b = a == b

any_same : (i : Uuid) (ids : List Uuid) → any (same_id i) ids ≡ has i ids
any_same i [] = refl
any_same i (j ∷ ids) = ground (arith, any_same i ids)

pub error_if-empty : (b : Bool) (error : LabValidationError) → is_empty (error_if b error) ≡ not b
error_if-empty true error = refl
error_if-empty false error = refl

negated_twice : (b : Bool) → not (not b) ≡ b
negated_twice true = refl
negated_twice false = refl

pair_empty :
    (self_loop connected : Bool) (looped repeated : LabValidationError)
    → is_empty (if self_loop then looped ∷ [] else error_if connected repeated)
      ≡ (not self_loop && not connected)
pair_empty true connected looped repeated = refl
pair_empty false true looped repeated = refl
pair_empty false false looped repeated = refl

empties :
    (a b c d e : List LabValidationError) (p q r s t : Bool)
    → is_empty a ≡ p
    → is_empty b ≡ q
    → is_empty c ≡ r
    → is_empty d ≡ s
    → is_empty e ≡ t
    → is_empty (a ++ (b ++ (c ++ (d ++ e)))) ≡ (p && (q && (r && (s && t))))
empties a b c d e p q r s t ha hb hc hd he =
    is_empty-append a (b ++ (c ++ (d ++ e)))
    ∙ ap2 ha (
        is_empty-append b (c ++ (d ++ e))
        ∙ ap2 hb (is_empty-append c (d ++ e) ∙ ap2 hc (is_empty-append d e ∙ ap2 hd he)))
  where
    ap2 : {x y z w : Bool} → x ≡ y → z ≡ w → (x && z) ≡ (y && w)
    ap2 h k = cc

shuffle :
    (n h k s c f a g : Bool)
    → (n && (h && (k && ((s && c) && (f && a && g)))))
      ≡ ((n && f) && ((h && k && s) && a) && (c && g))
shuffle n h k s c f a g = ground arith

-- whether the errors of a check are none
abbrev pub passes : Result (List LabValidationError) → Result Bool
passes (err e) = err e
passes (ok errors) = ok (is_empty errors)

module _ {F : Type 0} where
  abbrev pub asset_ids : List (Asset F) → List Uuid
  asset_ids assets = map (λ (a : Asset F). a.asset_id) assets

  abbrev pub pipe_ids : List (Pipe F) → List Uuid
  pipe_ids pipes = map (λ (p : Pipe F). p.pipe_id) pipes

  -- some asset has the port
  abbrev pub port_exists : List (Asset F) → PortRef → Bool
  port_exists assets ref =
      any
        (λ (a : Asset F).
          a.asset_id == ref.asset_id && any (λ p. same_port_name p ref.port) (valid_ports a.kind))
        assets

  -- a pipe joins two ports that exist and differ
  abbrev pub is_valid_pipe : List (Asset F) → Pipe F → Bool
  is_valid_pipe assets pipe =
      port_exists assets pipe.from_port
      && port_exists assets pipe.to_port
      && not (same_port pipe.from_port pipe.to_port)

  abbrev pub is_valid_target : List (Asset F) → List (Pipe F) → Target → Bool
  is_valid_target assets pipes (at_port ref) = port_exists assets ref
  is_valid_target assets pipes (at_pipe pipe_id) = has pipe_id (pipe_ids pipes)

  -- a lab with an asset, whose assets, pipes and sensors have distinct ids, whose pipes are valid and join
  -- different pairs of ports, and whose sensors have valid targets
  abbrev pub is_runnable : LabDefinition F → Bool
  is_runnable d =
      not (is_empty d.assets)
      && distinct_by same_id (asset_ids d.assets)
      && distinct_by same_id (pipe_ids d.pipes)
      && all (is_valid_pipe d.assets) d.pipes
      && distinct_by same_ends (map ends_of d.pipes)
      && distinct_by same_id (map (λ (s : Sensor F). s.sensor_id) d.sensors)
      && all (λ (s : Sensor F). is_valid_target d.assets d.pipes s.target) d.sensors

  -- the loop over the assets
  put_seen :
      (asset : Asset F) (asset_map : Dict (Asset F)) (seen : List Uuid)
      → ((k : Uuid) → is_some (get k asset_map) ≡ has k seen)
      → (k : Uuid)
      → is_some (get k (put asset.asset_id asset asset_map)) ≡ has k (asset.asset_id ∷ seen)
  put_seen asset asset_map seen h k = elim (Bool-cases (asset.asset_id == k)) [
    | inl same ↦
        let same' : asset.asset_id ≡ k = ground arith in
        let found =
          ap (λ i. is_some (get i (put asset.asset_id asset asset_map))) (sym same')
          ∙ ap is_some (get-put asset.asset_id asset asset_map) in
        ground (arith, found)
    | inr other ↦
        let found = ap is_some (get-put-other asset.asset_id k asset asset_map other) in
        ground (arith, found, h k)
  ]

  pub check_assets-fresh :
      (assets : List (Asset F)) (asset_map : Dict (Asset F)) (seen : List Uuid)
      → ((k : Uuid) → is_some (get k asset_map) ≡ has k seen)
      → is_empty (check_assets assets asset_map).0 ≡ fresh_by same_id seen (asset_ids assets)
  unfolding check_assets fresh_by
  check_assets-fresh [] asset_map seen h = refl
  check_assets-fresh (a ∷ assets) asset_map seen h = ground (
    arith,
    h a.asset_id,
    check_assets-fresh assets (put a.asset_id a asset_map) (a.asset_id ∷ seen)
        (put_seen a asset_map seen h),
  )

  absent_port :
      (assets : List (Asset F)) (ref : PortRef)
      → has ref.asset_id (asset_ids assets) ≡ false
      → port_exists assets ref ≡ false
  absent_port [] ref h = refl
  absent_port (a ∷ assets) ref h = ground (arith, absent_port assets ref)

  -- a port is found in the map exactly if it exists
  pub lookup-port :
      (assets : List (Asset F)) (asset_map : Dict (Asset F)) (ref : PortRef)
      → distinct_by same_id (asset_ids assets) ≡ true
      → has_port ref.port (get ref.asset_id (check_assets assets asset_map).1) ≡ (
          port_exists assets ref
          || (not (has ref.asset_id (asset_ids assets))
              && has_port ref.port (get ref.asset_id asset_map)))
  unfolding check_assets distinct_by
  lookup-port [] asset_map ref h = refl
  lookup-port (a ∷ assets) asset_map ref h =
      let ih = lookup-port assets (put a.asset_id a asset_map) ref in
      elim (Bool-cases (a.asset_id == ref.asset_id)) [
        | inl same ↦
            let same' : a.asset_id ≡ ref.asset_id = ground arith in
            let found =
              ap (λ i. has_port ref.port (get i (put a.asset_id a asset_map))) (sym same')
              ∙ ap (has_port ref.port) (get-put a.asset_id a asset_map) in
            let alone =
              ap (λ i. has i (asset_ids assets)) (sym same')
              ∙ sym (any_same a.asset_id (asset_ids assets)) in
            ground (arith, ih, found, alone, absent_port assets ref)
        | inr other ↦
            let found =
              ap (has_port ref.port) (get-put-other a.asset_id ref.asset_id a asset_map other) in
            ground (arith, ih, found)
      ]

  -- what the loop over the pipes accepts, by the map
  abbrev pub pipe_ok : Dict (Asset F) → Pipe F → Bool
  pipe_ok asset_map pipe =
      has_port pipe.from_port.port (get pipe.from_port.asset_id asset_map)
      && has_port pipe.to_port.port (get pipe.to_port.asset_id asset_map)
      && not (same_port pipe.from_port pipe.to_port)

  pub check_pipes-fresh :
      (asset_map : Dict (Asset F)) (pipes : List (Pipe F)) (seen_ids : List Uuid)
      (seen : List (PortRef × PortRef))
      → is_empty (check_pipes asset_map pipes seen_ids seen).0 ≡ (
          fresh_by same_id seen_ids (pipe_ids pipes)
          && all (pipe_ok asset_map) pipes
          && fresh_by same_ends seen (map ends_of pipes))
  unfolding check_pipes fresh_by
  check_pipes-fresh asset_map [] seen_ids seen = refl
  check_pipes-fresh asset_map (pipe ∷ pipes) seen_ids seen =
      let repeated = has pipe.pipe_id seen_ids in
      let self_loop = same_port pipe.from_port pipe.to_port in
      let connected = is_connected (ends_of pipe) seen in
      let from_ok = has_port pipe.from_port.port (get pipe.from_port.asset_id asset_map) in
      let to_ok = has_port pipe.to_port.port (get pipe.to_port.asset_id asset_map) in
      let all_ids : List Uuid = pipe.pipe_id ∷ seen_ids in
      let all_ends : List (PortRef × PortRef) = ends_of pipe ∷ seen in
      empties (error_if repeated (plain_error duplicate_pipe_id))
        (check_end invalid_port_ref asset_map pipe.from_port)
        (check_end invalid_port_ref asset_map pipe.to_port) (check_pair pipe seen)
        (check_pipes asset_map pipes all_ids all_ends).0 (not repeated) from_ok to_ok
        (not self_loop && not connected)
        (fresh_by same_id all_ids (pipe_ids pipes)
          && all (pipe_ok asset_map) pipes
          && fresh_by same_ends all_ends (map ends_of pipes))
        (error_if-empty repeated (plain_error duplicate_pipe_id))
        (error_if-empty (not from_ok) (port_error invalid_port_ref (pipe.from_port ∷ []))
          ∙ negated_twice from_ok)
        (error_if-empty (not to_ok) (port_error invalid_port_ref (pipe.to_port ∷ []))
          ∙ negated_twice to_ok)
        (pair_empty self_loop connected
          (port_error self_loop_pipe (pipe.from_port ∷ pipe.to_port ∷ []))
          (port_error duplicate_pipe (pipe.from_port ∷ pipe.to_port ∷ [])))
        (check_pipes-fresh asset_map pipes all_ids all_ends)
      ∙ shuffle (not repeated) from_ok to_ok (not self_loop) (not connected)
          (fresh_by same_id all_ids (pipe_ids pipes)) (all (pipe_ok asset_map) pipes)
          (fresh_by same_ends all_ends (map ends_of pipes))

  pub check_pipes-ids :
      (asset_map : Dict (Asset F)) (pipes : List (Pipe F)) (seen_ids : List Uuid)
      (seen : List (PortRef × PortRef)) (i : Uuid)
      → has i (check_pipes asset_map pipes seen_ids seen).1
        ≡ (has i (pipe_ids pipes) || has i seen_ids)
  unfolding check_pipes
  check_pipes-ids asset_map [] seen_ids seen i = refl
  check_pipes-ids asset_map (pipe ∷ pipes) seen_ids seen i =
      ground
        (arith, check_pipes-ids asset_map pipes (pipe.pipe_id ∷ seen_ids) (ends_of pipe ∷ seen) i)

  abbrev pub target_ok : Dict (Asset F) → List Uuid → Target → Bool
  target_ok asset_map ids (at_port ref) = has_port ref.port (get ref.asset_id asset_map)
  target_ok asset_map ids (at_pipe pipe_id) = has pipe_id ids

  pub check_target-ok :
      (asset_map : Dict (Asset F)) (ids : List Uuid) (kind : SensorKind) (target : Target)
      → matches_kind kind target ≡ true
      → passes (check_target asset_map ids kind target) ≡ ok (target_ok asset_map ids target)
  check_target-ok asset_map ids pressure (at_port ref) h = ground arith
  check_target-ok asset_map ids pressure (at_pipe i) h = absurd (cc)
  check_target-ok asset_map ids flow (at_port ref) h = absurd (cc)
  check_target-ok asset_map ids flow (at_pipe i) h = ground arith
