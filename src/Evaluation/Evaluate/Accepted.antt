-- ===== src/Evaluation/Evaluate/Accepted.antt =====
-- `evaluate` accepts the episodes that `build_episodes` returns.
use industrial_reliability_p.Base.{
  ℕ, ◌+◌, ◌≤◌, ◌<◌, ◌≡◌, refl, Bool, true, false, not, Option, none, some, List, [], ◌∷◌, map, all,
  arith, Bool-cases, Result-cases, inl, inr, ok,
}
use industrial_reliability_p.Platform.{Datetime, Platform}
use industrial_reliability_p.Evaluation.Scores.{
  EvaluationPolicy, Score, increasing, is_anomaly, validate_contract, validate_threshold,
  validated_scores,
}
use industrial_reliability_p.Evaluation.Episodes.{
  Episode, is_adjacent, merge_ends, episodes_of, anomalous_ends, build_episodes,
}
use industrial_reliability_p.Evaluation.Events.{check_episodes, validated_episodes}

abbrev is_naive : Datetime → Bool
is_naive t = not t.aware

abbrev StartsAfter : Option Episode → Datetime → Type 0
StartsAfter none first = Unit
StartsAfter (some previous) first = previous.last_detection_time.tick < first.tick

-- one episode, in front of others that are in order
check_episodes-cons :
    (previous : Option Episode) (first last : Datetime) (count : ℕ) (episodes : List Episode)
    → 0 < count
    → first.tick ≤ last.tick
    → first.aware ≡ false
    → last.aware ≡ false
    → StartsAfter previous first
    → let episode : Episode = record {
      detection_time = first;
      last_detection_time = last;
      decision_count = count;
    } in
      check_episodes (some episode) episodes ≡ ok tt
      → check_episodes previous (episode ∷ episodes) ≡ ok tt
unfolding check_episodes
check_episodes-cons none first last count episodes pos le n m f h = ground arith
check_episodes-cons (some p) first last count episodes pos le n m f h = ground arith

merge_ends-checks :
    (stride : ℕ) (previous : Option Episode) (first last : Datetime) (count : ℕ)
    (rest : List Datetime)
    → 0 < count
    → first.tick ≤ last.tick
    → first.aware ≡ false
    → last.aware ≡ false
    → StartsAfter previous first
    → increasing (last ∷ rest) ≡ true
    → all is_naive rest ≡ true
    → check_episodes previous (merge_ends stride first last count rest) ≡ ok tt
unfolding merge_ends check_episodes increasing
merge_ends-checks stride previous first last count [] pos le n m f inc naive =
    check_episodes-cons previous first last count [] pos le n m f refl
merge_ends-checks stride previous first last count (t ∷ rest) pos le n m f inc naive =
    elim (Bool-cases (is_adjacent stride last t)) [
      | inl near ↦
          rw (merge_ends, near)
            (merge_ends-checks stride previous first t (count + 1) rest (omega arith) (ground arith)
              n (ground arith) f (ground arith) (ground arith))
      | inr far ↦
          rw (merge_ends, far)
            (check_episodes-cons previous first last count (merge_ends stride t t 1 rest) pos le n m
              f
              (merge_ends-checks stride
                (some (record {
                  detection_time = first;
                  last_detection_time = last;
                  decision_count = count;
                }))
                t t 1 rest (omega arith) (omega arith) (ground arith) (ground arith) (ground arith)
                (ground arith) (ground arith)))
    ]

increasing-skip :
    (t end : Datetime) (ends : List Datetime)
    → increasing (t ∷ end ∷ ends) ≡ true
    → increasing (t ∷ ends) ≡ true
unfolding increasing
increasing-skip t end [] h = refl
increasing-skip t end (next ∷ ends) h = ground arith

increasing-tail :
    (t : Datetime) (ends : List Datetime) → increasing (t ∷ ends) ≡ true → increasing ends ≡ true
unfolding increasing
increasing-tail t [] h = refl
increasing-tail t (end ∷ ends) h = ground arith

episodes_of-checks :
    (stride : ℕ) (ends : List Datetime)
    → increasing ends ≡ true
    → all is_naive ends ≡ true
    → check_episodes none (episodes_of stride ends) ≡ ok tt
unfolding episodes_of check_episodes
episodes_of-checks stride [] inc naive = refl
episodes_of-checks stride (t ∷ ends) inc naive =
    merge_ends-checks stride none t t 1 ends (omega arith) (omega arith) (ground arith)
      (ground arith) tt inc (ground arith)

module _ (P : Platform) where
  open P use {Float}

  -- the ends of the anomalous decisions are increasing and naive as all ends are
  anomalous_ends-above :
      (test : Float → Bool) (t : Datetime) (ends : List Datetime) (values : List Float)
      → increasing (t ∷ ends) ≡ true
      → increasing (t ∷ anomalous_ends P test ends values) ≡ true
  unfolding anomalous_ends increasing
  anomalous_ends-above test t [] values h = refl
  anomalous_ends-above test t (end ∷ ends) [] h = refl
  anomalous_ends-above test t (end ∷ ends) (v ∷ values) h = elim (Bool-cases (test v)) [
    | inl anomalous ↦
        rw (anomalous_ends, anomalous)
          (ground (arith, anomalous_ends-above test end ends values (ground arith)))
    | inr normal ↦
        rw (anomalous_ends, normal)
          (anomalous_ends-above test t ends values (increasing-skip t end ends h))
  ]

  anomalous_ends-naive :
      (test : Float → Bool) (ends : List Datetime) (values : List Float)
      → all is_naive ends ≡ true
      → all is_naive (anomalous_ends P test ends values) ≡ true
  unfolding anomalous_ends
  anomalous_ends-naive test [] values h = refl
  anomalous_ends-naive test (end ∷ ends) [] h = refl
  anomalous_ends-naive test (end ∷ ends) (v ∷ values) h =
      ground (arith, anomalous_ends-naive test ends values)

  anomalous_ends-increasing :
      (test : Float → Bool) (ends : List Datetime) (values : List Float)
      → increasing ends ≡ true
      → increasing (anomalous_ends P test ends values) ≡ true
  unfolding anomalous_ends increasing
  anomalous_ends-increasing test [] values h = refl
  anomalous_ends-increasing test (end ∷ ends) [] h = refl
  anomalous_ends-increasing test (end ∷ ends) (v ∷ values) h = elim (Bool-cases (test v)) [
    | inl anomalous ↦ rw (anomalous_ends, anomalous) (anomalous_ends-above test end ends values h)
    | inr normal ↦
        rw (anomalous_ends, normal)
          (anomalous_ends-increasing test ends values (increasing-tail end ends h))
  ]

  pub validated_scores-ends :
      (scores : List (Score Float)) (ends : List Datetime) (values : List Float)
      → validated_scores P scores ≡ ok (ends, values)
      → (ends ≡ map (λ r. r.window_end) scores)
        × (values ≡ map (λ r. r.score) scores)
        × (increasing ends ≡ true)
        × (all is_naive ends ≡ true)
  unfolding validated_scores
  validated_scores-ends [] ends values h = absurd (cc)
  validated_scores-ends (row ∷ rows) ends values h = ground arith

  -- The episodes that `build_episodes` returns pass the validation of `evaluate` unchanged: they are
  -- consistent, naive, ordered and do not overlap.
  pub build_episodes-validated :
      (scores : List (Score Float)) (threshold : Float) (contract : EvaluationPolicy Float)
      (episodes : List Episode)
      → build_episodes P scores threshold contract ≡ ok episodes
      → validated_episodes episodes ≡ ok episodes
  unfolding build_episodes validated_episodes validate_contract validate_threshold
  build_episodes-validated scores threshold contract episodes h =
      elim (Result-cases (validated_scores P scores)) [
        | inr (e, refused) ↦ absurd (ground arith)
        | inl ((ends, values), valid) ↦
            let frame = validated_scores-ends scores ends values valid in
            let test = is_anomaly P threshold contract in
            let anomalous = anomalous_ends P test ends values in
            let made : episodes_of contract.stride_seconds anomalous ≡ episodes = ground arith in
            let checks =
              episodes_of-checks contract.stride_seconds anomalous
                (anomalous_ends-increasing test ends values frame.2)
                (anomalous_ends-naive test ends values frame.3) in
            rw (validated_episodes, ← made, checks) refl
      ]
