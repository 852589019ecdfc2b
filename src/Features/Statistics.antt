-- ===== src/Features/Statistics.antt =====
-- src/industrial_reliability/causal_features.py: the statistics of a window, computed from numpy's.
use Prim.Native.String.{◌++◌ as ◌<>◌}
use industrial_reliability_p.Base.{
  ℕ, zero, suc, ◌+◌, String, none, some, List, [], ◌∷◌, ◌++◌, map, ◌==◌, head?, get_last?,
  if◌then◌else◌, Result, ok, err, value_error, key_error, index_error, ◌>>=◌, length, ◌≡◌, arith,
  Result-cases, inl, inr,
}
use text.Mathlib.Text.{◌==◌ as str_eq}
use industrial_reliability_p.Platform.{Datetime, Platform}

pub record TelemetrySample (F : Type 0) : Type 0 where
  pub timestamp : Datetime
  pub analog : List F
  pub digital : List ℕ

module _ {A : Type 0} where
  -- `row[idx]`
  unfoldable pub item : ℕ → List A → Result A
  item idx [] = err index_error
  item zero (x ∷ xs) = ok x
  item (suc idx) (x ∷ xs) = item idx xs

  -- `array[:, idx]`
  unfoldable pub series : ℕ → List (List A) → Result (List A)
  unfolding item
  series idx [] = ok []
  series idx (row ∷ rows) = do x ← item idx row; xs ← series idx rows; ok (x ∷ xs)

  -- `xs[0]` and `xs[-1]`
  unfoldable pub first_of_series : List A → Result A
  first_of_series xs = elim (head? xs) [ none ↦ err index_error | some x ↦ ok x ]

  unfoldable pub last_of_series : List A → Result A
  last_of_series xs = elim (get_last? xs) [ none ↦ err index_error | some x ↦ ok x ]

-- `np.count_nonzero(series[1:] != series[:-1])`
unfoldable pub count_transitions : List ℕ → ℕ
count_transitions [] = 0
count_transitions (a ∷ []) = 0
count_transitions (a ∷ b ∷ xs) =
    let rest = count_transitions (b ∷ xs) in if a == b then rest else rest + 1

module _ (P : Platform) where
  open P use {Float, sub, of_nat, np_mean, np_std, np_min, np_max}

  abbrev pub Statistics : Type 0
  Statistics = List (String × Float)

  -- the six statistics of an analog column
  unfoldable pub analog_statistics : ℕ → List String → List (List Float) → Result Statistics
  unfolding series first_of_series last_of_series
  analog_statistics idx [] rows = ok []
  analog_statistics idx (col ∷ cols) rows = do
    xs ← series idx rows
    first ← first_of_series xs
    last ← last_of_series xs
    rest ← analog_statistics (idx + 1) cols rows
    ok (
        rest
        ++ (col <> "_last", last)
          ∷ (col <> "_mean", np_mean xs)
          ∷ (col <> "_std", np_std xs)
          ∷ (col <> "_min", np_min xs)
          ∷ (col <> "_max", np_max xs)
          ∷ (col <> "_delta", sub last first)
          ∷ [])

  -- `series == 1`, as numbers
  abbrev pub indicator : ℕ → Float
  indicator x = if x == 1 then of_nat 1 else of_nat 0

  -- the three statistics of a digital column
  unfoldable pub digital_statistics : ℕ → List String → List (List ℕ) → Result Statistics
  unfolding series last_of_series count_transitions
  digital_statistics idx [] rows = ok []
  digital_statistics idx (col ∷ cols) rows = do
    xs ← series idx rows
    last ← last_of_series xs
    rest ← digital_statistics (idx + 1) cols rows
    ok (
        rest
        ++ (col <> "_last", of_nat last)
          ∷ (col <> "_active_ratio", np_mean (map indicator xs))
          ∷ (col <> "_transition_count", of_nat (count_transitions xs))
          ∷ [])

  unfoldable pub all_candidate_statistics :
      List (List Float) → List (List ℕ) → List String → List String → Result Statistics
  unfolding analog_statistics digital_statistics
  all_candidate_statistics analog digital analog_cols digital_cols = do
    analog_stats ← analog_statistics 0 analog_cols analog
    digital_stats ← digital_statistics 0 digital_cols digital
    ok (digital_stats ++ analog_stats)

  -- `all_stats[name]`; a later entry of the dictionary stands in front
  unfoldable pub lookup_statistic : String → Statistics → Result Float
  lookup_statistic name [] = err key_error
  lookup_statistic name ((key, value) ∷ stats) =
      if str_eq key name then ok value else lookup_statistic name stats

  unfoldable pub lookup_statistics : List String → Statistics → Result (List Float)
  unfolding lookup_statistic
  lookup_statistics [] stats = ok []
  lookup_statistics (name ∷ names) stats = do
    value ← lookup_statistic name stats
    values ← lookup_statistics names stats
    ok (value ∷ values)

  unfoldable pub compute_feature_values :
      List (TelemetrySample Float) → List String → List String → List String → Result (List Float)
  unfolding all_candidate_statistics lookup_statistics
  compute_feature_values [] feature_names analog_cols digital_cols = err value_error
  compute_feature_values (sample ∷ samples) feature_names analog_cols digital_cols = do
    let all_samples : List (TelemetrySample Float) = sample ∷ samples
    all_stats ←
        all_candidate_statistics (map (λ s. s.analog) all_samples)
          (map (λ s. s.digital) all_samples) analog_cols digital_cols
    lookup_statistics feature_names all_stats

  -- One value for each name.
  pub length-lookup_statistics :
      (names : List String) (stats : Statistics) (values : List Float)
      → lookup_statistics names stats ≡ ok values
      → length values ≡ length names
  unfolding lookup_statistics
  length-lookup_statistics [] stats values h = ground arith
  length-lookup_statistics (name ∷ names) stats values h =
      elim (Result-cases (lookup_statistics names stats)) [
        | inl (rest, found) ↦
            let ih = length-lookup_statistics names stats rest found in ground arith
        | inr (e, missing) ↦ absurd (ground arith)
      ]
