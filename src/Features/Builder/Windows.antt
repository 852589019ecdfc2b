-- ===== src/Features/Builder/Windows.antt =====
-- The windows that the builder emits, and the invariant of its buffer.
use industrial_reliability_p.Base.{
  ℕ, ◌+◌, ◌≤◌, ◌<◌, ◌≡◌, refl, Option, none, some, List, [], ◌∷◌, ◌++◌, map, All, All-append,
  length, length-append, get_last?, head?, arith, ◌==◌, Bool-cases, Option-cases, inl, inr, Result,
  ok, err,
}
use industrial_reliability_p.Platform.{Datetime, Platform}
use industrial_reliability_p.Messages.{FeatureVectorV1}
use industrial_reliability_p.Features.Statistics.{TelemetrySample, compute_feature_values}
use industrial_reliability_p.Features.Buffer.{
  Config, Bin, Builder, stride_ticks, continued_buffer, drop_oldest, next_buffer, all_samples,
}
use industrial_reliability_p.Features.Builder.{emit_window}

module _ {F : Type 0} where
  -- a sample lies in the five minutes that end with its bin, so it is not later than the bin's end
  abbrev pub InBin : Datetime → TelemetrySample F → Type 0
  InBin bin_end s =
      (s.timestamp.tick ≤ bin_end.tick) × (bin_end.tick < s.timestamp.tick + 300000000)

  -- a bin with enough observations, all of them in it
  abbrev pub GoodBin : Config → Bin F → Type 0
  GoodBin cfg (bin_end, samples) =
      (cfg.min_bin_observations ≤ length samples) × All (InBin bin_end) samples

  -- each bin ends one stride after the bin before it
  abbrev pub Spaced : ℕ → List (Bin F) → Type 0
  Spaced stride [] = Unit
  Spaced stride (a ∷ []) = Unit
  Spaced stride (a ∷ b ∷ bins) = (b.0.tick ≡ a.0.tick + stride) × Spaced stride (b ∷ bins)

  abbrev pub CurrentBin : Option Datetime → List (TelemetrySample F) → Type 0
  CurrentBin none samples = samples ≡ []
  CurrentBin (some bin_end) samples = All (InBin bin_end) samples

  pub record IsWellFormed (cfg : Config) (b : Builder F) : Type 0 where
    pub good : All (GoodBin cfg) b.valid_bin_buffer
    pub spaced : Spaced (stride_ticks cfg) b.valid_bin_buffer
    pub bounded : length b.valid_bin_buffer ≤ cfg.lookback_bins
    pub current : CurrentBin b.current_bin_end b.current_bin_samples

  Spaced-append :
      (stride : ℕ) (bins : List (Bin F)) (last new : Bin F)
      → get_last? bins ≡ some last
      → new.0.tick ≡ last.0.tick + stride
      → Spaced stride bins
      → Spaced stride (bins ++ new ∷ [])
  Spaced-append stride [] last new h e s = cc
  Spaced-append stride (a ∷ []) last new h e s = ground arith
  Spaced-append stride (a ∷ b ∷ bins) last new h e s =
      (s.0, Spaced-append stride (b ∷ bins) last new h e s.1)

  get_last?-cons-ne : (a : Bin F) (bins : List (Bin F)) → get_last? (a ∷ bins) ≡ none → ⊥
  get_last?-cons-ne a [] h = cc
  get_last?-cons-ne a (b ∷ bins) h = get_last?-cons-ne b bins h

  continued_buffer-Spaced :
      (cfg : Config) (bin_end : Datetime) (samples : List (TelemetrySample F)) (bins : List (Bin F))
      → Spaced (stride_ticks cfg) bins
      → Spaced (stride_ticks cfg) (continued_buffer cfg bin_end bins ++ (bin_end, samples) ∷ [])
  unfolding continued_buffer
  continued_buffer-Spaced cfg bin_end samples [] s = tt
  continued_buffer-Spaced cfg bin_end samples (a ∷ bins) s =
      elim (Option-cases (get_last? (a ∷ bins))) [
        | inl absent ↦ absurd (get_last?-cons-ne a bins absent)
        | inr (last, found) ↦ elim (Bool-cases (bin_end.tick == last.0.tick + stride_ticks cfg)) [
          | inl near ↦
              rw (found, continued_buffer, near)
                (Spaced-append (stride_ticks cfg) (a ∷ bins) last (bin_end, samples) found
                  (ground arith) s)
          | inr far ↦ rw (found, continued_buffer, far) tt
        ]
      ]

  continued_buffer-All :
      (P : Bin F → Type 0) (cfg : Config) (bin_end : Datetime) (bins : List (Bin F))
      → All P bins
      → All P (continued_buffer cfg bin_end bins)
  unfolding continued_buffer
  continued_buffer-All P cfg bin_end bins h = ground arith

  continued_buffer-le :
      (cfg : Config) (bin_end : Datetime) (bins : List (Bin F))
      → length (continued_buffer cfg bin_end bins) ≤ length bins
  unfolding continued_buffer
  continued_buffer-le cfg bin_end bins = ground arith

  drop_oldest-Spaced :
      (cfg : Config) (stride : ℕ) (bins : List (Bin F))
      → Spaced stride bins
      → Spaced stride (drop_oldest cfg bins)
  unfolding drop_oldest
  drop_oldest-Spaced cfg stride [] s = tt
  drop_oldest-Spaced cfg stride (a ∷ []) s = ground arith
  drop_oldest-Spaced cfg stride (a ∷ b ∷ bins) s = ground arith

  drop_oldest-All :
      (P : Bin F → Type 0) (cfg : Config) (bins : List (Bin F))
      → All P bins
      → All P (drop_oldest cfg bins)
  unfolding drop_oldest
  drop_oldest-All P cfg [] h = tt
  drop_oldest-All P cfg (a ∷ bins) h = ground arith

  drop_oldest-le :
      (cfg : Config) (bins : List (Bin F))
      → length bins ≤ cfg.lookback_bins + 1
      → length (drop_oldest cfg bins) ≤ cfg.lookback_bins
  unfolding drop_oldest
  drop_oldest-le cfg [] h = omega arith
  drop_oldest-le cfg (a ∷ bins) h = ground arith

  pub next_buffer-good :
      (cfg : Config) (bin_end : Datetime) (samples : List (TelemetrySample F)) (bins : List (Bin F))
      → All (GoodBin cfg) bins
      → GoodBin cfg (bin_end, samples)
      → Spaced (stride_ticks cfg) bins
      → length bins ≤ cfg.lookback_bins
      → let next = next_buffer cfg bin_end samples bins in
        All (GoodBin cfg) next × Spaced (stride_ticks cfg) next × (length next ≤ cfg.lookback_bins)
  unfolding next_buffer
  next_buffer-good cfg bin_end samples bins g new s n =
      let kept = continued_buffer cfg bin_end bins in
      (
        drop_oldest-All (GoodBin cfg) cfg _ (
            All-append (GoodBin cfg) kept ((bin_end, samples) ∷ [])
              (continued_buffer-All (GoodBin cfg) cfg bin_end bins g) (new, tt)),
        drop_oldest-Spaced cfg (stride_ticks cfg) _
            (continued_buffer-Spaced cfg bin_end samples bins s),
        drop_oldest-le cfg _ (
            omega (
              arith,
              length-append kept ((bin_end, samples) ∷ []),
              continued_buffer-le cfg bin_end bins,
            )),
      )

module _ (P : Platform) (cfg : Config) where
  open P use {Float}

  -- A feature vector over exactly `lookback_bins` bins, each ending one stride after the one before and
  -- holding enough observations, none of them later than its bin's end; the vector reports the ends and
  -- the counts of these bins, ends with the last and has the statistics of all their samples, and it is
  -- of the builder's session.
  pub record IsWindow (f : FeatureVectorV1 Float) : Type 0 where
    pub session : f.replay_session_id ≡ cfg.replay_session_id
    pub bins : List (Bin Float)
    pub good : All (GoodBin cfg) bins
    pub spaced : Spaced (stride_ticks cfg) bins
    pub full : length bins ≡ cfg.lookback_bins
    pub last_samples : List (TelemetrySample Float)
    pub last : get_last? bins ≡ some (f.window_end, last_samples)
    pub ends : f.coverage.bin_ends ≡ map (λ bin. bin.0) bins
    pub counts : f.coverage.observations_by_bin ≡ map (λ bin. length bin.1) bins
    pub values :
        compute_feature_values P
          (all_samples bins)
          cfg.feature_names
          cfg.analog_cols
          cfg.digital_cols
        ≡ ok f.feature_values

  emit_window_fields :
      (now : ℕ) (bins : List (Bin Float)) (f : FeatureVectorV1 Float)
      → emit_window P cfg now bins ≡ ok f
      → (samples : List (TelemetrySample Float)) × (get_last? bins ≡ some (f.window_end, samples))
        × (f.coverage.bin_ends ≡ map (λ bin. bin.0) bins)
        × (f.coverage.observations_by_bin ≡ map (λ bin. length bin.1) bins)
        × (compute_feature_values P
              (all_samples bins)
              cfg.feature_names
              cfg.analog_cols
              cfg.digital_cols
            ≡ ok f.feature_values)
        × (f.replay_session_id ≡ cfg.replay_session_id)
  unfolding emit_window
  emit_window_fields now bins f h = elim (Option-cases (head? bins)) [
    | inl absent ↦ absurd (ground arith)
    | inr (first, found) ↦ elim (Option-cases (get_last? bins)) [
      | inl absent ↦ absurd (ground arith)
      | inr (last, at) ↦
          (last.1, ground arith, ground arith, ground arith, ground arith, ground arith)
    ]
  ]

  -- what `emit_window` returns on a full buffer
  abbrev pub Emitted : Result (FeatureVectorV1 Float) → Type 0
  Emitted (ok f) = IsWindow f
  Emitted (err e) = Unit

  pub emit_window-Emitted :
      (now : ℕ) (bins : List (Bin Float))
      → All (GoodBin cfg) bins
      → Spaced (stride_ticks cfg) bins
      → length bins ≡ cfg.lookback_bins
      → Emitted (emit_window P cfg now bins)
  emit_window-Emitted now bins g s n = go (emit_window P cfg now bins) refl
    where
      go : (m : Result (FeatureVectorV1 Float)) → emit_window P cfg now bins ≡ m → Emitted m
      go (err e) h = tt
      go (ok f) h =
          let (samples, last, ends, counts, values, session) = emit_window_fields now bins f h in
          record {
            session = session;
            bins = bins;
            good = g;
            spaced = s;
            full = n;
            last_samples = samples;
            last = last;
            ends = ends;
            counts = counts;
            values = values;
          }
