-- ===== src/Features/Builder/Entry.antt =====
-- The invariant across the end of a bin.
use industrial_reliability_p.Base.{
  ℕ, ◌+◌, ◌≤◌, ◌≡◌, refl, sym, subst, Option, none, some, List, [], ◌∷◌, All, length, arith, ltb,
  leb, ◌==◌, Bool-cases, inl, inr, Result, ok, err, ◌>>=◌,
}
use industrial_reliability_p.Platform.{Datetime, Platform}
use industrial_reliability_p.Messages.{FeatureVectorV1}
use industrial_reliability_p.Features.Buffer.{
  SegmentCloseReason, invalid_bin, Config, Bin, Builder, stride_ticks, reset_segment, next_buffer,
}
use industrial_reliability_p.Features.Builder.{
  emit_window, emit_full, finalize_bin, finalize_current_bin, cross_bin, Binned,
}
use industrial_reliability_p.Features.Builder.Windows.{
  GoodBin, Spaced, CurrentBin, IsWellFormed, next_buffer-good, IsWindow, Emitted,
  emit_window-Emitted,
}

module _ (P : Platform) (cfg : Config) (now : ℕ) where
  open P use {Float}

  -- the builder and the features behind `_finalize_current_bin`, which empties the current bin
  abbrev pub Finalized :
      Option Datetime → Result (Builder Float × List (FeatureVectorV1 Float)) → Type 0
  Finalized bin_end (err e) = Unit
  Finalized bin_end (ok (b, features)) =
      IsWellFormed cfg b
      × (b.current_bin_samples ≡ [])
      × (b.current_bin_end ≡ bin_end)
      × All (IsWindow P cfg) features

  empty_bin : (bin_end : Option Datetime) → CurrentBin {F = Float} bin_end []
  empty_bin none = refl
  empty_bin (some t) = tt

  emit_full-Finalized :
      (buffer : List (Bin Float)) (b : Builder Float)
      → All (GoodBin cfg) buffer
        × Spaced (stride_ticks cfg) buffer
        × (length buffer ≤ cfg.lookback_bins)
      → Finalized b.current_bin_end (emit_full P cfg now buffer b)
  unfolding emit_full
  emit_full-Finalized buffer b (good, spaced, bounded) =
      elim (Bool-cases (length buffer == cfg.lookback_bins)) [
        | inr partial ↦ rw partial (
          record { good = good; spaced = spaced; bounded = bounded; current = empty_bin _ },
          refl,
          refl,
          tt,
        )
        | inl full ↦
            let window = emit_window-Emitted P cfg now buffer good spaced (ground arith) in
            rw full (go (emit_window P cfg now buffer) window)
      ]
    where
      go :
          (m : Result (FeatureVectorV1 Float))
          → Emitted P cfg m
          → Finalized b.current_bin_end (
              m >>= λ vector.
              ok (record b { valid_bin_buffer = buffer; current_bin_samples = [] }, vector ∷ []))
      go (err e) w = tt
      go (ok f) w = (
        record { good = good; spaced = spaced; bounded = bounded; current = empty_bin _ },
        refl,
        refl,
        (w, tt),
      )

  finalize_bin-Finalized :
      (b : Builder Float) (bin_end : Option Datetime)
      → IsWellFormed cfg b
      → b.current_bin_end ≡ bin_end
      → CurrentBin bin_end b.current_bin_samples
      → Finalized bin_end (finalize_bin P cfg now b bin_end)
  unfolding finalize_bin
  finalize_bin-Finalized b none w at h = (w, h, at, tt)
  finalize_bin-Finalized b (some bin_end) w at h =
      elim (Bool-cases (leb cfg.min_bin_observations (length b.current_bin_samples))) [
        | inr few ↦ rw few (
          record { good = tt; spaced = tt; bounded = omega arith; current = empty_bin _ },
          refl,
          at,
          tt,
        )
        | inl enough ↦ rw enough (
            subst
              (λ o. Finalized o (
                emit_full P cfg now
                  (next_buffer cfg bin_end b.current_bin_samples b.valid_bin_buffer) b))
              at
              (emit_full-Finalized _ b (
                next_buffer-good cfg bin_end b.current_bin_samples b.valid_bin_buffer w.good
                  (ground arith, h) w.spaced w.bounded)))
      ]

  pub finalize_current_bin-Finalized :
      (b : Builder Float)
      → IsWellFormed cfg b
      → Finalized b.current_bin_end (finalize_current_bin P cfg now b)
  unfolding finalize_current_bin
  finalize_current_bin-Finalized b w = finalize_bin-Finalized b _ w refl w.current

  -- a closed segment leaves no bin in the buffer and emits nothing
  abbrev pub ClosedEmpty :
      Option SegmentCloseReason → List (Bin Float) → List (FeatureVectorV1 Float) → Type 0
  ClosedEmpty none buffer features = Unit
  ClosedEmpty (some reason) buffer features = (buffer ≡ []) × (features ≡ [])

  -- the builder behind the checks of the sequence, which a reason leaves without a current bin
  abbrev pub Fresh : Option SegmentCloseReason → Builder Float → Type 0
  Fresh none b = Unit
  Fresh (some reason) b = (b.valid_bin_buffer ≡ []) × (b.current_bin_end ≡ none)

  -- the current bin ends when the event's bin does
  abbrev pub EndsAt : Option Datetime → Datetime → Type 0
  EndsAt none bin_end = ⊥
  EndsAt (some current) bin_end = current.tick ≡ bin_end.tick

  -- the builder behind the bin checks
  abbrev pub Entered : Datetime → Result (Binned P cfg) → Type 0
  Entered bin_end (err e) = Unit
  Entered bin_end (ok (b, features, reason)) =
      IsWellFormed cfg b
      × EndsAt b.current_bin_end bin_end
      × All (IsWindow P cfg) features
      × ClosedEmpty reason b.valid_bin_buffer features

  no_samples :
      (b : Builder Float) (bin_end : Option Datetime)
      → b.current_bin_samples ≡ []
      → CurrentBin bin_end b.current_bin_samples
  no_samples b bin_end empty = subst (CurrentBin bin_end) (sym empty) (empty_bin bin_end)

  -- a builder with an empty buffer and an empty bin is well formed
  pub reset-IsWellFormed :
      (b : Builder Float) (bin_end : Option Datetime)
      → IsWellFormed cfg
          (record b { valid_bin_buffer = []; current_bin_samples = []; current_bin_end = bin_end })
  reset-IsWellFormed b bin_end = record {
    good = tt;
    spaced = tt;
    bounded = omega arith;
    current = empty_bin bin_end;
  }

  skip_bin-Entered :
      (bin_end : Datetime) (o : Option Datetime)
      (m : Result (Builder Float × List (FeatureVectorV1 Float)))
      → Finalized o m
      → Entered bin_end (
          m >>= λ r. ok (
            record r.0 { valid_bin_buffer = []; current_bin_end = some bin_end },
            [],
            some invalid_bin,
          ))
  skip_bin-Entered bin_end o (err e) f = tt
  skip_bin-Entered bin_end o (ok (b, features)) (w, empty, at, ws) = (
    record {
      good = tt;
      spaced = tt;
      bounded = omega arith;
      current = no_samples b (some bin_end) empty;
    },
    refl,
    tt,
    (refl, refl),
  )

  next_bin-Entered :
      (bin_end : Datetime) (o : Option Datetime)
      (m : Result (Builder Float × List (FeatureVectorV1 Float)))
      → Finalized o m
      → Entered bin_end (m >>= λ r. ok (record r.0 { current_bin_end = some bin_end }, r.1, none))
  next_bin-Entered bin_end o (err e) f = tt
  next_bin-Entered bin_end o (ok (b, features)) (w, empty, at, ws) = (
    record {
      good = w.good;
      spaced = w.spaced;
      bounded = w.bounded;
      current = no_samples b (some bin_end) empty;
    },
    refl,
    ws,
    tt,
  )

  closed_nothing :
      (reason : Option SegmentCloseReason) (b : Builder Float)
      → Fresh reason b
      → ClosedEmpty reason b.valid_bin_buffer []
  closed_nothing none b f = tt
  closed_nothing (some reason) b f = (f.0, refl)

  open_bin :
      (reason : Option SegmentCloseReason) (b : Builder Float) (current : Datetime)
      → Fresh reason b
      → b.current_bin_end ≡ some current
      → reason ≡ none
  open_bin none b current f at = refl
  open_bin (some reason) b current f at = cc

  pub cross_bin-Entered :
      (bin_end : Datetime) (reason : Option SegmentCloseReason) (b : Builder Float)
      (o : Option Datetime)
      → IsWellFormed cfg b
      → b.current_bin_end ≡ o
      → CurrentBin o b.current_bin_samples
      → Fresh reason b
      → Entered bin_end (cross_bin P cfg now bin_end reason b o)
  unfolding cross_bin reset_segment
  cross_bin-Entered bin_end reason b none w at h f = (
    record {
      good = w.good;
      spaced = w.spaced;
      bounded = w.bounded;
      current = no_samples b (some bin_end) h;
    },
    refl,
    tt,
    closed_nothing reason b f,
  )
  cross_bin-Entered bin_end reason b (some current) w at h f =
      elim (Bool-cases (bin_end.tick == current.tick)) [
        | inl same ↦ rw same (
          w,
          subst (λ o. EndsAt o bin_end) (sym at) (ground arith),
          tt,
          closed_nothing reason b f,
        )
        | inr other ↦ elim (Bool-cases (ltb bin_end.tick current.tick)) [
          | inl back ↦
              rw (other, back) (reset-IsWellFormed b (some bin_end), refl, tt, (refl, refl))
          | inr ahead ↦ elim (Bool-cases (ltb (current.tick + stride_ticks cfg) bin_end.tick)) [
            | inl far ↦
                rw (other, ahead, far)
                  (skip_bin-Entered bin_end _ _ (finalize_current_bin-Finalized b w))
            | inr near ↦
                rw (other, ahead, near, open_bin reason b current f at)
                  (next_bin-Entered bin_end _ _ (finalize_current_bin-Finalized b w))
          ]
        ]
      ]
