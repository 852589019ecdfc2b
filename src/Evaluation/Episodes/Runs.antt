-- ===== src/Evaluation/Episodes/Runs.antt =====
-- The episodes are the maximal runs of adjacent anomalous decisions.
use industrial_reliability_p.Base.{
  ℕ, suc, ◌+◌, ◌≡◌, refl, ap, ◌∙◌, true, false, List, [], ◌∷◌, ◌++◌, map, append_assoc, length,
  length-append, arith, Bool-cases, inl, inr,
}
use industrial_reliability_p.Platform.{Datetime}
use industrial_reliability_p.Evaluation.Episodes.{Episode, is_adjacent, merge_ends, episodes_of}

-- a run of decisions: the end of the first, and the ends of the others
abbrev pub Run : Type 0
Run = Datetime × List Datetime

abbrev pub last_of : Datetime → List Datetime → Datetime
last_of first [] = first
last_of first (t ∷ ts) = last_of t ts

-- the episode that stands for a run
abbrev pub summary : Run → Episode
summary (first, rest) = record {
  detection_time = first;
  last_detection_time = last_of first rest;
  decision_count = suc (length rest);
}

abbrev pub decisions : List Run → List Datetime
decisions [] = []
decisions ((first, rest) ∷ runs) = first ∷ (rest ++ decisions runs)

-- within a run, each decision is within a stride of the one before it
abbrev pub Adjacent : ℕ → Datetime → List Datetime → Type 0
Adjacent stride last [] = Unit
Adjacent stride last (t ∷ ts) = (is_adjacent stride last t ≡ true) × Adjacent stride t ts

-- and the first decision of a run is not within a stride of the run before it
abbrev pub Maximal : ℕ → List Run → Type 0
Maximal stride [] = Unit
Maximal stride ((first, rest) ∷ []) = Adjacent stride first rest
Maximal stride ((first, rest) ∷ (next, others) ∷ runs) =
    Adjacent stride first rest
    × (is_adjacent stride (last_of first rest) next ≡ false)
    × Maximal stride ((next, others) ∷ runs)

-- The decisions fall into maximal runs, in order, and the episodes are the summaries of the runs.
pub record AreRuns (stride : ℕ) (ends : List Datetime) (episodes : List Episode) : Type 0 where
  pub runs : List Run
  pub maximal : Maximal stride runs
  pub covers : decisions runs ≡ ends
  pub summaries : map summary runs ≡ episodes

-- the runs of a merge whose current run is `first ∷ mid`
record Merged (stride : ℕ) (first : Datetime) (mid rest : List Datetime) (episodes : List Episode)
    : Type 0 where
  others : List Datetime
  more : List Run
  maximal : Maximal stride ((first, others) ∷ more)
  covers : decisions ((first, others) ∷ more) ≡ first ∷ (mid ++ rest)
  summaries : map summary ((first, others) ∷ more) ≡ episodes

Adjacent-append :
    (stride : ℕ) (last : Datetime) (mid : List Datetime) (t : Datetime)
    → Adjacent stride last mid
    → is_adjacent stride (last_of last mid) t ≡ true
    → Adjacent stride last (mid ++ t ∷ [])
Adjacent-append stride last [] t a h = (h, tt)
Adjacent-append stride last (s ∷ mid) t a h = (a.0, Adjacent-append stride s mid t a.1 h)

last_of-append :
    (first : Datetime) (mid : List Datetime) (t : Datetime) → last_of first (mid ++ t ∷ []) ≡ t
last_of-append first [] t = refl
last_of-append first (s ∷ mid) t = last_of-append s mid t

append-nil : (xs : List Datetime) → xs ++ [] ≡ xs
append-nil [] = refl
append-nil (x ∷ xs) = ap (λ l. x ∷ l) (append-nil xs)

merge_ends-Merged :
    (stride : ℕ) (first : Datetime) (mid rest : List Datetime)
    → Adjacent stride first mid
    → Merged stride first mid rest
        (merge_ends stride first (last_of first mid) (suc (length mid)) rest)
unfolding merge_ends
merge_ends-Merged stride first mid [] a = record {
  others = mid;
  more = [];
  maximal = a;
  covers = refl;
  summaries = refl;
}
merge_ends-Merged stride first mid (t ∷ rest) a =
    elim (Bool-cases (is_adjacent stride (last_of first mid) t)) [
      | inl near ↦
          let grown : suc (length (mid ++ t ∷ [])) ≡ suc (length mid) + 1 =
            omega (arith, length-append mid (t ∷ [])) in
          let ih =
            merge_ends-Merged stride first (mid ++ t ∷ []) rest
              (Adjacent-append stride first mid t a near) in
          record {
            others = ih.others;
            more = ih.more;
            maximal = ih.maximal;
            covers = ih.covers ∙ ap (λ l. first ∷ l) (append_assoc mid (t ∷ []) rest);
            summaries =
                ih.summaries
                ∙ ap (λ l. merge_ends stride first l (suc (length (mid ++ t ∷ []))) rest)
                    (last_of-append first mid t)
                ∙ ap (λ n. merge_ends stride first t n rest) grown
                ∙ rw (merge_ends, near) refl;
          }
      | inr far ↦
          let ih = merge_ends-Merged stride t [] rest tt in
          record {
            others = mid;
            more = (t, ih.others) ∷ ih.more;
            maximal = (a, far, ih.maximal);
            covers = ap (λ l. first ∷ (mid ++ l)) ih.covers;
            summaries = ap (λ l. summary (first, mid) ∷ l) ih.summaries ∙ rw (merge_ends, far) refl;
          }
    ]

-- Episodes are maximal runs: the anomalous ends fall, in order, into runs of decisions each within a stride
-- of the one before, no two neighbouring runs are within a stride of one another, and the episodes are
-- these runs, each with its first end, its last end and its length.
pub episodes_of-AreRuns :
    (stride : ℕ) (ends : List Datetime) → AreRuns stride ends (episodes_of stride ends)
unfolding episodes_of
episodes_of-AreRuns stride [] = record { runs = []; maximal = tt; covers = refl; summaries = refl }
episodes_of-AreRuns stride (first ∷ rest) =
    let m = merge_ends-Merged stride first [] rest tt in
    record {
      runs = (first, m.others) ∷ m.more;
      maximal = m.maximal;
      covers = m.covers;
      summaries = m.summaries;
    }
