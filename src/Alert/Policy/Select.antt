-- ===== src/Alert/Policy/Select.antt =====
-- Which candidate `select_policy` returns.
use industrial_reliability_p.Base.{
  ◌≡◌, refl, true, false, Option, none, some, List, [], ◌∷◌, ◌++◌, Result, ok, err, value_error,
  if◌then◌else◌, Bool-cases, inl, inr, ap,
}
use industrial_reliability_p.Platform.{Platform}
use industrial_reliability_p.Alert.Policy.{
  ScoreRow, PolicyMetrics, PolicySelection, Candidate, candidates, evaluate_candidate, passes_gates,
  selection, select_loop, only_calibration, select_policy,
}

module _ (P : Platform) (sort_values : List ScoreRow → List ScoreRow) (frame : List ScoreRow) where
  open P use {Float}

  abbrev measured : Candidate → PolicyMetrics Float
  measured c = evaluate_candidate P sort_values frame c

  -- no candidate of the list passes the gates on this frame
  abbrev pub NonePass : List Candidate → Type 0
  NonePass [] = Unit
  NonePass (c ∷ cs) = (passes_gates P sort_values (measured c) ≡ false) × NonePass cs

  -- `sel` is the first of the candidates that passes the gates, with its own metrics
  pub record IsFirstPass (cs : List Candidate) (sel : PolicySelection Float) : Type 0 where
    pub before : List Candidate
    pub chosen : Candidate
    pub after : List Candidate
    pub split : cs ≡ before ++ chosen ∷ after
    pub earlier_fail : NonePass before
    pub passes : passes_gates P sort_values (measured chosen) ≡ true
    pub selected : sel ≡ selection P sort_values chosen (measured chosen)

  -- what the loop returns without the fallback: the first candidate that passes, or the error
  abbrev pub FirstPass : List Candidate → Result (PolicySelection Float) → Type 0
  FirstPass cs (ok sel) = IsFirstPass cs sel
  FirstPass cs (err e) = NonePass cs

  IsFirstPass-cons :
      (c : Candidate) (cs : List Candidate) (sel : PolicySelection Float)
      → passes_gates P sort_values (measured c) ≡ false
      → IsFirstPass cs sel
      → IsFirstPass (c ∷ cs) sel
  IsFirstPass-cons c cs sel fails h = record {
    before = c ∷ h.before;
    chosen = h.chosen;
    after = h.after;
    split = ap (λ l. c ∷ l) h.split;
    earlier_fail = (fails, h.earlier_fail);
    passes = h.passes;
    selected = h.selected;
  }

  FirstPass-cons :
      (c : Candidate) (cs : List Candidate) (r : Result (PolicySelection Float))
      → passes_gates P sort_values (measured c) ≡ false
      → FirstPass cs r
      → FirstPass (c ∷ cs) r
  FirstPass-cons c cs (ok sel) fails h = IsFirstPass-cons c cs sel fails h
  FirstPass-cons c cs (err e) fails h = (fails, h)

  select_loop-FirstPass :
      (cs : List Candidate) (best : Option (PolicySelection Float)) (best_cost : Float)
      → FirstPass cs (select_loop P sort_values frame false best best_cost cs)
  unfolding select_loop
  select_loop-FirstPass [] none best_cost = tt
  select_loop-FirstPass [] (some b) best_cost = tt
  select_loop-FirstPass (c ∷ cs) best best_cost =
      elim (Bool-cases (passes_gates P sort_values (measured c))) [
        | inl passes ↦ rw passes (record {
          before = [];
          chosen = c;
          after = cs;
          split = refl;
          earlier_fail = tt;
          passes = passes;
          selected = refl;
        })
        | inr fails ↦ rw fails (FirstPass-cons c cs _ fails (select_loop-FirstPass cs _ _))
      ]

  -- Without the fallback: on a frame with a row outside the calibration split, or with no row, the
  -- selection is refused; on any other it returns the first candidate, in the order of the product,
  -- whose metrics pass the gates, with those metrics, and raises only if no candidate passes.
  pub select_policy-FirstPass :
      if only_calibration P sort_values frame
      then FirstPass candidates (select_policy P sort_values frame false)
      else select_policy P sort_values frame false ≡ err value_error
  unfolding select_policy
  select_policy-FirstPass = elim (Bool-cases (only_calibration P sort_values frame)) [
    | inl calibration ↦ rw calibration (select_loop-FirstPass candidates none P.infinity)
    | inr other ↦ rw other refl
  ]
