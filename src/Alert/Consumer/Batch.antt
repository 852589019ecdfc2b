-- ===== src/Alert/Consumer/Batch.antt =====
-- The offsets that a batch commits.
use industrial_reliability_p.Base.{
  ℕ, zero, String, suc, not, Result, ok, err, ◌+◌, Bool, true, false, Option, List, [], ◌∷◌,
}
use industrial_reliability_p.Platform.{Platform}
use industrial_reliability_p.Messages.{ScoreDecisionV1}
use industrial_reliability_p.Alert.Model.{LockedAlertPolicyV1}
use industrial_reliability_p.Alert.Consumer.{
  Fresh, AlertConsumer, Record, BatchEnd, finished, halted, raised, is_session_failed, process,
  ProcessOutcome,
}

-- how many records were processed, of a batch that committed so many
abbrev pub attempted : BatchEnd → ℕ → ℕ
attempted finished n = n
attempted halted n = n + 1
attempted raised n = n + 1

abbrev pub is_finished : BatchEnd → Bool
is_finished finished = true
is_finished _ = false

-- a record after which the batch goes on
abbrev pub continues : Result ProcessOutcome → Bool
continues (ok outcome) = not (is_session_failed outcome)
continues (err e) = false

-- how a batch ends whose next record, if there is one, does not let it go on
abbrev pub end_at : List (Result ProcessOutcome) → BatchEnd
end_at [] = finished
end_at (ok outcome ∷ rest) = halted
end_at (err e ∷ rest) = raised

abbrev pub drop {ℓ} : {A : Type ℓ} → ℕ → List A → List A
drop zero xs = xs
drop (suc n) [] = []
drop (suc n) (x ∷ xs) = drop n xs

module _ {B : Type 0} where
  abbrev pub commit_of : Fresh × Record B → ℕ × ℕ
  commit_of (fresh, r) = (r.partition, r.offset + 1)

  abbrev pub raw_of : Fresh × Record B → Fresh × B
  raw_of (fresh, r) = (fresh, r.value)

module _ (P : Platform) {B : Type 0} (decode : B → Option (ScoreDecisionV1 P.Float))
    (policy : LockedAlertPolicyV1 P.Float) (machine_id : String) where
  open P use {Float}

  -- the results of the records of a batch, each processed whatever the earlier ones gave
  abbrev pub results :
      List (Fresh × Record B) → AlertConsumer Float B → List (Result ProcessOutcome)
  results [] c = []
  results ((fresh, r) ∷ batch) c =
      let (c', result) = process P decode policy machine_id fresh r.value c in
      result ∷ results batch c'
