-- ===== src/Lab/Outbox/Rows.antt =====
-- The rows that a batch sends are rows of the outbox.
use industrial_reliability_p.Base.{
  ℕ, zero, suc, ◌≡◌, refl, Bool, true, ◌⊎◌, inl, inr, List, [], ◌∷◌, map, take, any, IsIn, IsIn-map,
  ◌==◌, arith, Bool-cases, if_intro,
}
use industrial_reliability_p.Platform.{Uuid, Platform}
use industrial_reliability_p.Lab.Tables.{LabOutboxRow}
use industrial_reliability_p.Lab.Outbox.{
  PayloadJson, Sent, comes_first, insert_row, unpublished, pending_rows, id_of_row, send_rows,
  record_of,
}

-- whether the rows hold a message
abbrev pub holds : Uuid → List LabOutboxRow → Bool
holds i rows = any (λ j. j == i) (map id_of_row rows)

holds-IsIn :
    (i : Uuid) (rows : List LabOutboxRow)
    → holds i rows ≡ true
    → (row : LabOutboxRow) × IsIn row rows × (id_of_row row ≡ i)
holds-IsIn i [] h = absurd (cc)
holds-IsIn i (row ∷ rows) h = elim (Bool-cases (id_of_row row == i)) [
  | inl same ↦ (row, inl refl, ground arith)
  | inr other ↦
      let (found, within, equal) = holds-IsIn i rows (ground arith) in (found, inr within, equal)
]

insert_row-IsIn :
    (row x : LabOutboxRow) (rows : List LabOutboxRow)
    → IsIn row (insert_row x rows)
    → (row ≡ x) ⊎ IsIn row rows
unfolding insert_row
insert_row-IsIn row x [] (inl same) = inl same
insert_row-IsIn row x [] (inr never) = absurd never
insert_row-IsIn row x (other ∷ rows) h =
    if_intro (λ l. IsIn row l → (row ≡ x) ⊎ IsIn row (other ∷ rows)) (comes_first x other)
      (x ∷ other ∷ rows) (other ∷ insert_row x rows) (λ first k. k)
      (λ later k. elim k [
        | inl same ↦ inr (inl same)
        | inr behind ↦ elim (insert_row-IsIn row x rows behind) [
          | inl same ↦ inl same
          | inr within ↦ inr (inr within)
        ]
      ])
      h

unpublished-IsIn :
    (row : LabOutboxRow) (rows : List LabOutboxRow) → IsIn row (unpublished rows) → IsIn row rows
unfolding unpublished
unpublished-IsIn row [] h = h
unpublished-IsIn row (first ∷ rows) h =
    if_intro (λ l. IsIn row l → IsIn row (first ∷ rows)) first.published (unpublished rows)
      (insert_row first (unpublished rows)) (λ published k. inr (unpublished-IsIn row rows k))
      (λ fresh k. elim (insert_row-IsIn row first (unpublished rows) k) [
        | inl same ↦ inl same
        | inr within ↦ inr (unpublished-IsIn row rows within)
      ])
      h

take-IsIn :
    (row : LabOutboxRow) (n : ℕ) (rows : List LabOutboxRow) → IsIn row (take n rows) → IsIn row rows
take-IsIn row zero rows h = absurd h
take-IsIn row (suc n) [] h = absurd h
take-IsIn row (suc n) (first ∷ rows) (inl same) = inl same
take-IsIn row (suc n) (first ∷ rows) (inr later) = inr (take-IsIn row n rows later)

send_rows-IsIn :
    (accepts : Uuid → Bool) (row : LabOutboxRow) (rows : List LabOutboxRow)
    → IsIn row (send_rows accepts rows)
    → IsIn row rows
unfolding send_rows
send_rows-IsIn accepts row [] h = h
send_rows-IsIn accepts row (first ∷ rows) h =
    if_intro (λ l. IsIn row l → IsIn row (first ∷ rows)) (accepts (id_of_row first))
      (first ∷ send_rows accepts rows) []
      (λ accepted k. elim k [
        | inl same ↦ inl same
        | inr later ↦ inr (send_rows-IsIn accepts row rows later)
      ])
      (λ refused never. absurd never) h

module _ (P : Platform) (J : PayloadJson) where
  -- the record of a row of the table with the id was sent
  abbrev pub IsSent : List LabOutboxRow → List Sent → Uuid → Type 0
  IsSent table sent i =
      (row : LabOutboxRow) × IsIn row table × (id_of_row row ≡ i) × IsIn (record_of P J row) sent

  pub holds-IsSent :
      (accepts : Uuid → Bool) (limit : ℕ) (rows : List LabOutboxRow) (i : Uuid)
      → let done = send_rows accepts (pending_rows limit rows) in
        holds i done ≡ true → IsSent rows (map (record_of P J) done) i
  holds-IsSent accepts limit rows i h =
      let done = send_rows accepts (pending_rows limit rows) in
      let (row, within, equal) = holds-IsIn i done h in
      let pending = send_rows-IsIn accepts row (pending_rows limit rows) within in
      (
        row,
        unpublished-IsIn row rows (take-IsIn row limit (unpublished rows) pending),
        equal,
        IsIn-map (record_of P J) row done within,
      )
