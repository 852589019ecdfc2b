-- ===== src/Lab/Outbox/Drains.antt =====
-- What a batch of the outbox marks.
use industrial_reliability_p.Base.{
  ℕ, zero, suc, ◌≤◌, ◌≡◌, refl, sym, ap, ◌∙◌, subst, Bool, true, false, ◌||◌, ◌⊎◌, inl, inr, List,
  [], ◌∷◌, map, length, take, any, all, All, ◌==◌, arith, Bool-cases, if_intro, length-map,
  weaken_each,
}
use industrial_reliability_p.Platform.{Uuid, Platform}
use industrial_reliability_p.Lab.Tables.{LabOutboxRow}
use industrial_reliability_p.Lab.Outbox.{
  comes_first, insert_row, unpublished, pending_rows, id_of_row, mark_published, send_rows,
  dispatch_batch, PayloadJson, Sent, record_of,
}
use industrial_reliability_p.Lab.Outbox.Rows.{holds, IsSent, holds-IsSent}

module _ (P : Platform) (J : PayloadJson) (accepts : Uuid → Bool) (table : List LabOutboxRow)
    (sent : List Sent) where
  -- a row behind is as before, or it is published, the broker has accepted its message, and its record was sent
  abbrev pub IsAccountedRow : LabOutboxRow → LabOutboxRow → Type 0
  IsAccountedRow row row' =
      (row' ≡ row)
      ⊎ ((row' ≡ record row { published = true })
          × (accepts (id_of_row row) ≡ true)
          × IsSent P J table sent (id_of_row row))

  abbrev pub IsAccounted : List LabOutboxRow → List LabOutboxRow → Type 0
  IsAccounted [] after = after ≡ []
  IsAccounted (row ∷ rows) [] = ⊥
  IsAccounted (row ∷ rows) (row' ∷ after) = IsAccountedRow row row' × IsAccounted rows after

  mark_published-IsAccounted :
      (ids : List Uuid) (rows : List LabOutboxRow)
      → ((i : Uuid) → any (λ j. j == i) ids ≡ true → (accepts i ≡ true) × IsSent P J table sent i)
      → IsAccounted rows (mark_published ids rows)
  mark_published-IsAccounted ids [] h = refl
  mark_published-IsAccounted ids (row ∷ rows) h = (
    if_intro (IsAccountedRow row) (any (λ i. i == id_of_row row) ids)
        (record row { published = true }) row
        (λ marked. let (took, went) = h (id_of_row row) marked in inr (refl, took, went))
        (λ left. inl refl),
    mark_published-IsAccounted ids rows h,
  )

  unmarked : (rows : List LabOutboxRow) → IsAccounted rows rows
  unmarked [] = refl
  unmarked (row ∷ rows) = (inl refl, unmarked rows)

send_rows-accepted :
    (accepts : Uuid → Bool) (rows : List LabOutboxRow) (i : Uuid)
    → holds i (send_rows accepts rows) ≡ true
    → accepts i ≡ true
unfolding send_rows
send_rows-accepted accepts [] i h = absurd (cc)
send_rows-accepted accepts (row ∷ rows) i h = elim (Bool-cases (accepts (id_of_row row))) [
  | inr refused ↦ absurd (ground arith)
  | inl accepted ↦ elim (Bool-cases (id_of_row row == i)) [
    | inl same ↦
        let equal : id_of_row row ≡ i = ground arith in subst (λ j. accepts j ≡ true) equal accepted
    | inr other ↦ send_rows-accepted accepts rows i (ground arith)
  ]
]

all_sent :
    (accepts : Uuid → Bool) (rows : List LabOutboxRow)
    → ((i : Uuid) → accepts i ≡ true)
    → send_rows accepts rows ≡ rows
unfolding send_rows
all_sent accepts [] always = refl
all_sent accepts (row ∷ rows) always =
    let accepted : accepts (id_of_row row) ≡ true = always (id_of_row row) in
    ground (arith, all_sent accepts rows always)

take_all : (n : ℕ) (rows : List LabOutboxRow) → length rows ≤ n → take n rows ≡ rows
take_all zero [] h = refl
take_all zero (row ∷ rows) h = absurd (omega arith)
take_all (suc n) [] h = refl
take_all (suc n) (row ∷ rows) h = ap (λ later. row ∷ later) (take_all n rows (omega arith))

holds-insert_row :
    (i : Uuid) (row : LabOutboxRow) (rows : List LabOutboxRow)
    → holds i (insert_row row rows) ≡ ((id_of_row row == i) || holds i rows)
unfolding insert_row
holds-insert_row i row [] = refl
holds-insert_row i row (other ∷ rows) = elim (Bool-cases (comes_first row other)) [
  | inl first ↦ ground arith
  | inr later ↦ ground (arith, holds-insert_row i row rows)
]

-- the query finds every row that is not published
unpublished-holds :
    (rows found : List LabOutboxRow)
    → ((i : Uuid) → holds i (unpublished rows) ≡ true → holds i found ≡ true)
    → All (λ row. row.published ≡ false → holds (id_of_row row) found ≡ true) rows
unfolding unpublished
unpublished-holds [] found h = tt
unpublished-holds (row ∷ rows) found h = elim (Bool-cases row.published) [
  | inl published ↦ (λ p. absurd (cc), unpublished-holds rows found (λ i k. h i (ground arith)))
  | inr fresh ↦ (
    λ p.
        h (id_of_row row) (ground (arith, holds-insert_row (id_of_row row) row (unpublished rows))),
    unpublished-holds rows found
        (λ i k. h i (ground (arith, holds-insert_row i row (unpublished rows)))),
  )
]

marks_all :
    (ids : List Uuid) (rows : List LabOutboxRow)
    → All (λ row. row.published ≡ false → any (λ j. j == id_of_row row) ids ≡ true) rows
    → all (λ row. row.published) (mark_published ids rows) ≡ true
marks_all ids [] h = refl
marks_all ids (row ∷ rows) (first, later) =
    let rest = marks_all ids rows later in
    elim (Bool-cases row.published) [
      | inl published ↦ ground arith
      | inr fresh ↦ let marked = first fresh in ground arith
    ]

module _ (P : Platform) (J : PayloadJson) where
  -- Whatever the broker answers, a batch leaves each row of the outbox as it was, or published; and a row that it
  -- publishes is one whose message the broker has accepted, and the batch has sent the record of a row with its
  -- message id. The count that the batch returns is the number of the records that it has sent.
  pub dispatch_batch-IsAccounted :
      (accepts : Uuid → Bool) (running : Bool) (limit : ℕ) (rows : List LabOutboxRow)
      → let batch = dispatch_batch P J accepts running limit rows in
        IsAccounted P J accepts rows batch.sent rows batch.rows × (batch.count ≡ length batch.sent)
  unfolding dispatch_batch
  dispatch_batch-IsAccounted accepts false limit rows = (unmarked P J accepts rows [] rows, refl)
  dispatch_batch-IsAccounted accepts true limit rows =
      let done = send_rows accepts (pending_rows limit rows) in
      (
        mark_published-IsAccounted P J accepts rows (map (record_of P J) done) (map id_of_row done)
            rows
            (λ i h. (
              send_rows-accepted accepts (pending_rows limit rows) i h,
              holds-IsSent P J accepts limit rows i h,
            )),
        sym (length-map (record_of P J) done),
      )

  -- A batch of a running publisher, whose limit is not below the number of the unpublished rows and whose sends
  -- the broker accepts, leaves every row published, and has sent, for the message id of every row that was not
  -- published, the record of a row with that id.
  pub dispatch_batch_drains :
      (accepts : Uuid → Bool) (limit : ℕ) (rows : List LabOutboxRow)
      → ((i : Uuid) → accepts i ≡ true)
      → length (unpublished rows) ≤ limit
      → let batch = dispatch_batch P J accepts true limit rows in
        (all (λ row. row.published) batch.rows ≡ true)
        × All (λ row. (row.published ≡ true) ⊎ IsSent P J rows batch.sent (id_of_row row)) rows
  unfolding dispatch_batch
  dispatch_batch_drains accepts limit rows always room =
      let done = send_rows accepts (pending_rows limit rows) in
      let every : done ≡ unpublished rows =
        all_sent accepts (pending_rows limit rows) always
        ∙ take_all limit (unpublished rows) room in
      let found =
        subst
          (λ found. All (λ row. row.published ≡ false → holds (id_of_row row) found ≡ true) rows)
          (sym every) (unpublished-holds rows (unpublished rows) (λ i h. h)) in
      (
        marks_all (map id_of_row done) rows found,
        weaken_each (λ row. row.published ≡ false → holds (id_of_row row) done ≡ true)
            (λ row.
              (row.published ≡ true) ⊎ IsSent P J rows (map (record_of P J) done) (id_of_row row))
            rows
            (λ row h. elim (Bool-cases row.published) [
              | inl published ↦ inl published
              | inr fresh ↦ inr (holds-IsSent P J accepts limit rows (id_of_row row) (h fresh))
            ])
            found,
      )
