-- ===== src/Alert/Consumer/Outbox.antt =====
-- The outbox dispatcher publishes every row.
use industrial_reliability_p.Base.{
  ℕ, zero, suc, ◌+◌, ◌-◌, ◌≤◌, ◌<◌, ◌≡◌, refl, Bool, true, false, not, ltb, Bool-cases, IsIn,
  IsIn-map, All, prove_each, map, ap, sym, ◌∙◌, subst, if_intro, ◌⊎◌, ◌&&◌, none, some, List, [],
  ◌∷◌, ◌++◌, any, length, length-append, ◌==◌, arith, if◌then◌else◌, Option-cases, inl, inr,
}
use industrial_reliability_p.Platform.{Uuid}
use industrial_reliability_p.Messages.{AlertEventV1}
use industrial_reliability_p.Alert.Tables.{
  OutboxRow, next_unpublished_outbox, mark_outbox_published,
}
use industrial_reliability_p.Alert.Consumer.{dispatch_one}

abbrev pub count_unpublished : List OutboxRow → ℕ
count_unpublished [] = 0
count_unpublished (row ∷ rows) =
    let rest = count_unpublished rows in if row.is_published then rest else rest + 1

abbrev has_unpublished : Uuid → List OutboxRow → Bool
has_unpublished id = any (λ row. not row.is_published && row.message_id == id)

-- successive calls of `dispatch_one` whose sends succeed
abbrev pub dispatch_all : ℕ → List OutboxRow → List OutboxRow × List AlertEventV1
dispatch_all zero rows = (rows, [])
dispatch_all (suc n) rows =
    let (found, left, sent) = dispatch_one rows in
    let (after, later) = dispatch_all n left in (after, sent ++ later)

next-none :
    (rows : List OutboxRow) → next_unpublished_outbox rows ≡ none → count_unpublished rows ≡ 0
unfolding next_unpublished_outbox
next-none [] h = refl
next-none (row ∷ rows) h = ground (arith, next-none rows)

next-some :
    (rows : List OutboxRow) (row : OutboxRow)
    → next_unpublished_outbox rows ≡ some row
    → has_unpublished row.message_id rows ≡ true
unfolding next_unpublished_outbox
next-some [] row h = absurd (cc)
next-some (first ∷ rows) row h = elim (Option-cases (next_unpublished_outbox rows)) [
  | inl absent ↦ ground arith
  | inr (other, found) ↦ ground (arith, next-some rows other found)
]

mark-le :
    (id : Uuid) (rows : List OutboxRow)
    → count_unpublished (mark_outbox_published id rows) ≤ count_unpublished rows
unfolding mark_outbox_published
mark-le id [] = omega arith
mark-le id (row ∷ rows) = ground (arith, mark-le id rows)

mark-lt :
    (id : Uuid) (rows : List OutboxRow)
    → has_unpublished id rows ≡ true
    → count_unpublished (mark_outbox_published id rows) < count_unpublished rows
unfolding mark_outbox_published
mark-lt id [] h = absurd (cc)
mark-lt id (row ∷ rows) h = ground (arith, mark-le id rows, mark-lt id rows)

-- a call sends at most one event for each row that it publishes, and publishes one if there is one
dispatch_one-progress :
    (rows : List OutboxRow)
    → let (found, left, sent) = dispatch_one rows in
      (count_unpublished left + length sent ≤ count_unpublished rows)
      × (count_unpublished left ≤ count_unpublished rows - 1)
unfolding dispatch_one
dispatch_one-progress rows = elim (Option-cases (next_unpublished_outbox rows)) [
  | inl absent ↦
      let zero_left = next-none rows absent in rw (dispatch_one, absent) (omega arith, omega arith)
  | inr (row, found) ↦
      let less = mark-lt row.message_id rows (next-some rows row found) in
      rw (dispatch_one, found) (omega arith, omega arith)
]

dispatch_all-bounds :
    (n : ℕ) (rows : List OutboxRow)
    → count_unpublished rows ≤ n
    → (count_unpublished (dispatch_all n rows).0 ≡ 0)
      × (length (dispatch_all n rows).1 ≤ count_unpublished rows)
dispatch_all-bounds zero rows h = (omega arith, omega arith)
dispatch_all-bounds (suc n) rows h =
    let (found, left, sent) = dispatch_one rows in
    let (fewer, progress) = dispatch_one-progress rows in
    let (drained, bounded) = dispatch_all-bounds n left (omega arith) in
    (drained, omega (arith, length-append sent (dispatch_all n left).1))

-- the messages of the rows, by their ids
abbrev pub messages_of : List OutboxRow → List (Uuid × AlertEventV1)
messages_of rows = map (λ (row : OutboxRow). (row.message_id, row.payload)) rows

-- the event of a row with the id was sent
abbrev pub Delivered : List OutboxRow → Uuid → List AlertEventV1 → Type 0
Delivered rows id sent =
    (payload : AlertEventV1) × IsIn (id, payload) (messages_of rows) × IsIn payload sent

next-IsIn :
    (rows : List OutboxRow) (row : OutboxRow)
    → next_unpublished_outbox rows ≡ some row
    → IsIn row rows
unfolding next_unpublished_outbox
next-IsIn [] row h = absurd (cc)
next-IsIn (first ∷ rows) row h = elim (Option-cases (next_unpublished_outbox rows)) [
  | inl absent ↦ inl (ground arith)
  | inr (other, found) ↦ elim (Bool-cases first.is_published) [
    | inl published ↦ inr (next-IsIn rows row (ground arith))
    | inr fresh ↦ elim (Bool-cases (ltb other.message_id first.message_id)) [
      | inl earlier ↦ inr (next-IsIn rows row (ground arith))
      | inr later ↦ inl (ground arith)
    ]
  ]
]

count-IsIn :
    (rows : List OutboxRow) (row : OutboxRow)
    → IsIn row rows
    → row.is_published ≡ false
    → 1 ≤ count_unpublished rows
count-IsIn [] row h fresh = absurd h
count-IsIn (first ∷ rows) row (inl same) fresh =
    let first_fresh : first.is_published ≡ false =
      ap (λ (r : OutboxRow). r.is_published) (sym same) ∙ fresh in
    ground arith
count-IsIn (first ∷ rows) row (inr later) fresh = ground (arith, count-IsIn rows row later fresh)

-- a mark leaves the messages, and the rows of other ids
messages-mark :
    (id : Uuid) (rows : List OutboxRow)
    → messages_of (mark_outbox_published id rows) ≡ messages_of rows
unfolding mark_outbox_published
messages-mark id [] = refl
messages-mark id (row ∷ rows) = ground (arith, messages-mark id rows)

mark-IsIn :
    (id : Uuid) (rows : List OutboxRow) (row : OutboxRow)
    → (row.message_id == id) ≡ false
    → IsIn row rows
    → IsIn row (mark_outbox_published id rows)
unfolding mark_outbox_published
mark-IsIn id [] row other h = h
mark-IsIn id (first ∷ rows) row other (inl same) =
    let differs : (first.message_id == id) ≡ false =
      ap (λ (r : OutboxRow). r.message_id == id) (sym same) ∙ other in
    rw differs (inl same)
mark-IsIn id (first ∷ rows) row other (inr later) =
    let rest = mark-IsIn id rows row other later in
    if_intro (λ l. IsIn row l) (first.message_id == id)
      (record first { is_published = true } ∷ mark_outbox_published id rows)
      (first ∷ mark_outbox_published id rows) (λ a. inr rest) (λ b. inr rest)

dispatch_all-Delivered :
    (n : ℕ) (rows : List OutboxRow) (row : OutboxRow)
    → count_unpublished rows ≤ n
    → IsIn row rows
    → row.is_published ≡ false
    → Delivered rows row.message_id (dispatch_all n rows).1
unfolding dispatch_one
dispatch_all-Delivered zero rows row h within fresh =
    absurd (omega (arith, count-IsIn rows row within fresh))
dispatch_all-Delivered (suc n) rows row h within fresh =
    elim (Option-cases (next_unpublished_outbox rows)) [
      | inl absent ↦ absurd (omega (arith, count-IsIn rows row within fresh, next-none rows absent))
      | inr (picked, found) ↦ elim (Bool-cases (row.message_id == picked.message_id)) [
        | inl same ↦
            let equal : picked.message_id ≡ row.message_id = ground arith in
            (
              picked.payload,
              subst (λ i. IsIn (i, picked.payload) (messages_of rows)) equal
                  (IsIn-map (λ (r : OutboxRow). (r.message_id, r.payload)) picked rows
                    (next-IsIn rows picked found)),
              rw (dispatch_one, IsIn, found) (inl refl),
            )
        | inr other ↦
            let left = mark_outbox_published picked.message_id rows in
            let less = mark-lt picked.message_id rows (next-some rows picked found) in
            let (payload, held, sent) =
              dispatch_all-Delivered n left row (omega arith)
                (mark-IsIn picked.message_id rows row other within) fresh in
            (
              payload,
              subst (λ ms. IsIn (row.message_id, payload) ms) (messages-mark picked.message_id rows)
                  held,
              rw (dispatch_one, IsIn, found) (inr sent),
            )
      ]
    ]

-- The dispatcher drains the outbox: as many calls as there are unpublished rows, or more, when every send
-- succeeds, leave every row published, send no more events than there were unpublished rows, and for the id of
-- every row that was not published they send an event that a row of that id holds.
pub dispatch_all-drains :
    (n : ℕ) (rows : List OutboxRow)
    → count_unpublished rows ≤ n
    → (count_unpublished (dispatch_all n rows).0 ≡ 0)
      × (length (dispatch_all n rows).1 ≤ count_unpublished rows)
      × All
          (λ row. (row.is_published ≡ true) ⊎ Delivered rows row.message_id (dispatch_all n rows).1)
          rows
dispatch_all-drains n rows h =
    let (drained, bounded) = dispatch_all-bounds n rows h in
    (
      drained,
      bounded,
      prove_each
          (λ row. (row.is_published ≡ true) ⊎ Delivered rows row.message_id (dispatch_all n rows).1)
          rows
          (λ row within. elim (Bool-cases row.is_published) [
            | inl published ↦ inl published
            | inr fresh ↦ inr (dispatch_all-Delivered n rows row h within fresh)
          ]),
    )
