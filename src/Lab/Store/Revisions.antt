-- ===== src/Lab/Store/Revisions.antt =====
-- A lab that is saved is found again.
use industrial_reliability_p.Base.{
  ℕ, ◌+◌, ◌≡◌, refl, sym, ap, subst, ◌∙◌, String, none, some, List, [], ◌∷◌, ◌++◌, get, put,
  get-put, arith, Option-cases, Result-cases, inl, inr, ok,
}
use industrial_reliability_p.Platform.{Uuid}
use industrial_reliability_p.Lab.Contracts.{LabDefinition}
use industrial_reliability_p.Lab.Tables.{LabRow, RevisionRow, LabDatabase}
use industrial_reliability_p.Lab.Store.{
  find_revision, insert_revision, next_revision, save_lab, get_lab,
}

module _ {F : Type 0} where
  find_revision-append :
      (lab_id : Uuid) (revision : ℕ) (rows : List (RevisionRow F)) (row : RevisionRow F)
      → find_revision lab_id revision rows ≡ none
      → row.lab_id ≡ lab_id
      → row.revision ≡ revision
      → find_revision lab_id revision (rows ++ row ∷ []) ≡ some row.definition
  unfolding find_revision
  find_revision-append lab_id revision [] row h same_lab same_revision = ground arith
  find_revision-append lab_id revision (other ∷ rows) row h same_lab same_revision =
      ground (arith, find_revision-append lab_id revision rows row)

  insert_revision-find :
      (row : RevisionRow F) (rows after : List (RevisionRow F))
      → insert_revision row rows ≡ ok after
      → find_revision row.lab_id row.revision after ≡ some row.definition
  unfolding insert_revision
  insert_revision-find row rows after h =
      elim (Option-cases (find_revision row.lab_id row.revision rows)) [
        | inr (definition, taken) ↦ absurd (ground arith)
        | inl absent ↦
            let same : rows ++ row ∷ [] ≡ after = ground arith in
            ap (find_revision row.lab_id row.revision) (sym same)
            ∙ find_revision-append row.lab_id row.revision rows row absent refl refl
      ]

  -- the lab as saved: the latest, by its revision, and the revision that the next save may expect
  abbrev IsSaved : Uuid → LabDatabase F × LabDefinition F → Type 0
  IsSaved lab_id (db, saved) =
      (get_lab lab_id none db ≡ some saved)
      × (get_lab lab_id (some saved.revision) db ≡ some saved)
      × (next_revision (get lab_id db.labs) saved.revision ≡ ok (saved.revision + 1))

  -- A lab that `save_lab` returns is what `get_lab` finds, as the latest revision and by its revision; and
  -- the revision is the one that a save of the lab may expect next.
  pub get_lab-save_lab :
      (digest_of : LabDefinition F → String) (definition saved : LabDefinition F) (expected : ℕ)
      (db after : LabDatabase F)
      → save_lab digest_of definition expected db ≡ ok (after, saved)
      → (get_lab definition.lab_id none after ≡ some saved)
        × (get_lab definition.lab_id (some saved.revision) after ≡ some saved)
        × (next_revision (get definition.lab_id after.labs) saved.revision
            ≡ ok (saved.revision + 1))
  unfolding save_lab get_lab next_revision
  get_lab-save_lab digest_of definition saved expected db after h =
      elim (Result-cases (next_revision (get definition.lab_id db.labs) expected)) [
        | inr (e, refused) ↦ absurd (ground arith)
        | inl (revision, next) ↦
            let saved_ : LabDefinition F = record definition { revision = revision } in
            let row : RevisionRow F = record {
              lab_id = definition.lab_id;
              revision = revision;
              definition = saved_;
              digest = digest_of definition;
            } in
            elim (Result-cases (insert_revision row db.revisions)) [
              | inr (e, refused) ↦ absurd (ground arith)
              | inl (rows, inserted) ↦
                  let lab : LabRow = record {
                    name = definition.name;
                    current_revision = revision;
                  } in
                  let made_db : LabDatabase F = record db {
                    labs = put definition.lab_id lab db.labs;
                    revisions = rows;
                  } in
                  let made : (made_db, saved_) ≡ (after, saved) = ground arith in
                  let found = insert_revision-find row db.revisions rows inserted in
                  let lab_found = get-put definition.lab_id lab db.labs in
                  subst (IsSaved definition.lab_id) made (
                    rw (get_lab, lab_found) found,
                    found,
                    rw (next_revision, lab_found) (ground arith),
                  )
            ]
      ]
