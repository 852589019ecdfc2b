-- ===== src/Lab/Store/Commands.antt =====
-- Commands are accepted once, and by one control revision.
use industrial_reliability_p.Base.{
  ◌+◌, ◌≡◌, refl, sym, ap, subst, ◌∙◌, String, false, Option, none, some, List, [], ◌∷◌, ◌++◌, ◌==◌,
  get, put, get-put, arith, Bool-cases, Option-cases, inl, inr, Result, ok, err,
  command_revision_conflict_error, run_not_found_error,
}
use text.Mathlib.Text.{◌==◌ as str_eq}
use text.Mathlib.TextEquality.{eq_iff}
use industrial_reliability_p.Platform.{Uuid}
use industrial_reliability_p.Lab.Tables.{
  accepted, is_final, CommandRequest, CommandReceipt, RunRow, CommandRow, LabDatabase,
}
use industrial_reliability_p.Lab.Store.{
  find_command, accept_command, answer_command, submit_command,
}

find_command-append :
    (run_id command_id : Uuid) (rows : List CommandRow) (row : CommandRow)
    → find_command run_id command_id rows ≡ none
    → row.run_id ≡ run_id
    → row.receipt.command_id ≡ command_id
    → find_command run_id command_id (rows ++ row ∷ []) ≡ some row
unfolding find_command
find_command-append run_id command_id [] row h same_run same_id = ground arith
find_command-append run_id command_id (other ∷ rows) row h same_run same_id =
    ground (arith, find_command-append run_id command_id rows row)

find_command-other :
    (run_id command_id : Uuid) (rows : List CommandRow) (row : CommandRow)
    → (row.receipt.command_id == command_id) ≡ false
    → find_command run_id command_id (rows ++ row ∷ []) ≡ find_command run_id command_id rows
unfolding find_command
find_command-other run_id command_id [] row other = ground arith
find_command-other run_id command_id (first ∷ rows) row other =
    ground (arith, find_command-other run_id command_id rows row)

module _ {F : Type 0} where
  -- what a command that is accepted leaves
  record Accepted (payload_hash : String) (run_id : Uuid) (request : CommandRequest)
      (run : RunRow F) (db after : LabDatabase F) (receipt : CommandReceipt) : Type 0 where
    row : CommandRow
    commands : after.commands ≡ db.commands ++ row ∷ []
    of_run : row.run_id ≡ run_id
    of_hash : row.payload_hash ≡ payload_hash
    of_receipt : row.receipt ≡ receipt
    of_id : receipt.command_id ≡ request.command_id
    next : RunRow F
    run_after : get run_id after.runs ≡ some next
    advanced : next.control_revision ≡ request.expected_control_revision + 1
    still : is_final next.status ≡ false

  accept_command-Accepted :
      (payload_hash : String) (run_id : Uuid) (request : CommandRequest) (run : RunRow F)
      (db after : LabDatabase F) (receipt : CommandReceipt)
      → accept_command payload_hash run_id request run db ≡ ok (after, receipt)
      → Accepted payload_hash run_id request run db after receipt
  unfolding accept_command
  accept_command-Accepted payload_hash run_id request run db after receipt h =
      let made : CommandReceipt = record {
        command_id = request.command_id;
        status = accepted;
        accepted_sequence = run.accepted_sequence + 1;
        effective_tick = none;
        control_revision = run.control_revision + 1;
        reason_code = none;
      } in
      let new_row : CommandRow = record {
        run_id = run_id;
        payload_hash = payload_hash;
        action = request.action;
        target_id = request.target_id;
        parameters = request.parameters;
        receipt = made;
      } in
      let next_run : RunRow F = record run {
        control_revision = run.control_revision + 1;
        accepted_sequence = run.accepted_sequence + 1;
      } in
      let runs_same : put run_id next_run db.runs ≡ after.runs = ground arith in
      record {
        row = new_row;
        commands = ground arith;
        of_run = refl;
        of_hash = refl;
        of_receipt = ground arith;
        of_id = ground arith;
        next = next_run;
        run_after = ap (get run_id) (sym runs_same) ∙ get-put run_id next_run db.runs;
        advanced = ground arith;
        still = ground arith;
      }

  -- a command that is known is answered as before
  answer_known :
      (payload_hash : String) (run_id : Uuid) (request : CommandRequest) (db : LabDatabase F)
      (row : CommandRow) (run : Option (RunRow F)) (receipt : CommandReceipt)
      → row.payload_hash ≡ payload_hash
      → row.receipt ≡ receipt
      → answer_command payload_hash run_id request db (some row) run ≡ ok (db, receipt)
  answer_known payload_hash run_id request db row run receipt same_hash same_receipt =
      let equal = (eq_iff row.payload_hash payload_hash).1 same_hash in
      rw (equal, same_receipt) refl

  -- A command that was answered is answered the same when it is submitted again, and changes nothing.
  pub submit_command_again :
      (hash_of : CommandRequest → String) (run_id : Uuid) (request : CommandRequest)
      (db after : LabDatabase F) (receipt : CommandReceipt)
      → submit_command hash_of run_id request db ≡ ok (after, receipt)
      → submit_command hash_of run_id request after ≡ ok (after, receipt)
  unfolding submit_command
  submit_command_again hash_of run_id request db after receipt h =
      elim (Option-cases (find_command run_id request.command_id db.commands)) [
        | inr (row, found) ↦ elim (Bool-cases (str_eq row.payload_hash (hash_of request))) [
          | inr other ↦ absurd (ground arith)
          | inl same ↦
              let same_db : db ≡ after = ground arith in
              subst (λ d. submit_command hash_of run_id request d ≡ ok (d, receipt)) same_db
                (h ∙ ap (λ d. ok (d, receipt)) (sym same_db))
        ]
        | inl unknown ↦ elim (Option-cases (get run_id db.runs)) [
          | inl absent ↦ absurd (ground arith)
          | inr (run, there) ↦
              let done : accept_command (hash_of request) run_id request run db
                  ≡ ok (after, receipt) =
                ap2 (answer_command (hash_of request) run_id request db) (sym unknown) (sym there)
                ∙ h in
              let a =
                accept_command-Accepted (hash_of request) run_id request run db after receipt
                  done in
              let found =
                ap (find_command run_id request.command_id) a.commands
                ∙ find_command-append run_id request.command_id db.commands a.row unknown a.of_run
                    (ap (λ (r : CommandReceipt). r.command_id) a.of_receipt ∙ a.of_id) in
              ap
                (λ known.
                  answer_command (hash_of request) run_id request after known
                    (get run_id after.runs))
                found
              ∙ answer_known (hash_of request) run_id request after a.row (get run_id after.runs)
                  receipt a.of_hash a.of_receipt
        ]
      ]
    where
      ap2 :
          (f : Option CommandRow → Option (RunRow F) → Result (LabDatabase F × CommandReceipt))
          → {a b : Option CommandRow} {c d : Option (RunRow F)} → a ≡ b
          → c ≡ d
          → f a c ≡ f b d
      ap2 f p q = cc

  stale_refused :
      (payload_hash : String) (run_id : Uuid) (request : CommandRequest) (run : RunRow F)
      (db : LabDatabase F)
      → is_final run.status ≡ false
      → (request.expected_control_revision == run.control_revision) ≡ false
      → accept_command payload_hash run_id request run db ≡ err command_revision_conflict_error
  unfolding accept_command
  stale_refused payload_hash run_id request run db live stale = ground arith

  -- Of two commands of a run that are not known and expect the same control revision, the second is refused
  -- with a revision conflict once the first is accepted.
  pub submit_command-conflict :
      (hash_of : CommandRequest → String) (run_id : Uuid) (first second : CommandRequest)
      (db after : LabDatabase F) (receipt : CommandReceipt)
      → submit_command hash_of run_id first db ≡ ok (after, receipt)
      → find_command run_id first.command_id db.commands ≡ none
      → find_command run_id second.command_id db.commands ≡ none
      → (first.command_id == second.command_id) ≡ false
      → first.expected_control_revision ≡ second.expected_control_revision
      → submit_command hash_of run_id second after ≡ err command_revision_conflict_error
  unfolding submit_command
  submit_command-conflict hash_of run_id first second db after receipt h new new_too other same =
      elim (Option-cases (get run_id db.runs)) [
        | inl absent ↦ absurd (
            refused
              (ap2 (answer_command (hash_of first) run_id first db) (sym new) (sym absent) ∙ h))
        | inr (run, there) ↦
            let done : accept_command (hash_of first) run_id first run db ≡ ok (after, receipt) =
              ap2 (answer_command (hash_of first) run_id first db) (sym new) (sym there) ∙ h in
            let a =
              accept_command-Accepted (hash_of first) run_id first run db after receipt done in
            let id_other : (a.row.receipt.command_id == second.command_id) ≡ false =
              ap (λ (r : CommandReceipt). r.command_id == second.command_id) a.of_receipt
              ∙ ap (λ i. i == second.command_id) a.of_id
              ∙ other in
            let unknown =
              ap (find_command run_id second.command_id) a.commands
              ∙ find_command-other run_id second.command_id db.commands a.row id_other
              ∙ new_too in
            ap2 (answer_command (hash_of second) run_id second after) unknown a.run_after
            ∙ stale_refused (hash_of second) run_id second a.next after a.still
                (ground (arith, a.advanced, same))
      ]
    where
      ap2 :
          (f : Option CommandRow → Option (RunRow F) → Result (LabDatabase F × CommandReceipt))
          → {a b : Option CommandRow} {c d : Option (RunRow F)} → a ≡ b
          → c ≡ d
          → f a c ≡ f b d
      ap2 f p q = cc

      refused :
          ◌≡◌ {A = Result (LabDatabase F × CommandReceipt)}
            (err run_not_found_error)
            (ok (after, receipt))
          → ⊥
      refused p = cc
