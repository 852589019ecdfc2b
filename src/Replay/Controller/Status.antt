-- ===== src/Replay/Controller/Status.antt =====
-- Every controller that the code can reach has a status that its model accepts.
use Prim.Native.String.append
use Prim.Native.String.{◌++◌ as ◌<>◌}
use industrial_reliability_p.Base.{
  ℕ, String, ◌≡◌, refl, sym, ◌∙◌, true, false, Option, none, some, arith, ok, returns,
  if◌then◌else◌, Bool-cases, inl, inr, is_some,
}
use text.Mathlib.Text.{◌==◌ as str_eq}
use text.Mathlib.TextEquality.{eq_iff}
use industrial_reliability_p.Platform.{Uuid, Datetime, Platform}
use industrial_reliability_p.Ids.{runtime_id}
use industrial_reliability_p.Messages.{
  ReplayState, created, running, paused, stopped, completed, failed, ReplayCommandV1,
}
use industrial_reliability_p.Messages.Validate.{
  is_hex64, validate_envelope, validate_start_command, validate_control_command, validate_command,
  validate_status, is_terminal, is_failed, is_nonempty,
}
use industrial_reliability_p.Replay.Controller.{
  ReplayController, new_controller, apply, mark_completed, mark_failed, state_str, sequence_str,
  status,
}

abbrev pub Naive : Option Datetime → Type 0
Naive none = Unit
Naive (some t) = t.aware ≡ false

pub record IsConsistent (c : ReplayController) : Type 0 where
  pub dataset_hash : is_hex64 c.source_dataset_sha256 ≡ true
  pub contract_hash : is_hex64 c.contract_sha256 ≡ true
  pub current : Naive c.current_source_timestamp
  pub start : Naive c.range_start
  pub sequence : is_terminal c.state ≡ true → is_some c.last_sequence ≡ true
  pub error : if is_failed c.state then is_nonempty c.error_code ≡ true else c.error_code ≡ none

-- The controllers that are built from hashes, times and codes as the replay service has them: a new one with
-- well-formed hashes, the result of a command that its model and the controller accept, a completion at a naive
-- time, and a failure at a naive time with a code. The controller itself checks none of these.
pub data Reaches : ReplayController → Type 0 where
  fresh :
      (session : Uuid) (dataset contract : String)
      → is_hex64 dataset ≡ true
      → is_hex64 contract ≡ true
      → Reaches (new_controller session dataset contract)
  commanded :
      (c c' : ReplayController) (command : ReplayCommandV1)
      → Reaches c
      → validate_command command ≡ ok tt
      → apply c command ≡ ok c'
      → Reaches c'
  finished :
      (c : ReplayController) (n : ℕ) (t : Datetime)
      → Reaches c
      → t.aware ≡ false
      → Reaches (mark_completed c n t)
  broken :
      (c : ReplayController) (code : String) (n : ℕ) (t : Datetime)
      → Reaches c
      → is_nonempty (some code) ≡ true
      → t.aware ≡ false
      → Reaches (mark_failed c code n t)

-- an accepted command has well-formed hashes and naive times
accepted_command :
    (command : ReplayCommandV1)
    → validate_command command ≡ ok tt
    → (is_hex64 command.source_dataset_sha256 ≡ true)
      × (is_hex64 command.contract_sha256 ≡ true)
      × (command.source_timestamp.aware ≡ false)
      × Naive command.range_start
unfolding validate_command validate_envelope validate_start_command validate_control_command
accepted_command command h = ground arith

apply-IsConsistent :
    (c c' : ReplayController) (command : ReplayCommandV1)
    → IsConsistent c
    → validate_command command ≡ ok tt
    → apply c command ≡ ok c'
    → IsConsistent c'
unfolding apply
apply-IsConsistent c c' command i v h =
    let a = accepted_command command v in
    record {
      dataset_hash = ground (arith, i.dataset_hash, a.0);
      contract_hash = ground (arith, i.contract_hash, a.1);
      current = ground (arith, a.2);
      start = ground (arith, a.3, i.start);
      sequence = λ t. ground arith;
      error = ground arith;
    }

pub Reaches-IsConsistent : {c : ReplayController} → Reaches c → IsConsistent c
unfolding new_controller mark_completed mark_failed
Reaches-IsConsistent (fresh session dataset contract hd hc) = record {
  dataset_hash = hd;
  contract_hash = hc;
  current = tt;
  start = tt;
  sequence = λ t. cc;
  error = refl;
}
Reaches-IsConsistent (commanded c c' command r v h) =
    apply-IsConsistent c c' command (Reaches-IsConsistent r) v h
Reaches-IsConsistent (finished c n t r h) =
    let i = Reaches-IsConsistent r in
    record {
      dataset_hash = i.dataset_hash;
      contract_hash = i.contract_hash;
      current = h;
      start = i.start;
      sequence = λ t. refl;
      error = refl;
    }
Reaches-IsConsistent (broken c code n t r hc h) =
    let i = Reaches-IsConsistent r in
    record {
      dataset_hash = i.dataset_hash;
      contract_hash = i.contract_hash;
      current = h;
      start = i.start;
      sequence = λ t. refl;
      error = hc;
    }

append_nonempty : (s rest : String) → str_eq s "" ≡ false → str_eq (s <> rest) "" ≡ false
append_nonempty String.[] rest h = absurd (cc)
append_nonempty (String.◌∷◌ c s) rest h = elim (Bool-cases (str_eq (String.◌∷◌ c s <> rest) "")) [
  | inr differs ↦ differs
  | inl same ↦
      let e : String.◌∷◌ c (s <> rest) ≡ "" =
        sym (append.cons c s rest) ∙ (eq_iff (String.◌∷◌ c s <> rest) "").0 same in
      absurd (cc)
]

identity_nonempty : (s : ReplayState) (rest : String) → str_eq (state_str s <> rest) "" ≡ false
identity_nonempty created rest = append_nonempty "CREATED" rest refl
identity_nonempty running rest = append_nonempty "RUNNING" rest refl
identity_nonempty paused rest = append_nonempty "PAUSED" rest refl
identity_nonempty stopped rest = append_nonempty "STOPPED" rest refl
identity_nonempty completed rest = append_nonempty "COMPLETED" rest refl
identity_nonempty failed rest = append_nonempty "FAILED" rest refl

module _ (P : Platform) where
  -- Every controller that is reached from a new one with well-formed hashes, by commands that their model and the
  -- controller accept, completions at naive times, and failures at naive times with a non-empty error code, has a
  -- status: `status` raises at none of them.
  pub status_total : (c : ReplayController) (now : ℕ) → Reaches c → returns (status P c now) ≡ true
  unfolding status validate_status validate_envelope runtime_id
  status_total c now r =
      let i = Reaches-IsConsistent r in
      ground (
        arith,
        i.dataset_hash,
        i.contract_hash,
        i.current,
        i.start,
        i.sequence,
        i.error,
        identity_nonempty c.state (":" <> sequence_str P c.last_sequence),
      )
