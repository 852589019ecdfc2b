-- ===== src/Lab/Engine/Faults.antt =====
-- At most one fault of a kind is active on a target.
use industrial_reliability_p.Base.{
  ◌≡◌, refl, String, Bool, true, false, not, Option, none, some, List, [], ◌∷◌, any, arith,
  if_intro, Bool-cases, inl, inr, Result, ok, err, validation_error, require, ◌>>=◌, ◌>>◌,
}
use text.Mathlib.Text.{◌==◌ as str_eq}
use industrial_reliability_p.Platform.{Uuid, Platform}
use industrial_reliability_p.Lab.Contracts.{Parameter}
use industrial_reliability_p.Lab.Tables.{ActiveFault, ControlState}
use industrial_reliability_p.Lab.Engine.{
  CommandParameters, is_fault, clear_faults, require_target, require_kind, is_fault_kind, set_point,
  inject_fault, clear_fault, number_or_one, flag_or_true, execute_command_in_controls,
}
use industrial_reliability_p.Lab.Validation.Distinct.{distinct_by, distinct_by-append}

module _ {F : Type 0} where
  -- of the same kind on the same target
  abbrev pub same_fault : ActiveFault F → ActiveFault F → Bool
  same_fault a b = is_fault b.target_id b.kind a

  abbrev pub one_per_kind : ControlState F → Bool
  one_per_kind controls = distinct_by same_fault controls.active_faults

  cleared :
      (target : Uuid) (kind : String) (faults : List (ActiveFault F))
      → any (is_fault target kind) (clear_faults target kind faults) ≡ false
  unfolding clear_faults
  cleared target kind [] = refl
  cleared target kind (fault ∷ faults) = ground (arith, cleared target kind faults)

  clear_faults-any :
      (p : ActiveFault F → Bool) (target : Uuid) (kind : String) (faults : List (ActiveFault F))
      → any p faults ≡ false
      → any p (clear_faults target kind faults) ≡ false
  unfolding clear_faults
  clear_faults-any p target kind [] h = refl
  clear_faults-any p target kind (fault ∷ faults) h =
      ground (arith, clear_faults-any p target kind faults)

  clear_faults-distinct_by :
      (target : Uuid) (kind : String) (faults : List (ActiveFault F))
      → distinct_by same_fault faults ≡ true
      → distinct_by same_fault (clear_faults target kind faults) ≡ true
  unfolding clear_faults distinct_by
  clear_faults-distinct_by target kind [] h = refl
  clear_faults-distinct_by target kind (fault ∷ faults) h =
      let kept = clear_faults-any (same_fault fault) target kind faults in
      elim (Bool-cases (not (is_fault target kind fault))) [
        | inl stays ↦
            rw (clear_faults, stays)
              (ground (arith, kept, clear_faults-distinct_by target kind faults))
        | inr goes ↦
            rw (clear_faults, goes) (clear_faults-distinct_by target kind faults (ground arith))
      ]

module _ (P : Platform) where
  open P use {Float}

  -- a command that returns leaves at most one fault of a kind on each target
  abbrev pub Distinct : Result (ControlState Float) → Type 0
  Distinct (err e) = Unit
  Distinct (ok controls) = one_per_kind controls ≡ true

  -- From controls with at most one active fault of each kind on each target, whatever the command, the
  -- controls that it leaves are so too.
  pub execute_command_in_controls-Distinct :
      (controls : ControlState Float) (action : String) (target_id : Option Uuid)
      (params : CommandParameters Float)
      → one_per_kind controls ≡ true
      → Distinct (execute_command_in_controls P controls action target_id params)
  unfolding execute_command_in_controls
  execute_command_in_controls-Distinct controls action target_id params h =
      if_intro Distinct (str_eq action "SET_COMPRESSOR_LOAD") _ _
        (λ a. setting target_id "load" (number_or_one P params.load))
        (λ a.
          if_intro Distinct (str_eq action "SET_COMPRESSOR_ENABLED") _ _
            (λ b. setting target_id "enabled" (flag_or_true P params.enabled))
            (λ b.
              if_intro Distinct (str_eq action "SET_VALVE_OPENING") _ _
                (λ c. setting target_id "opening" (number_or_one P params.opening))
                (λ c.
                  if_intro Distinct (str_eq action "SET_LOAD_FACTOR") _ _
                    (λ d. setting target_id "load_factor" (number_or_one P params.load_factor))
                    (λ d.
                      if_intro Distinct (str_eq action "INJECT_FAULT") _ _
                        (λ e. injecting target_id params.kind)
                        (λ e.
                          if_intro Distinct (str_eq action "CLEAR_FAULT") _ _
                            (λ f. clearing target_id params.kind) (λ f. h))))))
    where
      setting :
          (target : Option Uuid) (name : String) (value : Parameter Float)
          → Distinct (do t ← require_target target; ok (set_point t name value controls))
      setting none name value = tt
      setting (some t) name value = h

      injecting :
          (target : Option Uuid) (kind : Option String)
          → Distinct (do
            t ← require_target target
            k ← require_kind kind
            require (is_fault_kind k) validation_error
            ok (inject_fault t k params controls))
      injecting none kind = tt
      injecting (some t) none = tt
      injecting (some t) (some k) = known (is_fault_kind k)
        where
          known :
              (b : Bool)
              → Distinct (require b validation_error >> ok (inject_fault t k params controls))
          known false = tt
          known true =
              distinct_by-append same_fault (clear_faults t k controls.active_faults)
                (record { target_id = t; kind = k; port = params.port; values = params.values })
                (clear_faults-distinct_by t k controls.active_faults h)
                (cleared t k controls.active_faults)

      clearing :
          (target : Option Uuid) (kind : Option String)
          → Distinct
              (do t ← require_target target; k ← require_kind kind; ok (clear_fault t k controls))
      clearing none kind = tt
      clearing (some t) none = tt
      clearing (some t) (some k) = clear_faults-distinct_by t k controls.active_faults h
