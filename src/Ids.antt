-- ===== src/Ids.antt =====
-- src/industrial_reliability/runtime_ids.py
use Prim.Native.String.{◌++◌ as ◌<>◌}
use industrial_reliability_p.Base.{String, ◌||◌, if◌then◌else◌, Result, ok, err, value_error}
use text.Mathlib.Text.{◌==◌ as str_eq}
use industrial_reliability_p.Platform.{Uuid, Platform}

module _ (P : Platform) where
  open P use {uuid5, runtime_namespace, uuid_str}

  unfoldable pub runtime_id : String → Uuid → String → Result Uuid
  runtime_id kind replay_session_id identity =
      if str_eq kind "" || str_eq identity ""
      then err value_error
      else ok
          (uuid5 runtime_namespace (kind <> ":" <> uuid_str replay_session_id <> ":" <> identity))
