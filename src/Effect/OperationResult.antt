-- ===== src/Effect/OperationResult.antt =====
-- What an operation reported (crates/tule-core/src/run.rs, `EffectOperationResult`).
use tule.Base.{Result, ok, err, Text, bytes, ◌==◌, text_eq, if◌then◌else◌}
use tule.Ids.{InvalidRunId, malformed}

pub data EffectOperationResult : Type 0 where
  success error cancelled : EffectOperationResult

abbrev pub as_str : EffectOperationResult → Text
as_str success = bytes "success"
as_str error = bytes "error"
as_str cancelled = bytes "cancelled"

unfoldable pub parse : Text → Result InvalidRunId EffectOperationResult
parse value =
    if value == bytes "success"
    then ok success
    else if value == bytes "error"
    then ok error
    else if value == bytes "cancelled"
    then ok cancelled
    else err (malformed (bytes "effect operation result"))
