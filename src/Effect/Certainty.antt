-- ===== src/Effect/Certainty.antt =====
-- How certain the effect is, whatever the operation reported (crates/tule-core/src/run.rs,
-- `EffectCertainty` and its reconciliation from positive evidence).
use tule.Base.{Bool, true, false, Result, ok, err, Text, bytes, ◌==◌, text_eq, if◌then◌else◌}
use tule.Ids.{InvalidRunId, malformed}

pub data EffectCertainty : Type 0 where
  confirmed_committed confirmed_no_effect unknown_or_partial : EffectCertainty

abbrev pub as_str : EffectCertainty → Text
as_str confirmed_committed = bytes "confirmed_committed"
as_str confirmed_no_effect = bytes "confirmed_no_effect"
as_str unknown_or_partial = bytes "unknown_or_partial"

unfoldable pub parse : Text → Result InvalidRunId EffectCertainty
parse value =
    if value == bytes "confirmed_committed"
    then ok confirmed_committed
    else if value == bytes "confirmed_no_effect"
    then ok confirmed_no_effect
    else if value == bytes "unknown_or_partial"
    then ok unknown_or_partial
    else err (malformed (bytes "effect certainty"))

abbrev pub blocks_run : EffectCertainty → Bool
blocks_run unknown_or_partial = true
blocks_run _ = false

pub data ReconciliationProbe : Type 0 where
  matches_preimage matches_postimage matches_neither : ReconciliationProbe

abbrev pub reconcile_replacement_certainty : ReconciliationProbe → EffectCertainty
reconcile_replacement_certainty matches_preimage = confirmed_no_effect
reconcile_replacement_certainty matches_postimage = confirmed_committed
reconcile_replacement_certainty matches_neither = unknown_or_partial
