-- ===== src/Effect/Phase.antt =====
-- The phase of an effect in its journal (crates/tule-core/src/run.rs, `EffectJournalPhase`).
use tule.Base.{Result, ok, err, Text, bytes, Eq, ◌==◌, text_eq, if◌then◌else◌}
use tule.Ids.{InvalidRunId, malformed}

pub data EffectJournalPhase : Type 0 where
  prepared claimed dispatched settled : EffectJournalPhase

unfoldable pub EffectJournalPhase-discrete : Discrete EffectJournalPhase
EffectJournalPhase-discrete = hlevel

instance abbrev pub phase_eq : Eq EffectJournalPhase
phase_eq = record { dec_eq = EffectJournalPhase-discrete }

abbrev pub as_str : EffectJournalPhase → Text
as_str prepared = bytes "prepared"
as_str claimed = bytes "claimed"
as_str dispatched = bytes "dispatched"
as_str settled = bytes "settled"

unfoldable pub parse : Text → Result InvalidRunId EffectJournalPhase
parse value =
    if value == bytes "prepared"
    then ok prepared
    else if value == bytes "claimed"
    then ok claimed
    else if value == bytes "dispatched"
    then ok dispatched
    else if value == bytes "settled"
    then ok settled
    else err (malformed (bytes "effect journal phase"))
