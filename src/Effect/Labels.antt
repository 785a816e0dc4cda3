-- ===== src/Effect/Labels.antt =====
-- The stored labels of the journal's enumerations (crates/tule-core/src/run.rs, `as_str` and `parse`).
use tule.Base.{◌≡◌, refl, ◌↔◌, ok, Text, Text-discrete, arith}
use tule.Effect.Phase
use tule.Effect.Phase.{EffectJournalPhase, prepared, claimed, dispatched, settled}
use tule.Effect.OperationResult
use tule.Effect.OperationResult.{EffectOperationResult, success, error, cancelled}
use tule.Effect.Certainty
use tule.Effect.Certainty.{
  EffectCertainty, confirmed_committed, confirmed_no_effect, unknown_or_partial,
}

phase_as_str : (c : EffectJournalPhase) → Phase.parse (Phase.as_str c) ≡ ok c
unfolding Phase.parse Text-discrete
phase_as_str prepared = refl
phase_as_str claimed = refl
phase_as_str dispatched = refl
phase_as_str settled = refl

phase_parse :
    (value : Text) (c : EffectJournalPhase) → Phase.parse value ≡ ok c → value ≡ Phase.as_str c
unfolding Phase.parse
phase_parse value c h = ground arith

operation_result_as_str :
    (c : EffectOperationResult) → OperationResult.parse (OperationResult.as_str c) ≡ ok c
unfolding OperationResult.parse Text-discrete
operation_result_as_str success = refl
operation_result_as_str error = refl
operation_result_as_str cancelled = refl

operation_result_parse :
    (value : Text) (c : EffectOperationResult)
    → OperationResult.parse value ≡ ok c
    → value ≡ OperationResult.as_str c
unfolding OperationResult.parse
operation_result_parse value c h = ground arith

certainty_as_str : (c : EffectCertainty) → Certainty.parse (Certainty.as_str c) ≡ ok c
unfolding Certainty.parse Text-discrete
certainty_as_str confirmed_committed = refl
certainty_as_str confirmed_no_effect = refl
certainty_as_str unknown_or_partial = refl

certainty_parse :
    (value : Text) (c : EffectCertainty) → Certainty.parse value ≡ ok c → value ≡ Certainty.as_str c
unfolding Certainty.parse
certainty_parse value c h = ground arith

-- A stored text is read as a phase, an operation result or a certainty exactly if it is the label of
-- that value.
pub parse_labels :
    (value : Text) (p : EffectJournalPhase) (r : EffectOperationResult) (k : EffectCertainty)
    → ((Phase.parse value ≡ ok p) ↔ (value ≡ Phase.as_str p))
      × ((OperationResult.parse value ≡ ok r) ↔ (value ≡ OperationResult.as_str r))
      × ((Certainty.parse value ≡ ok k) ↔ (value ≡ Certainty.as_str k))
parse_labels value p r k = (
  (phase_parse value p, λ e. rw e (phase_as_str p)),
  (operation_result_parse value r, λ e. rw e (operation_result_as_str r)),
  (certainty_parse value k, λ e. rw e (certainty_as_str k)),
)
