-- ===== src/Effect.antt =====
-- The effect journal of crates/tule-core/src/run.rs: an effect is prepared, claimed by one claimant,
-- dispatched, settled with a certainty, and reconciled if that is unknown. A method on `&mut self`
-- returns the record after the call with its result.
pub mod Phase
pub mod OperationResult
pub mod Certainty
pub mod Journal
pub mod Reconciliation
pub mod Labels
use tule.Base.{
  ℕ, Bool, true, false, not, ◌&&◌, Option, none, some, Result, ok, err, Text, bytes, Eq, ◌==◌, ◌!=◌,
  text_eq, Text-discrete, ℕ_discrete, ℤ, if◌then◌else◌,
}
use tule.Ids.{
  HarnessRunId, NodeAttemptId, ExecutionPlanVersionId, RunGraphVersionId, CapabilityGrantId,
  EffectRecordId, InvalidRunId, malformed, UuidCrate, parse_id,
}
use Phase.{
  EffectJournalPhase, phase_eq, EffectJournalPhase-discrete, prepared, claimed, dispatched, settled,
}
use OperationResult.{EffectOperationResult, success, error, cancelled}
use Certainty.{
  EffectCertainty, confirmed_committed, confirmed_no_effect, unknown_or_partial, blocks_run,
  ReconciliationProbe, reconcile_replacement_certainty,
}

pub record EffectRecord : Type 0 where
  pub id : EffectRecordId
  pub run_id : HarnessRunId
  pub attempt_id : Option NodeAttemptId
  pub plan_version_id : Option ExecutionPlanVersionId
  pub graph_version_id : Option RunGraphVersionId
  pub operation_id : Text
  pub operation_schema_version : Text
  pub target_hash : Text
  pub grant_id : CapabilityGrantId
  pub phase : EffectJournalPhase
  pub claimant : Option Text
  pub operation_result : Option EffectOperationResult
  pub certainty : Option EffectCertainty
  pub prepared_at_unix_ms : ℤ
  pub claimed_at_unix_ms : Option ℤ
  pub dispatched_at_unix_ms : Option ℤ
  pub settled_at_unix_ms : Option ℤ
  pub expected_preimage_hash : Option Text
  pub expected_postimage_hash : Option Text

pub data EffectError : Type 0 where
  not_prepared already_claimed not_claimed wrong_claimant not_dispatched not_settled not_unknown :
      EffectError
  invalid_certainty : EffectError

unfoldable pub prepare :
    EffectRecordId
    → HarnessRunId
    → Option NodeAttemptId
    → Option ExecutionPlanVersionId
    → Option RunGraphVersionId
    → Text
    → Text
    → Text
    → CapabilityGrantId
    → ℤ
    → Option Text
    → Option Text
    → EffectRecord
prepare id run_id attempt_id plan_version_id graph_version_id operation_id schema target_hash
      grant_id now_unix_ms preimage postimage =
    record {
      id = id;
      run_id = run_id;
      attempt_id = attempt_id;
      plan_version_id = plan_version_id;
      graph_version_id = graph_version_id;
      operation_id = operation_id;
      operation_schema_version = schema;
      target_hash = target_hash;
      grant_id = grant_id;
      phase = prepared;
      claimant = none;
      operation_result = none;
      certainty = none;
      prepared_at_unix_ms = now_unix_ms;
      claimed_at_unix_ms = none;
      dispatched_at_unix_ms = none;
      settled_at_unix_ms = none;
      expected_preimage_hash = preimage;
      expected_postimage_hash = postimage;
    }

abbrev pub is_some {ℓ} : {A : Type ℓ} → Option A → Bool
is_some none = false
is_some (some _) = true

unfoldable pub claim : EffectRecord → Text → ℤ → EffectRecord × Result EffectError (Unit {0})
claim effect claimant now_unix_ms =
    if effect.phase != prepared
    then (effect, err not_prepared)
    else if is_some effect.claimant
    then (effect, err already_claimed)
    else (
      record effect {
        claimant = some claimant;
        phase = claimed;
        claimed_at_unix_ms = some now_unix_ms;
      },
      ok tt,
    )

-- `self.claimant.as_deref() == Some(claimant)`.
abbrev is_claimant : EffectRecord → Text → Bool
is_claimant effect claimant = elim effect.claimant [ none ↦ false | some c ↦ c == claimant ]

unfoldable pub mark_dispatched :
    EffectRecord → Text → ℤ → EffectRecord × Result EffectError (Unit {0})
mark_dispatched effect claimant now_unix_ms =
    if effect.phase != claimed
    then (effect, err not_claimed)
    else if not (is_claimant effect claimant)
    then (effect, err wrong_claimant)
    else (record effect { phase = dispatched; dispatched_at_unix_ms = some now_unix_ms }, ok tt)

-- A timeout or an error alone never proves that there was no effect.
abbrev overclaims : EffectOperationResult → EffectCertainty → Bool
overclaims error confirmed_no_effect = true
overclaims cancelled confirmed_no_effect = true
overclaims _ _ = false

unfoldable pub settle :
    EffectRecord
    → Text
    → EffectOperationResult
    → EffectCertainty
    → ℤ
    → EffectRecord × Result EffectError (Unit {0})
settle effect claimant operation_result certainty now_unix_ms =
    if effect.phase != dispatched
    then (effect, err not_dispatched)
    else if not (is_claimant effect claimant)
    then (effect, err wrong_claimant)
    else if overclaims operation_result certainty
    then (effect, err invalid_certainty)
    else (
      record effect {
        operation_result = some operation_result;
        certainty = some certainty;
        phase = settled;
        settled_at_unix_ms = some now_unix_ms;
      },
      ok tt,
    )

abbrev pub is_unknown : Option EffectCertainty → Bool
is_unknown none = false
is_unknown (some c) = blocks_run c

unfoldable pub reconcile :
    EffectRecord → ReconciliationProbe → ℤ → EffectRecord × Result EffectError (Unit {0})
reconcile effect probe now_unix_ms =
    if effect.phase != settled
    then (effect, err not_settled)
    else if not (is_unknown effect.certainty)
    then (effect, err not_unknown)
    else (
      record effect {
        certainty = some (reconcile_replacement_certainty probe);
        settled_at_unix_ms = some now_unix_ms;
      },
      ok tt,
    )
