-- ===== src/Resume.antt =====
-- Whether a run may go on after a restart: crates/tule-core/src/run.rs, `evaluate_resume`.
use tule.Base.{Bool, not, ◌||◌, Option, none, some, List, [], ◌∷◌, if◌then◌else◌}
use tule.Ids.{EffectRecordId, CapabilityGrantId}

pub record ResumeRevalidation : Type 0 where
  pub event_chain_matches : Bool
  pub filesystem_matches_expected : Bool
  pub execution_policy_matches : Bool
  pub operation_versions_match : Bool

pub data ResumeDecision : Type 0 where
  continue require_reapproval_or_abandon : ResumeDecision
  skip_confirmed_replacement : EffectRecordId → ResumeDecision
  require_fresh_grant : CapabilityGrantId → ResumeDecision

abbrev pub first {ℓ} : {A : Type ℓ} → List A → Option A
first [] = none
first (x ∷ _) = some x

unfoldable pub evaluate_resume :
    ResumeRevalidation → List CapabilityGrantId → Option EffectRecordId → ResumeDecision
evaluate_resume r expired_grant_ids confirmed_replacement_effect =
    if not r.event_chain_matches
      || not r.filesystem_matches_expected
      || not r.execution_policy_matches
      || not r.operation_versions_match
    then require_reapproval_or_abandon
    else elim confirmed_replacement_effect [
      | some effect_id ↦ skip_confirmed_replacement effect_id
      | none ↦ elim (first expired_grant_ids) [
        | some expired_grant_id ↦ require_fresh_grant expired_grant_id
        | none ↦ continue
      ]
    ]
