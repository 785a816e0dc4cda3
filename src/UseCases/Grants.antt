-- ===== src/UseCases/Grants.antt =====
-- Issuing, revoking and requiring grants: crates/tule-core/src/run_use_cases.rs, `issue_grant`,
-- `revoke_grant`, `record_denial` and `require_grant`.
use tule.Base.{Option, some, Text, ℤ, pos, add_i64, map_err, err, ok_or, find, ◌==◌, nat_eq}
use tule.Base.Actions.{Action, ◌>>=◌, ◌>>◌, pure, lift, on_error}
use tule.Ids.{HarnessRunId, RunEventId, ApprovalRecordId, CapabilityGrantId, DenialEvidenceId}
use tule.Event.{RunEventKind}
use tule.Capability.{
  GrantResourceSelector, GrantActionScope, PlanGraphPairBinding, CapabilityGrant,
  GrantEvaluationRequest, allow, deny, issue, revoke, reason_text, evaluate_grant,
}
use tule.Capability.Kinds.{CapabilityType, default_ttl_ms, default_dispatch_budget}
use tule.Records.{DenialEvidence}
use tule.Repository.{RunRepository}
use tule.UseCases.Errors.{GrantUseCaseError}
use tule.UseCases.Reading.{reconstruct, next_event}

module _ (R : RunRepository) where
  unfoldable pub issue_grant :
      CapabilityGrantId
      → RunEventId
      → HarnessRunId
      → CapabilityType
      → GrantResourceSelector
      → GrantActionScope
      → Option PlanGraphPairBinding
      → Option ApprovalRecordId
      → Text
      → ℤ
      → Action R.Store (GrantUseCaseError R.Error) CapabilityGrant
  issue_grant grant_id event_id run_id capability resource action_scope pair related_approval_id
        issuer now_unix_ms =
      do
        reconstructed ←
            reconstruct R GrantUseCaseError.repository GrantUseCaseError.run_not_found run_id
        grant ← lift (
            map_err GrantUseCaseError.grant (
              issue grant_id run_id capability resource action_scope pair related_approval_id issuer
                now_unix_ms (add_i64 now_unix_ms (pos (default_ttl_ms capability)))
                default_dispatch_budget))
        on_error GrantUseCaseError.repository (
            R.persist_grant grant (
              next_event event_id run_id reconstructed (RunEventKind.grant_issued grant.id)
                now_unix_ms))
        pure grant

  unfoldable pub revoke_grant :
      RunEventId
      → HarnessRunId
      → CapabilityGrantId
      → ℤ
      → Action R.Store (GrantUseCaseError R.Error) CapabilityGrant
  revoke_grant event_id run_id grant_id now_unix_ms = do
    reconstructed ←
        reconstruct R GrantUseCaseError.repository GrantUseCaseError.run_not_found run_id
    grant ← lift (
        ok_or (find (λ g. g.id == grant_id) reconstructed.grants) GrantUseCaseError.grant_not_found)
    let (grant', result) = revoke grant now_unix_ms
    lift (map_err GrantUseCaseError.grant result)
    on_error GrantUseCaseError.repository (
        R.persist_grant_revocation grant' (
          next_event event_id run_id reconstructed (RunEventKind.grant_revoked grant_id)
            now_unix_ms))
    pure grant'

  unfoldable pub record_denial :
      DenialEvidenceId
      → RunEventId
      → HarnessRunId
      → Text
      → Option CapabilityGrantId
      → Option GrantResourceSelector
      → ℤ
      → Action R.Store (GrantUseCaseError R.Error) DenialEvidence
  record_denial denial_id event_id run_id reason grant_id resource now_unix_ms = do
    reconstructed ←
        reconstruct R GrantUseCaseError.repository GrantUseCaseError.run_not_found run_id
    let denial = denial_of
    on_error GrantUseCaseError.repository (
        R.persist_denial denial
          (next_event event_id run_id reconstructed (RunEventKind.denied denial.id) now_unix_ms))
    pure denial
    where
      denial_of : DenialEvidence
      denial_of = record {
        id = denial_id;
        run_id = run_id;
        reason = reason;
        grant_id = grant_id;
        resource = resource;
        recorded_at_unix_ms = now_unix_ms;
      }

  unfoldable pub require_grant :
      DenialEvidenceId
      → RunEventId
      → CapabilityGrant
      → GrantEvaluationRequest
      → Action R.Store (GrantUseCaseError R.Error) (Unit {0})
  unfolding record_denial
  require_grant denial_id event_id grant request = elim (evaluate_grant grant request) [
    | allow ↦ pure tt
    | deny reason ↦ do
      record_denial denial_id event_id request.run_id (reason_text reason) (some grant.id)
            (some request.resource) request.now_unix_ms
          >>= λ _. lift (err (GrantUseCaseError.denied reason))
  ]
