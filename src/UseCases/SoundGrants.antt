-- ===== src/UseCases/SoundGrants.antt =====
-- The use cases of grants, plans and approvals on sound runs in memory:
-- crates/tule-core/src/run_use_cases.rs.
use tule.Base.{
  ◌≡◌, refl, Option, find, ok, err, ok_or, map_err, Result, ◌==◌, nat_eq, Text, ℤ, pos, add_i64,
}
use tule.Base.Keeping.{
  OkIs, Keeps, Any, ok_or-OkIs, result-Any, Keeps-bind, Keeps-then, Keeps-pure, Keeps-lift,
  Keeps-on_error,
}
use tule.Ids.{
  HarnessRunId, RunEventId, ExecutionPlanVersionId, RunGraphVersionId, CapabilityGrantId,
  ApprovalRecordId, DenialEvidenceId, Uuid, UuidCrate,
}
use tule.Event.{RunEventKind}
use tule.Capability.{
  GrantResourceSelector, GrantActionScope, PlanGraphPairBinding, CapabilityGrant,
  CapabilityGrantError, issue, revoke,
}
use tule.Capability.Kinds.{CapabilityType, default_ttl_ms, default_dispatch_budget}
use tule.Capability.Grants as GrantCalls
use tule.Capability.Grants.{IsValid}
use tule.Store.{MemoryRunRepositoryError}
use tule.MemoryRepository.{memory}
use tule.MemoryRepository.Soundness.{AllSound, find-SomeIs}
use tule.MemoryRepository.Operations.{persist_grant-Keeps, persist_grant_revocation-Keeps}
use tule.UseCases.Errors.{GrantUseCaseError}
use tule.UseCases.Reading.{next_event}
use tule.UseCases.Grants
use tule.Canonical.{Digest}
use tule.Graph.{RunGraphVersion, compile_fixed_first_graph}
use tule.Plan.{
  DisclosurePolicy, CapabilityEnvelope, ContextManifest, ExecutionPlanVersion, new_replacement,
  freeze, new_approval, execution_policy_revision_v1,
}
use tule.Records.{DenialEvidence}
use tule.MemoryRepository.Operations.{
  persist_frozen_pair-Keeps, persist_approval-Keeps, persist_denial-Keeps,
}
use tule.UseCases.Errors.{CompileFreezeError, ApproveError}
use tule.UseCases.Soundness.{reconstruct-Keeps}
use tule.UseCases.Planning

issued-IsValid :
    (issued : Result CapabilityGrantError CapabilityGrant)
    → ((grant : CapabilityGrant) → issued ≡ ok grant → IsValid grant)
    → OkIs IsValid
        (map_err {F = GrantUseCaseError MemoryRunRepositoryError} GrantUseCaseError.grant issued)
unfolding OkIs
issued-IsValid (ok grant) h = h grant refl
issued-IsValid (err e) h = tt

pub issue_grant-Keeps :
    (grant_id : CapabilityGrantId) (event_id : RunEventId) (run_id : HarnessRunId)
    (capability : CapabilityType) (resource : GrantResourceSelector) (scope : GrantActionScope)
    (pair : Option PlanGraphPairBinding) (approval : Option ApprovalRecordId) (issuer : Text)
    (now : ℤ)
    → Keeps AllSound IsValid (
        Grants.issue_grant memory grant_id event_id run_id capability resource scope pair approval
          issuer now)
unfolding Grants.issue_grant
issue_grant-Keeps grant_id event_id run_id capability resource scope pair approval issuer now =
    let issued =
      issue grant_id run_id capability resource scope pair approval issuer now
        (add_i64 now (pos (default_ttl_ms capability))) default_dispatch_budget in
    Keeps-bind
      (reconstruct-Keeps GrantUseCaseError.repository GrantUseCaseError.run_not_found run_id)
      (λ s i.
        Keeps-bind
          (Keeps-lift (map_err GrantUseCaseError.grant issued) (
            issued-IsValid issued (λ grant h.
              GrantCalls.issue-IsValid grant_id run_id capability resource scope pair approval
                issuer now (add_i64 now (pos (default_ttl_ms capability))) default_dispatch_budget
                h)))
          (λ grant v.
            Keeps-then
              (Keeps-on_error GrantUseCaseError.repository (
                persist_grant-Keeps grant
                  (next_event event_id run_id s (RunEventKind.grant_issued grant.id) now) v))
              (Keeps-pure grant v)))

pub revoke_grant-Keeps :
    (event_id : RunEventId) (run_id : HarnessRunId) (grant_id : CapabilityGrantId) (now : ℤ)
    → Keeps AllSound IsValid (Grants.revoke_grant memory event_id run_id grant_id now)
unfolding Grants.revoke_grant GrantCalls.call
revoke_grant-Keeps event_id run_id grant_id now =
    Keeps-bind
      (reconstruct-Keeps GrantUseCaseError.repository GrantUseCaseError.run_not_found run_id)
      (λ s i.
        Keeps-bind
          (Keeps-lift
            (ok_or (find (λ g. g.id == grant_id) s.grants) GrantUseCaseError.grant_not_found)
            (ok_or-OkIs IsValid (find (λ g. g.id == grant_id) s.grants)
              GrantUseCaseError.grant_not_found
              (find-SomeIs IsValid (λ g. g.id == grant_id) s.grants i.valid)))
          (λ grant v.
            let after = revoke grant now in
            let v' = GrantCalls.call-IsValid grant (GrantCalls.revokes now) v in
            Keeps-then
              (Keeps-lift (map_err GrantUseCaseError.grant after.1)
                (result-Any (map_err GrantUseCaseError.grant after.1)))
              (Keeps-then
                (Keeps-on_error GrantUseCaseError.repository (
                  persist_grant_revocation-Keeps after.0
                    (next_event event_id run_id s (RunEventKind.grant_revoked grant_id) now) v'))
                (Keeps-pure after.0 v'))))

pub record_denial-Keeps :
    (denial_id : DenialEvidenceId) (event_id : RunEventId) (run_id : HarnessRunId) (reason : Text)
    (grant_id : Option CapabilityGrantId) (resource : Option GrantResourceSelector) (now : ℤ)
    → Keeps AllSound Any
        (Grants.record_denial memory denial_id event_id run_id reason grant_id resource now)
unfolding Grants.record_denial
record_denial-Keeps denial_id event_id run_id reason grant_id resource now =
    let denial : DenialEvidence = record {
      id = denial_id;
      run_id = run_id;
      reason = reason;
      grant_id = grant_id;
      resource = resource;
      recorded_at_unix_ms = now;
    } in
    Keeps-bind
      (reconstruct-Keeps GrantUseCaseError.repository GrantUseCaseError.run_not_found run_id)
      (λ s i.
        Keeps-then
          (Keeps-on_error GrantUseCaseError.repository (
            persist_denial-Keeps denial
              (next_event event_id run_id s (RunEventKind.denied denial_id) now)))
          (Keeps-pure denial tt))

pub compile_and_freeze_pair-Keeps :
    (u : UuidCrate) (digest : Digest) (replacement_id : Uuid) (graph_id : RunGraphVersionId)
    (plan_id : ExecutionPlanVersionId) (event_id : RunEventId) (run_id : HarnessRunId)
    (instructions provider model : Text) (policy : DisclosurePolicy) (envelope : CapabilityEnvelope)
    (manifest : ContextManifest) (preimage postimage target identity : Text)
    (request response : Option Text) (now : ℤ)
    → Keeps AllSound Any (
        Planning.compile_and_freeze_pair memory u digest replacement_id graph_id plan_id event_id
          run_id instructions provider model policy envelope manifest preimage postimage target
          identity request response now)
unfolding Planning.compile_and_freeze_pair
compile_and_freeze_pair-Keeps u digest replacement_id graph_id plan_id event_id run_id instructions
      provider model policy envelope manifest preimage postimage target identity request response
      now =
    let replaced =
      map_err {F = CompileFreezeError MemoryRunRepositoryError} CompileFreezeError.proposal
        (new_replacement digest replacement_id target preimage postimage request response now) in
    let graph = compile_fixed_first_graph digest graph_id in
    Keeps-bind
      (reconstruct-Keeps CompileFreezeError.repository CompileFreezeError.run_not_found run_id)
      (λ s i. Keeps-bind {P = Any} (Keeps-lift replaced (result-Any replaced)) (λ replacement _.
        let plan =
          freeze u digest plan_id graph instructions provider model policy envelope manifest
            replacement identity execution_policy_revision_v1 now in
        Keeps-then
          (Keeps-on_error CompileFreezeError.repository (
            persist_frozen_pair-Keeps plan graph (
              next_event event_id run_id s
                (RunEventKind.pair_frozen plan.id graph.id plan.approval_hash) now)))
          (Keeps-pure (plan, graph) tt)))

pub approve_pair-Keeps :
    (approval_id : ApprovalRecordId) (event_id : RunEventId) (run_id : HarnessRunId)
    (plan : ExecutionPlanVersion) (graph : RunGraphVersion) (approver : Text) (now : ℤ)
    → Keeps AllSound Any
        (Planning.approve_pair memory approval_id event_id run_id plan graph approver now)
unfolding Planning.approve_pair
approve_pair-Keeps approval_id event_id run_id plan graph approver now =
    let approved =
      map_err {F = ApproveError MemoryRunRepositoryError} ApproveError.approval
        (new_approval approval_id run_id plan graph approver now) in
    Keeps-bind (reconstruct-Keeps ApproveError.repository ApproveError.run_not_found run_id) (λ s i.
      Keeps-bind {P = Any} (Keeps-lift approved (result-Any approved)) (λ approval _.
        Keeps-then
          (Keeps-on_error ApproveError.repository (
            persist_approval-Keeps approval
              (next_event event_id run_id s (RunEventKind.approved approval.id) now)))
          (Keeps-pure approval tt)))
