-- ===== src/MemoryRepository/Calls.antt =====
-- The calls that change the store in memory, as one type: crates/tule-core/src/run_use_cases.rs,
-- `impl RunRepository for MemoryRunRepository`.
use tule.Base.{Option, none, some, ok, err}
use tule.Ids.{HarnessRunId}
use tule.Capability.{CapabilityGrant}
use tule.Effect.{EffectRecord}
use tule.Event.{RunEvent}
use tule.Graph.{RunGraphVersion}
use tule.Plan.{ExecutionPlanVersion, ApprovalRecord}
use tule.Records.{ValidationResult, FinalWorkResult, DenialEvidence}
use tule.Repository.{
  ClaimEffectIntent, ConsumeDispatchBudgetIntent, PersistCheckpointIntent, AcquireLeaseIntent,
  ReleaseLeaseIntent, TakeoverLeaseIntent,
}
use tule.Store.{MemoryAction}
use tule.MemoryRepository

pub data Call : Type 0 where
  append : RunEvent → Call
  frozen_pair : ExecutionPlanVersion → RunGraphVersion → RunEvent → Call
  approval : ApprovalRecord → RunEvent → Call
  grant grant_revocation : CapabilityGrant → RunEvent → Call
  denial : DenialEvidence → RunEvent → Call
  prepared_effect : EffectRecord → RunEvent → Call
  effect_claim : ClaimEffectIntent → Call
  effect_dispatched effect_settled : EffectRecord → RunEvent → Call
  dispatch_budget : ConsumeDispatchBudgetIntent → Call
  checkpoint : PersistCheckpointIntent → Call
  validation : ValidationResult → RunEvent → Call
  final_result : FinalWorkResult → RunEvent → Call
  lease_acquire : AcquireLeaseIntent → Call
  lease_release : ReleaseLeaseIntent → Call
  lease_takeover : TakeoverLeaseIntent → Call

-- A call whose value is not looked at.
abbrev pub done : {A : Type 0} → MemoryAction A → MemoryAction (Unit {0})
done m s = let (s', r) = m s in (s', elim r [ ok _ ↦ ok tt | err e ↦ err e ])

abbrev pub call : Call → MemoryAction (Unit {0})
call (append event) = MemoryRepository.append_event event
call (frozen_pair plan graph event) = MemoryRepository.persist_frozen_pair plan graph event
call (approval a event) = MemoryRepository.persist_approval a event
call (grant g event) = MemoryRepository.persist_grant g event
call (grant_revocation g event) = MemoryRepository.persist_grant_revocation g event
call (denial d event) = MemoryRepository.persist_denial d event
call (prepared_effect e event) = MemoryRepository.persist_prepared_effect e event
call (effect_claim intent) = done (MemoryRepository.claim_effect intent)
call (effect_dispatched e event) = MemoryRepository.persist_effect_dispatched e event
call (effect_settled e event) = MemoryRepository.persist_effect_settled e event
call (dispatch_budget intent) = done (MemoryRepository.consume_dispatch_budget intent)
call (checkpoint intent) = MemoryRepository.persist_quiescent_checkpoint intent
call (validation v event) = MemoryRepository.persist_validation v event
call (final_result r event) = MemoryRepository.persist_final_result r event
call (lease_acquire intent) = MemoryRepository.acquire_lease intent
call (lease_release intent) = MemoryRepository.release_lease intent
call (lease_takeover intent) = MemoryRepository.takeover_lease intent

-- The run that a call is on.
abbrev pub target : Call → HarnessRunId
target (append event) = event.run_id
target (frozen_pair plan graph event) = event.run_id
target (approval a event) = a.run_id
target (grant g event) = g.run_id
target (grant_revocation g event) = g.run_id
target (denial d event) = d.run_id
target (prepared_effect e event) = e.run_id
target (effect_claim intent) = intent.run_id
target (effect_dispatched e event) = e.run_id
target (effect_settled e event) = e.run_id
target (dispatch_budget intent) = intent.run_id
target (checkpoint intent) = intent.checkpoint.run_id
target (validation v event) = v.run_id
target (final_result r event) = r.run_id
target (lease_acquire intent) = intent.lease.run_id
target (lease_release intent) = intent.run_id
target (lease_takeover intent) = intent.lease.run_id

-- The event that a call is to append.
abbrev pub event_of : Call → Option RunEvent
event_of (append event) = some event
event_of (frozen_pair plan graph event) = some event
event_of (approval a event) = some event
event_of (grant g event) = some event
event_of (grant_revocation g event) = some event
event_of (denial d event) = some event
event_of (prepared_effect e event) = some event
event_of (effect_claim intent) = some intent.event
event_of (effect_dispatched e event) = some event
event_of (effect_settled e event) = some event
event_of (dispatch_budget intent) = none
event_of (checkpoint intent) = some intent.event
event_of (validation v event) = some event
event_of (final_result r event) = some event
event_of (lease_acquire intent) = some intent.event
event_of (lease_release intent) = some intent.event
event_of (lease_takeover intent) = some intent.event
