-- ===== src/MemoryRepository/Operations.antt =====
-- The operations of the repository in memory that append an event and write, on sound runs:
-- crates/tule-core/src/run_use_cases.rs, `impl RunRepository for MemoryRunRepository`.
use tule.Base.{refl, none, some, [], ◌∷◌, ◌++◌, nat_eq}
use tule.Base.Keeping.{Keeps, Any, Keeps-then, Keeps-modify}
use tule.Event.{RunEvent}
use tule.Capability.{CapabilityGrant}
use tule.Capability.Grants.{IsValid}
use tule.Effect.{EffectRecord}
use tule.Effect.Phase.{phase_eq}
use tule.Effect.Journal.{IsConsistent}
use tule.Graph.{RunGraphVersion}
use tule.Plan.{ExecutionPlanVersion, ApprovalRecord}
use tule.Records.{ValidationResult, FinalWorkResult, DenialEvidence}
use tule.Repository.{ReleaseLeaseIntent, TakeoverLeaseIntent}
use tule.MemoryRepository
use tule.MemoryRepository.{put_effect, put_grant}
use tule.MemoryRepository.Soundness.{
  AllSound, IsElsewhere, Keeps-with_run, Keeps-append_checked, Keeps-elsewhere, add_effect,
  put_effect-IsSound, add_grant, put_grant-IsSound,
}

pub append_event-Keeps :
    (event : RunEvent) → Keeps AllSound Any (MemoryRepository.append_event event)
unfolding MemoryRepository.append_event
append_event-Keeps event = Keeps-with_run event.run_id (Keeps-append_checked event)

pub persist_frozen_pair-Keeps :
    (plan : ExecutionPlanVersion) (graph : RunGraphVersion) (event : RunEvent)
    → Keeps AllSound Any (MemoryRepository.persist_frozen_pair plan graph event)
unfolding MemoryRepository.persist_frozen_pair IsElsewhere
persist_frozen_pair-Keeps plan graph event = Keeps-with_run event.run_id (
    Keeps-elsewhere event
      (λ state. record state {
        replacements = state.replacements ++ (plan.replacement ∷ []);
        plans = state.plans ++ (plan ∷ []);
        graphs = state.graphs ++ (graph ∷ []);
      })
      (λ s. (refl, refl, refl)))

pub persist_approval-Keeps :
    (approval : ApprovalRecord) (event : RunEvent)
    → Keeps AllSound Any (MemoryRepository.persist_approval approval event)
unfolding MemoryRepository.persist_approval IsElsewhere
persist_approval-Keeps approval event = Keeps-with_run approval.run_id (
    Keeps-elsewhere event (λ state. record state { approvals = state.approvals ++ (approval ∷ []) })
      (λ s. (refl, refl, refl)))

pub persist_denial-Keeps :
    (denial : DenialEvidence) (event : RunEvent)
    → Keeps AllSound Any (MemoryRepository.persist_denial denial event)
unfolding MemoryRepository.persist_denial IsElsewhere
persist_denial-Keeps denial event = Keeps-with_run denial.run_id (
    Keeps-elsewhere event (λ state. record state { denials = state.denials ++ (denial ∷ []) })
      (λ s. (refl, refl, refl)))

pub persist_validation-Keeps :
    (validation : ValidationResult) (event : RunEvent)
    → Keeps AllSound Any (MemoryRepository.persist_validation validation event)
unfolding MemoryRepository.persist_validation IsElsewhere
persist_validation-Keeps validation event = Keeps-with_run validation.run_id (
    Keeps-elsewhere event
      (λ state. record state { validations = state.validations ++ (validation ∷ []) })
      (λ s. (refl, refl, refl)))

pub persist_final_result-Keeps :
    (result : FinalWorkResult) (event : RunEvent)
    → Keeps AllSound Any (MemoryRepository.persist_final_result result event)
unfolding MemoryRepository.persist_final_result IsElsewhere
persist_final_result-Keeps result event = Keeps-with_run result.run_id (
    Keeps-elsewhere event (λ state. record state { final_result = some result })
      (λ s. (refl, refl, refl)))

pub release_lease-Keeps :
    (intent : ReleaseLeaseIntent) → Keeps AllSound Any (MemoryRepository.release_lease intent)
unfolding MemoryRepository.release_lease IsElsewhere
release_lease-Keeps intent = Keeps-with_run intent.run_id (
    Keeps-elsewhere intent.event (λ state. record state { lease = none }) (λ s. (refl, refl, refl)))

pub takeover_lease-Keeps :
    (intent : TakeoverLeaseIntent) → Keeps AllSound Any (MemoryRepository.takeover_lease intent)
unfolding MemoryRepository.takeover_lease IsElsewhere
takeover_lease-Keeps intent = Keeps-with_run intent.lease.run_id (
    Keeps-elsewhere intent.event (λ state. record state { lease = some intent.lease })
      (λ s. (refl, refl, refl)))

pub persist_prepared_effect-Keeps :
    (effect : EffectRecord) (event : RunEvent)
    → IsConsistent effect
    → Keeps AllSound Any (MemoryRepository.persist_prepared_effect effect event)
unfolding MemoryRepository.persist_prepared_effect
persist_prepared_effect-Keeps effect event v = Keeps-with_run effect.run_id (
    Keeps-then (Keeps-append_checked event) (
      Keeps-modify (λ state. record state { effects = state.effects ++ (effect ∷ []) })
        (add_effect effect v)))

pub persist_effect_dispatched-Keeps :
    (effect : EffectRecord) (event : RunEvent)
    → IsConsistent effect
    → Keeps AllSound Any (MemoryRepository.persist_effect_dispatched effect event)
unfolding MemoryRepository.persist_effect_dispatched
persist_effect_dispatched-Keeps effect event v = Keeps-with_run effect.run_id (
    Keeps-then (Keeps-append_checked event)
      (Keeps-modify (put_effect effect) (put_effect-IsSound effect v)))

pub persist_effect_settled-Keeps :
    (effect : EffectRecord) (event : RunEvent)
    → IsConsistent effect
    → Keeps AllSound Any (MemoryRepository.persist_effect_settled effect event)
unfolding MemoryRepository.persist_effect_settled
persist_effect_settled-Keeps effect event v = Keeps-with_run effect.run_id (
    Keeps-then (Keeps-append_checked event)
      (Keeps-modify (put_effect effect) (put_effect-IsSound effect v)))

pub persist_grant-Keeps :
    (grant : CapabilityGrant) (event : RunEvent)
    → IsValid grant
    → Keeps AllSound Any (MemoryRepository.persist_grant grant event)
unfolding MemoryRepository.persist_grant
persist_grant-Keeps grant event v = Keeps-with_run grant.run_id (
    Keeps-then (Keeps-append_checked event) (
      Keeps-modify (λ state. record state { grants = state.grants ++ (grant ∷ []) })
        (add_grant grant v)))

pub persist_grant_revocation-Keeps :
    (grant : CapabilityGrant) (event : RunEvent)
    → IsValid grant
    → Keeps AllSound Any (MemoryRepository.persist_grant_revocation grant event)
unfolding MemoryRepository.persist_grant_revocation
persist_grant_revocation-Keeps grant event v = Keeps-with_run grant.run_id (
    Keeps-then (Keeps-append_checked event)
      (Keeps-modify (put_grant grant) (put_grant-IsSound grant v)))
