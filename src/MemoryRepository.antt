-- ===== src/MemoryRepository.antt =====
-- The repository in memory: crates/tule-core/src/run_use_cases.rs, `impl RunRepository for
-- MemoryRunRepository`: each operation on the store.
pub mod Calls
pub mod Locked
pub mod Frame
pub mod Numbering
pub mod Rollback
pub mod Soundness
pub mod Operations
pub mod Guarded
use tule.Base.{
  ℕ, ◌+◌, ◌%◌, ◌^◌, Bool, true, false, not, ◌||◌, Option, none, some, List, [], ◌∷◌, ◌++◌, Result,
  ok, err, map_err, ok_or, ◌==◌, ◌!=◌, nat_eq, ℤ, leb_ℤ, find, last, replace_first, if◌then◌else◌,
}
use tule.Base.Actions.{Action, ◌>>=◌, ◌>>◌, pure, fail_if, lift, on_error, modify, read}
use tule.Ids.{HarnessRunId}
use tule.Capability.{CapabilityGrant, is_revoked, consume_dispatch}
use tule.Effect.{EffectRecord, claim}
use tule.Effect.Phase.{prepared, phase_eq}
use tule.Event.{RunEvent}
use tule.Lease.{is_held}
use tule.Store.{
  MemoryRunRepository, MemoryRunRepositoryError, MemoryAction, RunAction, get, insert, with_run,
  append_checked, initial_state, next_sequence, not_found, sequence_gap, claim_lost, not_prepared,
  grant_denied, not_quiescent, lease_conflict, lock_poisoned,
}
use tule.Lifecycle.{is_quiescent_for_checkpoint}
use tule.Graph.{RunGraphVersion}
use tule.Plan.{ExecutionPlanVersion, ApprovalRecord}
use tule.Records.{ValidationResult, FinalWorkResult, DenialEvidence, HarnessRun}
use tule.Repository.{
  ReconstructedRun, ClaimEffectIntent, ConsumeDispatchBudgetIntent, PersistCheckpointIntent,
  AcquireLeaseIntent, ReleaseLeaseIntent, TakeoverLeaseIntent, RunRepository,
}

unfoldable pub create_run : HarnessRun → RunEvent → MemoryAction (Unit {0})
create_run run event repository = if repository.poisoned then (repository, err lock_poisoned) else (
  record repository { inner = insert run.id (initial_state run event) repository.inner },
  ok tt,
)

unfoldable pub append_event : RunEvent → MemoryAction (Unit {0})
append_event event = with_run event.run_id (append_checked event)

unfoldable pub persist_frozen_pair :
    ExecutionPlanVersion → RunGraphVersion → RunEvent → MemoryAction (Unit {0})
persist_frozen_pair plan graph event = with_run event.run_id do
  append_checked event
  modify λ state. record state {
    replacements = state.replacements ++ (plan.replacement ∷ []);
    plans = state.plans ++ (plan ∷ []);
    graphs = state.graphs ++ (graph ∷ []);
  }

unfoldable pub persist_approval : ApprovalRecord → RunEvent → MemoryAction (Unit {0})
persist_approval approval event = with_run approval.run_id do
  append_checked event
  modify λ state. record state { approvals = state.approvals ++ (approval ∷ []) }

unfoldable pub persist_grant : CapabilityGrant → RunEvent → MemoryAction (Unit {0})
persist_grant grant event =
    with_run grant.run_id do
      append_checked event
      modify λ state. record state { grants = state.grants ++ (grant ∷ []) }

unfoldable pub persist_grant_revocation : CapabilityGrant → RunEvent → MemoryAction (Unit {0})
persist_grant_revocation grant event = with_run grant.run_id do
  append_checked event
  modify λ state. record state {
    grants = replace_first (λ item. item.id == grant.id) grant state.grants;
  }

unfoldable pub persist_denial : DenialEvidence → RunEvent → MemoryAction (Unit {0})
persist_denial denial event = with_run denial.run_id do
  append_checked event
  modify λ state. record state { denials = state.denials ++ (denial ∷ []) }

unfoldable pub persist_prepared_effect : EffectRecord → RunEvent → MemoryAction (Unit {0})
persist_prepared_effect effect event = with_run effect.run_id do
  append_checked event
  modify λ state. record state { effects = state.effects ++ (effect ∷ []) }

-- A write through `iter_mut().find(...)`.
abbrev pub put_effect : EffectRecord → ReconstructedRun → ReconstructedRun
put_effect effect state = record state {
  effects = replace_first (λ item. item.id == effect.id) effect state.effects;
}

abbrev pub put_grant : CapabilityGrant → ReconstructedRun → ReconstructedRun
put_grant grant state = record state {
  grants = replace_first (λ item. item.id == grant.id) grant state.grants;
}

-- The claim changes the effect in place before the event is checked.
unfoldable pub claim_effect : ClaimEffectIntent → MemoryAction EffectRecord
claim_effect intent = with_run intent.run_id do
  fail_if (intent.event.run_id != intent.run_id) not_found
  found ← read (λ state. find (λ e. e.id == intent.effect_id) state.effects)
  effect ← lift (ok_or found not_found)
  fail_if (effect.phase != prepared) not_prepared
  let (claimed, result) = claim effect intent.claimant intent.now_unix_ms
  modify (put_effect claimed)
  lift (map_err (λ _. claim_lost) result)
  append_checked intent.event
  pure claimed

unfoldable pub persist_effect_dispatched : EffectRecord → RunEvent → MemoryAction (Unit {0})
persist_effect_dispatched effect event =
    with_run effect.run_id do append_checked event; modify (put_effect effect)

unfoldable pub persist_effect_settled : EffectRecord → RunEvent → MemoryAction (Unit {0})
persist_effect_settled effect event =
    with_run effect.run_id do append_checked event; modify (put_effect effect)

unfoldable pub consume_dispatch_budget : ConsumeDispatchBudgetIntent → MemoryAction CapabilityGrant
consume_dispatch_budget intent = with_run intent.run_id do
  found ← read (λ state. find (λ g. g.id == intent.grant_id) state.grants)
  grant ← lift (ok_or found not_found)
  fail_if (is_revoked grant || leb_ℤ grant.expires_at_unix_ms intent.now_unix_ms) grant_denied
  let (spent, result) = consume_dispatch grant
  modify (put_grant spent)
  lift (map_err (λ _. grant_denied) result)
  pure spent

unfoldable pub persist_quiescent_checkpoint : PersistCheckpointIntent → MemoryAction (Unit {0})
persist_quiescent_checkpoint intent = with_run intent.checkpoint.run_id do
  quiescent ← read (λ state. is_quiescent_for_checkpoint state.effects)
  fail_if (not quiescent) not_quiescent
  append_checked intent.event
  modify λ state. record state { checkpoints = state.checkpoints ++ (intent.checkpoint ∷ []) }

unfoldable pub persist_validation : ValidationResult → RunEvent → MemoryAction (Unit {0})
persist_validation validation event = with_run validation.run_id do
  append_checked event
  modify λ state. record state { validations = state.validations ++ (validation ∷ []) }

unfoldable pub persist_final_result : FinalWorkResult → RunEvent → MemoryAction (Unit {0})
persist_final_result result event =
    with_run result.run_id
      do append_checked event; modify λ state. record state { final_result = some result }

unfoldable pub acquire_lease : AcquireLeaseIntent → MemoryAction (Unit {0})
acquire_lease intent = with_run intent.lease.run_id do
  existing ← read (λ state. state.lease)
  fail_if (is_held existing intent.lease.acquired_at_unix_ms) lease_conflict
  append_checked intent.event
  modify λ state. record state { lease = some intent.lease }

unfoldable pub release_lease : ReleaseLeaseIntent → MemoryAction (Unit {0})
release_lease intent =
    with_run intent.run_id
      do append_checked intent.event; modify λ state. record state { lease = none }

unfoldable pub takeover_lease : TakeoverLeaseIntent → MemoryAction (Unit {0})
takeover_lease intent =
    with_run intent.lease.run_id
      do append_checked intent.event; modify λ state. record state { lease = some intent.lease }

unfoldable pub reconstruct_run : HarnessRunId → MemoryAction (Option ReconstructedRun)
reconstruct_run run_id repository =
    if repository.poisoned
    then (repository, err lock_poisoned)
    else (repository, ok (get run_id repository.inner))

abbrev pub memory : RunRepository
memory = record {
  Store = MemoryRunRepository;
  Error = MemoryRunRepositoryError;
  create_run = create_run;
  append_event = append_event;
  persist_frozen_pair = persist_frozen_pair;
  persist_approval = persist_approval;
  persist_grant = persist_grant;
  persist_grant_revocation = persist_grant_revocation;
  persist_denial = persist_denial;
  persist_prepared_effect = persist_prepared_effect;
  claim_effect = claim_effect;
  persist_effect_dispatched = persist_effect_dispatched;
  persist_effect_settled = persist_effect_settled;
  consume_dispatch_budget = consume_dispatch_budget;
  persist_quiescent_checkpoint = persist_quiescent_checkpoint;
  persist_validation = persist_validation;
  persist_final_result = persist_final_result;
  acquire_lease = acquire_lease;
  release_lease = release_lease;
  takeover_lease = takeover_lease;
  reconstruct_run = reconstruct_run;
}
