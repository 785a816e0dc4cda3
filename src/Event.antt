-- ===== src/Event.antt =====
-- The append-only events of a run: crates/tule-core/src/run.rs, `RunEventKind` and `RunEvent`.
use tule.Base.{ℕ, Text, bytes, ℤ}
use tule.Ids.{
  HarnessRunId, RunEventId, ExecutionPlanVersionId, RunGraphVersionId, ApprovalRecordId,
  CapabilityGrantId, DenialEvidenceId, EffectRecordId, CheckpointId, ValidationResultId,
  RootLeaseId,
}
use tule.Effect.Certainty.{EffectCertainty}

pub data RunEventKind : Type 0 where
  run_created : RunEventKind
  -- The plan version, the graph version and the approval identity hash.
  pair_frozen : ExecutionPlanVersionId → RunGraphVersionId → Text → RunEventKind
  approved : ApprovalRecordId → RunEventKind
  grant_issued grant_revoked : CapabilityGrantId → RunEventKind
  denied : DenialEvidenceId → RunEventKind
  effect_prepared : EffectRecordId → RunEventKind
  effect_claimed : EffectRecordId → Text → RunEventKind
  effect_dispatched : EffectRecordId → RunEventKind
  effect_settled : EffectRecordId → EffectCertainty → RunEventKind
  checkpointed : CheckpointId → RunEventKind
  validated : ValidationResultId → RunEventKind
  completed paused cancelled abandoned : RunEventKind
  lease_acquired lease_released lease_takeover : RootLeaseId → RunEventKind
  resumed : RunEventKind

unfoldable pub canonical_tag : RunEventKind → Text
canonical_tag run_created = bytes "run_created"
canonical_tag (pair_frozen _ _ _) = bytes "pair_frozen"
canonical_tag (approved _) = bytes "approved"
canonical_tag (grant_issued _) = bytes "grant_issued"
canonical_tag (grant_revoked _) = bytes "grant_revoked"
canonical_tag (denied _) = bytes "denied"
canonical_tag (effect_prepared _) = bytes "effect_prepared"
canonical_tag (effect_claimed _ _) = bytes "effect_claimed"
canonical_tag (effect_dispatched _) = bytes "effect_dispatched"
canonical_tag (effect_settled _ _) = bytes "effect_settled"
canonical_tag (checkpointed _) = bytes "checkpointed"
canonical_tag (validated _) = bytes "validated"
canonical_tag completed = bytes "completed"
canonical_tag paused = bytes "paused"
canonical_tag cancelled = bytes "cancelled"
canonical_tag abandoned = bytes "abandoned"
canonical_tag (lease_acquired _) = bytes "lease_acquired"
canonical_tag (lease_released _) = bytes "lease_released"
canonical_tag (lease_takeover _) = bytes "lease_takeover"
canonical_tag resumed = bytes "resumed"

-- `sequence` is a u64.
pub record RunEvent : Type 0 where
  pub id : RunEventId
  pub run_id : HarnessRunId
  pub sequence : ℕ
  pub kind : RunEventKind
  pub recorded_at_unix_ms : ℤ
