-- ===== src/Plan.antt =====
-- The frozen execution plan and its approval: crates/tule-core/src/run.rs, `DisclosurePolicy` to
-- `ExecutionPlanVersion` and `ApprovalRecord`. An identifier that the code generates is an argument.
pub mod Approval
pub mod Binding
use tule.Base.{
  ℕ, ◌%◌, ◌^◌, Bool, true, false, not, ◌&&◌, ◌||◌, Option, none, some, List, [], ◌∷◌, Result, ok,
  err, ◌>>=◌, ◌>>◌, map_err, Text, bytes, length, ◌==◌, ◌!=◌, nat_eq, text_eq, Text-discrete,
  ℕ_discrete, ℤ, if◌then◌else◌,
}
use tule.Ids.{
  HarnessRunId, ExecutionPlanVersionId, RunGraphVersionId, ApprovalRecordId, Uuid, UuidCrate,
}
use tule.Capability.Kinds.{CapabilityType, registered_operation_schema_v1}
use tule.Capability.Kinds
use tule.Canonical.{
  Digest, append_canonical_field, hash_source_bytes, hash_canonical_fields, hash_expected_diff,
  is_canonical_sha256_hex,
}
use tule.Proposal.{
  RunContentError, BootstrapProposalError, validate_run_content_bytes, validate_bootstrap_proposal,
}
use tule.Graph.{RunGraphVersion, node_replace_existing_file_v1, node_verify_approved_postimage_v1}

abbrev pub execution_policy_revision_v1 : Text
execution_policy_revision_v1 = bytes "tule-execution-policy-v1"

pub record DisclosurePolicy : Type 0 where
  pub policy_id : Text
  pub allowed_disclosure : Text

pub record CapabilityEnvelope : Type 0 where
  pub requested : List CapabilityType
  pub summary : Text

-- The loop over the requested capabilities.
abbrev append_capabilities : List ℕ → List CapabilityType → List ℕ
append_capabilities buffer [] = buffer
append_capabilities buffer (c ∷ cs) =
    append_capabilities (append_canonical_field buffer (bytes "capability") (Kinds.as_str c)) cs

unfoldable pub canonical_bytes : CapabilityEnvelope → List ℕ
canonical_bytes envelope =
    append_capabilities (append_canonical_field [] (bytes "summary") envelope.summary)
      envelope.requested

pub record ContextManifest : Type 0 where
  pub id : Uuid
  pub content_hash : Text
  pub request_semantic_hash : Text
  pub disclosed_byte_count : ℕ
  pub summary : Text

-- `ContextManifest::new`. The byte count is that of a text of at most 64 KiB, so its cast to u64 is exact.
unfoldable pub new_manifest :
    Digest → Uuid → Text → Text → Text → Result RunContentError ContextManifest
new_manifest digest id disclosed_content request_semantics summary = do
  validate_run_content_bytes disclosed_content
  let content_hash = hash_source_bytes digest disclosed_content
  ok (record {
    id = id;
    content_hash = content_hash;
    request_semantic_hash = hash_canonical_fields digest (
        (bytes "content_hash", content_hash) ∷ (bytes "request_semantics", request_semantics) ∷ []);
    disclosed_byte_count = length disclosed_content;
    summary = summary;
  })

pub record ReplacementContentInput : Type 0 where
  pub id : Uuid
  pub relative_target : Text
  pub preimage_hash : Text
  pub postimage_hash : Text
  pub expected_diff_hash : Text
  pub postimage_utf8 : Text
  pub provider_request_id : Option Text
  pub provider_response_id : Option Text
  pub created_at_unix_ms : ℤ

-- `ReplacementContentInput::new`.
unfoldable pub new_replacement :
    Digest
    → Uuid
    → Text
    → Text
    → Text
    → Option Text
    → Option Text
    → ℤ
    → Result BootstrapProposalError ReplacementContentInput
new_replacement digest id relative_target preimage postimage request response created_at = do
  validate_bootstrap_proposal preimage postimage relative_target
  ok (record {
    id = id;
    relative_target = relative_target;
    preimage_hash = hash_source_bytes digest preimage;
    postimage_hash = hash_source_bytes digest postimage;
    expected_diff_hash = hash_expected_diff digest preimage postimage;
    postimage_utf8 = postimage;
    provider_request_id = request;
    provider_response_id = response;
    created_at_unix_ms = created_at;
  })

pub record ExecutionPlanVersion : Type 0 where
  pub id : ExecutionPlanVersionId
  pub graph_version_id : RunGraphVersionId
  pub instructions : Text
  pub provider_profile_id : Text
  pub model_id : Text
  pub disclosure_policy : DisclosurePolicy
  pub capability_envelope : CapabilityEnvelope
  pub context_manifest : ContextManifest
  pub replacement : ReplacementContentInput
  pub preimage_filesystem_identity : Text
  pub execution_policy_revision : Text
  pub approval_hash : Text
  pub created_at_unix_ms : ℤ

-- The fields that `hash_execution_plan_approval` hashes, of a plan and its graph.
abbrev pub approval_fields :
    UuidCrate → ExecutionPlanVersion → RunGraphVersion → List (Text × List ℕ)
approval_fields u plan graph =
    (bytes "plan_id", u.to_string plan.id)
    ∷ (bytes "graph_id", u.to_string graph.id)
    ∷ (bytes "graph_hash", graph.content_hash)
    ∷ (bytes "instructions", plan.instructions)
    ∷ (bytes "provider_profile_id", plan.provider_profile_id)
    ∷ (bytes "model_id", plan.model_id)
    ∷ (bytes "disclosure_policy_id", plan.disclosure_policy.policy_id)
    ∷ (bytes "allowed_disclosure", plan.disclosure_policy.allowed_disclosure)
    ∷ (bytes "capability_envelope", canonical_bytes plan.capability_envelope)
    ∷ (bytes "context_manifest_hash", plan.context_manifest.content_hash)
    ∷ (bytes "request_semantic_hash", plan.context_manifest.request_semantic_hash)
    ∷ (bytes "relative_target", plan.replacement.relative_target)
    ∷ (bytes "preimage_hash", plan.replacement.preimage_hash)
    ∷ (bytes "postimage_hash", plan.replacement.postimage_hash)
    ∷ (bytes "expected_diff_hash", plan.replacement.expected_diff_hash)
    ∷ (bytes "preimage_filesystem_identity", plan.preimage_filesystem_identity)
    ∷ (bytes "retry_rule", graph.retry_rule)
    ∷ (bytes "validation_rule", graph.validation_rule)
    ∷ (bytes "op_replace", node_replace_existing_file_v1)
    ∷ (bytes "op_verify", node_verify_approved_postimage_v1)
    ∷ (bytes "registered_operation_schema", registered_operation_schema_v1)
    ∷ (bytes "execution_policy_revision", plan.execution_policy_revision)
    ∷ []

unfoldable pub hash_execution_plan_approval :
    UuidCrate → Digest → ExecutionPlanVersion → RunGraphVersion → Text
hash_execution_plan_approval u digest plan graph =
    hash_canonical_fields digest (approval_fields u plan graph)

unfoldable pub freeze :
    UuidCrate
    → Digest
    → ExecutionPlanVersionId
    → RunGraphVersion
    → Text
    → Text
    → Text
    → DisclosurePolicy
    → CapabilityEnvelope
    → ContextManifest
    → ReplacementContentInput
    → Text
    → Text
    → ℤ
    → ExecutionPlanVersion
freeze u digest id graph instructions provider_profile_id model_id policy envelope manifest
      replacement identity revision created_at =
    record parts { approval_hash = hash_execution_plan_approval u digest parts graph }
  where
    parts : ExecutionPlanVersion
    parts = record {
      id = id;
      graph_version_id = graph.id;
      instructions = instructions;
      provider_profile_id = provider_profile_id;
      model_id = model_id;
      disclosure_policy = policy;
      capability_envelope = envelope;
      context_manifest = manifest;
      replacement = replacement;
      preimage_filesystem_identity = identity;
      execution_policy_revision = revision;
      approval_hash = [];
      created_at_unix_ms = created_at;
    }

pub data ApprovalError : Type 0 where
  pair_mismatch invalid_approval_hash : ApprovalError

pub record ApprovalRecord : Type 0 where
  pub id : ApprovalRecordId
  pub run_id : HarnessRunId
  pub plan_version_id : ExecutionPlanVersionId
  pub graph_version_id : RunGraphVersionId
  pub approval_hash : Text
  pub approver : Text
  pub approved_at_unix_ms : ℤ

-- `ApprovalRecord::new`.
unfoldable pub new_approval :
    ApprovalRecordId
    → HarnessRunId
    → ExecutionPlanVersion
    → RunGraphVersion
    → Text
    → ℤ
    → Result ApprovalError ApprovalRecord
new_approval id run_id plan graph approver approved_at =
    if plan.graph_version_id != graph.id
    then err pair_mismatch
    else if (plan.approval_hash == []) || not (is_canonical_sha256_hex plan.approval_hash)
    then err invalid_approval_hash
    else ok (record {
      id = id;
      run_id = run_id;
      plan_version_id = plan.id;
      graph_version_id = graph.id;
      approval_hash = plan.approval_hash;
      approver = approver;
      approved_at_unix_ms = approved_at;
    })

unfoldable pub matches_plan : ApprovalRecord → ExecutionPlanVersion → Bool
matches_plan approval plan =
    (approval.plan_version_id == plan.id)
    && (approval.graph_version_id == plan.graph_version_id)
    && (approval.approval_hash == plan.approval_hash)
