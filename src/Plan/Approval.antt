-- ===== src/Plan/Approval.antt =====
-- Which pairs can be approved, and which plan an approval is for (crates/tule-core/src/run.rs,
-- `ApprovalRecord`).
use tule.Base.{
  ℕ, ◌≡◌, refl, ◌↔◌, inl, inr, true, false, List, [], Result-cases, ok, Text, length, arith, ℤ,
  ℕ_discrete,
}
use tule.Ids.{UuidCrate, HarnessRunId, ApprovalRecordId, ExecutionPlanVersionId}
use tule.Canonical.{Digest, hash_source_bytes, hash_canonical_fields, is_canonical_sha256_hex}
use tule.Canonical.Hashes.{AreBytes}
use tule.Canonical.Digits.{is_canonical-to_hex}
use tule.Graph.{RunGraphVersion}
use tule.Plan.{
  DisclosurePolicy, CapabilityEnvelope, ContextManifest, ReplacementContentInput,
  ExecutionPlanVersion, ApprovalRecord, hash_execution_plan_approval, freeze, new_approval,
  matches_plan,
}

-- An approval that is recorded names its plan, its graph and the approval hash: the plan names the
-- graph, the hash is a canonical SHA-256 text, and the approval matches a plan exactly if that has the
-- same identifier, the same graph and the same hash.
pub new_approval_lem :
    (id : ApprovalRecordId) (run_id : HarnessRunId) (plan other : ExecutionPlanVersion)
    (graph : RunGraphVersion) (approver : Text) (at : ℤ) {approval : ApprovalRecord}
    → new_approval id run_id plan graph approver at ≡ ok approval
    → (plan.graph_version_id ≡ graph.id)
      × (is_canonical_sha256_hex plan.approval_hash ≡ true)
      × ((matches_plan approval other ≡ true) ↔ (
          (other.id ≡ plan.id)
          × (other.graph_version_id ≡ plan.graph_version_id)
          × (other.approval_hash ≡ plan.approval_hash)))
unfolding new_approval matches_plan
new_approval_lem id run_id plan other graph approver at h =
    (ground arith, ground arith, (λ m. ground arith, λ m. ground arith))

not-canonical-nil : is_canonical_sha256_hex [] ≡ false
unfolding is_canonical_sha256_hex ℕ_discrete
not-canonical-nil = refl

canonical_plan_ok :
    (id : ApprovalRecordId) (run_id : HarnessRunId) (plan : ExecutionPlanVersion)
    (graph : RunGraphVersion) (approver : Text) (at : ℤ)
    → plan.graph_version_id ≡ graph.id
    → is_canonical_sha256_hex plan.approval_hash ≡ true
    → (approval : ApprovalRecord) × (new_approval id run_id plan graph approver at ≡ ok approval)
      × (matches_plan approval plan ≡ true)
unfolding new_approval matches_plan
canonical_plan_ok id run_id plan graph approver at g c =
    elim (Result-cases (new_approval id run_id plan graph approver at)) [
      | inl (approval, done) ↦ (approval, done, ground arith)
      | inr (e, failed) ↦ absurd (ground (arith, not-canonical-nil))
    ]

-- A plan that is frozen with a graph can be approved with that graph, and the approval matches the
-- plan, as long as the digest returns 32 bytes.
pub approve_frozen :
    (u : UuidCrate) (digest : Digest) (id : ExecutionPlanVersionId) (graph : RunGraphVersion)
    (instructions provider model : Text) (policy : DisclosurePolicy) (envelope : CapabilityEnvelope)
    (manifest : ContextManifest) (replacement : ReplacementContentInput) (identity revision : Text)
    (created_at : ℤ) (approval_id : ApprovalRecordId) (run_id : HarnessRunId) (approver : Text)
    (at : ℤ)
    → ((x : List ℕ) → AreBytes (digest x) × (length (digest x) ≡ 32))
    → let plan =
        freeze u digest id graph instructions provider model policy envelope manifest replacement
          identity revision created_at in
      (approval : ApprovalRecord) × (new_approval approval_id run_id plan graph approver at
        ≡ ok approval)
      × (matches_plan approval plan ≡ true)
unfolding freeze hash_execution_plan_approval hash_canonical_fields hash_source_bytes
approve_frozen u digest id graph instructions provider model policy envelope manifest replacement
      identity revision created_at approval_id run_id approver at d =
    canonical_plan_ok approval_id run_id _ graph approver at refl
      (is_canonical-to_hex _ (d _).0 (d _).1)
