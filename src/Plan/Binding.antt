-- ===== src/Plan/Binding.antt =====
-- What an approval hash fixes (crates/tule-core/src/run.rs, `hash_execution_plan_approval`).
use tule.Base.{◌≡◌, ap, zero, suc, ◌⊎◌, inl, inr, List, [], ◌∷◌, Text, All, ℕ}
use tule.Ids.{UuidCrate}
use tule.Canonical.{Digest}
use tule.Canonical.Injective.{IsShortField}
use tule.Canonical.Hashes.{Collision, AreBytes, hash_canonical_fields_binds}
use tule.Graph.{RunGraphVersion}
use tule.Plan.{ExecutionPlanVersion, canonical_bytes, approval_fields, hash_execution_plan_approval}

-- The two pairs agree in all that an approval stands for.
pub record SameApproval (u : UuidCrate) (p q : ExecutionPlanVersion) (g h : RunGraphVersion)
    : Type 0 where
  pub same_plan_id : u.to_string p.id ≡ u.to_string q.id
  pub same_graph_id : u.to_string g.id ≡ u.to_string h.id
  pub same_graph_hash : g.content_hash ≡ h.content_hash
  pub same_instructions : p.instructions ≡ q.instructions
  pub same_provider : p.provider_profile_id ≡ q.provider_profile_id
  pub same_model : p.model_id ≡ q.model_id
  pub same_policy_id : p.disclosure_policy.policy_id ≡ q.disclosure_policy.policy_id
  pub same_disclosure :
      p.disclosure_policy.allowed_disclosure ≡ q.disclosure_policy.allowed_disclosure
  pub same_envelope : canonical_bytes p.capability_envelope ≡ canonical_bytes q.capability_envelope
  pub same_context : p.context_manifest.content_hash ≡ q.context_manifest.content_hash
  pub same_request :
      p.context_manifest.request_semantic_hash ≡ q.context_manifest.request_semantic_hash
  pub same_target : p.replacement.relative_target ≡ q.replacement.relative_target
  pub same_preimage : p.replacement.preimage_hash ≡ q.replacement.preimage_hash
  pub same_postimage : p.replacement.postimage_hash ≡ q.replacement.postimage_hash
  pub same_diff : p.replacement.expected_diff_hash ≡ q.replacement.expected_diff_hash
  pub same_file : p.preimage_filesystem_identity ≡ q.preimage_filesystem_identity
  pub same_retry : g.retry_rule ≡ h.retry_rule
  pub same_validation : g.validation_rule ≡ h.validation_rule
  pub same_revision : p.execution_policy_revision ≡ q.execution_policy_revision

-- The value of the field at an index.
abbrev value_at : ℕ → List (Text × List ℕ) → List ℕ
value_at i [] = []
value_at zero ((n, v) ∷ fs) = v
value_at (suc i) ((n, v) ∷ fs) = value_at i fs

approval_fields_injective :
    (u : UuidCrate) (p q : ExecutionPlanVersion) (g h : RunGraphVersion)
    → approval_fields u p g ≡ approval_fields u q h
    → SameApproval u p q g h
approval_fields_injective u p q g h e = record {
  same_plan_id = ap (value_at 0) e;
  same_graph_id = ap (value_at 1) e;
  same_graph_hash = ap (value_at 2) e;
  same_instructions = ap (value_at 3) e;
  same_provider = ap (value_at 4) e;
  same_model = ap (value_at 5) e;
  same_policy_id = ap (value_at 6) e;
  same_disclosure = ap (value_at 7) e;
  same_envelope = ap (value_at 8) e;
  same_context = ap (value_at 9) e;
  same_request = ap (value_at 10) e;
  same_target = ap (value_at 11) e;
  same_preimage = ap (value_at 12) e;
  same_postimage = ap (value_at 13) e;
  same_diff = ap (value_at 14) e;
  same_file = ap (value_at 15) e;
  same_retry = ap (value_at 16) e;
  same_validation = ap (value_at 17) e;
  same_revision = ap (value_at 21) e;
}

-- Two plan and graph pairs, each with fields below 4 GiB, have one approval hash only if they agree in
-- all that an approval stands for, or a collision of the digest is at hand.
pub approval_hash_binds :
    (u : UuidCrate) (digest : Digest) (p q : ExecutionPlanVersion) (g h : RunGraphVersion)
    → ((x : List ℕ) → AreBytes (digest x))
    → All IsShortField (approval_fields u p g)
    → All IsShortField (approval_fields u q h)
    → hash_execution_plan_approval u digest p g ≡ hash_execution_plan_approval u digest q h
    → SameApproval u p q g h ⊎ Collision digest
unfolding hash_execution_plan_approval
approval_hash_binds u digest p q g h d s t e =
    elim (hash_canonical_fields_binds digest d (approval_fields u p g) (approval_fields u q h) s t
      e) [ inl same ↦ inl (approval_fields_injective u p q g h same) | inr found ↦ inr found ]
