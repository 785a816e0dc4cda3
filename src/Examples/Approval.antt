-- ===== src/Examples/Approval.antt =====
-- The proposal, the plan and its approval at concrete inputs.
use tule.Base.{
  ℕ, ◌+◌, ◌<◌, ◌≡◌, ◌≢◌, ◌⊎◌, ◌++◌, refl, none, some, List, [], ◌∷◌, ok, Text, bytes, length, All,
  map, true, false, pos, arith, ◌↔◌, Text-discrete, ℕ_discrete, find_text, replace_once,
}
use tule.Event.{RunEvent, RunEventKind}
use tule.Canonical.{hash_event_chain}
use tule.Canonical.Hashes.{Collision, AreBytes}
use tule.Canonical.EventChain.{event_key, IsStored, hash_event_chain_binds}
use tule.Canonical.Injective.{IsShortField}
use tule.Graph.{RunGraphVersion}
use tule.Plan.{
  DisclosurePolicy, CapabilityEnvelope, ContextManifest, ReplacementContentInput,
  ExecutionPlanVersion, ApprovalRecord, approval_fields, hash_execution_plan_approval, freeze,
  new_approval, matches_plan,
}
use tule.Plan.Binding.{SameApproval, approval_hash_binds}
use tule.Plan.Approval.{approve_frozen}
use tule.Proposal.{
  validate_bootstrap_proposal, count_from, count_occurrences, controlled_relative_target,
  bootstrap_heading_before, validate_run_content_bytes, reject_payload, compare_images,
}
use tule.Proposal.Accepted.{IsRunContent, IsHeadingChange, accepted_proposal}
use tule.Proposal.Counting.{count_occurrences_rounds}
use tule.Examples.Data.{uuids, digest, owner, event}

abbrev preimage : Text
preimage = bytes "x<h1>Ready</h1>y"

abbrev postimage : Text
postimage = bytes "x<h1>Ready for review</h1>y"

accepted_proposal_example :
    (controlled_relative_target ≡ controlled_relative_target)
    × IsRunContent preimage
    × IsRunContent postimage
    × IsHeadingChange preimage postimage
unfolding validate_bootstrap_proposal validate_run_content_bytes reject_payload compare_images
    count_occurrences count_from find_text replace_once ℕ_discrete Text-discrete
    tule.Base.to_ascii_lowercase
accepted_proposal_example = accepted_proposal preimage postimage controlled_relative_target refl

count_occurrences_rounds_example :
    count_from (5 + (length preimage + 1)) preimage bootstrap_heading_before
    ≡ count_occurrences preimage bootstrap_heading_before
count_occurrences_rounds_example =
    count_occurrences_rounds 5 preimage bootstrap_heading_before (λ e. cc)

abbrev pub graph : RunGraphVersion
graph = record {
  id = 3;
  nodes = [];
  edges = [];
  retry_rule = owner;
  validation_rule = owner;
  content_hash = owner;
}

abbrev policy : DisclosurePolicy
policy = record { policy_id = owner; allowed_disclosure = owner }

abbrev envelope : CapabilityEnvelope
envelope = record { requested = []; summary = owner }

abbrev manifest : ContextManifest
manifest = record {
  id = 4;
  content_hash = owner;
  request_semantic_hash = owner;
  disclosed_byte_count = 1;
  summary = owner;
}

abbrev replacement : ReplacementContentInput
replacement = record {
  id = 6;
  relative_target = controlled_relative_target;
  preimage_hash = owner;
  postimage_hash = owner;
  expected_diff_hash = owner;
  postimage_utf8 = postimage;
  provider_request_id = none;
  provider_response_id = none;
  created_at_unix_ms = pos 0;
}

abbrev pub plan : ExecutionPlanVersion
plan =
    freeze uuids digest 2 graph owner owner owner policy envelope manifest replacement owner owner
      (pos 0)

digest_bytes : (x : List ℕ) → AreBytes (digest x) × (length (digest x) ≡ 32)
digest_bytes x = ground arith

approve_frozen_example :
    (approval : ApprovalRecord) × (new_approval 8 1 plan graph owner (pos 1) ≡ ok approval)
    × (matches_plan approval plan ≡ true)
approve_frozen_example =
    approve_frozen uuids digest 2 graph owner owner owner policy envelope manifest replacement owner
      owner (pos 0) 8 1 owner (pos 1) digest_bytes

short_fields : All IsShortField (approval_fields uuids plan graph)
unfolding freeze tule.Plan.canonical_bytes tule.Canonical.append_canonical_field
    tule.Canonical.be_bytes_u32
short_fields = (
  (omega arith, omega arith),
  (
    (omega arith, omega arith),
    (
      (omega arith, omega arith),
      (
        (omega arith, omega arith),
        (
          (omega arith, omega arith),
          (
            (omega arith, omega arith),
            (
              (omega arith, omega arith),
              (
                (omega arith, omega arith),
                (
                  (omega arith, omega arith),
                  (
                    (omega arith, omega arith),
                    (
                      (omega arith, omega arith),
                      (
                        (omega arith, omega arith),
                        (
                          (omega arith, omega arith),
                          (
                            (omega arith, omega arith),
                            (
                              (omega arith, omega arith),
                              (
                                (omega arith, omega arith),
                                (
                                  (omega arith, omega arith),
                                  (
                                    (omega arith, omega arith),
                                    (
                                      (omega arith, omega arith),
                                      (
                                        (omega arith, omega arith),
                                        (
                                          (omega arith, omega arith),
                                          ((omega arith, omega arith), tt),
                                        ),
                                      ),
                                    ),
                                  ),
                                ),
                              ),
                            ),
                          ),
                        ),
                      ),
                    ),
                  ),
                ),
              ),
            ),
          ),
        ),
      ),
    ),
  ),
)

approval_hash_binds_example : SameApproval uuids plan plan graph graph ⊎ Collision digest
approval_hash_binds_example =
    approval_hash_binds uuids digest plan plan graph graph (λ x. (digest_bytes x).0) short_fields
      short_fields refl

abbrev events : List RunEvent
events = event 1 RunEventKind.run_created ∷ event 2 RunEventKind.completed ∷ []

abbrev other_events : List RunEvent
other_events = event 1 RunEventKind.run_created ∷ event 2 RunEventKind.paused ∷ []

stored : (n : ℕ) (kind : RunEventKind) → n < 18446744073709551616 → IsStored uuids (event n kind)
stored n kind h = record { sequence_range = h; short_id = omega arith }

hash_event_chain_binds_example :
    (map event_key events ≡ map event_key other_events) ⊎ Collision digest
unfolding tule.Canonical.hash_event_chain tule.Canonical.hash_source_bytes
hash_event_chain_binds_example =
    hash_event_chain_binds uuids digest events other_events (λ x. (digest_bytes x).0)
      (λ a b e. ground arith)
      (
        stored 1 RunEventKind.run_created (omega arith),
        (stored 2 RunEventKind.completed (omega arith), tt),
      )
      (
        stored 1 RunEventKind.run_created (omega arith),
        (stored 2 RunEventKind.paused (omega arith), tt),
      )
      refl

frozen_approval :
    (approval : ApprovalRecord) × (new_approval 8 1 plan graph owner (pos 1) ≡ ok approval)
    × (matches_plan approval plan ≡ true)
frozen_approval =
    approve_frozen uuids digest 2 graph owner owner owner policy envelope manifest replacement owner
      owner (pos 0) 8 1 owner (pos 1) digest_bytes
