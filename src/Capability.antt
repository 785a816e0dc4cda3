-- ===== src/Capability.antt =====
-- Capability grants and their default-deny evaluation: crates/tule-core/src/capability.rs.
-- A method on `&mut self` returns the record after the call with its result. An identifier that the
-- code generates is an argument, and so is the clock.
pub mod Kinds
pub mod Grants
pub mod Evaluation
pub mod Labels
use tule.Base.{
  ℕ, ◌-◌, Bool, true, false, not, Option, none, some, List, ◌++◌, Result, ok, err, ◌>>=◌, map_err,
  Text, bytes, Eq, ◌==◌, ◌!=◌, nat_eq, text_eq, Text-discrete, ℕ_discrete, ℤ, pos, leb_ℤ, leb, ltb,
  if◌then◌else◌,
}
use tule.Ids.{
  HarnessRunId, CapabilityGrantId, ExecutionPlanVersionId, RunGraphVersionId, ApprovalRecordId,
  NodeAttemptId, EffectRecordId, InvalidRunId, UuidCrate, parse_id,
}
use Kinds.{
  bootstrap_grant_ttl_ms, post_approval_grant_ttl_ms, default_dispatch_budget, op_local_read_v1,
  op_provider_disclose_v1, op_create_or_replace_v1, op_native_inspect_v1,
  registered_operation_schema_v1, CapabilityType, CapabilityType-discrete, capability_type_eq,
  as_str, InvalidCapabilityType, parse, default_ttl_ms, registered_operation,
  RegisteredOperationIdentity, for_capability, list, local_read, create_or_replace,
  native_inspection, provider_disclose, invalid_capability_type,
}

pub data GrantResourceSelector : Type 0 where
  run_root : GrantResourceSelector
  relative_target context_manifest_hash : Text → GrantResourceSelector
  -- The run-relative path, the expected preimage hash and the expected postimage hash.
  replacement_target : Text → Text → Text → GrantResourceSelector

-- `GrantResourceSelector::canonical_bytes`.
abbrev pub canonical_bytes : GrantResourceSelector → List ℕ
canonical_bytes run_root = bytes "run_root"
canonical_bytes (relative_target path) = bytes "relative_target:" ++ path
canonical_bytes (context_manifest_hash hash) = bytes "context_manifest:" ++ hash
canonical_bytes (replacement_target path preimage_hash postimage_hash) =
    bytes "replacement:"
    ++ (path ++ (bytes "|" ++ (preimage_hash ++ (bytes "|" ++ postimage_hash))))

unfoldable pub GrantResourceSelector-discrete : Discrete GrantResourceSelector
unfolding ℕ_discrete
GrantResourceSelector-discrete = hlevel ℕ_discrete

instance abbrev pub resource_selector_eq : Eq GrantResourceSelector
resource_selector_eq = record { dec_eq = GrantResourceSelector-discrete }

pub data GrantActionScope : Type 0 where
  run : GrantActionScope
  node : Text → GrantActionScope
  effect : EffectRecordId → GrantActionScope
  attempt : NodeAttemptId → GrantActionScope

unfoldable pub GrantActionScope-discrete : Discrete GrantActionScope
unfolding ℕ_discrete
GrantActionScope-discrete = hlevel ℕ_discrete

instance abbrev pub action_scope_eq : Eq GrantActionScope
action_scope_eq = record { dec_eq = GrantActionScope-discrete }

pub data PlanGraphPairBinding : Type 0 where
  -- The frozen execution plan version and the frozen run graph version.
  pair_binding : ExecutionPlanVersionId → RunGraphVersionId → PlanGraphPairBinding

unfoldable pub PlanGraphPairBinding-discrete : Discrete PlanGraphPairBinding
unfolding ℕ_discrete
PlanGraphPairBinding-discrete = hlevel ℕ_discrete

instance abbrev pub pair_binding_eq : Eq PlanGraphPairBinding
pair_binding_eq = record { dec_eq = PlanGraphPairBinding-discrete }

pub record CapabilityGrant : Type 0 where
  pub id : CapabilityGrantId
  pub run_id : HarnessRunId
  pub capability : CapabilityType
  pub resource : GrantResourceSelector
  pub action_scope : GrantActionScope
  pub pair : Option PlanGraphPairBinding
  pub related_approval_id : Option ApprovalRecordId
  pub issuer : Text
  pub issued_at_unix_ms : ℤ
  pub expires_at_unix_ms : ℤ
  pub revoked_at_unix_ms : Option ℤ
  pub dispatch_budget : ℕ
  pub dispatch_budget_remaining : ℕ
  pub operation : RegisteredOperationIdentity

pub data CapabilityGrantError : Type 0 where
  invalid_id : InvalidRunId → CapabilityGrantError
  invalid_expiry zero_budget budget_invariant already_revoked budget_exhausted :
      CapabilityGrantError

unfoldable pub issue :
    CapabilityGrantId
    → HarnessRunId
    → CapabilityType
    → GrantResourceSelector
    → GrantActionScope
    → Option PlanGraphPairBinding
    → Option ApprovalRecordId
    → Text
    → ℤ
    → ℤ
    → ℕ
    → Result CapabilityGrantError CapabilityGrant
unfolding for_capability
issue id run_id capability resource action_scope pair related_approval_id issuer issued expires
      budget =
    if leb_ℤ expires issued
    then err invalid_expiry
    else if budget == 0
    then err zero_budget
    else ok (record {
      id = id;
      run_id = run_id;
      capability = capability;
      resource = resource;
      action_scope = action_scope;
      pair = pair;
      related_approval_id = related_approval_id;
      issuer = issuer;
      issued_at_unix_ms = issued;
      expires_at_unix_ms = expires;
      revoked_at_unix_ms = none;
      dispatch_budget = budget;
      dispatch_budget_remaining = budget;
      operation = for_capability capability;
    })

-- `from_stored_parts` on the columns of a stored grant: a grant whose identifier is still a text.
unfoldable pub from_stored_parts :
    UuidCrate → Text → CapabilityGrant → Result CapabilityGrantError CapabilityGrant
unfolding parse_id
from_stored_parts u id_text parts = do
  id ← map_err invalid_id (parse_id u (bytes "capability grant ID") id_text)
  if ltb parts.dispatch_budget parts.dispatch_budget_remaining
      then err budget_invariant
      else ok (record parts { id = id })

abbrev pub is_revoked : CapabilityGrant → Bool
is_revoked grant = elim grant.revoked_at_unix_ms [ none ↦ false | some _ ↦ true ]

unfoldable pub revoke :
    CapabilityGrant → ℤ → CapabilityGrant × Result CapabilityGrantError (Unit {0})
revoke grant now_unix_ms =
    if is_revoked grant
    then (grant, err already_revoked)
    else (record grant { revoked_at_unix_ms = some now_unix_ms }, ok tt)

unfoldable pub consume_dispatch :
    CapabilityGrant → CapabilityGrant × Result CapabilityGrantError (Unit {0})
consume_dispatch grant =
    if grant.dispatch_budget_remaining == 0
    then (grant, err budget_exhausted)
    else (record grant { dispatch_budget_remaining = grant.dispatch_budget_remaining - 1 }, ok tt)

pub record GrantEvaluationRequest : Type 0 where
  pub run_id : HarnessRunId
  pub capability : CapabilityType
  pub operation_id : Text
  pub resource : GrantResourceSelector
  pub action_scope : GrantActionScope
  pub pair : Option PlanGraphPairBinding
  pub now_unix_ms : ℤ

pub data GrantDenialReason : Type 0 where
  wrong_run wrong_capability wrong_operation wrong_scope wrong_action_scope wrong_pair_binding :
      GrantDenialReason
  expired revoked exhausted : GrantDenialReason

-- `Display`, whose text a denial keeps as its reason.
pub reason_text : GrantDenialReason → Text
reason_text wrong_run = bytes "grant run binding does not match"
reason_text wrong_capability = bytes "grant capability does not match"
reason_text wrong_operation = bytes "grant operation does not match"
reason_text wrong_scope = bytes "grant resource scope does not match"
reason_text wrong_action_scope = bytes "grant action scope does not match"
reason_text wrong_pair_binding = bytes "grant plan/graph pair does not match"
reason_text expired = bytes "grant has expired"
reason_text revoked = bytes "grant has been revoked"
reason_text exhausted = bytes "grant dispatch budget is exhausted"

pub data GrantEvaluation : Type 0 where
  allow : GrantEvaluation
  deny : GrantDenialReason → GrantEvaluation

-- The match on the two bindings: both absent, or both present and equal.
abbrev pair_matches : Option PlanGraphPairBinding → Option PlanGraphPairBinding → Bool
pair_matches none none = true
pair_matches (some granted) (some required) = granted == required
pair_matches _ _ = false

unfoldable pub evaluate_grant : CapabilityGrant → GrantEvaluationRequest → GrantEvaluation
evaluate_grant grant request =
    if grant.run_id != request.run_id
    then deny wrong_run
    else if grant.capability != request.capability
    then deny wrong_capability
    else if grant.operation.operation_id != request.operation_id
    then deny wrong_operation
    else if grant.resource != request.resource
    then deny wrong_scope
    else if grant.action_scope != request.action_scope
    then deny wrong_action_scope
    else if not (pair_matches grant.pair request.pair)
    then deny wrong_pair_binding
    else if is_revoked grant
    then deny revoked
    else if leb_ℤ grant.expires_at_unix_ms request.now_unix_ms
    then deny expired
    else if grant.dispatch_budget_remaining == 0
    then deny exhausted
    else allow
