-- ===== src/Capability/Evaluation.antt =====
-- What `evaluate_grant` allows (crates/tule-core/src/capability.rs).
use tule.Base.{◌<◌, ◌≡◌, ◌≢◌, ◌⊎◌, ◌↔◌, Option, none, ok, Text, ℤ, ◌<ℤ◌, ◌≤ℤ◌, arith}
use tule.Ids.{CapabilityGrantId, ApprovalRecordId}
use tule.Capability.{
  CapabilityGrant, GrantEvaluationRequest, allow, deny, expired, revoked, exhausted, issue, revoke,
  consume_dispatch, evaluate_grant,
}
use tule.Capability.Kinds.{default_dispatch_budget, registered_operation}
use tule.Capability.Grants.{Call, call}

-- The grant names the run, the capability, the operation, the resource, the scope and the pair.
pub record Covers (grant : CapabilityGrant) (request : GrantEvaluationRequest) : Type 0 where
  pub same_run : grant.run_id ≡ request.run_id
  pub same_capability : grant.capability ≡ request.capability
  pub same_operation : grant.operation.operation_id ≡ request.operation_id
  pub same_resource : grant.resource ≡ request.resource
  pub same_scope : grant.action_scope ≡ request.action_scope
  pub same_pair : grant.pair ≡ request.pair

-- The grant may still be used at a time.
pub record IsLive (grant : CapabilityGrant) (now : ℤ) : Type 0 where
  pub not_revoked : grant.revoked_at_unix_ms ≡ none
  pub not_expired : now <ℤ grant.expires_at_unix_ms
  pub budget_left : 0 < grant.dispatch_budget_remaining

-- Default deny: a request is allowed exactly if the grant covers it and is live at its time.
pub evaluate_grant-allow :
    (grant : CapabilityGrant) (request : GrantEvaluationRequest)
    → (evaluate_grant grant request ≡ allow)
      ↔ (Covers grant request × IsLive grant request.now_unix_ms)
unfolding evaluate_grant
evaluate_grant-allow grant request = (λ h. ground arith, λ h. ground arith)

-- A covered request is allowed by a live grant. Otherwise it is denied, in this order: as revoked, as
-- expired, or as out of budget.
pub evaluate_grant-deny :
    (grant : CapabilityGrant) (request : GrantEvaluationRequest)
    → Covers grant request
    → (IsLive grant request.now_unix_ms × (evaluate_grant grant request ≡ allow))
      ⊎ ((grant.revoked_at_unix_ms ≢ none) × (evaluate_grant grant request ≡ deny revoked))
      ⊎ ((grant.revoked_at_unix_ms ≡ none)
          × (grant.expires_at_unix_ms ≤ℤ request.now_unix_ms)
          × (evaluate_grant grant request ≡ deny expired))
      ⊎ ((grant.revoked_at_unix_ms ≡ none)
          × (request.now_unix_ms <ℤ grant.expires_at_unix_ms)
          × (grant.dispatch_budget_remaining ≡ 0)
          × (evaluate_grant grant request ≡ deny exhausted))
unfolding evaluate_grant
evaluate_grant-deny grant request c = ground arith

-- A history of calls on one grant.
pub data Later (grant : CapabilityGrant) : CapabilityGrant → Type 0 where
  now : Later grant grant
  next : {g : CapabilityGrant} → Later grant g → (c : Call) → Later grant (call g c).0

call-revoked :
    (g : CapabilityGrant) (c : Call)
    → g.revoked_at_unix_ms ≢ none
    → (call g c).0.revoked_at_unix_ms ≢ none
unfolding call revoke consume_dispatch
call-revoked g c h = ground arith

Later-revoked :
    {grant g : CapabilityGrant}
    → Later grant g
    → grant.revoked_at_unix_ms ≢ none
    → g.revoked_at_unix_ms ≢ none
Later-revoked now h = h
Later-revoked (next {g} l c) h = call-revoked g c (Later-revoked l h)

-- Revocation is final: whatever is done with the grant afterwards, no request is allowed again.
pub revoke_final :
    (grant g : CapabilityGrant) (at : ℤ) (request : GrantEvaluationRequest)
    → Later (revoke grant at).0 g
    → evaluate_grant g request ≢ allow
unfolding revoke
revoke_final grant g at request l h =
    Later-revoked l (λ e. ground arith) ((evaluate_grant-allow g request).0 h).1.not_revoked

-- Under the default budget a grant pays for one dispatch: it allows a covered request before its
-- expiry, and denies it once the dispatch is taken.
pub issue-single_use :
    (id : CapabilityGrantId) (a : Option ApprovalRecordId) (issuer : Text) (issued expires : ℤ)
    (request : GrantEvaluationRequest) {grant : CapabilityGrant}
    → issue id request.run_id request.capability request.resource request.action_scope request.pair
        a issuer issued expires default_dispatch_budget
      ≡ ok grant
    → registered_operation request.capability ≡ request.operation_id
    → request.now_unix_ms <ℤ expires
    → (evaluate_grant grant request ≡ allow)
      × (evaluate_grant (consume_dispatch grant).0 request ≡ deny exhausted)
unfolding issue evaluate_grant consume_dispatch
issue-single_use id a issuer issued expires request h o e = ground arith
