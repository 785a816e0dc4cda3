-- ===== src/Capability/Grants.antt =====
-- The life of one grant: issue, revocation and the dispatches that its budget pays for
-- (crates/tule-core/src/capability.rs, `CapabilityGrant`).
use tule.Base.{
  min, ◌-◌, inl, inr, Result-cases, ℕ, zero, suc, ◌+◌, ◌≤◌, ◌<◌, ◌≡◌, Option, Result, ok, err, Text,
  nat_eq, ℤ, pos, pos_part, IsI64, ◌<ℤ◌, add_i64, lt-add_i64, arith,
}
use tule.Ids.{HarnessRunId, CapabilityGrantId, ApprovalRecordId}
use tule.Capability.{
  GrantResourceSelector, GrantActionScope, PlanGraphPairBinding, CapabilityGrant,
  CapabilityGrantError, issue, revoke, consume_dispatch,
}
use tule.Capability.Kinds.{CapabilityType, default_ttl_ms, default_dispatch_budget}

-- What the code relies on between calls.
pub record IsValid (grant : CapabilityGrant) : Type 0 where
  pub within_budget : grant.dispatch_budget_remaining ≤ grant.dispatch_budget
  pub has_budget : 0 < grant.dispatch_budget
  pub ends_later : grant.issued_at_unix_ms <ℤ grant.expires_at_unix_ms

pub issue-IsValid :
    (id : CapabilityGrantId) (run_id : HarnessRunId) (c : CapabilityType)
    (r : GrantResourceSelector) (s : GrantActionScope) (p : Option PlanGraphPairBinding)
    (a : Option ApprovalRecordId) (issuer : Text) (issued expires : ℤ) (budget : ℕ)
    {grant : CapabilityGrant}
    → issue id run_id c r s p a issuer issued expires budget ≡ ok grant
    → IsValid grant
unfolding issue
issue-IsValid id run_id c r s p a issuer issued expires budget h = ground arith

default_ttl_ms_pos : (c : CapabilityType) → 0 < default_ttl_ms c
default_ttl_ms_pos c = ground arith

-- A grant with the default time to live and the default budget is issued as long as its expiry
-- is a time of i64.
pub issue_default_ok :
    (id : CapabilityGrantId) (run_id : HarnessRunId) (c : CapabilityType)
    (r : GrantResourceSelector) (s : GrantActionScope) (p : Option PlanGraphPairBinding)
    (a : Option ApprovalRecordId) (issuer : Text) (now : ℤ)
    → IsI64 now
    → pos_part now + default_ttl_ms c < 9223372036854775808
    → (grant : CapabilityGrant) × (issue id run_id c r s p a issuer now
          (add_i64 now (pos (default_ttl_ms c)))
          default_dispatch_budget
        ≡ ok grant)
      × IsValid grant
unfolding issue
issue_default_ok id run_id c r s p a issuer now i h =
    let t = default_ttl_ms c in
    let e = add_i64 now (pos t) in
    elim (Result-cases (issue id run_id c r s p a issuer now e default_dispatch_budget)) [
      | inl (grant, done) ↦
          (grant, done, issue-IsValid id run_id c r s p a issuer now e default_dispatch_budget done)
      | inr (error, failed) ↦ absurd (ground (arith, lt-add_i64 now t i h (default_ttl_ms_pos c)))
    ]

pub data Call : Type 0 where
  revokes : ℤ → Call
  dispatches : Call

unfoldable pub call :
    CapabilityGrant → Call → CapabilityGrant × Result CapabilityGrantError (Unit {0})
call grant (revokes now) = revoke grant now
call grant dispatches = consume_dispatch grant

pub call-IsValid : (grant : CapabilityGrant) (c : Call) → IsValid grant → IsValid (call grant c).0
unfolding call revoke consume_dispatch
call-IsValid grant (revokes now) v = ground arith
call-IsValid grant dispatches v = ground arith

-- The dispatches that succeed among `n` attempts, and the grant after them.
pub attempts : ℕ → CapabilityGrant → CapabilityGrant × ℕ
attempts zero grant = (grant, 0)
attempts (suc n) grant =
    let (after, result) = consume_dispatch grant in
    let (last, count) = attempts n after in (last, elim result [ ok _ ↦ count + 1 | err _ ↦ count ])

-- A grant pays for exactly as many dispatches as its budget has left, and nothing else changes.
pub attempts_lem :
    (n : ℕ) (grant : CapabilityGrant)
    → ((attempts n grant).1 ≡ min n grant.dispatch_budget_remaining)
      × ((attempts n grant).0
          ≡ record grant { dispatch_budget_remaining = grant.dispatch_budget_remaining - n })
unfolding attempts consume_dispatch
attempts_lem zero grant = ground arith
attempts_lem (suc n) grant = ground (arith, attempts_lem n (consume_dispatch grant).0)

-- A call that is refused leaves the grant as it was: a second revocation, a dispatch with no budget.
pub call_refused :
    (grant : CapabilityGrant) (c : Call) {e : CapabilityGrantError}
    → (call grant c).1 ≡ err e
    → (call grant c).0 ≡ grant
unfolding call revoke consume_dispatch
call_refused grant (revokes now) h = ground arith
call_refused grant dispatches h = ground arith
