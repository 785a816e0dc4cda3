-- ===== src/Examples/Grants.antt =====
-- Grants and leases at concrete inputs.
use tule.Base.{◌-◌, min, ◌≡◌, ◌≢◌, ◌↔◌, refl, none, [], ◌∷◌, ok, pos, arith}
use tule.Capability.{
  CapabilityGrant, GrantEvaluationRequest, run_root, run, allow, deny, revoked, expired, exhausted,
  evaluate_grant, revoke, consume_dispatch,
}
use tule.Capability.Kinds.{CapabilityType, op_create_or_replace_v1, for_capability}
use tule.Capability.Grants.{attempts, attempts_lem, dispatches}
use tule.Capability.Evaluation.{Covers, IsLive, evaluate_grant-allow, now, next, revoke_final}
use tule.Lease.Renewal.{renew_all, renew_all_ok}
use tule.Examples.Data.{owner, grant, lease}

abbrev request : GrantEvaluationRequest
request = record {
  run_id = 1;
  capability = CapabilityType.create_or_replace;
  operation_id = op_create_or_replace_v1;
  resource = run_root;
  action_scope = run;
  pair = none;
  now_unix_ms = pos 10;
}

evaluate_grant-allow_example :
    (evaluate_grant grant request ≡ allow) ↔ (Covers grant request × IsLive grant (pos 10))
evaluate_grant-allow_example = evaluate_grant-allow grant request

covered : Covers grant request
unfolding for_capability
covered = record {
  same_run = refl;
  same_capability = refl;
  same_operation = refl;
  same_resource = refl;
  same_scope = refl;
  same_pair = refl;
}

revoke_final_example : evaluate_grant (consume_dispatch (revoke grant (pos 5)).0).0 request ≢ allow
unfolding tule.Capability.Grants.call
revoke_final_example =
    revoke_final grant (consume_dispatch (revoke grant (pos 5)).0).0 (pos 5) request
      (next now dispatches)

attempts_lem_example :
    ((attempts 3 grant).1 ≡ min 3 1)
    × ((attempts 3 grant).0 ≡ record grant { dispatch_budget_remaining = 1 - 3 })
attempts_lem_example = attempts_lem 3 grant

renew_all_ok_example : (renew_all lease owner (pos 10000 ∷ pos 20000 ∷ pos 45000 ∷ [])).1 ≡ ok tt
renew_all_ok_example =
    renew_all_ok lease owner (pos 0) (pos 10000 ∷ pos 20000 ∷ pos 45000 ∷ []) refl refl
      (ground arith)
