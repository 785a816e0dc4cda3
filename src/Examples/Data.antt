-- ===== src/Examples/Data.antt =====
-- The data of the examples: values of the records of crates/tule-core/src/run.rs and capability.rs.
use tule.Base.{ℕ, true, false, none, some, List, [], ◌∷◌, ◌++◌, Text, bytes, pos}
use tule.Ids.{UuidCrate}
use tule.Canonical.{Digest}
use tule.Capability.{CapabilityGrant, run_root, run}
use tule.Capability.Kinds.{
  CapabilityType, for_capability, registered_operation_schema_v1, op_create_or_replace_v1,
}
use tule.Effect.{EffectRecord}
use tule.Effect.Phase.{prepared, claimed, dispatched, settled}
use tule.Effect.OperationResult.{success}
use tule.Effect.Certainty.{confirmed_committed, unknown_or_partial}
use tule.Event.{RunEvent, RunEventKind}
use tule.Lease.{RootLease}
use tule.Records.{HarnessRun}
use tule.Repository.{ReconstructedRun}
use tule.Store.{MemoryRunRepository, initial_state}

abbrev pub uuids : UuidCrate
uuids = record {
  parse_str = λ _. none;
  is_rfc4122 = λ _. true;
  is_sort_rand = λ _. true;
  to_string = λ id. id ∷ [];
}

abbrev pub eight : List ℕ
eight = 0 ∷ 1 ∷ 2 ∷ 3 ∷ 4 ∷ 5 ∷ 6 ∷ 7 ∷ []

abbrev pub digest : Digest
digest _ = eight ++ (eight ++ (eight ++ eight))

abbrev pub owner : Text
owner = bytes "a"

abbrev pub other : Text
other = bytes "b"

abbrev pub grant : CapabilityGrant
grant = record {
  id = 5;
  run_id = 1;
  capability = CapabilityType.create_or_replace;
  resource = run_root;
  action_scope = run;
  pair = none;
  related_approval_id = none;
  issuer = owner;
  issued_at_unix_ms = pos 0;
  expires_at_unix_ms = pos 1000;
  revoked_at_unix_ms = none;
  dispatch_budget = 1;
  dispatch_budget_remaining = 1;
  operation = for_capability CapabilityType.create_or_replace;
}

abbrev pub prepared_effect : EffectRecord
prepared_effect = record {
  id = 7;
  run_id = 1;
  attempt_id = none;
  plan_version_id = none;
  graph_version_id = none;
  operation_id = op_create_or_replace_v1;
  operation_schema_version = registered_operation_schema_v1;
  target_hash = owner;
  grant_id = 5;
  phase = prepared;
  claimant = none;
  operation_result = none;
  certainty = none;
  prepared_at_unix_ms = pos 1;
  claimed_at_unix_ms = none;
  dispatched_at_unix_ms = none;
  settled_at_unix_ms = none;
  expected_preimage_hash = none;
  expected_postimage_hash = none;
}

abbrev pub claimed_effect : EffectRecord
claimed_effect = record prepared_effect {
  phase = claimed;
  claimant = some owner;
  claimed_at_unix_ms = some (pos 2);
}

abbrev pub dispatched_effect : EffectRecord
dispatched_effect = record claimed_effect {
  phase = dispatched;
  dispatched_at_unix_ms = some (pos 3);
}

abbrev pub settled_effect : EffectRecord
settled_effect = record dispatched_effect {
  phase = settled;
  operation_result = some success;
  certainty = some confirmed_committed;
  settled_at_unix_ms = some (pos 4);
}

abbrev pub unknown_effect : EffectRecord
unknown_effect = record settled_effect { certainty = some unknown_or_partial }

abbrev pub event : ℕ → RunEventKind → RunEvent
event sequence kind = record {
  id = 100;
  run_id = 1;
  sequence = sequence;
  kind = kind;
  recorded_at_unix_ms = pos 0;
}

abbrev pub new_run : HarnessRun
new_run = record {
  id = 1;
  run_root_display_name = owner;
  created_at_unix_ms = pos 0;
  cohort = none;
}

-- A run that was just created, and the store that holds it.
abbrev pub created_run : ReconstructedRun
created_run = initial_state new_run (event 1 RunEventKind.run_created)

abbrev pub store_of : ReconstructedRun → MemoryRunRepository
store_of s = record { poisoned = false; inner = (1, s) ∷ [] }

-- The run with a grant and one effect.
abbrev pub run_with : EffectRecord → ReconstructedRun
run_with effect = record created_run { grants = grant ∷ []; effects = effect ∷ [] }

abbrev pub lease : RootLease
lease = record {
  id = 9;
  run_id = 1;
  owner_process_instance = owner;
  acquired_at_unix_ms = pos 0;
  expires_at_unix_ms = pos 30000;
  renew_interval_ms = pos 10000;
}
