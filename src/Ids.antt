-- ===== src/Ids.antt =====
-- The opaque identifiers of crates/tule-core/src/run.rs and capability.rs. The macro
-- define_uuid_v7_id makes one type for each record; they differ in the label of their errors only.
use tule.Base.{ℕ, Text, Bool, Option, Result, ok, err, ◌>>=◌, ok_or, if◌then◌else◌}

-- A UUID is its 128-bit number.
abbrev pub Uuid : Type 0
Uuid = ℕ

abbrev pub HarnessRunId : Type 0
HarnessRunId = Uuid

abbrev pub CapabilityGrantId : Type 0
CapabilityGrantId = Uuid

abbrev pub ExecutionPlanVersionId : Type 0
ExecutionPlanVersionId = Uuid

abbrev pub RunGraphVersionId : Type 0
RunGraphVersionId = Uuid

abbrev pub ApprovalRecordId : Type 0
ApprovalRecordId = Uuid

abbrev pub NodeAttemptId : Type 0
NodeAttemptId = Uuid

abbrev pub EffectRecordId : Type 0
EffectRecordId = Uuid

abbrev pub RunEventId : Type 0
RunEventId = Uuid

abbrev pub CheckpointId : Type 0
CheckpointId = Uuid

abbrev pub ValidationResultId : Type 0
ValidationResultId = Uuid

abbrev pub RootLeaseId : Type 0
RootLeaseId = Uuid

abbrev pub DenialEvidenceId : Type 0
DenialEvidenceId = Uuid

pub data InvalidRunId : Type 0 where
  malformed invalid_variant not_version_seven : Text → InvalidRunId

-- What the code uses of the uuid crate.
pub record UuidCrate : Type 0 where
  pub parse_str : Text → Option Uuid
  pub is_rfc4122 : Uuid → Bool
  pub is_sort_rand : Uuid → Bool
  pub to_string : Uuid → Text

-- `FromStr` of each identifier, at its label.
unfoldable pub parse_id : UuidCrate → Text → Text → Result InvalidRunId Uuid
parse_id u label value = do
  id ← ok_or (u.parse_str value) (malformed label)
  if u.is_rfc4122 id
      then if u.is_sort_rand id then ok id else err (not_version_seven label)
      else err (invalid_variant label)
