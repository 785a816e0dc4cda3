-- ===== src/AgentTables/Rows.antt =====
-- The rows of the tables in apps/desktop/src-tauri/migrations, as sqlite/agents.rs writes and reads
-- them, and the errors of the store.
use tule.Base.{ℕ, ◌^◌, Option, List, Result, ok, err, Text, ℤ, pos, negsuc, ltb, if◌then◌else◌}
use tule.Agent.Errors.{AgentReconstructionError}
use tule.Source.Errors.{SourceReconstructionError}
use tule.AgentRepository.{ProviderProfile}

-- What rusqlite reports: a broken constraint, or `QueryReturnedNoRows`.
pub data DatabaseError : Type 0 where
  constraint_violation query_returned_no_rows : DatabaseError

-- The errors of `SqliteStoreError` that the store of sessions gives.
pub data SqliteStoreError : Type 0 where
  database : DatabaseError → SqliteStoreError
  malformed_agent : AgentReconstructionError → SqliteStoreError
  malformed_source : SourceReconstructionError → SqliteStoreError
  lock_poisoned numeric : SqliteStoreError

pub record SessionRow : Type 0 where
  pub id : Text
  pub title : Text
  pub project_id : Option Text
  pub provider_profile_id : Text
  pub model_id : Text
  pub created_at_unix_ms : ℤ
  pub updated_at_unix_ms : ℤ

pub record TurnRow : Type 0 where
  pub id : Text
  pub session_id : Text
  pub ordinal : ℤ
  pub user_text : Text
  pub agent_text : Text
  pub state : Text
  pub error_code : Option Text
  pub provider_profile_id : Text
  pub model_id : Text
  pub effort : Option Text
  pub provider_request_id : Text
  pub provider_response_id : Option Text
  pub usage_input_tokens : Option ℤ
  pub usage_output_tokens : Option ℤ
  pub project_id : Option Text
  pub project_instructions : Text
  pub prompt_version : Text
  pub started_at_unix_ms : ℤ
  pub finished_at_unix_ms : Option ℤ

pub record EventRow : Type 0 where
  pub id : Text
  pub session_id : Text
  pub turn_id : Option Text
  pub sequence : ℤ
  pub kind : Text
  pub created_at_unix_ms : ℤ

pub record SourceRow : Type 0 where
  pub id : Text
  pub origin_kind : Text
  pub display_name : Text
  pub byte_count : ℤ
  pub content_sha256 : Text
  pub content : Text
  pub created_at_unix_ms : ℤ
  pub member_count : Option ℤ
  pub canonical_url : Option Text

pub record TurnSourceRow : Type 0 where
  pub turn_id : Text
  pub source_id : Text
  pub attachment_order : ℤ

pub record Tables : Type 0 where
  -- The identifiers of the table of projects.
  pub projects : List Text
  pub provider_profiles : List ProviderProfile
  pub agent_sessions : List SessionRow
  pub agent_turns : List TurnRow
  pub agent_events : List EventRow
  pub agent_sources : List SourceRow
  pub agent_turn_sources : List TurnSourceRow

-- `i64::try_from` of a u64, and `u64::try_from` of an i64.
abbrev pub to_i64 : ℕ → Result SqliteStoreError ℤ
to_i64 n = if ltb n (2 ^ 63) then ok (pos n) else err numeric

abbrev pub to_u64 : ℤ → Result SqliteStoreError ℕ
to_u64 (pos n) = ok n
to_u64 (negsuc n) = err numeric

abbrev pub to_u32 : ℤ → Result SqliteStoreError ℕ
to_u32 (pos n) = if ltb n (2 ^ 32) then ok n else err numeric
to_u32 (negsuc n) = err numeric
