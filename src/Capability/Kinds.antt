-- ===== src/Capability/Kinds.antt =====
-- The capability types with their labels, times to live and registered operations:
-- crates/tule-core/src/capability.rs, `CapabilityType` and `RegisteredOperationIdentity`.
use tule.Base.{
  ℕ, Bool, true, false, Result, ok, err, Text, bytes, Eq, ◌==◌, nat_eq, text_eq, if◌then◌else◌,
}

abbrev pub bootstrap_grant_ttl_ms : ℕ
bootstrap_grant_ttl_ms = 300000

abbrev pub post_approval_grant_ttl_ms : ℕ
post_approval_grant_ttl_ms = 900000

abbrev pub default_dispatch_budget : ℕ
default_dispatch_budget = 1

abbrev pub op_local_read_v1 : Text
op_local_read_v1 = bytes "local-read-v1"

abbrev pub op_provider_disclose_v1 : Text
op_provider_disclose_v1 = bytes "provider-disclose-v1"

abbrev pub op_create_or_replace_v1 : Text
op_create_or_replace_v1 = bytes "create-or-replace-v1"

abbrev pub op_native_inspect_v1 : Text
op_native_inspect_v1 = bytes "native-inspect-v1"

abbrev pub registered_operation_schema_v1 : Text
registered_operation_schema_v1 = bytes "tule-registered-op-schema-v1"

pub data CapabilityType : Type 0 where
  list local_read create_or_replace native_inspection provider_disclose : CapabilityType

unfoldable pub CapabilityType-discrete : Discrete CapabilityType
CapabilityType-discrete = hlevel

instance abbrev pub capability_type_eq : Eq CapabilityType
capability_type_eq = record { dec_eq = CapabilityType-discrete }

abbrev pub as_str : CapabilityType → Text
as_str list = bytes "list"
as_str local_read = bytes "local_read"
as_str create_or_replace = bytes "create_or_replace"
as_str native_inspection = bytes "native_inspection"
as_str provider_disclose = bytes "provider_disclose"

pub data InvalidCapabilityType : Type 0 where
  invalid_capability_type : InvalidCapabilityType

unfoldable pub parse : Text → Result InvalidCapabilityType CapabilityType
parse value =
    if value == bytes "list"
    then ok list
    else if value == bytes "local_read"
    then ok local_read
    else if value == bytes "create_or_replace"
    then ok create_or_replace
    else if value == bytes "native_inspection"
    then ok native_inspection
    else if value == bytes "provider_disclose"
    then ok provider_disclose
    else err invalid_capability_type

abbrev pub default_ttl_ms : CapabilityType → ℕ
default_ttl_ms local_read = bootstrap_grant_ttl_ms
default_ttl_ms provider_disclose = bootstrap_grant_ttl_ms
default_ttl_ms list = bootstrap_grant_ttl_ms
default_ttl_ms create_or_replace = post_approval_grant_ttl_ms
default_ttl_ms native_inspection = post_approval_grant_ttl_ms

abbrev pub registered_operation : CapabilityType → Text
registered_operation list = op_local_read_v1
registered_operation local_read = op_local_read_v1
registered_operation provider_disclose = op_provider_disclose_v1
registered_operation create_or_replace = op_create_or_replace_v1
registered_operation native_inspection = op_native_inspect_v1

pub record RegisteredOperationIdentity : Type 0 where
  pub operation_id : Text
  pub schema_version : Text
  pub repeatable : Bool

abbrev is_repeatable : CapabilityType → Bool
is_repeatable list = true
is_repeatable local_read = true
is_repeatable native_inspection = true
is_repeatable create_or_replace = false
is_repeatable provider_disclose = false

unfoldable pub for_capability : CapabilityType → RegisteredOperationIdentity
for_capability capability = record {
  operation_id = registered_operation capability;
  schema_version = registered_operation_schema_v1;
  repeatable = is_repeatable capability;
}
