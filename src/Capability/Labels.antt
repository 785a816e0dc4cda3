-- ===== src/Capability/Labels.antt =====
-- The stored label of a capability type (crates/tule-core/src/capability.rs, `CapabilityType`).
use tule.Base.{◌≡◌, refl, ◌↔◌, ok, Text, Text-discrete, arith}
use tule.Capability.Kinds.{
  CapabilityType, list, local_read, create_or_replace, native_inspection, provider_disclose, as_str,
  parse,
}

as_str-parse : (value : Text) (c : CapabilityType) → parse value ≡ ok c → value ≡ as_str c
unfolding parse
as_str-parse value c h = ground arith

parse-as_str : (c : CapabilityType) → parse (as_str c) ≡ ok c
unfolding parse Text-discrete
parse-as_str list = refl
parse-as_str local_read = refl
parse-as_str create_or_replace = refl
parse-as_str native_inspection = refl
parse-as_str provider_disclose = refl

-- A text is read as a capability type exactly if it is the label of that type.
pub parse-eq-ok : (value : Text) (c : CapabilityType) → (parse value ≡ ok c) ↔ (value ≡ as_str c)
parse-eq-ok value c = (as_str-parse value c, λ e. rw e (parse-as_str c))
