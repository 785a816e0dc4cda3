-- ===== src/Canonical.antt =====
-- The canonical encoding `tule-canonical-v1` and the hashes over it: crates/tule-core/src/run.rs,
-- `append_canonical_field`, `hash_canonical_fields`, `hash_expected_diff` and `hash_event_chain`, and
-- crates/tule-core/src/agent_source.rs, `hash_source_bytes`. The digest of the sha2 crate is a
-- parameter, and so is the text of a UUID.
pub mod Injective
pub mod Hashes
pub mod EventChain
pub mod Digits
use mathlib.Core.List.{foldl, flat_map}
use tule.Base.{
  ℕ, ◌+◌, ◌-◌, ◌/◌, ◌%◌, ◌^◌, Bool, true, ◌&&◌, ◌||◌, List, [], ◌∷◌, ◌++◌, Text, bytes, ltb, leb,
  length, Eq, ◌==◌, nat_eq, if◌then◌else◌,
}
use tule.Ids.{UuidCrate}
use tule.Event.{RunEvent, canonical_tag}

-- What the code uses of the sha2 crate: `Sha256::digest`, as bytes.
abbrev pub Digest : Type 0
Digest = List ℕ → List ℕ

-- `{nibble:x}`.
unfoldable pub hex_digit : ℕ → ℕ
hex_digit n = if ltb n 10 then b'0' + n else b'a' + (n - 10)

-- `{byte:02x}` of each byte.
unfoldable pub to_hex : List ℕ → Text
to_hex [] = []
to_hex (b ∷ bs) = hex_digit (b / 16) ∷ hex_digit (b % 16) ∷ to_hex bs

unfoldable pub hash_source_bytes : Digest → List ℕ → Text
hash_source_bytes digest content = to_hex (digest content)

abbrev pub canonical_encoding_version : Text
canonical_encoding_version = bytes "tule-canonical-v1"

-- `u32::to_be_bytes` of a length that is cast to u32, and `u64::to_be_bytes`.
unfoldable pub be_bytes_u32 : ℕ → List ℕ
be_bytes_u32 n = (n / 2 ^ 24 % 256) ∷ (n / 2 ^ 16 % 256) ∷ (n / 2 ^ 8 % 256) ∷ (n % 256) ∷ []

unfoldable pub be_bytes_u64 : ℕ → List ℕ
unfolding be_bytes_u32
be_bytes_u64 n = be_bytes_u32 (n / 2 ^ 32) ++ be_bytes_u32 n

unfoldable pub append_canonical_field : List ℕ → Text → List ℕ → List ℕ
append_canonical_field buffer name value =
    buffer
    ++ (be_bytes_u32 (length name % 2 ^ 32)
        ++ (name ++ (be_bytes_u32 (length value % 2 ^ 32) ++ value)))

-- The loop over the fields.
unfoldable pub append_fields : List ℕ → List (Text × List ℕ) → List ℕ
append_fields buffer [] = buffer
append_fields buffer ((name, value) ∷ fields) =
    append_fields (append_canonical_field buffer name value) fields

-- The buffer that `hash_canonical_fields` hashes.
unfoldable pub canonical_buffer : List (Text × List ℕ) → List ℕ
canonical_buffer fields =
    append_fields (append_canonical_field [] (bytes "encoding") canonical_encoding_version) fields

unfoldable pub hash_canonical_fields : Digest → List (Text × List ℕ) → Text
hash_canonical_fields digest fields = hash_source_bytes digest (canonical_buffer fields)

unfoldable pub hash_expected_diff : Digest → Text → Text → Text
hash_expected_diff digest preimage postimage = hash_source_bytes digest (
    append_canonical_field
      (append_canonical_field
        (append_canonical_field [] (bytes "encoding") canonical_encoding_version) (bytes "preimage")
        preimage)
      (bytes "postimage") postimage)

-- The body of the loop over the events.
abbrev append_event : UuidCrate → List ℕ → RunEvent → List ℕ
append_event u buffer event =
    append_canonical_field
      (append_canonical_field
        (append_canonical_field buffer (bytes "sequence") (be_bytes_u64 event.sequence))
        (bytes "id") (u.to_string event.id))
      (bytes "kind") (canonical_tag event.kind)

unfoldable pub event_chain_buffer : UuidCrate → List RunEvent → List ℕ
event_chain_buffer u events =
    foldl (append_event u) (append_canonical_field [] (bytes "encoding") canonical_encoding_version)
      events

unfoldable pub hash_event_chain : UuidCrate → Digest → List RunEvent → Text
hash_event_chain u digest events = hash_source_bytes digest (event_chain_buffer u events)

-- `chars().all(...)` over the digits of a lower-case hexadecimal text.
abbrev pub is_lower_hex : ℕ → Bool
is_lower_hex c = leb b'0' c && leb c b'9' || leb b'a' c && leb c b'f'

abbrev pub all_lower_hex : Text → Bool
all_lower_hex [] = true
all_lower_hex (c ∷ cs) = is_lower_hex c && all_lower_hex cs

unfoldable pub is_canonical_sha256_hex : Text → Bool
is_canonical_sha256_hex value = (length value == 64) && all_lower_hex value
