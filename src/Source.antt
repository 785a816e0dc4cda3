-- ===== src/Source.antt =====
-- The sources that are attached to a turn: crates/tule-core/src/agent_source.rs. The generated
-- identifiers and what the system clock gives are arguments; the digest of the sha2 crate is a parameter.
pub mod Errors
pub mod Validation
pub mod Folder
pub mod Framing
pub mod NextMember
pub mod Members
pub mod Stored
use tule.Base.{
  ℕ, zero, suc, ◌^◌, Bool, not, Option, none, some, List, [], ◌∷◌, Result, ok, err, ◌>>=◌, ◌>>◌,
  ok_or, map_err, Text, bytes, ℤ, ltb, length, ◌==◌, ◌!=◌, nat_eq, text_eq, Text-discrete,
  ℕ_discrete, if◌then◌else◌,
}
use tule.Ids.{UuidCrate}
use tule.AgentIds.{SourceId, AgentTurnId, InvalidAgentId, parse_agent_id}
use tule.Clock.{SystemTime, unix_now_ms}
use tule.Canonical.{Digest, hash_source_bytes, is_canonical_sha256_hex}
use Errors.{SourceValidationError, SourceReconstructionError}
use Validation.{validate_source_display_name, validate_source_content, validate_canonical_https_url}
use Folder.{max_folder_members, frame_folder_members, count_folder_members}

abbrev pub source_origin_local_text_file : Text
source_origin_local_text_file = bytes "local_text_file"

abbrev pub source_origin_local_text_folder : Text
source_origin_local_text_folder = bytes "local_text_folder"

abbrev pub source_origin_remote_text_url : Text
source_origin_remote_text_url = bytes "remote_text_url"

pub record Source : Type 0 where
  pub id : SourceId
  pub origin_kind : Text
  pub display_name : Text
  pub byte_count : ℕ
  pub content_sha256 : Text
  pub content : Text
  pub member_count : ℕ
  pub canonical_url : Option Text
  pub created_at_unix_ms : ℤ

-- `u64::try_from(content.len())`, which a usize of 64 bits always passes.
abbrev pub check_byte_count : Text → Result SourceValidationError ℕ
check_byte_count content =
    if ltb (length content) (2 ^ 64)
    then ok (length content)
    else err (SourceValidationError.too_large (length content))

-- `Source::new_local_text`.
unfoldable pub new_local_text :
    Digest → SourceId → SystemTime → Text → Text → Result SourceValidationError Source
new_local_text digest id clock display_name content = do
  validate_source_display_name display_name
  validate_source_content content
  byte_count ← check_byte_count content
  now ← map_err SourceValidationError.time (unix_now_ms clock)
  ok (record {
    id = id;
    origin_kind = source_origin_local_text_file;
    display_name = display_name;
    byte_count = byte_count;
    content_sha256 = hash_source_bytes digest content;
    content = content;
    member_count = 1;
    canonical_url = none;
    created_at_unix_ms = now;
  })

-- `Source::new_remote_text_url`.
unfoldable pub new_remote_text_url :
    Digest → SourceId → SystemTime → Text → Text → Text → Result SourceValidationError Source
new_remote_text_url digest id clock display_name content canonical_url = do
  validate_source_display_name display_name
  validate_source_content content
  validate_canonical_https_url canonical_url
  byte_count ← check_byte_count content
  now ← map_err SourceValidationError.time (unix_now_ms clock)
  ok (record {
    id = id;
    origin_kind = source_origin_remote_text_url;
    display_name = display_name;
    byte_count = byte_count;
    content_sha256 = hash_source_bytes digest content;
    content = content;
    member_count = 1;
    canonical_url = some canonical_url;
    created_at_unix_ms = now;
  })

-- The loop over the members.
unfoldable pub validate_members : List (Text × Text) → Result SourceValidationError (Unit {0})
validate_members [] = ok tt
validate_members ((basename, body) ∷ members) = do
  validate_source_display_name basename
  validate_source_content body
  validate_members members

-- `Source::new_local_text_folder`.
unfoldable pub new_local_text_folder :
    Digest → SourceId → SystemTime → Text → List (Text × Text) → Result SourceValidationError Source
new_local_text_folder digest id clock display_name members = do
  validate_source_display_name display_name
  if length members == 0 then err SourceValidationError.no_eligible_members else ok tt
  if ltb max_folder_members (length members)
      then err (SourceValidationError.too_many_members (length members))
      else ok tt
  validate_members members
  let content = frame_folder_members members
  validate_source_content content
  member_count ←
      if ltb (length members) (2 ^ 32)
      then ok (length members)
      else err (SourceValidationError.too_many_members (length members))
  byte_count ← check_byte_count content
  now ← map_err SourceValidationError.time (unix_now_ms clock)
  ok (record {
    id = id;
    origin_kind = source_origin_local_text_folder;
    display_name = display_name;
    byte_count = byte_count;
    content_sha256 = hash_source_bytes digest content;
    content = content;
    member_count = member_count;
    canonical_url = none;
    created_at_unix_ms = now;
  })

-- The error of a stored content that does not validate.
abbrev content_error : SourceValidationError → SourceReconstructionError
content_error (SourceValidationError.too_large n) = SourceReconstructionError.too_large
content_error SourceValidationError.contains_nul = SourceReconstructionError.contains_nul
content_error _ = SourceReconstructionError.invalid_content

-- A member count that is stored for one file.
unfoldable pub check_single : Option ℕ → Result SourceReconstructionError (Unit {0})
check_single none = ok tt
check_single (some n) =
    if n != 1 then err SourceReconstructionError.member_count_mismatch else ok tt

unfoldable pub reject_url : Option Text → Result SourceReconstructionError (Unit {0})
reject_url none = ok tt
reject_url (some url) = err SourceReconstructionError.invalid_canonical_url

-- The arms of the match on the origin kind: the member count and the canonical URL.
unfoldable pub check_file :
    Option ℕ → Option Text → Result SourceReconstructionError (ℕ × Option Text)
unfolding check_single reject_url
check_file member_count canonical_url = do
  check_single member_count
  reject_url canonical_url
  ok (1, none)

unfoldable pub check_folder :
    Text → Option ℕ → Option Text → Result SourceReconstructionError (ℕ × Option Text)
unfolding reject_url count_folder_members
check_folder content member_count canonical_url = do
  count ← ok_or member_count SourceReconstructionError.member_count_mismatch
  if count == 0 then err SourceReconstructionError.member_count_mismatch else ok tt
  parsed ← map_err (λ _. SourceReconstructionError.invalid_content) (count_folder_members content)
  if parsed != count then err SourceReconstructionError.member_count_mismatch else ok tt
  reject_url canonical_url
  ok (count, none)

unfoldable pub check_url :
    Option ℕ → Option Text → Result SourceReconstructionError (ℕ × Option Text)
unfolding check_single validate_canonical_https_url
check_url member_count canonical_url = do
  check_single member_count
  url ← ok_or canonical_url SourceReconstructionError.invalid_canonical_url
  map_err (λ _. SourceReconstructionError.invalid_canonical_url) (validate_canonical_https_url url)
  ok (1, some url)

unfoldable pub check_origin :
    Text → Text → Option ℕ → Option Text → Result SourceReconstructionError (ℕ × Option Text)
unfolding Text-discrete ℕ_discrete check_file check_folder check_url
check_origin origin_kind content member_count canonical_url =
    if origin_kind == source_origin_local_text_file
    then check_file member_count canonical_url
    else if origin_kind == source_origin_local_text_folder
    then check_folder content member_count canonical_url
    else if origin_kind == source_origin_remote_text_url
    then check_url member_count canonical_url
    else err SourceReconstructionError.invalid_origin

-- `Source::from_stored_parts`.
unfoldable pub from_stored_parts :
    UuidCrate
    → Digest
    → Text
    → Text
    → Text
    → ℕ
    → Text
    → Text
    → Option ℕ
    → Option Text
    → ℤ
    → Result SourceReconstructionError Source
unfolding check_origin
from_stored_parts u digest id origin_kind display_name byte_count content_sha256 content
      member_count canonical_url created_at_unix_ms =
    do
      source_id ←
          map_err SourceReconstructionError.invalid_id (parse_agent_id u (bytes "source ID") id)
      map_err (λ _. SourceReconstructionError.invalid_display_name)
          (validate_source_display_name display_name)
      map_err content_error (validate_source_content content)
      if ltb (length content) (2 ^ 64) then ok tt else err SourceReconstructionError.too_large
      if byte_count != length content
          then err SourceReconstructionError.byte_count_mismatch
          else ok tt
      if not (is_canonical_sha256_hex content_sha256)
          then err SourceReconstructionError.invalid_hash
          else ok tt
      if content_sha256 != hash_source_bytes digest content
          then err SourceReconstructionError.hash_mismatch
          else ok tt
      checked ← check_origin origin_kind content member_count canonical_url
      ok (record {
        id = source_id;
        origin_kind = origin_kind;
        display_name = display_name;
        byte_count = byte_count;
        content_sha256 = content_sha256;
        content = content;
        member_count = checked.0;
        canonical_url = checked.1;
        created_at_unix_ms = created_at_unix_ms;
      })
