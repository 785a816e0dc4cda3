-- ===== src/Artifact.antt =====
-- Artifacts and their immutable versions: crates/tule-core/src/artifact.rs. The generated identifiers
-- and what the system clock gives are arguments.
pub mod Kind
use tule.Base.{
  ℕ, Bool, not, Option, none, some, List, [], ◌∷◌, Result, ok, err, ◌>>=◌, ◌>>◌, map_err, Text,
  bytes, ℤ, any, length, ltb, ◌==◌, ◌!=◌, nat_eq, text_eq, Text-discrete, ℕ_discrete, if◌then◌else◌,
}
use tule.Base.Scalars.{trim, truncate_scalars}
use tule.Ids.{UuidCrate}
use tule.AgentIds.{
  ArtifactId, ArtifactVersionId, AgentSessionId, AgentTurnId, ProviderRequestId, ProjectId,
  InvalidAgentId, InvalidProjectId, parse_agent_id, parse_project_id, transpose,
}
use tule.Canonical.{Digest, hash_source_bytes, is_canonical_sha256_hex}
use tule.Clock.{ProjectTimeError, SystemTime, unix_now_ms}
use tule.Agent.Input.{first_line_or, title_max_scalars}
use Kind.{ArtifactKind, InvalidArtifactKind, parse}

abbrev pub max_artifact_content_utf8 : ℕ
max_artifact_content_utf8 = 1048576

pub record Artifact : Type 0 where
  pub id : ArtifactId
  pub title : Text
  pub kind : ArtifactKind
  pub project_id : Option ProjectId
  pub created_at_unix_ms : ℤ

pub record ArtifactVersionProvenance : Type 0 where
  pub source_session_id : AgentSessionId
  pub source_turn_id : AgentTurnId
  pub provider_profile_id : Text
  pub model_id : Text
  pub prompt_version : Text
  pub project_id : Option ProjectId
  pub provider_request_id : ProviderRequestId

pub record ArtifactVersion : Type 0 where
  pub id : ArtifactVersionId
  pub artifact_id : ArtifactId
  pub version_ordinal : ℕ
  pub content : Text
  pub content_sha256 : Text
  pub provenance : ArtifactVersionProvenance
  pub created_at_unix_ms : ℤ

pub data ArtifactValidationError : Type 0 where
  empty contains_nul : ArtifactValidationError
  too_large : ℕ → ArtifactValidationError
  time : ProjectTimeError → ArtifactValidationError

pub data ArtifactReconstructionError : Type 0 where
  invalid_id : InvalidAgentId → ArtifactReconstructionError
  invalid_project_id : InvalidProjectId → ArtifactReconstructionError
  invalid_kind : InvalidArtifactKind → ArtifactReconstructionError
  invalid_title invalid_version_ordinal empty_content too_large contains_nul invalid_content :
      ArtifactReconstructionError
  invalid_hash hash_mismatch version_artifact_mismatch missing_versions :
      ArtifactReconstructionError

unfoldable pub validate_artifact_content : Text → Result ArtifactValidationError (Unit {0})
validate_artifact_content content =
    if length content == 0
    then err ArtifactValidationError.empty
    else if ltb max_artifact_content_utf8 (length content)
    then err (ArtifactValidationError.too_large (length content))
    else if any (λ b. b == 0) content
    then err ArtifactValidationError.contains_nul
    else ok tt

-- `Artifact::new`.
unfoldable pub new_artifact :
    ArtifactId
    → SystemTime
    → Text
    → ArtifactKind
    → Option ProjectId
    → Result ProjectTimeError Artifact
new_artifact id clock title kind project_id = do
  now ← unix_now_ms clock
  ok (record {
    id = id;
    title = title;
    kind = kind;
    project_id = project_id;
    created_at_unix_ms = now;
  })

-- `Artifact::from_stored_parts`.
unfoldable pub artifact_from_stored_parts :
    UuidCrate → Text → Text → Text → Option Text → ℤ → Result ArtifactReconstructionError Artifact
unfolding trim parse
artifact_from_stored_parts u id title kind project_id created_at_unix_ms = do
  if length (trim title) == 0 then err ArtifactReconstructionError.invalid_title else ok tt
  project ←
      map_err ArtifactReconstructionError.invalid_project_id
        (transpose (parse_project_id u) project_id)
  artifact_id ←
      map_err ArtifactReconstructionError.invalid_id (parse_agent_id u (bytes "artifact ID") id)
  artifact_kind ← map_err ArtifactReconstructionError.invalid_kind (parse kind)
  ok (record {
    id = artifact_id;
    title = title;
    kind = artifact_kind;
    project_id = project;
    created_at_unix_ms = created_at_unix_ms;
  })

-- `ArtifactVersion::new_first`.
unfoldable pub new_first :
    Digest
    → ArtifactVersionId
    → SystemTime
    → ArtifactId
    → Text
    → ArtifactVersionProvenance
    → Result ArtifactValidationError ArtifactVersion
unfolding validate_artifact_content
new_first digest id clock artifact_id content provenance = do
  validate_artifact_content content
  now ← map_err ArtifactValidationError.time (unix_now_ms clock)
  ok (record {
    id = id;
    artifact_id = artifact_id;
    version_ordinal = 1;
    content = content;
    content_sha256 = hash_source_bytes digest content;
    provenance = provenance;
    created_at_unix_ms = now;
  })

-- The error of a stored content that does not validate.
abbrev content_error : ArtifactValidationError → ArtifactReconstructionError
content_error ArtifactValidationError.empty = ArtifactReconstructionError.empty_content
content_error (ArtifactValidationError.too_large n) = ArtifactReconstructionError.too_large
content_error ArtifactValidationError.contains_nul = ArtifactReconstructionError.contains_nul
content_error (ArtifactValidationError.time e) = ArtifactReconstructionError.invalid_content

-- `ArtifactVersion::from_stored_parts`.
unfoldable pub version_from_stored_parts :
    UuidCrate
    → Digest
    → Text
    → Text
    → ℕ
    → Text
    → Text
    → ArtifactVersionProvenance
    → ℤ
    → Result ArtifactReconstructionError ArtifactVersion
version_from_stored_parts u digest id artifact_id version_ordinal content content_sha256 provenance
      created_at_unix_ms =
    do
      if version_ordinal == 0
          then err ArtifactReconstructionError.invalid_version_ordinal
          else ok tt
      map_err content_error (validate_artifact_content content)
      if not (is_canonical_sha256_hex content_sha256)
          then err ArtifactReconstructionError.invalid_hash
          else ok tt
      if content_sha256 != hash_source_bytes digest content
          then err ArtifactReconstructionError.hash_mismatch
          else ok tt
      version_id ←
          map_err ArtifactReconstructionError.invalid_id
            (parse_agent_id u (bytes "artifact version ID") id)
      parent_id ←
          map_err ArtifactReconstructionError.invalid_id
            (parse_agent_id u (bytes "artifact ID") artifact_id)
      ok (record {
        id = version_id;
        artifact_id = parent_id;
        version_ordinal = version_ordinal;
        content = content;
        content_sha256 = content_sha256;
        provenance = provenance;
        created_at_unix_ms = created_at_unix_ms;
      })

unfoldable pub derive_artifact_title : Text → Text
unfolding first_line_or truncate_scalars
derive_artifact_title agent_text =
    truncate_scalars (first_line_or (bytes "Artifact") agent_text) title_max_scalars

unfoldable pub resolve_artifact_title : Option Text → Text → Text
unfolding derive_artifact_title trim
resolve_artifact_title none agent_text = derive_artifact_title agent_text
resolve_artifact_title (some value) agent_text =
    if length (trim value) == 0
    then derive_artifact_title agent_text
    else truncate_scalars (trim value) title_max_scalars
