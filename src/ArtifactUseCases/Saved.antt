-- ===== src/ArtifactUseCases/Saved.antt =====
-- What a saved artifact is: crates/tule-core/src/artifact_use_cases.rs, `create_artifact_from_turn`.
use tule.Base.{
  ℕ, ◌≡◌, Option, none, some, List, ok, Result-cases, inl, inr, Text, bytes, length, arith,
}
use tule.Ids.{UuidCrate}
use tule.AgentIds.{AgentTurnId, IsStored, parse_agent_id, parse_agent_id-to_string}
use tule.Canonical.{Digest, hash_source_bytes}
use tule.Canonical.Digits.{is_canonical-to_hex}
use tule.Canonical.Hashes.{AreBytes}
use tule.Agent.State.{completed}
use tule.Agent.Turn.{AgentTurn}
use tule.AgentRepository.{AgentRepository}
use tule.Artifact.{
  Artifact, ArtifactVersion, new_artifact, new_first, validate_artifact_content,
  version_from_stored_parts,
}
use tule.Artifact.Kind.{ArtifactKind}
use tule.ArtifactUseCases.{
  ArtifactRepository, ArtifactStamps, resolve_kind, provenance_of, save_turn,
  create_artifact_from_turn,
}

-- An artifact with the version that holds what the turn says, and where it comes from.
abbrev pub IsOf : AgentTurn → Artifact → ArtifactVersion → Type 0
IsOf turn artifact version =
    (turn.state ≡ completed)
    × (version.content ≡ turn.agent_text)
    × (version.provenance ≡ provenance_of turn)
    × (version.artifact_id ≡ artifact.id)
    × (version.version_ordinal ≡ 1)
    × (artifact.project_id ≡ turn.project_id)

-- What from_stored_parts tests.
abbrev IsSound : Digest → ArtifactStamps → ArtifactVersion → Type 0
IsSound digest stamps version =
    (version.id ≡ stamps.version_id)
    × (version.artifact_id ≡ stamps.artifact_id)
    × (validate_artifact_content version.content ≡ ok tt)
    × (version.content_sha256 ≡ hash_source_bytes digest version.content)

-- The repository has created the artifact with the version, and the other store is as it was.
abbrev pub IsCreated :
    (A : AgentRepository) (R : ArtifactRepository)
    → Artifact
    → ArtifactVersion
    → A.Store × R.Store
    → A.Store × R.Store
    → Type 0
IsCreated A R artifact version stores after =
    (R.create_artifact_with_first_version artifact version stores.1 ≡ (after.1, ok tt))
    × (after.0 ≡ stores.0)

module _ (u : UuidCrate) (digest : Digest) (A : AgentRepository) (R : ArtifactRepository)
    (stamps : ArtifactStamps) where
  save_turn-IsOf :
      (title_override : Option Text) (kind : ArtifactKind) (turn : AgentTurn)
      (stores after : A.Store × R.Store) (artifact : Artifact) (version : ArtifactVersion)
      → save_turn u digest A R stamps title_override kind turn stores
        ≡ (after, ok (artifact, version))
      → IsOf turn artifact version
        × IsSound digest stamps version
        × IsCreated A R artifact version stores after
  unfolding save_turn new_artifact new_first
  save_turn-IsOf title_override kind turn stores after artifact version h = (
    (ground arith, ground arith, ground arith, ground arith, ground arith, ground arith),
    (ground arith, ground arith, ground arith, ground arith),
    (ground arith, ground arith),
  )

-- The parts of a version are read back as the version.
abbrev pub ReadsBack : UuidCrate → Digest → ArtifactVersion → Type 0
ReadsBack u digest version =
    version_from_stored_parts u digest (u.to_string version.id) (u.to_string version.artifact_id)
      version.version_ordinal version.content version.content_sha256 version.provenance
      version.created_at_unix_ms
    ≡ ok version

sound-ReadsBack :
    (u : UuidCrate) (digest : Digest) (stamps : ArtifactStamps) (version : ArtifactVersion)
    → ((x : List ℕ) → AreBytes (digest x))
    → ((x : List ℕ) → length (digest x) ≡ 32)
    → IsStored u stamps.artifact_id
    → IsStored u stamps.version_id
    → version.version_ordinal ≡ 1
    → IsSound digest stamps version
    → ReadsBack u digest version
unfolding version_from_stored_parts hash_source_bytes
sound-ReadsBack u digest stamps version are_bytes are_32 stored_artifact stored_version first
      sound =
    ground (
      arith,
      is_canonical-to_hex (digest version.content) (are_bytes version.content)
          (are_32 version.content),
      parse_agent_id-to_string u (bytes "artifact version ID") stamps.version_id stored_version,
      parse_agent_id-to_string u (bytes "artifact ID") stamps.artifact_id stored_artifact,
    )

-- The artifact is made of the turn that the identifier finds, and it is in the store after.
abbrev pub IsSaved :
    UuidCrate
    → (A : AgentRepository) (R : ArtifactRepository) → Text
    → Artifact
    → ArtifactVersion
    → A.Store × R.Store
    → A.Store × R.Store
    → Type 0
IsSaved u A R turn_id artifact version stores after =
    (id : AgentTurnId) × (turn : AgentTurn) × (parse_agent_id u (bytes "agent turn ID") turn_id
      ≡ ok id)
    × ((A.find_turn id stores.0).1 ≡ ok (some turn))
    × IsOf turn artifact version
    × IsCreated A R artifact version ((A.find_turn id stores.0).0, stores.1) after

module _ (u : UuidCrate) (digest : Digest) (A : AgentRepository) (R : ArtifactRepository)
    (stamps : ArtifactStamps) (turn_id : Text) (title_override kind : Option Text)
    (stores after : A.Store × R.Store) (artifact : Artifact) (version : ArtifactVersion)
    (h : create_artifact_from_turn u digest A R stamps turn_id title_override kind stores
      ≡ (after, ok (artifact, version))) where
  -- The steps before the turn is saved.
  created_from :
      (id : AgentTurnId) × (artifact_kind : ArtifactKind) × (turn : AgentTurn) × (parse_agent_id u
          (bytes "agent turn ID")
          turn_id
        ≡ ok id)
      × ((A.find_turn id stores.0).1 ≡ ok (some turn))
      × (save_turn u digest A R stamps title_override artifact_kind turn
            ((A.find_turn id stores.0).0, stores.1)
          ≡ (after, ok (artifact, version)))
  unfolding create_artifact_from_turn
  created_from = elim (Result-cases (parse_agent_id u (bytes "agent turn ID") turn_id)) [
    | inr (e, p) ↦ absurd (ground arith)
    | inl (id, p) ↦ elim (Result-cases (resolve_kind kind)) [
      | inr (e, k) ↦ absurd (ground arith)
      | inl (artifact_kind, k) ↦ elim (Result-cases (A.find_turn id stores.0).1) [
        | inr (e, f) ↦ absurd (ground arith)
        | inl (none, f) ↦ absurd (ground arith)
        | inl (some turn, f) ↦
            (id, artifact_kind, turn, p, f, simp (create_artifact_from_turn, p, k, f) at h)
      ]
    ]
  ]

-- A successful call saves a completed turn: the turn that its identifier finds. The first version holds
-- the text of the turn and its provenance. The artifact repository has created the artifact with that
-- version, and the agent repository is as finding the turn leaves it. The version is read back from the
-- parts that are stored of it, if the new identifiers are printed and parsed back and the digest gives
-- 32 bytes.
pub create_artifact_from_turn_lem :
    (u : UuidCrate) (digest : Digest) (A : AgentRepository) (R : ArtifactRepository)
    (stamps : ArtifactStamps) (turn_id : Text) (title_override kind : Option Text)
    (stores after : A.Store × R.Store) (artifact : Artifact) (version : ArtifactVersion)
    → ((x : List ℕ) → AreBytes (digest x))
    → ((x : List ℕ) → length (digest x) ≡ 32)
    → IsStored u stamps.artifact_id
    → IsStored u stamps.version_id
    → create_artifact_from_turn u digest A R stamps turn_id title_override kind stores
      ≡ (after, ok (artifact, version))
    → IsSaved u A R turn_id artifact version stores after × ReadsBack u digest version
create_artifact_from_turn_lem u digest A R stamps turn_id title_override kind stores after artifact
      version are_bytes are_32 stored_artifact stored_version h =
    let (id, artifact_kind, turn, parsed, found, saved) =
      created_from u digest A R stamps turn_id title_override kind stores after artifact version
        h in
    let (is_of, sound, created) =
      save_turn-IsOf u digest A R stamps title_override artifact_kind turn
        ((A.find_turn id stores.0).0, stores.1) after artifact version saved in
    let (is_completed, content, provenance, parent, first, project) = is_of in
    (
      (id, turn, parsed, found, is_of, created),
      sound-ReadsBack u digest stamps version are_bytes are_32 stored_artifact stored_version first
          sound,
    )
