-- ===== src/ArtifactUseCases.antt =====
-- A completed turn is saved as an artifact: crates/tule-core/src/artifact_use_cases.rs,
-- `create_artifact_from_turn`, and the call of crates/tule-core/src/artifact_repository.rs that it makes.
-- The two repositories are two stores.
pub mod Saved
use tule.Base.{
  Option, none, some, Result, ok, err, map_err, ok_or, Text, bytes, length, ◌==◌, ◌!=◌, nat_eq,
  ℕ_discrete,
}
use tule.Base.Actions.{Action, ◌>>=◌, ◌>>◌, pure, fail_if, lift, on_error}
use tule.Ids.{UuidCrate}
use tule.AgentIds.{ArtifactId, ArtifactVersionId, InvalidAgentId, parse_agent_id}
use tule.Clock.{ProjectTimeError, SystemTime}
use tule.Canonical.{Digest}
use tule.Agent.State.{completed, turn_state_eq, AgentTurnState-discrete}
use tule.Agent.Turn.{AgentTurn}
use tule.AgentRepository.{AgentRepository}
use tule.Artifact.{
  Artifact, ArtifactVersion, ArtifactVersionProvenance, ArtifactValidationError, new_artifact,
  new_first, resolve_artifact_title,
}
use tule.Artifact.Kind.{ArtifactKind, conclusion, InvalidArtifactKind, parse}

pub record ArtifactRepository : Type 1 where
  pub Store : Type 0
  pub Error : Type 0
  pub create_artifact_with_first_version :
      Artifact → ArtifactVersion → Action Store Error (Unit {0})

pub data CreateArtifactFromTurnError (E F : Type 0) : Type 0 where
  invalid_turn_id : InvalidAgentId → CreateArtifactFromTurnError E F
  invalid_kind : InvalidArtifactKind → CreateArtifactFromTurnError E F
  turn_not_found turn_not_completed empty_agent_text : CreateArtifactFromTurnError E F
  time : ProjectTimeError → CreateArtifactFromTurnError E F
  validation : ArtifactValidationError → CreateArtifactFromTurnError E F
  agent_repository : E → CreateArtifactFromTurnError E F
  artifact_repository : F → CreateArtifactFromTurnError E F

-- The identifiers that are generated, and the readings of the clock.
pub record ArtifactStamps : Type 0 where
  pub artifact_id : ArtifactId
  pub version_id : ArtifactVersionId
  pub artifact_clock : SystemTime
  pub version_clock : SystemTime

abbrev pub resolve_kind : Option Text → Result InvalidArtifactKind ArtifactKind
resolve_kind none = ok conclusion
resolve_kind (some value) = parse value

-- A call on the one or the other store.
abbrev on_agents : {S T E A : Type 0} → Action S E A → Action (S × T) E A
on_agents m (s, t) = let (s', r) = m s in ((s', t), r)

abbrev on_artifacts : {S T E A : Type 0} → Action T E A → Action (S × T) E A
on_artifacts m (s, t) = let (t', r) = m t in ((s, t'), r)

-- `ArtifactVersionProvenance::new` of a turn.
abbrev pub provenance_of : AgentTurn → ArtifactVersionProvenance
provenance_of turn = record {
  source_session_id = turn.session_id;
  source_turn_id = turn.id;
  provider_profile_id = turn.provider_profile_id;
  model_id = turn.model_id;
  prompt_version = turn.prompt_version;
  project_id = turn.project_id;
  provider_request_id = turn.provider_request_id;
}

module _ (u : UuidCrate) (digest : Digest) (A : AgentRepository) (R : ArtifactRepository) where
  abbrev pub CreateError : Type 0
  CreateError = CreateArtifactFromTurnError A.Error R.Error

  -- The artifact of the turn that was found, and its first version.
  unfoldable pub save_turn :
      ArtifactStamps
      → Option Text
      → ArtifactKind
      → AgentTurn
      → Action (A.Store × R.Store) CreateError (Artifact × ArtifactVersion)
  save_turn stamps title_override kind turn = do
    fail_if (turn.state != completed) CreateArtifactFromTurnError.turn_not_completed
    fail_if (length turn.agent_text == 0) CreateArtifactFromTurnError.empty_agent_text
    artifact ← lift (
        map_err CreateArtifactFromTurnError.time (
          new_artifact stamps.artifact_id stamps.artifact_clock
            (resolve_artifact_title title_override turn.agent_text) kind turn.project_id))
    version ← lift (
        map_err CreateArtifactFromTurnError.validation (
          new_first digest stamps.version_id stamps.version_clock artifact.id turn.agent_text
            (provenance_of turn)))
    on_artifacts (
        on_error CreateArtifactFromTurnError.artifact_repository
          (R.create_artifact_with_first_version artifact version))
    pure (artifact, version)

  unfoldable pub create_artifact_from_turn :
      ArtifactStamps
      → Text
      → Option Text
      → Option Text
      → Action (A.Store × R.Store) CreateError (Artifact × ArtifactVersion)
  unfolding parse save_turn
  create_artifact_from_turn stamps turn_id title_override kind = do
    id ← lift (
        map_err CreateArtifactFromTurnError.invalid_turn_id
          (parse_agent_id u (bytes "agent turn ID") turn_id))
    artifact_kind ← lift (map_err CreateArtifactFromTurnError.invalid_kind (resolve_kind kind))
    found ← on_agents (on_error CreateArtifactFromTurnError.agent_repository (A.find_turn id))
    turn ← lift (ok_or found CreateArtifactFromTurnError.turn_not_found)
    save_turn stamps title_override artifact_kind turn
