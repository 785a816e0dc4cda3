-- ===== src/Examples/Artifacts.antt =====
-- A turn is saved: crates/tule-core/src/artifact_use_cases.rs, on the store in SQLite.
use tule.Base.{◌≡◌, refl, none, List, [], ◌∷◌, ok, bytes, pos, arith}
use tule.AgentIds.{parse_agent_id}
use tule.Base.Scalars.{is_whitespace}
use tule.Clock.{unix_now_ms}
use tule.Agent.State.{parse_state, AgentTurnState-discrete}
use tule.Agent.Turn.{turn_from_stored_parts}
use tule.AgentTables.Queries.{find_turn_row, reconstruct_turn}
use tule.Canonical.{hash_source_bytes}
use tule.AgentTables.{sqlite, query}
use tule.Artifact.{Artifact, ArtifactVersion, new_artifact, new_first, resolve_artifact_title}
use tule.Artifact.Kind.{conclusion}
use tule.ArtifactUseCases.{ArtifactRepository, ArtifactStamps, create_artifact_from_turn}
use tule.ArtifactUseCases.Saved.{IsSaved, ReadsBack, create_artifact_from_turn_lem}
use tule.Examples.Data.{digest, owner}
use tule.Examples.Sessions.{printing, store}
use tule.Examples.Agents.{IsStored-id}

-- The artifacts that were created, the last one first.
abbrev artifacts : ArtifactRepository
artifacts = record {
  Store = List (Artifact × ArtifactVersion);
  Error = Unit {0};
  create_artifact_with_first_version =
      λ artifact version created. ((artifact, version) ∷ created, ok tt);
}

abbrev stamps : ArtifactStamps
stamps = record { artifact_id = 20; version_id = 21; artifact_clock = pos 0; version_clock = pos 0 }

abbrev artifact : Artifact
artifact = record {
  id = 20;
  title = bytes "hello";
  kind = conclusion;
  project_id = none;
  created_at_unix_ms = pos 0;
}

abbrev version : ArtifactVersion
version = record {
  id = 21;
  artifact_id = 20;
  version_ordinal = 1;
  content = bytes "hello";
  content_sha256 = hash_source_bytes digest (bytes "hello");
  provenance = record {
    source_session_id = 9;
    source_turn_id = 8;
    provider_profile_id = owner;
    model_id = bytes "m";
    prompt_version = bytes "v";
    project_id = none;
    provider_request_id = 7;
  };
  created_at_unix_ms = pos 0;
}

turn_saved :
    create_artifact_from_turn printing digest
      (sqlite printing digest)
      artifacts
      stamps
      (8 ∷ [])
      none
      none
      (store, [])
    ≡ ((store, (artifact, version) ∷ []), ok (artifact, version))
unfolding create_artifact_from_turn parse_agent_id query find_turn_row reconstruct_turn
    turn_from_stored_parts parse_state AgentTurnState-discrete new_artifact unix_now_ms new_first
    resolve_artifact_title is_whitespace
turn_saved = refl

create_artifact_from_turn_lem_example :
    IsSaved printing
      (sqlite printing digest)
      artifacts
      (8 ∷ [])
      artifact
      version
      (store, [])
      (store, (artifact, version) ∷ [])
    × ReadsBack printing digest version
create_artifact_from_turn_lem_example =
    create_artifact_from_turn_lem printing digest (sqlite printing digest) artifacts stamps (8 ∷ [])
      none none (store, []) (store, (artifact, version) ∷ []) artifact version (λ x. omega arith)
      (λ x. refl) (IsStored-id 20) (IsStored-id 21) turn_saved
