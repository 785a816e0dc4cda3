-- ===== src/Artifact/Kind.antt =====
-- The kinds of artifacts: crates/tule-core/src/artifact.rs, `ArtifactKind`.
use tule.Base.{
  Result, ok, err, Text, bytes, ◌==◌, text_eq, Text-discrete, ℕ_discrete, if◌then◌else◌,
}

pub data ArtifactKind : Type 0 where
  conclusion recommendation decision_record requirements : ArtifactKind
  implementation_plan research_brief critique : ArtifactKind

pub data InvalidArtifactKind : Type 0 where
  invalid_artifact_kind : InvalidArtifactKind

unfoldable pub parse : Text → Result InvalidArtifactKind ArtifactKind
unfolding Text-discrete ℕ_discrete
parse value =
    if value == bytes "conclusion"
    then ok conclusion
    else if value == bytes "recommendation"
    then ok recommendation
    else if value == bytes "decision_record"
    then ok decision_record
    else if value == bytes "requirements"
    then ok requirements
    else if value == bytes "implementation_plan"
    then ok implementation_plan
    else if value == bytes "research_brief"
    then ok research_brief
    else if value == bytes "critique"
    then ok critique
    else err invalid_artifact_kind
