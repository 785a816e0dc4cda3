-- ===== src/AgentIds.antt =====
-- The identifiers of crates/tule-core/src/agent.rs, agent_source.rs, artifact.rs and project.rs. The
-- macro define_uuid_v7_id makes one type for each record; they differ in the label of their errors.
use tule.Base.{
  Text, Option, none, some, Result, ok, err, ◌>>=◌, ok_or, true, ◌≡◌, arith, if◌then◌else◌,
}
use tule.Ids.{Uuid, UuidCrate}

abbrev pub AgentSessionId : Type 0
AgentSessionId = Uuid

abbrev pub AgentTurnId : Type 0
AgentTurnId = Uuid

abbrev pub AgentEventId : Type 0
AgentEventId = Uuid

abbrev pub ProviderRequestId : Type 0
ProviderRequestId = Uuid

abbrev pub SourceId : Type 0
SourceId = Uuid

abbrev pub ArtifactId : Type 0
ArtifactId = Uuid

abbrev pub ArtifactVersionId : Type 0
ArtifactVersionId = Uuid

abbrev pub ProjectId : Type 0
ProjectId = Uuid

pub data InvalidAgentId : Type 0 where
  malformed invalid_variant not_version_seven : Text → InvalidAgentId

-- `FromStr` of each identifier of an agent or an artifact, at its label.
unfoldable pub parse_agent_id : UuidCrate → Text → Text → Result InvalidAgentId Uuid
parse_agent_id u label value = do
  id ← ok_or (u.parse_str value) (malformed label)
  if u.is_rfc4122 id
      then if u.is_sort_rand id then ok id else err (not_version_seven label)
      else err (invalid_variant label)

pub data InvalidProjectId : Type 0 where
  malformed invalid_variant not_version_seven : InvalidProjectId

unfoldable pub parse_project_id : UuidCrate → Text → Result InvalidProjectId ProjectId
parse_project_id u value = do
  id ← ok_or (u.parse_str value) InvalidProjectId.malformed
  if u.is_rfc4122 id
      then if u.is_sort_rand id then ok id else err InvalidProjectId.not_version_seven
      else err InvalidProjectId.invalid_variant

-- `map(parse).transpose()` of an optional value.
abbrev pub transpose {ℓ κ μ} :
    {A : Type ℓ} {E : Type κ} {B : Type μ} → (A → Result E B) → Option A → Result E (Option B)
transpose f none = ok none
transpose f (some a) = f a >>= λ b. ok (some b)

-- An identifier that the uuid crate prints and reads back: one of version 7.
pub record IsStored (u : UuidCrate) (id : Uuid) : Type 0 where
  pub parses : u.parse_str (u.to_string id) ≡ some id
  pub rfc4122 : u.is_rfc4122 id ≡ true
  pub sort_rand : u.is_sort_rand id ≡ true

pub parse_agent_id-to_string :
    (u : UuidCrate) (label : Text) (id : Uuid)
    → IsStored u id
    → parse_agent_id u label (u.to_string id) ≡ ok id
unfolding parse_agent_id
parse_agent_id-to_string u label id h = ground (arith, h.parses, h.rfc4122, h.sort_rand)

pub parse_project_id-to_string :
    (u : UuidCrate) (id : Uuid) → IsStored u id → parse_project_id u (u.to_string id) ≡ ok id
unfolding parse_project_id
parse_project_id-to_string u id h = ground (arith, h.parses, h.rfc4122, h.sort_rand)
