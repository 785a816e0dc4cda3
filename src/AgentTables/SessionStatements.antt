-- ===== src/AgentTables/SessionStatements.antt =====
-- The statements that write profiles and sessions: apps/desktop/src-tauri/src/sqlite/agents.rs,
-- `ensure_provider_profile`, `update_provider_profile`, `insert_session` and `update_session`.
use mathlib.Core.Option
use tule.Base.{Bool, not, ◌&&◌, ◌∷◌, ok, ◌==◌, nat_eq, text_eq, if◌then◌else◌}
use tule.Ids.{UuidCrate}
use tule.Agent.Session.{AgentSession}
use tule.AgentRepository.{ProviderProfile}
use tule.AgentTables.Rows.{SessionRow, Tables}
use tule.AgentTables.Constraints.{
  Statement, violated, refers, has_project, has_profile, has_session, update_rows,
}

-- `ensure_provider_profile`: ON CONFLICT(id) DO NOTHING.
unfoldable pub insert_profile : ProviderProfile → Statement
insert_profile profile tables =
    if has_profile tables profile.id
    then ok tables
    else ok (record tables { provider_profiles = profile ∷ tables.provider_profiles })

abbrev write_profile : ProviderProfile → ProviderProfile → ProviderProfile
write_profile profile row = record row {
  provider_kind = profile.provider_kind;
  visible_model_id = profile.visible_model_id;
  credential_handle = profile.credential_handle;
  access_token_expires_at_unix_ms = profile.access_token_expires_at_unix_ms;
  updated_at_unix_ms = profile.updated_at_unix_ms;
}

unfoldable pub update_profile : ProviderProfile → Statement
update_profile profile tables = ok (record tables {
  provider_profiles =
      update_rows (λ row. row.id == profile.id) (write_profile profile) tables.provider_profiles;
})

abbrev pub session_refers : UuidCrate → AgentSession → Tables → Bool
session_refers u session tables =
    refers (Option.map u.to_string session.project_id) (has_project tables)
    && has_profile tables session.provider_profile_id

unfoldable pub insert_session : UuidCrate → AgentSession → Statement
insert_session u session tables =
    if not (has_session tables (u.to_string session.id)) && session_refers u session tables
    then ok (record tables {
      agent_sessions =
          record {
            id = u.to_string session.id;
            title = session.title;
            project_id = Option.map u.to_string session.project_id;
            provider_profile_id = session.provider_profile_id;
            model_id = session.model_id;
            created_at_unix_ms = session.created_at_unix_ms;
            updated_at_unix_ms = session.updated_at_unix_ms;
          }
          ∷ tables.agent_sessions;
    })
    else violated

abbrev write_session : UuidCrate → AgentSession → SessionRow → SessionRow
write_session u session row = record row {
  title = session.title;
  project_id = Option.map u.to_string session.project_id;
  provider_profile_id = session.provider_profile_id;
  model_id = session.model_id;
  updated_at_unix_ms = session.updated_at_unix_ms;
}

-- A session that is not there is no error: no row is changed.
unfoldable pub update_session : UuidCrate → AgentSession → Statement
update_session u session tables =
    if not (has_session tables (u.to_string session.id))
    then ok tables
    else if session_refers u session tables
    then ok (record tables {
      agent_sessions =
          update_rows (λ row. row.id == u.to_string session.id) (write_session u session)
            tables.agent_sessions;
    })
    else violated
