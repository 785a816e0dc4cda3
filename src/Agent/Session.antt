-- ===== src/Agent/Session.antt =====
-- Sessions: crates/tule-core/src/agent.rs, `AgentSession`. A method on `&mut self` returns the session
-- after the call with its result; the clock and the generated identifier are arguments.
use tule.Base.{Option, Result, ok, err, ◌>>=◌, map_err, Text, bytes, ℤ}
use tule.Ids.{UuidCrate}
use tule.AgentIds.{AgentSessionId, ProjectId, parse_agent_id, parse_project_id, transpose}
use tule.Clock.{ProjectTimeError, SystemTime, unix_now_ms}
use tule.Agent.Errors.{AgentReconstructionError, invalid_id, invalid_project_id}

pub record AgentSession : Type 0 where
  pub id : AgentSessionId
  pub title : Text
  pub project_id : Option ProjectId
  pub provider_profile_id : Text
  pub model_id : Text
  pub created_at_unix_ms : ℤ
  pub updated_at_unix_ms : ℤ

-- `AgentSession::new`.
unfoldable pub new_session :
    AgentSessionId
    → SystemTime
    → Text
    → Option ProjectId
    → Text
    → Text
    → Result ProjectTimeError AgentSession
new_session id clock title project_id provider_profile_id model_id = do
  now ← unix_now_ms clock
  ok (record {
    id = id;
    title = title;
    project_id = project_id;
    provider_profile_id = provider_profile_id;
    model_id = model_id;
    created_at_unix_ms = now;
    updated_at_unix_ms = now;
  })

-- `AgentSession::from_stored_parts`.
unfoldable pub session_from_stored_parts :
    UuidCrate
    → Text
    → Text
    → Option Text
    → Text
    → Text
    → ℤ
    → ℤ
    → Result AgentReconstructionError AgentSession
session_from_stored_parts u id title project_id provider_profile_id model_id created_at_unix_ms
      updated_at_unix_ms =
    do
      project ← map_err invalid_project_id (transpose (parse_project_id u) project_id)
      session_id ← map_err invalid_id (parse_agent_id u (bytes "agent session ID") id)
      ok (record {
        id = session_id;
        title = title;
        project_id = project;
        provider_profile_id = provider_profile_id;
        model_id = model_id;
        created_at_unix_ms = created_at_unix_ms;
        updated_at_unix_ms = updated_at_unix_ms;
      })

-- The session is changed before the clock is read.
unfoldable pub set_project_id :
    SystemTime → Option ProjectId → AgentSession → AgentSession × Result ProjectTimeError (Unit {0})
set_project_id clock project_id session =
    let changed : AgentSession = record session { project_id = project_id } in
    elim (unix_now_ms clock) [
      | ok now ↦ (record changed { updated_at_unix_ms = now }, ok tt)
      | err e ↦ (changed, err e)
    ]

unfoldable pub touch_updated_at : SystemTime → AgentSession → Result ProjectTimeError AgentSession
touch_updated_at clock session = do
  now ← unix_now_ms clock
  ok (record session { updated_at_unix_ms = now })
