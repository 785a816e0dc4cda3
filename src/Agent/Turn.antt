-- ===== src/Agent/Turn.antt =====
-- Turns and their life cycle: crates/tule-core/src/agent.rs, `AgentTurn`. A method on `&mut self`
-- returns the turn after the call with its result; the clock and the generated identifier are
-- arguments.
use tule.Base.{
  ℕ, ◌+◌, ◌^◌, min, ◌-◌, Option, none, some, [], ◌++◌, Result, ok, err, ◌>>=◌, map_err, Text, bytes,
  ℤ, ltb, length, if◌then◌else◌,
}
use tule.Ids.{UuidCrate}
use tule.AgentIds.{
  AgentTurnId, AgentSessionId, ProviderRequestId, ProjectId, parse_agent_id, parse_project_id,
  transpose,
}
use tule.Clock.{ProjectTimeError, SystemTime, unix_now_ms}
use tule.Agent.State.{
  AgentEffort, AgentTurnState, pending, streaming, completed, cancelled, failed, interrupted,
  IllegalAgentTurnTransition, transition, parse_effort, parse_state,
}
use tule.Agent.Errors.{
  AgentOutputLimitError, output_limit, AgentTurnFinishError, AgentReconstructionError, invalid_id,
  invalid_project_id, invalid_turn_state, invalid_effort,
}

abbrev pub prompt_version_label : Text
prompt_version_label = bytes "tule-direct-agent-v2"

abbrev pub max_agent_output_utf8 : ℕ
max_agent_output_utf8 = 1048576

pub record AgentTurn : Type 0 where
  pub id : AgentTurnId
  pub session_id : AgentSessionId
  pub ordinal : ℕ
  pub user_text : Text
  pub agent_text : Text
  pub state : AgentTurnState
  pub error_code : Option Text
  pub provider_profile_id : Text
  pub model_id : Text
  pub effort : Option AgentEffort
  pub provider_request_id : ProviderRequestId
  pub provider_response_id : Option Text
  pub usage_input_tokens : Option ℕ
  pub usage_output_tokens : Option ℕ
  pub project_id : Option ProjectId
  pub project_instructions : Text
  pub prompt_version : Text
  pub started_at_unix_ms : ℤ
  pub finished_at_unix_ms : Option ℤ

unfoldable pub new_pending :
    AgentTurnId
    → SystemTime
    → AgentSessionId
    → ℕ
    → Text
    → Option ProjectId
    → Text
    → ProviderRequestId
    → Text
    → Text
    → Option AgentEffort
    → Result ProjectTimeError AgentTurn
new_pending id clock session_id ordinal user_text project_id project_instructions
      provider_request_id provider_profile_id model_id effort =
    do
      now ← unix_now_ms clock
      ok (record {
        id = id;
        session_id = session_id;
        ordinal = ordinal;
        user_text = user_text;
        agent_text = [];
        state = pending;
        error_code = none;
        provider_profile_id = provider_profile_id;
        model_id = model_id;
        effort = effort;
        provider_request_id = provider_request_id;
        provider_response_id = none;
        usage_input_tokens = none;
        usage_output_tokens = none;
        project_id = project_id;
        project_instructions = project_instructions;
        prompt_version = prompt_version_label;
        started_at_unix_ms = now;
        finished_at_unix_ms = none;
      })

-- The arguments of `AgentTurn::from_stored_parts`, in their order.
pub record StoredTurn : Type 0 where
  pub id : Text
  pub session_id : Text
  pub ordinal : ℕ
  pub user_text : Text
  pub agent_text : Text
  pub state : Text
  pub error_code : Option Text
  pub provider_profile_id : Text
  pub model_id : Text
  pub effort : Option Text
  pub provider_request_id : Text
  pub provider_response_id : Option Text
  pub usage_input_tokens : Option ℕ
  pub usage_output_tokens : Option ℕ
  pub project_id : Option Text
  pub project_instructions : Text
  pub prompt_version : Text
  pub started_at_unix_ms : ℤ
  pub finished_at_unix_ms : Option ℤ

-- `AgentTurn::from_stored_parts`.
unfoldable pub turn_from_stored_parts :
    UuidCrate → StoredTurn → Result AgentReconstructionError AgentTurn
turn_from_stored_parts u stored = do
  project ← map_err invalid_project_id (transpose (parse_project_id u) stored.project_id)
  effort ← map_err invalid_effort (transpose parse_effort stored.effort)
  turn_id ← map_err invalid_id (parse_agent_id u (bytes "agent turn ID") stored.id)
  session ← map_err invalid_id (parse_agent_id u (bytes "agent session ID") stored.session_id)
  state ← map_err invalid_turn_state (parse_state stored.state)
  request ←
      map_err invalid_id (parse_agent_id u (bytes "provider request ID") stored.provider_request_id)
  ok (record {
    id = turn_id;
    session_id = session;
    ordinal = stored.ordinal;
    user_text = stored.user_text;
    agent_text = stored.agent_text;
    state = state;
    error_code = stored.error_code;
    provider_profile_id = stored.provider_profile_id;
    model_id = stored.model_id;
    effort = effort;
    provider_request_id = request;
    provider_response_id = stored.provider_response_id;
    usage_input_tokens = stored.usage_input_tokens;
    usage_output_tokens = stored.usage_output_tokens;
    project_id = project;
    project_instructions = stored.project_instructions;
    prompt_version = stored.prompt_version;
    started_at_unix_ms = stored.started_at_unix_ms;
    finished_at_unix_ms = stored.finished_at_unix_ms;
  })

-- `usize::saturating_add`.
abbrev pub saturating_add : ℕ → ℕ → ℕ
saturating_add a b = min (a + b) (2 ^ 64 - 1)

unfoldable pub append_agent_text :
    Text → AgentTurn → AgentTurn × Result AgentOutputLimitError (Unit {0})
append_agent_text delta turn =
    if ltb max_agent_output_utf8 (saturating_add (length turn.agent_text) (length delta))
    then (turn, err output_limit)
    else (record turn { agent_text = turn.agent_text ++ delta }, ok tt)

unfoldable pub set_agent_text : Text → AgentTurn → AgentTurn
set_agent_text text turn = record turn { agent_text = text }

unfoldable pub mark_streaming : AgentTurn → AgentTurn × Result IllegalAgentTurnTransition (Unit {0})
mark_streaming turn = elim (transition turn.state streaming) [
  | ok next ↦ (record turn { state = next }, ok tt)
  | err e ↦ (turn, err e)
]

-- The finish time, the last field that `complete`, `cancel`, `fail` and `interrupt` set: if the clock
-- fails, the fields before it are set all the same.
abbrev pub finish : SystemTime → AgentTurn → AgentTurn × Result AgentTurnFinishError (Unit {0})
finish clock turn = elim (unix_now_ms clock) [
  | ok now ↦ (record turn { finished_at_unix_ms = some now }, ok tt)
  | err e ↦ (turn, err (AgentTurnFinishError.time e))
]

unfoldable pub complete :
    SystemTime
    → Option Text
    → Option ℕ
    → Option ℕ
    → AgentTurn
    → AgentTurn × Result AgentTurnFinishError (Unit {0})
complete clock provider_response_id usage_input_tokens usage_output_tokens turn =
    elim (transition turn.state completed) [
      | ok next ↦ finish clock (record turn {
        state = next;
        provider_response_id = provider_response_id;
        usage_input_tokens = usage_input_tokens;
        usage_output_tokens = usage_output_tokens;
      })
      | err e ↦ (turn, err (AgentTurnFinishError.illegal_transition e))
    ]

unfoldable pub cancel : SystemTime → AgentTurn → AgentTurn × Result AgentTurnFinishError (Unit {0})
cancel clock turn = elim (transition turn.state cancelled) [
  | ok next ↦ finish clock (record turn { state = next; error_code = some (bytes "cancelled") })
  | err e ↦ (turn, err (AgentTurnFinishError.illegal_transition e))
]

unfoldable pub fail :
    SystemTime → Text → AgentTurn → AgentTurn × Result AgentTurnFinishError (Unit {0})
fail clock error_code turn = elim (transition turn.state failed) [
  | ok next ↦ finish clock (record turn { state = next; error_code = some error_code })
  | err e ↦ (turn, err (AgentTurnFinishError.illegal_transition e))
]

unfoldable pub interrupt :
    SystemTime → AgentTurn → AgentTurn × Result AgentTurnFinishError (Unit {0})
interrupt clock turn = elim (transition turn.state interrupted) [
  | ok next ↦ finish clock (record turn { state = next; error_code = some (bytes "interrupted") })
  | err e ↦ (turn, err (AgentTurnFinishError.illegal_transition e))
]
