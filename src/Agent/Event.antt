-- ===== src/Agent/Event.antt =====
-- The events of a session: crates/tule-core/src/agent.rs, `AgentEvent`.
use tule.Base.{ℕ, Option, Result, ok, ◌>>=◌, map_err, Text, bytes, ℤ}
use tule.Ids.{UuidCrate}
use tule.AgentIds.{AgentEventId, AgentSessionId, AgentTurnId, parse_agent_id, transpose}
use tule.Clock.{ProjectTimeError, SystemTime, unix_now_ms}
use tule.Agent.State.{AgentEventKind, parse_event_kind}
use tule.Agent.Errors.{AgentReconstructionError, invalid_id, invalid_event_kind}

pub record AgentEvent : Type 0 where
  pub id : AgentEventId
  pub session_id : AgentSessionId
  pub turn_id : Option AgentTurnId
  pub sequence : ℕ
  pub kind : AgentEventKind
  pub created_at_unix_ms : ℤ

-- `AgentEvent::new`.
unfoldable pub new_event :
    AgentEventId
    → SystemTime
    → AgentSessionId
    → Option AgentTurnId
    → ℕ
    → AgentEventKind
    → Result ProjectTimeError AgentEvent
new_event id clock session_id turn_id sequence kind = do
  now ← unix_now_ms clock
  ok (record {
    id = id;
    session_id = session_id;
    turn_id = turn_id;
    sequence = sequence;
    kind = kind;
    created_at_unix_ms = now;
  })

-- `AgentEvent::from_stored_parts`.
unfoldable pub event_from_stored_parts :
    UuidCrate
    → Text
    → Text
    → Option Text
    → ℕ
    → Text
    → ℤ
    → Result AgentReconstructionError AgentEvent
event_from_stored_parts u id session_id turn_id sequence kind created_at_unix_ms = do
  turn ← map_err invalid_id (transpose (parse_agent_id u (bytes "agent turn ID")) turn_id)
  event ← map_err invalid_id (parse_agent_id u (bytes "agent event ID") id)
  session ← map_err invalid_id (parse_agent_id u (bytes "agent session ID") session_id)
  event_kind ← map_err invalid_event_kind (parse_event_kind kind)
  ok (record {
    id = event;
    session_id = session;
    turn_id = turn;
    sequence = sequence;
    kind = event_kind;
    created_at_unix_ms = created_at_unix_ms;
  })
