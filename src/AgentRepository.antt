-- ===== src/AgentRepository.antt =====
-- What the use cases ask of a store of sessions: crates/tule-core/src/agent_repository.rs. The trait is
-- a record of calls on a store.
use tule.Base.{ℕ, Bool, Option, List, Text, ℤ}
use tule.Base.Actions.{Action}
use tule.AgentIds.{AgentSessionId, AgentTurnId, ProjectId}
use tule.Source.{Source}
use tule.Source.Framing.{TurnSource}
use tule.Agent.Session.{AgentSession}
use tule.Agent.Turn.{AgentTurn}
use tule.Agent.Event.{AgentEvent}

pub record ProviderProfile : Type 0 where
  pub id : Text
  pub provider_kind : Text
  pub visible_model_id : Text
  pub credential_handle : Option Text
  pub access_token_expires_at_unix_ms : Option ℤ
  pub created_at_unix_ms : ℤ
  pub updated_at_unix_ms : ℤ

pub record AgentRepository : Type 1 where
  pub Store : Type 0
  pub Error : Type 0
  pub ensure_provider_profile : ProviderProfile → Action Store Error (Unit {0})
  pub get_provider_profile : Text → Action Store Error (Option ProviderProfile)
  pub update_provider_profile : ProviderProfile → Action Store Error (Unit {0})
  pub create_session : AgentSession → Action Store Error (Unit {0})
  pub update_session : AgentSession → Action Store Error (Unit {0})
  pub find_session : AgentSessionId → Action Store Error (Option AgentSession)
  pub list_sessions : Action Store Error (List AgentSession)
  pub list_sessions_for_project : ProjectId → Action Store Error (List AgentSession)
  pub list_projectless_sessions : Action Store Error (List AgentSession)
  pub most_recent_session : Action Store Error (Option AgentSession)
  pub create_turn : AgentTurn → Action Store Error (Unit {0})
  pub update_turn : AgentTurn → Action Store Error (Unit {0})
  pub find_turn : AgentTurnId → Action Store Error (Option AgentTurn)
  pub list_turns : AgentSessionId → Action Store Error (List AgentTurn)
  pub next_turn_ordinal : AgentSessionId → Action Store Error ℕ
  pub has_inflight_turn : Action Store Error Bool
  pub list_inflight_turns : Action Store Error (List AgentTurn)
  pub append_event : AgentEvent → Action Store Error (Unit {0})
  pub update_session_with_event : AgentSession → AgentEvent → Action Store Error (Unit {0})
  pub next_event_sequence : AgentSessionId → Action Store Error ℕ
  pub list_events : AgentSessionId → Action Store Error (List AgentEvent)
  pub create_session_with_first_turn :
      AgentSession
      → AgentTurn
      → AgentEvent
      → AgentEvent
      → Option Source
      → Action Store Error (Unit {0})
  pub append_turn_with_pending_event :
      AgentSession → AgentTurn → AgentEvent → Option Source → Action Store Error (Unit {0})
  pub list_turn_sources : AgentSessionId → Action Store Error (List TurnSource)
  pub checkpoint_turn : AgentTurn → Option AgentEvent → Action Store Error (Unit {0})
  pub finish_turn_with_terminal_event :
      AgentSession → AgentTurn → AgentEvent → Action Store Error (Unit {0})
  pub finish_turns_with_terminal_events :
      List (AgentSession × AgentTurn × AgentEvent) → Action Store Error (Unit {0})
