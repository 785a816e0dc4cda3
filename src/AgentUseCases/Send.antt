-- ===== src/AgentUseCases/Send.antt =====
-- A send, before anything goes over the network: crates/tule-core/src/agent_use_cases.rs,
-- `prepare_agent_send`.
use tule.Base.{
  Bool, true, false, Option, none, some, List, [], Result, ok, err, Text, length, map_err, ok_or,
  ◌==◌, ◌!=◌, nat_eq, Eq, ℕ_discrete, if◌then◌else◌,
}
use mathlib.Core.Option
use tule.Base.Actions.{Action, ◌>>=◌, ◌>>◌, pure, fail_if, lift, on_error}
use tule.Base.Scalars.{trim}
use tule.AgentIds.{AgentSessionId, AgentTurnId, AgentEventId, ProviderRequestId, ProjectId}
use tule.Clock.{SystemTime}
use tule.Catalog.ModelId.{validate_model_id}
use tule.Source.{Source}
use tule.Source.Framing.{source_context}
use tule.Agent.State.{AgentEffort, turn_pending, session_created}
use tule.Agent.Session.{AgentSession, new_session, touch_updated_at}
use tule.Agent.Turn.{AgentTurn, new_pending}
use tule.Agent.Event.{new_event}
use tule.Agent.Input.{validate_user_text, derive_session_title}
use tule.Agent.Context.{CompletedTurnContext, AgentRequestContext, build_agent_request_context}
use tule.AgentRepository.{AgentRepository}
use tule.AgentUseCases.Errors.{PrepareAgentSendError, context_error, InvalidProviderProfileId}
use tule.AgentUseCases.History.{completed_history_from_turns}

pub record PreparedAgentSend : Type 0 where
  pub session : AgentSession
  pub turn : AgentTurn
  pub request_context : AgentRequestContext
  pub created_session : Bool

-- The arguments of `prepare_agent_send`.
pub record SendRequest : Type 0 where
  pub session_id : Option AgentSessionId
  pub user_text : Text
  pub project_id : Option ProjectId
  pub saved_project_instructions : Text
  pub provider_profile_id : Text
  pub model_id : Text
  pub source : Option Source
  pub effort : Option AgentEffort
  pub effort_available : Bool

-- The identifiers that a send generates, and its readings of the clock.
pub record SendStamps : Type 0 where
  pub session_id : AgentSessionId
  pub turn_id : AgentTurnId
  pub provider_request_id : ProviderRequestId
  pub created_event_id : AgentEventId
  pub pending_event_id : AgentEventId
  pub session_clock : SystemTime
  pub turn_clock : SystemTime
  pub created_clock : SystemTime
  pub pending_clock : SystemTime

unfoldable pub OptionId-discrete : Discrete (Option ProjectId)
OptionId-discrete = hlevel ℕ_discrete

instance abbrev pub option_id_eq : Eq (Option ProjectId)
option_id_eq = record { dec_eq = OptionId-discrete }

unfoldable pub resolve_effort_selection :
    {E : Type 0} → Option AgentEffort → Bool → Result (PrepareAgentSendError E) (Option AgentEffort)
resolve_effort_selection (some effort) false = err PrepareAgentSendError.unsupported_request_control
resolve_effort_selection none false = ok none
resolve_effort_selection effort true = ok effort

abbrev pub saved_instructions : Text → Option Text
saved_instructions text = if length text == 0 then none else some text

module _ (R : AgentRepository) where
  abbrev SendError : Type 0
  SendError = PrepareAgentSendError R.Error

  -- The session that the send names.
  unfoldable pub find_existing :
      Option AgentSessionId → Action R.Store SendError (Option AgentSession)
  find_existing none = pure none
  find_existing (some id) = do
    found ← on_error PrepareAgentSendError.repository (R.find_session id)
    session ← lift (ok_or found PrepareAgentSendError.session_not_found)
    pure (some session)

  -- The provider profile and the model: those of the session, or those of the request for a new one.
  unfoldable pub frozen_identity :
      SendRequest → Option AgentSession → Result SendError (Text × Text)
  frozen_identity request (some session) = elim (validate_model_id session.model_id) [
    | ok model_id ↦ ok (session.provider_profile_id, model_id)
    | err e ↦ err (PrepareAgentSendError.model_unavailable e)
  ]
  frozen_identity request none = elim (validate_model_id request.model_id) [
    | ok model_id ↦ ok (trim request.provider_profile_id, model_id)
    | err e ↦ err (PrepareAgentSendError.model_unavailable e)
  ]

  unfoldable pub load_history :
      Option AgentSession → Action R.Store SendError (List CompletedTurnContext)
  load_history none = pure []
  load_history (some session) = do
    turns ← on_error PrepareAgentSendError.repository (R.list_turns session.id)
    sources ← on_error PrepareAgentSendError.repository (R.list_turn_sources session.id)
    pure (completed_history_from_turns turns sources)

  -- A send to the session that is there.
  unfoldable pub append_send :
      SendStamps
      → SendRequest
      → Option AgentEffort
      → Text
      → Text
      → AgentRequestContext
      → AgentSession
      → Action R.Store SendError PreparedAgentSend
  append_send stamps request effort provider_profile_id model_id request_context session = do
    ordinal ← on_error PrepareAgentSendError.repository (R.next_turn_ordinal session.id)
    turn ← lift (
        map_err PrepareAgentSendError.time (
          new_pending stamps.turn_id stamps.turn_clock session.id ordinal request.user_text
            request.project_id request.saved_project_instructions stamps.provider_request_id
            provider_profile_id model_id effort))
    touched ←
        lift (map_err PrepareAgentSendError.time (touch_updated_at stamps.session_clock session))
    sequence ← on_error PrepareAgentSendError.repository (R.next_event_sequence session.id)
    pending ← lift (
        map_err PrepareAgentSendError.time (
          new_event stamps.pending_event_id stamps.pending_clock session.id (some turn.id) sequence
            turn_pending))
    on_error PrepareAgentSendError.repository
        (R.append_turn_with_pending_event touched turn pending request.source)
    pure (record {
      session = touched;
      turn = turn;
      request_context = request_context;
      created_session = false;
    })

  -- The first send, which creates its session.
  unfoldable pub first_send :
      SendStamps
      → SendRequest
      → Option AgentEffort
      → Text
      → Text
      → AgentRequestContext
      → Action R.Store SendError PreparedAgentSend
  first_send stamps request effort provider_profile_id model_id request_context = do
    session ← lift (
        map_err PrepareAgentSendError.time (
          new_session stamps.session_id stamps.session_clock
            (derive_session_title request.user_text) request.project_id provider_profile_id
            model_id))
    turn ← lift (
        map_err PrepareAgentSendError.time (
          new_pending stamps.turn_id stamps.turn_clock session.id 0 request.user_text
            request.project_id request.saved_project_instructions stamps.provider_request_id
            provider_profile_id model_id effort))
    created ← lift (
        map_err PrepareAgentSendError.time (
          new_event stamps.created_event_id stamps.created_clock session.id none 0 session_created))
    pending ← lift (
        map_err PrepareAgentSendError.time (
          new_event stamps.pending_event_id stamps.pending_clock session.id (some turn.id) 1
            turn_pending))
    on_error PrepareAgentSendError.repository
        (R.create_session_with_first_turn session turn created pending request.source)
    pure (record {
      session = session;
      turn = turn;
      request_context = request_context;
      created_session = true;
    })

  unfoldable pub persist_send :
      SendStamps
      → SendRequest
      → Option AgentEffort
      → Text
      → Text
      → AgentRequestContext
      → Option AgentSession
      → Action R.Store SendError PreparedAgentSend
  persist_send stamps request effort provider_profile_id model_id request_context (some session) =
      append_send stamps request effort provider_profile_id model_id request_context session
  persist_send stamps request effort provider_profile_id model_id request_context none =
      first_send stamps request effort provider_profile_id model_id request_context

  -- A session that is there with another project.
  abbrev pub is_mismatched : Option AgentSession → Option ProjectId → Bool
  is_mismatched none project_id = false
  is_mismatched (some session) project_id = session.project_id != project_id

  unfoldable pub prepare_agent_send :
      SendStamps → SendRequest → Action R.Store SendError PreparedAgentSend
  prepare_agent_send stamps request = do
    lift (map_err PrepareAgentSendError.invalid_input (validate_user_text request.user_text))
    effort ← lift (resolve_effort_selection request.effort request.effort_available)
    busy ← on_error PrepareAgentSendError.repository R.has_inflight_turn
    fail_if busy PrepareAgentSendError.session_busy
    existing ← find_existing request.session_id
    fail_if (is_mismatched existing request.project_id)
        PrepareAgentSendError.project_association_mismatch
    identity ← lift (frozen_identity request existing)
    fail_if (length identity.0 == 0)
        (PrepareAgentSendError.provider_profile_unavailable InvalidProviderProfileId.empty)
    history ← load_history existing
    request_context ← lift (
        map_err context_error (
          build_agent_request_context history request.user_text
            (saved_instructions request.saved_project_instructions) identity.1
            (Option.map source_context request.source) effort))
    persist_send stamps request effort identity.0 identity.1 request_context existing
