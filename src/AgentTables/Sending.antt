-- ===== src/AgentTables/Sending.antt =====
-- What a send keeps on the store in SQLite: crates/tule-core/src/agent_use_cases.rs,
-- `prepare_agent_send`.
use mathlib.Core.Option
use tule.Base.{
  ◌≡◌, refl, Bool, true, false, Option, none, some, List, [], Result, ok, err, map_err, ok_or,
  length, ◌==◌, nat_eq, arith, inl, inr, Bool-cases,
}
use tule.Base.Actions.{Action, ◌>>=◌, ◌>>◌, fail_if, on_error}
use tule.Base.Keeping.{
  Keeps, Any, Keeps-bind, Keeps-then, Keeps-pure, Keeps-fail_if, Keeps-lift, Keeps-on_error,
  result-Any,
}
use tule.Ids.{UuidCrate}
use tule.Canonical.{Digest}
use tule.AgentIds.{AgentSessionId}
use tule.Source.Framing.{source_context}
use tule.Agent.State.{turn_state_eq}
use tule.Agent.Session.{AgentSession}
use tule.Agent.Input.{validate_user_text}
use tule.Agent.Context.{build_agent_request_context}
use tule.AgentTables.{SqliteStore, sqlite, query}
use tule.AgentTables.Rows.{TurnRow, EventRow, SqliteStoreError}
use tule.AgentTables.Queries.{find_session_row, list_turn_rows, list_source_rows, has_inflight}
use tule.AgentTables.Closure.{Closed}
use tule.AgentTables.Kept.{On, Idle}
use tule.AgentTables.Executing.{InStore, Keeps-query}
use tule.AgentTables.Going.{GoesTo, GoesTo-bind, GoesTo-then}
use tule.AgentUseCases.Errors.{PrepareAgentSendError, context_error, InvalidProviderProfileId}
use tule.AgentUseCases.History.{completed_history_from_turns}
use tule.AgentUseCases.Send.{
  SendStamps, SendRequest, find_existing, frozen_identity, load_history, prepare_agent_send,
  is_mismatched, resolve_effort_selection, saved_instructions,
}
use tule.AgentTables.Persisting.{persist_send-GoesTo}

module _ {Inv : List TurnRow → List EventRow → Type 0} (closed : Closed Inv) (u : UuidCrate)
    (digest : Digest) where
  abbrev IsIdle : SqliteStore → Type 0
  IsIdle = InStore (On (Idle closed u))

  abbrev Holds : SqliteStore → Type 0
  Holds = InStore (On Inv)

  forget : (store : SqliteStore) → IsIdle store → Holds store
  forget store p = p.0

  find_existing-Keeps :
      (id : Option AgentSessionId) → Keeps IsIdle Any (find_existing (sqlite u digest) id)
  unfolding find_existing
  find_existing-Keeps none = Keeps-pure none tt
  find_existing-Keeps (some id) =
      Keeps-bind
        (Keeps-on_error PrepareAgentSendError.repository
          (Keeps-query (On (Idle closed u)) (find_session_row u id)))
        (λ found _.
          Keeps-bind
            (Keeps-lift (ok_or found PrepareAgentSendError.session_not_found) (result-Any _))
            (λ session _. Keeps-pure (some session) tt))

  load_history-Keeps :
      (existing : Option AgentSession) → Keeps IsIdle Any (load_history (sqlite u digest) existing)
  unfolding load_history
  load_history-Keeps none = Keeps-pure [] tt
  load_history-Keeps (some session) =
      Keeps-bind
        (Keeps-on_error PrepareAgentSendError.repository
          (Keeps-query (On (Idle closed u)) (list_turn_rows u session.id)))
        (λ turns _.
          Keeps-bind
            (Keeps-on_error PrepareAgentSendError.repository
              (Keeps-query (On (Idle closed u)) (list_source_rows u digest session.id)))
            (λ sources _. Keeps-pure (completed_history_from_turns turns sources) tt))

  -- The answer to the question for a turn in flight.
  Tells : SqliteStore × Result SqliteStoreError Bool → Type 0
  Tells (store, ok busy) = Holds store × (busy ≡ false → IsIdle store)
  Tells (store, err e) = Holds store

  has_inflight-Tells : (store : SqliteStore) → Holds store → Tells (query has_inflight store)
  unfolding query has_inflight Tells
  has_inflight-Tells store p = elim (Bool-cases store.poisoned) [
    | inl poisoned ↦ rw poisoned p
    | inr sound ↦ rw sound (p, λ idle. (p, ground arith))
  ]

  after_busy :
      {A : Type 0} (m : Action SqliteStore (PrepareAgentSendError SqliteStoreError) A)
      (r : SqliteStore × Result SqliteStoreError Bool) (store : SqliteStore)
      → GoesTo IsIdle Holds m
      → Tells r
      → Holds
          ((on_error PrepareAgentSendError.repository (λ (_ : SqliteStore). r) >>= λ busy.
              fail_if busy PrepareAgentSendError.session_busy >> m)
            store).0
  unfolding Tells
  after_busy m (found, ok true) store h p = p.0
  after_busy m (found, ok false) store h p = h.goes found (p.1 refl)
  after_busy m (found, err e) store h p = p

  -- What follows the test for a turn in flight starts with none.
  unless_busy :
      {A : Type 0} (m : Action SqliteStore (PrepareAgentSendError SqliteStoreError) A)
      → GoesTo IsIdle Holds m
      → Keeps Holds Any (
          on_error PrepareAgentSendError.repository (query has_inflight) >>= λ busy.
          fail_if busy PrepareAgentSendError.session_busy >> m)
  unless_busy m h = record {
    keeps = λ store p. (
      after_busy m (query has_inflight store) store h (has_inflight-Tells store p),
      result-Any _,
    );
  }

  pub prepare_agent_send-Keeps :
      (stamps : SendStamps) (request : SendRequest)
      → Keeps Holds Any (prepare_agent_send (sqlite u digest) stamps request)
  unfolding prepare_agent_send
  prepare_agent_send-Keeps stamps request =
      Keeps-then
        (Keeps-lift
          (map_err PrepareAgentSendError.invalid_input (validate_user_text request.user_text))
          (result-Any _))
        (Keeps-bind
          (Keeps-lift (resolve_effort_selection request.effort request.effort_available)
            (result-Any _))
          (λ effort _. unless_busy _ (
            GoesTo-bind {V = Any} forget (find_existing-Keeps request.session_id) (λ existing _.
              GoesTo-then forget
                (Keeps-fail_if (is_mismatched (sqlite u digest) existing request.project_id)
                  PrepareAgentSendError.project_association_mismatch)
                (GoesTo-bind {V = Any} forget
                  (Keeps-lift (frozen_identity (sqlite u digest) request existing) (result-Any _))
                  (λ identity _.
                    GoesTo-then forget
                      (Keeps-fail_if (length identity.0 == 0) (
                        PrepareAgentSendError.provider_profile_unavailable
                          InvalidProviderProfileId.empty))
                      (GoesTo-bind {V = Any} forget (load_history-Keeps existing) (λ history _.
                        GoesTo-bind {V = Any} forget
                          (Keeps-lift
                            (map_err context_error (
                              build_agent_request_context history request.user_text
                                (saved_instructions request.saved_project_instructions) identity.1
                                (Option.map source_context request.source) effort))
                            (result-Any _))
                          (λ context _.
                            persist_send-GoesTo closed u digest stamps request effort identity.0
                              identity.1 context existing)))))))))
