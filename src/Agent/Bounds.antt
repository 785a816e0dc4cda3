-- ===== src/Agent/Bounds.antt =====
-- What a request to the provider may hold: crates/tule-core/src/agent.rs, `build_agent_request_context`.
use tule.Base.{
  ℕ, ◌+◌, ◌^◌, ◌-◌, min, ◌≡◌, Option, List, [], ◌∷◌, ok, err, ◌>>◌, map_err, ltb, if◌then◌else◌,
  Text, length, arith,
}
use tule.Source.Framing.{SourceContext, format_turn_user_content}
use tule.Agent.State.{AgentEffort}
use tule.Agent.Errors.{AgentContextError}
use tule.Agent.Input.{validate_user_text}
use tule.Agent.Turn.{saturating_add}
use tule.Agent.Context.{
  CompletedTurnContext, assemble_instructions, add_history, build_agent_request_context,
  max_context_utf8,
}

-- The bytes of the history, counted without a limit.
abbrev pub history_size : List CompletedTurnContext → ℕ
history_size [] = 0
history_size (turn ∷ turns) =
    length (format_turn_user_content turn.user_text turn.source)
    + length turn.agent_text
    + history_size turns

add_history-history_size :
    (n : ℕ) (turns : List CompletedTurnContext)
    → min (add_history n turns) (2 ^ 64 - 1) ≡ min (n + history_size turns) (2 ^ 64 - 1)
unfolding add_history
add_history-history_size n [] = omega arith
add_history-history_size n (turn ∷ turns) = omega (
  arith,
  add_history-history_size
      (saturating_add
        (saturating_add n (length (format_turn_user_content turn.user_text turn.source)))
        (length turn.agent_text))
      turns,
)

-- All the bytes of a request: the instructions, the framed history and the framed text of the user.
abbrev pub request_size : List CompletedTurnContext → Text → Option Text → Option SourceContext → ℕ
request_size history user_text saved source =
    length (assemble_instructions saved)
    + history_size history
    + length (format_turn_user_content user_text source)

-- A text of the user that is not valid is refused with its error. Otherwise a request above 128 KiB is
-- refused with its size, as a usize that saturates, and any other request is built with the whole
-- history, the text and the source as they are: nothing is cut or left out to make it fit.
pub build_agent_request_context_lem :
    (history : List CompletedTurnContext) (user_text : Text) (saved : Option Text) (model_id : Text)
    (source : Option SourceContext) (effort : Option AgentEffort)
    → build_agent_request_context history user_text saved model_id source effort ≡ (
        map_err AgentContextError.invalid_input (validate_user_text user_text)
        >> (if ltb max_context_utf8 (request_size history user_text saved source)
            then err (
                AgentContextError.context_limit
                  (min (request_size history user_text saved source) (2 ^ 64 - 1)))
            else ok (record {
              model_id = model_id;
              instructions = assemble_instructions saved;
              completed_history = history;
              current_user_text = user_text;
              current_source = source;
              effort = effort;
            })))
unfolding build_agent_request_context
build_agent_request_context_lem history user_text saved model_id source effort =
    ground (arith, add_history-history_size (length (assemble_instructions saved)) history)
