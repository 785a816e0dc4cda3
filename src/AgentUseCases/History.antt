-- ===== src/AgentUseCases/History.antt =====
-- The completed turns that a request holds: crates/tule-core/src/agent_use_cases.rs,
-- `completed_history_from_turns`.
use tule.Base.{Bool, Option, none, some, List, [], ◌∷◌, map, leb, ◌==◌, nat_eq, if◌then◌else◌}
use tule.Base.Sort.{sort_by, insert_sorted}
use tule.Agent.State.{completed, turn_state_eq, AgentTurnState-discrete}
use tule.Agent.Turn.{AgentTurn}
use tule.Agent.Context.{CompletedTurnContext}
use tule.Source.Framing.{TurnSource, SourceContext, source_context}

abbrev pub select {ℓ} : {A : Type ℓ} → (A → Bool) → List A → List A
select p [] = []
select p (x ∷ xs) = if p x then x ∷ select p xs else select p xs

abbrev pub first_source : List TurnSource → Option SourceContext
first_source [] = none
first_source (item ∷ items) = some (source_context item.source)

abbrev by_order : TurnSource → TurnSource → Bool
by_order left right = leb left.attachment_order right.attachment_order

unfoldable pub completed_turn : List TurnSource → AgentTurn → CompletedTurnContext
unfolding sort_by insert_sorted source_context
completed_turn sources turn =
    let turn_sources = sort_by by_order (select (λ item. item.turn_id == turn.id) sources) in
    record {
      user_text = turn.user_text;
      agent_text = turn.agent_text;
      source = first_source turn_sources;
    }

unfoldable pub completed_history_from_turns :
    List AgentTurn → List TurnSource → List CompletedTurnContext
unfolding completed_turn AgentTurnState-discrete
completed_history_from_turns turns sources =
    map (completed_turn sources) (select (λ turn. turn.state == completed) turns)
