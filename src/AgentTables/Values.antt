-- ===== src/AgentTables/Values.antt =====
-- What the values are that the use cases of a conversation write: crates/tule-core/src/agent.rs.
use tule.Base.{ℕ, ◌≡◌, refl, true, false, Option, Result, ok, err, Text, map_err, arith}
use tule.Base.Keeping.{OkIs}
use tule.AgentIds.{AgentTurnId, AgentSessionId, AgentEventId, ProjectId, ProviderRequestId}
use tule.Clock.{SystemTime}
use tule.Agent.State.{
  AgentTurnState, pending, streaming, completed, cancelled, failed, interrupted, is_terminal,
  AgentEventKind, AgentEffort, transition, for_terminal_state,
}
use tule.Agent.Turn.{
  AgentTurn, complete, cancel, fail, interrupt, append_agent_text, mark_streaming, new_pending,
}
use tule.Agent.Event.{AgentEvent, new_event}
use tule.AgentTables.Closure.{is_terminal_kind}
use tule.AgentUseCases.Delta.{marked}
use tule.AgentUseCases.Finish.{finished}

pub map_err-OkIs :
    {E F A : Type 0} (Q : A → Type 0) (f : E → F) (r : Result E A) → OkIs Q r → OkIs Q (map_err f r)
unfolding OkIs
map_err-OkIs Q f (ok a) q = q
map_err-OkIs Q f (err e) q = tt

-- An event of a kind, about a turn or none.
abbrev pub EventIs : AgentEventKind → Option AgentTurnId → AgentEvent → Type 0
EventIs kind turn_id event = (event.kind ≡ kind) × (event.turn_id ≡ turn_id)

pub new_event-EventIs :
    (id : AgentEventId) (clock : SystemTime) (session_id : AgentSessionId)
    (turn_id : Option AgentTurnId) (sequence : ℕ) (kind : AgentEventKind)
    → OkIs (EventIs kind turn_id) (new_event id clock session_id turn_id sequence kind)
unfolding new_event OkIs
new_event-EventIs id clock session_id turn_id sequence kind = ground arith

pub for_terminal_state-OkIs :
    (s : AgentTurnState)
    → OkIs (λ (kind : AgentEventKind). is_terminal_kind kind ≡ true) (for_terminal_state s)
unfolding for_terminal_state is_terminal_kind OkIs
for_terminal_state-OkIs pending = tt
for_terminal_state-OkIs streaming = tt
for_terminal_state-OkIs completed = refl
for_terminal_state-OkIs cancelled = refl
for_terminal_state-OkIs failed = refl
for_terminal_state-OkIs interrupted = refl

abbrev pub IsOver : AgentTurn → Type 0
IsOver turn = is_terminal turn.state ≡ true

module _ (E : Type 0) (clock : SystemTime) (turn : AgentTurn) where
  pub complete-IsOver :
      (response : Option Text) (input output : Option ℕ)
      → OkIs IsOver (finished {E = E} (complete clock response input output turn))
  unfolding complete transition is_terminal OkIs
  complete-IsOver response input output = ground arith

  pub cancel-IsOver : OkIs IsOver (finished {E = E} (cancel clock turn))
  unfolding cancel transition is_terminal OkIs
  cancel-IsOver = ground arith

  pub fail-IsOver : (code : Text) → OkIs IsOver (finished {E = E} (fail clock code turn))
  unfolding fail transition is_terminal OkIs
  fail-IsOver code = ground arith

  pub interrupt-IsOver : OkIs IsOver (finished {E = E} (interrupt clock turn))
  unfolding interrupt transition is_terminal OkIs
  interrupt-IsOver = ground arith

-- A turn that goes on, in a state that a delta leaves it in.
abbrev pub GoesOn : AgentTurn → Type 0
GoesOn turn = is_terminal turn.state ≡ false

pub new_pending-GoesOn :
    (id : AgentTurnId) (clock : SystemTime) (session_id : AgentSessionId) (ordinal : ℕ)
    (user_text : Text) (project_id : Option ProjectId) (instructions : Text)
    (request_id : ProviderRequestId) (profile model : Text) (effort : Option AgentEffort)
    → OkIs GoesOn (
        new_pending id clock session_id ordinal user_text project_id instructions request_id profile
          model effort)
unfolding new_pending is_terminal OkIs
new_pending-GoesOn id clock session_id ordinal user_text project_id instructions request_id profile
      model effort =
    ground arith

pub mark_streaming-GoesOn :
    (E : Type 0) (turn : AgentTurn) → OkIs GoesOn (marked {E = E} (mark_streaming turn))
unfolding mark_streaming transition is_terminal OkIs
mark_streaming-GoesOn E turn = ground arith

-- An append leaves the state as it is.
pub append-state :
    (delta : Text) (turn : AgentTurn) → (append_agent_text delta turn).0.state ≡ turn.state
unfolding append_agent_text
append-state delta turn = ground arith
