-- ===== src/Agent/Life.antt =====
-- The life of one turn under any calls of its methods: crates/tule-core/src/agent.rs, `AgentTurn`.
use mathlib.Core.Path.{subst}
use tule.Base.{
  ℕ, ◌≤◌, ◌≡◌, refl, sym, ap, ◌∙◌, true, false, Option, none, some, List, [], ◌∷◌, ◌++◌, ok,
  Result-cases, Bool-cases, Text, bytes, ℤ, ltb, length, length-append, inl, inr, arith,
}
use tule.Clock.{SystemTime, unix_now_ms}
use tule.Agent.State.{
  AgentTurnState, pending, streaming, completed, cancelled, failed, interrupted, is_terminal,
  transition,
}
use tule.Agent.Turn.{
  AgentTurn, max_agent_output_utf8, append_agent_text, set_agent_text, mark_streaming, complete,
  cancel, fail, interrupt, finish, saturating_add,
}

-- A call of a method that changes the turn.
pub data TurnCall : Type 0 where
  append set_text : Text → TurnCall
  stream : TurnCall
  complete_with : SystemTime → Option Text → Option ℕ → Option ℕ → TurnCall
  cancel_at interrupt_at : SystemTime → TurnCall
  fail_with : SystemTime → Text → TurnCall

-- The turn after a call, whatever its result is.
unfoldable pub call : TurnCall → AgentTurn → AgentTurn
unfolding append_agent_text set_agent_text mark_streaming complete cancel fail interrupt
call (append delta) turn = (append_agent_text delta turn).0
call (set_text text) turn = set_agent_text text turn
call stream turn = (mark_streaming turn).0
call (complete_with clock response input output) turn =
    (complete clock response input output turn).0
call (cancel_at clock) turn = (cancel clock turn).0
call (interrupt_at clock) turn = (interrupt clock turn).0
call (fail_with clock code) turn = (fail clock code turn).0

unfoldable pub calls : List TurnCall → AgentTurn → AgentTurn
unfolding call
calls [] turn = turn
calls (next ∷ rest) turn = calls rest (call next turn)

-- Nothing is told yet.
abbrev pub Untold : AgentTurn → Type 0
Untold turn =
    (turn.error_code ≡ none)
    × (turn.provider_response_id ≡ none)
    × (turn.usage_input_tokens ≡ none)
    × (turn.usage_output_tokens ≡ none)
    × (turn.finished_at_unix_ms ≡ none)

-- What a turn that has ended in a state tells of its end.
abbrev pub TellsOf : AgentTurnState → AgentTurn → Type 0
TellsOf pending turn = Untold turn
TellsOf streaming turn = Untold turn
TellsOf completed turn = turn.error_code ≡ none
TellsOf cancelled turn =
    (turn.error_code ≡ some (bytes "cancelled")) × (turn.provider_response_id ≡ none)
TellsOf failed turn =
    ((code : Text) × (turn.error_code ≡ some code)) × (turn.provider_response_id ≡ none)
TellsOf interrupted turn =
    (turn.error_code ≡ some (bytes "interrupted")) × (turn.provider_response_id ≡ none)

abbrev pub Tells : AgentTurn → Type 0
Tells turn = TellsOf turn.state turn

abbrev pub IsTurn : AgentTurn → Type 0
IsTurn turn = Tells turn × (length turn.agent_text ≤ max_agent_output_utf8)

-- A text that is set is not above the limit.
abbrev pub IsWithin : TurnCall → Type 0
IsWithin (set_text text) = length text ≤ max_agent_output_utf8
IsWithin _ = Unit {0}

abbrev pub AllWithin : List TurnCall → Type 0
AllWithin [] = Unit {0}
AllWithin (next ∷ rest) = IsWithin next × AllWithin rest

untold :
    (s : AgentTurnState) (turn : AgentTurn) → is_terminal s ≡ false → TellsOf s turn → Untold turn
unfolding is_terminal
untold pending turn h t = t
untold streaming turn h t = t
untold completed turn h t = absurd (cc h)
untold cancelled turn h t = absurd (cc h)
untold failed turn h t = absurd (cc h)
untold interrupted turn h t = absurd (cc h)

TellsOf-finished :
    (s : AgentTurnState) (turn : AgentTurn) (at : Option ℤ)
    → is_terminal s ≡ true
    → TellsOf s turn
    → TellsOf s (record turn { finished_at_unix_ms = at })
unfolding is_terminal
TellsOf-finished pending turn at h t = absurd (cc h)
TellsOf-finished streaming turn at h t = absurd (cc h)
TellsOf-finished completed turn at h t = t
TellsOf-finished cancelled turn at h t = t
TellsOf-finished failed turn at h t = t
TellsOf-finished interrupted turn at h t = t

legal_end :
    (from to : AgentTurnState)
    → is_terminal from ≡ false
    → is_terminal to ≡ true
    → transition from to ≡ ok to
unfolding transition is_terminal
legal_end from to h k = ground arith

started : (from next : AgentTurnState) → transition from streaming ≡ ok next → next ≡ streaming
unfolding transition
started from next h = ground arith

TellsOf-text :
    (s : AgentTurnState) (turn : AgentTurn) (text : Text)
    → TellsOf s turn
    → TellsOf s (record turn { agent_text = text })
TellsOf-text pending turn text t = t
TellsOf-text streaming turn text t = t
TellsOf-text completed turn text t = t
TellsOf-text cancelled turn text t = t
TellsOf-text failed turn text t = t
TellsOf-text interrupted turn text t = t

call-final :
    (next : TurnCall) (turn : AgentTurn)
    → is_terminal turn.state ≡ true
    → call next turn ≡ record turn { agent_text = (call next turn).agent_text }
unfolding call append_agent_text set_agent_text mark_streaming complete cancel fail interrupt
    transition is_terminal
call-final (append delta) turn h = ground arith
call-final (set_text text) turn h = refl
call-final stream turn h = ground arith
call-final (complete_with clock response input output) turn h = ground arith
call-final (cancel_at clock) turn h = ground arith
call-final (interrupt_at clock) turn h = ground arith
call-final (fail_with clock code) turn h = ground arith

-- A turn that has ended stays as it is but for its text, whatever methods are called.
pub calls-final :
    (history : List TurnCall) (turn : AgentTurn)
    → is_terminal turn.state ≡ true
    → calls history turn ≡ record turn { agent_text = (calls history turn).agent_text }
unfolding calls
calls-final [] turn h = refl
calls-final (next ∷ rest) turn h =
    let same = call-final next turn h in
    let later =
      calls-final rest (call next turn) (ap (λ (t : AgentTurn). is_terminal t.state) same ∙ h) in
    later
    ∙ ap (λ (t : AgentTurn). record t { agent_text = (calls rest (call next turn)).agent_text })
        same

finish-Tells :
    (clock : SystemTime) (turn : AgentTurn)
    → is_terminal turn.state ≡ true
    → Tells turn
    → Tells (finish clock turn).0
finish-Tells clock turn h t = elim (Result-cases (unix_now_ms clock)) [
  | inl (now, e) ↦ rw (finish, e) (TellsOf-finished turn.state turn (some now) h t)
  | inr (error, e) ↦ rw (finish, e) t
]

-- A turn that goes on takes the text, the start or the end that the call gives it.
going-Tells :
    (next : TurnCall) (turn : AgentTurn)
    → is_terminal turn.state ≡ false
    → Tells turn
    → Tells (call next turn)
unfolding call append_agent_text set_agent_text mark_streaming complete cancel fail interrupt
    is_terminal
going-Tells (append delta) turn h t =
    elim (Bool-cases
      (ltb max_agent_output_utf8 (saturating_add (length turn.agent_text) (length delta)))) [
        | inl over ↦ rw (call, append_agent_text, over) t
        | inr fits ↦
            rw (call, append_agent_text, fits)
              (TellsOf-text turn.state turn (turn.agent_text ++ delta) t)
      ]
going-Tells (set_text text) turn h t = TellsOf-text turn.state turn text t
going-Tells stream turn h t = elim (Result-cases (transition turn.state streaming)) [
  | inl (next, e) ↦
      rw (call, mark_streaming, e, started turn.state next e) (untold turn.state turn h t)
  | inr (error, e) ↦ rw (call, mark_streaming, e) t
]
going-Tells (complete_with clock response input output) turn h t =
    rw (call, complete, legal_end turn.state completed h refl)
      (finish-Tells clock _ refl (untold turn.state turn h t).0)
going-Tells (cancel_at clock) turn h t =
    rw (call, cancel, legal_end turn.state cancelled h refl)
      (finish-Tells clock _ refl (refl, (untold turn.state turn h t).1))
going-Tells (interrupt_at clock) turn h t =
    rw (call, interrupt, legal_end turn.state interrupted h refl)
      (finish-Tells clock _ refl (refl, (untold turn.state turn h t).1))
going-Tells (fail_with clock code) turn h t =
    rw (call, fail, legal_end turn.state failed h refl)
      (finish-Tells clock _ refl ((code, refl), (untold turn.state turn h t).1))

call-Tells : (next : TurnCall) (turn : AgentTurn) → Tells turn → Tells (call next turn)
call-Tells next turn t = elim (Bool-cases (is_terminal turn.state)) [
  | inl over ↦
      subst Tells (sym (call-final next turn over))
        (TellsOf-text turn.state turn (call next turn).agent_text t)
  | inr goes_on ↦ going-Tells next turn goes_on t
]

call-bound :
    (next : TurnCall) (turn : AgentTurn)
    → IsWithin next
    → length turn.agent_text ≤ max_agent_output_utf8
    → length (call next turn).agent_text ≤ max_agent_output_utf8
unfolding call append_agent_text set_agent_text mark_streaming complete cancel fail interrupt
call-bound (append delta) turn w h = ground (arith, length-append turn.agent_text delta)
call-bound (set_text text) turn w h = w
call-bound stream turn w h = ground arith
call-bound (complete_with clock response input output) turn w h = ground arith
call-bound (cancel_at clock) turn w h = ground arith
call-bound (interrupt_at clock) turn w h = ground arith
call-bound (fail_with clock code) turn w h = ground arith

-- If each text that is set, rather than appended, has at most 1 MiB, which `set_agent_text` does not test:
-- after any calls of the methods on a turn that is so before, what the turn tells fits its state and its
-- text has at most 1 MiB. Error code, response, usage and finish time are empty while it goes on, a
-- completed turn has no error code, a cancelled or interrupted one its own, and a failed one some code,
-- all three without a response.
pub calls-IsTurn :
    (history : List TurnCall) (turn : AgentTurn)
    → AllWithin history
    → IsTurn turn
    → IsTurn (calls history turn)
unfolding calls
calls-IsTurn [] turn w i = i
calls-IsTurn (next ∷ rest) turn (w, ws) (t, bound) =
    calls-IsTurn rest (call next turn) ws (call-Tells next turn t, call-bound next turn w bound)
