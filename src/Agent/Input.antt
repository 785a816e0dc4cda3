-- ===== src/Agent/Input.antt =====
-- The text of a user and the title of a session: crates/tule-core/src/agent.rs, `validate_user_text`,
-- `derive_session_title` and `should_checkpoint`.
use tule.Base.{
  ℕ, Bool, true, not, ◌&&◌, ◌||◌, none, some, List, [], ◌∷◌, map, Result, ok, err, Text, bytes, ltb,
  leb, length, find, if◌then◌else◌, ◌==◌, nat_eq,
}
use tule.Base.Scalars.{chars, is_whitespace, lines, trim, truncate_scalars}
use tule.Agent.Errors.{AgentInputError, empty, too_large}

abbrev pub max_user_text_utf8 : ℕ
max_user_text_utf8 = 32768

abbrev pub title_max_scalars : ℕ
title_max_scalars = 48

abbrev pub checkpoint_interval_ms : ℕ
checkpoint_interval_ms = 500

abbrev pub checkpoint_byte_threshold : ℕ
checkpoint_byte_threshold = 2048

-- `iter().all(p)`.
abbrev all_are {ℓ} : {A : Type ℓ} → (A → Bool) → List A → Bool
all_are p [] = true
all_are p (x ∷ xs) = p x && all_are p xs

unfoldable pub validate_user_text : Text → Result AgentInputError (Unit {0})
unfolding chars is_whitespace
validate_user_text user_text =
    if all_are is_whitespace (chars user_text)
    then err empty
    else if ltb max_user_text_utf8 (length user_text)
    then err (too_large (length user_text))
    else ok tt

-- The first line that is not empty after trimming, or the name for a text that has none.
unfoldable pub first_line_or : Text → Text → Text
unfolding lines trim
first_line_or otherwise text =
    elim (find (λ candidate. not (length candidate == 0)) (map trim (lines text))) [
      | none ↦ otherwise
      | some line ↦ line
    ]

unfoldable pub derive_session_title : Text → Text
unfolding first_line_or truncate_scalars
derive_session_title user_text =
    truncate_scalars (first_line_or (bytes "New session") user_text) title_max_scalars

unfoldable pub should_checkpoint : ℕ → ℕ → Bool
should_checkpoint elapsed_ms new_utf8_bytes =
    leb checkpoint_interval_ms elapsed_ms || leb checkpoint_byte_threshold new_utf8_bytes
