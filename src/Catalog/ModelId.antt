-- ===== src/Catalog/ModelId.antt =====
-- Model identifiers: crates/tule-core/src/provider_catalog.rs, `validate_model_id`.
use tule.Base.{
  ℕ, Bool, true, not, ◌&&◌, ◌||◌, List, [], ◌∷◌, Result, ok, err, Text, ltb, length, ◌==◌, nat_eq,
  if◌then◌else◌,
}
use tule.Base.Scalars.{chars, code_point, in_range, trim}

abbrev pub model_id_max_utf8 : ℕ
model_id_max_utf8 = 128

pub data InvalidModelId : Type 0 where
  empty : InvalidModelId
  too_large : ℕ → InvalidModelId
  malformed : InvalidModelId

-- An ASCII letter or digit, or one of `.-_/:`.
abbrev pub is_model_code : ℕ → Bool
is_model_code c =
    in_range b'0' b'9' c
    || in_range b'A' b'Z' c
    || in_range b'a' b'z' c
    || (c == b'.')
    || (c == b'-')
    || (c == b'_')
    || (c == b'/')
    || (c == b':')

abbrev pub all_model_chars : List Text → Bool
all_model_chars [] = true
all_model_chars (ch ∷ chs) = is_model_code (code_point ch) && all_model_chars chs

-- The tests on the trimmed identifier.
unfoldable pub check_trimmed : Text → Result InvalidModelId Text
unfolding chars code_point
check_trimmed trimmed =
    if length trimmed == 0
    then err empty
    else if ltb model_id_max_utf8 (length trimmed)
    then err (too_large (length trimmed))
    else if not (all_model_chars (chars trimmed))
    then err malformed
    else ok trimmed

unfoldable pub validate_model_id : Text → Result InvalidModelId Text
unfolding trim check_trimmed
validate_model_id model_id = check_trimmed (trim model_id)
