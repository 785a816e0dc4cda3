-- ===== src/Base/Slices.antt =====
-- Rust's operations on a `str` that cut it: `strip_prefix`, `split_once`, `get`, `split`, and
-- `str::parse::<usize>`, on the bytes of a text.
use Prim.Native.Nat.{ℕ, ◌+◌, ◌-◌, ◌*◌, ◌^◌}
use mathlib.Core.Bool.{Bool, true, not, ◌&&◌}
use mathlib.Core.List.{List, [], ◌∷◌}
use mathlib.Core.Option
use mathlib.Core.Option.{Option, none, some}
use tule.Base.Tests.{leb, ltb, if◌then◌else◌}
use tule.Base.Lists.{length, take, drop}
use tule.Base.Equality.{◌==◌, nat_eq, Text}
use tule.Base.Search.{starts_with}
use tule.Base.Scalars.{is_continuation}

unfoldable pub strip_prefix : Text → Text → Option Text
unfolding starts_with
strip_prefix prefix text =
    if starts_with prefix text then some (drop (length prefix) text) else none

-- `split_once` at an ASCII char: the text before its first occurrence, and the text after it.
unfoldable pub split_once : ℕ → Text → Option (Text × Text)
split_once c [] = none
split_once c (b ∷ bs) =
    if b == c
    then some ([], bs)
    else Option.map (λ (parts : Text × Text). (b ∷ parts.0, parts.1)) (split_once c bs)

-- The start of a char, or the end of the text.
abbrev pub at_boundary : Text → Bool
at_boundary [] = true
at_boundary (b ∷ bs) = not (is_continuation b)

-- `get(offset..)`.
unfoldable pub get_from : Text → ℕ → Option Text
get_from text offset =
    if leb offset (length text) && at_boundary (drop offset text)
    then some (drop offset text)
    else none

-- `get(start..end)`.
unfoldable pub get_range : Text → ℕ → ℕ → Option Text
get_range text start end =
    if leb start end
      && leb end (length text)
      && at_boundary (drop start text)
      && at_boundary (drop end text)
    then some (take (end - start) (drop start text))
    else none

-- The text before the first char that the test finds, as `split(test).next()` gives it.
unfoldable pub before : (ℕ → Bool) → Text → Text
before test [] = []
before test (b ∷ bs) = if test b then [] else b ∷ before test bs

-- `split(c)` at an ASCII char.
unfoldable pub split : ℕ → Text → List Text
split c [] = [] ∷ []
split c (b ∷ bs) = elim (split c bs) [
  | [] ↦ (b ∷ []) ∷ []
  | part ∷ parts ↦ if b == c then [] ∷ part ∷ parts else (b ∷ part) ∷ parts
]

-- The digits, as long as the number is below 2 ^ 64.
unfoldable pub parse_digits : ℕ → Text → Option ℕ
parse_digits n [] = some n
parse_digits n (b ∷ bs) =
    if leb b'0' b && leb b b'9' && ltb (n * 10 + (b - b'0')) (2 ^ 64)
    then parse_digits (n * 10 + (b - b'0')) bs
    else none

-- One digit at least.
unfoldable pub parse_some : Text → Option ℕ
parse_some [] = none
parse_some (b ∷ bs) = parse_digits 0 (b ∷ bs)

-- A plus sign may stand in front.
unfoldable pub parse_usize : Text → Option ℕ
unfolding parse_digits parse_some
parse_usize [] = none
parse_usize (b ∷ bs) = if b == b'+' then parse_some bs else parse_some (b ∷ bs)
