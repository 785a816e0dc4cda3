-- ===== src/Base/Scalars.antt =====
-- Rust's `char`s of a UTF-8 text, each as its bytes, with `str::chars`, `trim`, `lines` and the tests on
-- a char that the crate uses.
use Prim.Native.Nat.{ℕ, ◌+◌, ◌-◌, ◌*◌, ◌%◌}
use mathlib.Core.Bool.{Bool, ◌&&◌, ◌||◌}
use mathlib.Core.List.{List, [], ◌∷◌, ◌++◌}
use tule.Base.Tests.{leb, ltb, if◌then◌else◌}
use tule.Base.Lists.{length, take}
use tule.Base.Equality.{◌==◌, nat_eq, Text}

-- A byte that does not start a char.
abbrev pub is_continuation : ℕ → Bool
is_continuation b = leb 0x80 b && ltb b 0xC0

unfoldable pub attach : ℕ → List Text → List Text
attach b [] = (b ∷ []) ∷ []
attach b ([] ∷ cs) = (b ∷ []) ∷ cs
attach b ((c ∷ rest) ∷ cs) =
    if is_continuation c then (b ∷ c ∷ rest) ∷ cs else (b ∷ []) ∷ (c ∷ rest) ∷ cs

-- `str::chars`.
unfoldable pub chars : Text → List Text
unfolding attach
chars [] = []
chars (b ∷ bs) = attach b (chars bs)

unfoldable pub join : List Text → Text
join [] = []
join (c ∷ cs) = c ++ join cs

-- `char as u32`.
unfoldable pub code_point : Text → ℕ
code_point (b ∷ []) = b
code_point (a ∷ b ∷ []) = a % 32 * 64 + b % 64
code_point (a ∷ b ∷ c ∷ []) = a % 16 * 4096 + b % 64 * 64 + c % 64
code_point (a ∷ b ∷ c ∷ d ∷ []) = a % 8 * 262144 + b % 64 * 4096 + c % 64 * 64 + d % 64
code_point _ = 0

abbrev pub in_range : ℕ → ℕ → ℕ → Bool
in_range low high c = leb low c && leb c high

-- `char::is_whitespace`: the White_Space property of Unicode.
unfoldable pub is_whitespace : Text → Bool
unfolding code_point
is_whitespace char =
    let c = code_point char in
    in_range 9 13 c
    || (c == 0x20)
    || (c == 0x85)
    || (c == 0xA0)
    || (c == 0x1680)
    || in_range 0x2000 0x200A c
    || in_range 0x2028 0x2029 c
    || (c == 0x202F)
    || (c == 0x205F)
    || (c == 0x3000)

-- `char::is_control`.
unfoldable pub is_control : Text → Bool
unfolding code_point
is_control char = let c = code_point char in leb c 0x1F || in_range 0x7F 0x9F c

unfoldable pub trim_start : List Text → List Text
trim_start [] = []
trim_start (c ∷ cs) = if is_whitespace c then trim_start cs else c ∷ cs

abbrev keep_or_drop : Text → List Text → List Text
keep_or_drop c [] = if is_whitespace c then [] else c ∷ []
keep_or_drop c (d ∷ ds) = c ∷ d ∷ ds

unfoldable pub trim_end : List Text → List Text
trim_end [] = []
trim_end (c ∷ cs) = keep_or_drop c (trim_end cs)

unfoldable pub trim_chars : List Text → List Text
unfolding trim_start trim_end
trim_chars cs = trim_end (trim_start cs)

-- `str::trim`.
unfoldable pub trim : Text → Text
unfolding chars trim_chars join
trim text = join (trim_chars (chars text))

-- A line without its `\n`, and without a `\r` before that.
strip_return : Text → Text
strip_return [] = []
strip_return (b ∷ []) = if b == 13 then [] else b ∷ []
strip_return (b ∷ c ∷ bs) = b ∷ strip_return (c ∷ bs)

unfoldable pub lines_from : Text → Text → List Text
unfolding strip_return
lines_from [] [] = []
lines_from (b ∷ line) [] = (b ∷ line) ∷ []
lines_from line (b ∷ bs) =
    let ended = strip_return line ∷ lines_from [] bs in
    let longer = lines_from (line ++ (b ∷ [])) bs in if b == 10 then ended else longer

-- `str::lines`.
unfoldable pub lines : Text → List Text
unfolding lines_from
lines text = lines_from [] text

-- `'…'`.
abbrev pub ellipsis : Text
ellipsis = 0xE2 ∷ 0x80 ∷ 0xA6 ∷ []

-- `truncate_scalars` of agent.rs and of artifact.rs.
unfoldable pub truncate_scalars : Text → ℕ → Text
unfolding chars join
truncate_scalars value max_scalars =
    if leb (length (chars value)) max_scalars
    then value
    else join (take (max_scalars - 1) (chars value)) ++ ellipsis
