-- ===== src/Base/Int.antt =====
-- Rust's i64: integers over the native numbers, and the wrap-around of a release build's `+`.
use Prim.Native.Nat.{ℕ, suc, ◌+◌, ◌-◌, ◌≤◌, ◌<◌, ◌^◌}
use mathlib.Core.Path.{◌≡◌}
use mathlib.Core.Bool.{Bool}
use native.Mathlib.Omega.{arith}
use tule.Base.Tests.{leb, if◌then◌else◌}

-- `negsuc n` is -(n + 1).
pub data ℤ : Type 0 where
  pos : ℕ → ℤ
  negsuc : ℕ → ℤ

abbrev pub pos_part : ℤ → ℕ
pos_part (pos n) = n
pos_part (negsuc n) = 0

abbrev pub neg_part : ℤ → ℕ
neg_part (pos n) = 0
neg_part (negsuc n) = suc n

-- a - b, as an integer.
abbrev pub sub_ℕ : ℕ → ℕ → ℤ
sub_ℕ a b = if leb b a then pos (a - b) else negsuc (b - a - 1)

infix 50 ◌≤ℤ◌ ◌<ℤ◌
abbrev pub ◌≤ℤ◌ : ℤ → ℤ → Type 0
a ≤ℤ b = pos_part a + neg_part b ≤ pos_part b + neg_part a

abbrev pub ◌<ℤ◌ : ℤ → ℤ → Type 0
a <ℤ b = pos_part a + neg_part b < pos_part b + neg_part a

abbrev pub leb_ℤ : ℤ → ℤ → Bool
leb_ℤ a b = leb (pos_part a + neg_part b) (pos_part b + neg_part a)

infixl 65 ◌+ℤ◌
abbrev pub ◌+ℤ◌ : ℤ → ℤ → ℤ
a +ℤ b = sub_ℕ (pos_part a + pos_part b) (neg_part a + neg_part b)

abbrev pub IsI64 : ℤ → Type 0
IsI64 a = (pos_part a < 2 ^ 63) × (neg_part a ≤ 2 ^ 63)

-- The one number of i64 that differs from a sum of two by a multiple of 2 ^ 64.
abbrev pub wrap_i64 : ℤ → ℤ
wrap_i64 a =
    if leb (2 ^ 63) (pos_part a)
    then sub_ℕ (pos_part a) (2 ^ 64)
    else if leb (neg_part a) (2 ^ 63)
    then a
    else pos (2 ^ 64 - neg_part a)

unfoldable pub add_i64 : ℤ → ℤ → ℤ
add_i64 a b = wrap_i64 (a +ℤ b)

-- The sum stays in i64.
pub add_i64-IsI64 : (a b : ℤ) → IsI64 a → IsI64 b → IsI64 (add_i64 a b)
unfolding add_i64
add_i64-IsI64 a b p q = ground arith

-- Below the limit it is the sum of the integers.
pub add_i64_exact :
    (a : ℤ) (n : ℕ) → IsI64 a → pos_part a + n < 2 ^ 63 → add_i64 a (pos n) ≡ a +ℤ pos n
unfolding add_i64
add_i64_exact a n p h = ground arith

-- So a positive offset gives a later time.
pub lt-add_i64 :
    (a : ℤ) (n : ℕ) → IsI64 a → pos_part a + n < 2 ^ 63 → 0 < n → a <ℤ add_i64 a (pos n)
unfolding add_i64
lt-add_i64 a n p h k = ground arith
