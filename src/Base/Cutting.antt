-- ===== src/Base/Cutting.antt =====
-- What the operations that cut a text find in a text that was put together.
use Prim.Native.Nat.{ℕ, zero, suc, ◌+◌, ◌*◌, ◌/◌, ◌%◌, ◌^◌, ◌<◌}
use mathlib.Core.Path.{◌≡◌, refl, sym, ap, ◌∙◌}
use mathlib.Core.Logic.{◌≢◌}
use mathlib.Core.Bool.{Bool, true, false}
use mathlib.Core.List.{List, [], ◌∷◌, ◌++◌, append_assoc, cons-ne-nil}
use mathlib.Core.Option.{some}
use native.Mathlib.Omega.{arith}
use tule.Base.Lists.{length, take, drop, any, length-append}
use tule.Base.Equality.{◌==◌, nat_eq, Text}
use tule.Base.Bytes.{decimal, decimal_digits}
use tule.Base.Search.{starts_with}
use tule.Base.Slices.{
  strip_prefix, split_once, at_boundary, get_from, get_range, parse_digits, parse_some, parse_usize,
}

pub drop-append {ℓ} : {A : Type ℓ} (xs ys : List A) → drop (length xs) (xs ++ ys) ≡ ys
drop-append [] ys = refl
drop-append (x ∷ xs) ys = drop-append xs ys

pub take-append {ℓ} : {A : Type ℓ} (xs ys : List A) → take (length xs) (xs ++ ys) ≡ xs
take-append [] ys = refl
take-append (x ∷ xs) ys = ap (◌∷◌ x) (take-append xs ys)

starts_with-append : (prefix text : Text) → starts_with prefix (prefix ++ text) ≡ true
unfolding starts_with
starts_with-append [] text = refl
starts_with-append (b ∷ prefix) text = ground (arith, starts_with-append prefix text)

pub strip_prefix-append : (prefix text : Text) → strip_prefix prefix (prefix ++ text) ≡ some text
unfolding strip_prefix
strip_prefix-append prefix text = rw (starts_with-append prefix text, drop-append prefix text) refl

pub split_once-append :
    (c : ℕ) (front rest : Text)
    → any (λ b. b == c) front ≡ false
    → split_once c (front ++ c ∷ rest) ≡ some (front, rest)
unfolding split_once
split_once-append c [] rest h = ground arith
split_once-append c (b ∷ front) rest h = ground (arith, split_once-append c front rest)

pub get_from-append :
    (front text : Text)
    → at_boundary text ≡ true
    → get_from (front ++ text) (length front) ≡ some text
unfolding get_from
get_from-append front text h =
    rw (drop-append front text) (ground (arith, length-append front text))

drop_more :
    (front text rest : Text) → drop (length front + length text) (front ++ (text ++ rest)) ≡ rest
drop_more front text rest =
    ap (λ k. drop k (front ++ (text ++ rest))) (sym (length-append front text))
    ∙ (ap (drop (length (front ++ text))) (sym (append_assoc front text rest))
        ∙ drop-append (front ++ text) rest)

pub get_range-append :
    (front text rest : Text)
    → at_boundary (text ++ rest) ≡ true
    → at_boundary rest ≡ true
    → get_range (front ++ (text ++ rest)) (length front) (length front + length text) ≡ some text
unfolding get_range
get_range-append front text rest h k = rw (drop-append front (text ++ rest)) (
    ground (
      arith,
      length-append front (text ++ rest),
      length-append text rest,
      take-append text rest,
      drop_more front text rest,
    ))

-- One digit is read.
digit_read :
    (n k : ℕ) (rest : Text)
    → k < 10
    → n * 10 + k < 2 ^ 64
    → parse_digits n ((b'0' + k) ∷ rest) ≡ parse_digits (n * 10 + k) rest
unfolding parse_digits
digit_read n k rest h m = ground arith

-- The number that a digit is printed for is read back.
pub parse_digits-decimal :
    (fuel n : ℕ) (rest : Text)
    → n < fuel
    → n < 2 ^ 64
    → parse_digits 0 (decimal_digits fuel n rest) ≡ parse_digits n rest
unfolding decimal_digits
parse_digits-decimal zero n rest h k = absurd (omega arith)
parse_digits-decimal (suc fuel) n rest h k = ground (
  arith,
  digit_read 0 (n % 10) rest,
  digit_read (n / 10) (n % 10) rest,
  parse_digits-decimal fuel (n / 10) ((b'0' + n % 10) ∷ rest),
)

-- What every byte of a printed number passes, if every digit does.
all_digits :
    (p : ℕ → Bool) (fuel n : ℕ) (rest : Text)
    → ((k : ℕ) → k < 10 → p (b'0' + k) ≡ false)
    → any p (decimal_digits fuel n rest) ≡ any p rest
unfolding decimal_digits
all_digits p zero n rest h = refl
all_digits p (suc fuel) n rest h =
    ground (arith, h (n % 10), all_digits p fuel (n / 10) ((b'0' + n % 10) ∷ rest) h)

pub decimal-no_byte : (c n : ℕ) → c < b'0' → any (λ b. b == c) (decimal n) ≡ false
unfolding decimal
decimal-no_byte c n h = all_digits (λ b. b == c) (n + 1) n [] λ k m. ground arith

digits-ne-nil : (fuel n b : ℕ) (rest : Text) → decimal_digits fuel n (b ∷ rest) ≢ []
unfolding decimal_digits
digits-ne-nil zero n b rest = cons-ne-nil b rest
digits-ne-nil (suc fuel) n b rest = grind (
  arith,
  digits-ne-nil fuel (n / 10) (b'0' + n % 10) (b ∷ rest),
  cons-ne-nil (b'0' + n % 10) (b ∷ rest),
)

decimal-ne-nil : (n : ℕ) → decimal n ≢ []
unfolding decimal decimal_digits
decimal-ne-nil n =
    grind (arith, digits-ne-nil n (n / 10) (b'0' + n % 10) [], cons-ne-nil (b'0' + n % 10) [])

parse_usize_digits :
    (text : Text)
    → text ≢ []
    → any (λ b. b == b'+') text ≡ false
    → parse_usize text ≡ parse_digits 0 text
unfolding parse_usize parse_some
parse_usize_digits [] ne h = absurd (ne refl)
parse_usize_digits (b ∷ bs) ne h = ground arith

-- A printed number below 2 ^ 64 is read back.
pub parse_usize-decimal : (n : ℕ) → n < 2 ^ 64 → parse_usize (decimal n) ≡ some n
unfolding decimal parse_digits
parse_usize-decimal n h =
    parse_usize_digits (decimal n) (decimal-ne-nil n) (decimal-no_byte b'+' n (omega arith))
    ∙ parse_digits-decimal (n + 1) n [] (omega arith) h
