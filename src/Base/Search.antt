-- ===== src/Base/Search.antt =====
-- Rust's `str::starts_with`, `find`, `contains`, `replacen(_, _, 1)` and `to_ascii_lowercase` on the
-- bytes of a text.
use Prim.Native.Nat.{ℕ, zero, suc, ◌+◌}
use mathlib.Core.Path.{◌≡◌, refl, sym, ap, ap₂}
use mathlib.Core.Bool.{Bool, true, false, ◌&&◌}
use mathlib.Core.List.{[], ◌∷◌, ◌++◌}
use mathlib.Core.Option
use mathlib.Core.Option.{Option, none, some}
use native.Mathlib.Nat.{zero-add, suc-add}
use native.Mathlib.Omega.{arith}
use tule.Base.Tests.{leb, if◌then◌else◌}
use tule.Base.Lists.{length, take, drop}
use tule.Base.Equality.{◌==◌, nat_eq, Text}

unfoldable pub starts_with : Text → Text → Bool
starts_with [] text = true
starts_with (p ∷ prefix) [] = false
starts_with (p ∷ prefix) (c ∷ text) = (p == c) && starts_with prefix text

-- The index of the first occurrence.
unfoldable pub find_text : Text → Text → Option ℕ
unfolding starts_with
find_text needle [] = if starts_with needle [] then some 0 else none
find_text needle (c ∷ text) =
    if starts_with needle (c ∷ text) then some 0 else Option.map suc (find_text needle text)

abbrev pub contains : Text → Text → Bool
contains text needle = elim (find_text needle text) [ none ↦ false | some _ ↦ true ]

unfoldable pub replace_once : Text → Text → Text → Text
unfolding find_text
replace_once text needle new = elim (find_text needle text) [
  | none ↦ text
  | some i ↦ take i text ++ (new ++ drop (i + length needle) text)
]

abbrev lower : ℕ → ℕ
lower c = if leb b'A' c && leb c b'Z' then c + 32 else c

unfoldable pub to_ascii_lowercase : Text → Text
to_ascii_lowercase [] = []
to_ascii_lowercase (c ∷ cs) = lower c ∷ to_ascii_lowercase cs

starts_with-append :
    (needle text : Text)
    → starts_with needle text ≡ true
    → text ≡ needle ++ drop (length needle) text
unfolding starts_with
starts_with-append [] text h = refl
starts_with-append (p ∷ needle) [] h = cc
starts_with-append (p ∷ needle) (c ∷ text) h =
    let rest : starts_with needle text ≡ true = ground arith in
    let same : p ≡ c = ground arith in ap₂ ◌∷◌ (sym same) (starts_with-append needle text rest)

-- What is found at an index is the needle.
pub find_text-append :
    (needle text : Text) (i : ℕ)
    → find_text needle text ≡ some i
    → text ≡ take i text ++ (needle ++ drop (i + length needle) text)
unfolding find_text
find_text-append [] [] zero h = refl
find_text-append [] [] (suc i) h = cc
find_text-append (p ∷ needle) [] i h = cc
find_text-append needle (c ∷ text) zero h =
    let found : starts_with needle (c ∷ text) ≡ true = ground arith in
    rw zero-add (starts_with-append needle (c ∷ text) found)
find_text-append needle (c ∷ text) (suc i) h =
    let found : find_text needle text ≡ some i = ground arith in
    rw suc-add (ap (◌∷◌ c) (find_text-append needle text i found))
