-- ===== src/Proposal/Counting.antt =====
-- The loop of `count_occurrences` (crates/tule-core/src/run.rs).
use native.Mathlib.Nat.{zero-add, suc-add}
use native.Mathlib.Numerals.{add-one}
use tule.Base.{
  ℕ, zero, suc, ◌+◌, ◌<◌, ◌≡◌, ◌≢◌, refl, ap, ◌∙◌, inl, inr, Option-cases, none, some, [], ◌∷◌,
  ◌++◌, Text, length, drop, take, length-append, find_text, find_text-append, arith,
}
use tule.Proposal.{count_from, count_occurrences}

-- A round leaves a shorter text.
found_shorter :
    (needle text : Text) (i : ℕ)
    → needle ≢ []
    → find_text needle text ≡ some i
    → length (drop (i + length needle) text) < length text
found_shorter [] text i n h = absurd (n refl)
found_shorter (p ∷ needle) text i n h =
    let rest = drop (i + suc (length needle)) text in
    omega (
      arith,
      ap length (find_text-append (p ∷ needle) text i h),
      length-append (take i text) (p ∷ (needle ++ rest)),
      length-append needle rest,
    )

-- The rounds are enough: with more rounds than the text has bytes, a further round changes nothing.
pub count_from_enough :
    (fuel : ℕ) (rest needle : Text)
    → needle ≢ []
    → length rest < fuel
    → count_from (suc fuel) rest needle ≡ count_from fuel rest needle
unfolding count_from
count_from_enough zero rest needle n h = elim h [ ]
count_from_enough (suc fuel) rest needle n h = elim (Option-cases (find_text needle rest)) [
  | inl e ↦ rw (e, count_from) refl
  | inr (i, e) ↦
      rw (e, count_from)
        (ap (λ (k : ℕ). k + 1)
          (count_from_enough fuel (drop (i + length needle) rest) needle n
            (omega (arith, found_shorter needle rest i n e))))
]

-- With any number of rounds above the length of the text, the loop gives the count of
-- `count_occurrences`, for a needle that is not empty: the rounds that are given are enough.
pub count_occurrences_rounds :
    (extra : ℕ) (haystack needle : Text)
    → needle ≢ []
    → count_from (extra + (length haystack + 1)) haystack needle ≡ count_occurrences haystack needle
unfolding count_occurrences
count_occurrences_rounds zero haystack needle n = rw zero-add (ground arith)
count_occurrences_rounds (suc extra) haystack needle n = rw suc-add (
    count_from_enough (extra + (length haystack + 1)) haystack needle n (omega arith)
    ∙ count_occurrences_rounds extra haystack needle n)

none_of_count_zero :
    (fuel : ℕ) (rest needle : Text)
    → 0 < fuel
    → count_from fuel rest needle ≡ 0
    → find_text needle rest ≡ none
unfolding count_from
none_of_count_zero zero rest needle p h = elim p [ ]
none_of_count_zero (suc fuel) rest needle p h = ground arith

count_from_one :
    (fuel : ℕ) (rest needle : Text)
    → needle ≢ []
    → length rest < suc fuel
    → count_from (suc fuel) rest needle ≡ 1
    → (i : ℕ) × (find_text needle rest ≡ some i)
      × (find_text needle (drop (i + length needle) rest) ≡ none)
unfolding count_from
count_from_one fuel rest needle n l h = elim (Option-cases (find_text needle rest)) [
  | inl e ↦ absurd (ground arith)
  | inr (i, e) ↦ (
    i,
    e,
    none_of_count_zero fuel (drop (i + length needle) rest) needle
        (omega (arith, found_shorter needle rest i n e)) (ground arith),
  )
]

-- A text that occurs once is found, and not found again behind its occurrence.
pub count_one :
    (haystack needle : Text)
    → needle ≢ []
    → count_occurrences haystack needle ≡ 1
    → (i : ℕ) × (find_text needle haystack ≡ some i)
      × (find_text needle (drop (i + length needle) haystack) ≡ none)
unfolding count_occurrences
count_one haystack needle n h =
    count_from_one (length haystack) haystack needle n (omega arith) (rw add-one at counted)
  where
    counted : count_from (length haystack + 1) haystack needle ≡ 1
    counted = ground arith
