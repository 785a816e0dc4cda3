-- ===== src/Base/Sort.antt =====
-- `sort_by`, a stable sort, as an insertion sort, and the order of texts.
use Prim.Native.Nat.{ℕ, suc, ◌+◌}
use mathlib.Core.Path.{◌≡◌, refl, ap, ◌∙◌}
use mathlib.Core.Logic.{inl, inr}
use mathlib.Core.Bool.{Bool, true, false, ◌&&◌, ◌||◌}
use mathlib.Core.List.{List, [], ◌∷◌}
use native.Mathlib.Omega.{arith}
use tule.Base.Tests.{ltb, Bool-cases, if◌then◌else◌}
use tule.Base.Lists.{length, any, All}
use tule.Base.Equality.{◌==◌, nat_eq, Text}

-- `str::cmp` is not greater.
unfoldable pub leb_text : Text → Text → Bool
leb_text [] t = true
leb_text (a ∷ s) [] = false
leb_text (a ∷ s) (b ∷ t) = ltb a b || (a == b) && leb_text s t

module _ {ℓ} {A : Type ℓ} where
  unfoldable pub insert_sorted : (A → A → Bool) → A → List A → List A
  insert_sorted le a [] = a ∷ []
  insert_sorted le a (b ∷ bs) = if le a b then a ∷ b ∷ bs else b ∷ insert_sorted le a bs

  -- Entries that are equal in the order keep their order.
  unfoldable pub sort_by : (A → A → Bool) → List A → List A
  unfolding insert_sorted
  sort_by le [] = []
  sort_by le (a ∷ rest) = insert_sorted le a (sort_by le rest)

  length-insert_sorted :
      (le : A → A → Bool) (a : A) (bs : List A) → length (insert_sorted le a bs) ≡ suc (length bs)
  unfolding insert_sorted
  length-insert_sorted le a [] = refl
  length-insert_sorted le a (b ∷ bs) = ground (arith, length-insert_sorted le a bs)

  pub length-sort_by :
      (le : A → A → Bool) (items : List A) → length (sort_by le items) ≡ length items
  unfolding sort_by
  length-sort_by le [] = refl
  length-sort_by le (a ∷ rest) =
      length-insert_sorted le a (sort_by le rest) ∙ ap suc (length-sort_by le rest)

  insert_sorted-All {κ} :
      (P : A → Type κ) (le : A → A → Bool) (a : A) (bs : List A)
      → P a
      → All P bs
      → All P (insert_sorted le a bs)
  unfolding insert_sorted
  insert_sorted-All P le a [] p all = (p, tt)
  insert_sorted-All P le a (b ∷ bs) p (q, all) = elim (Bool-cases (le a b)) [
    | inl smaller ↦ rw smaller (p, (q, all))
    | inr larger ↦ rw larger (q, insert_sorted-All P le a bs p all)
  ]

  pub sort_by-All {κ} :
      (P : A → Type κ) (le : A → A → Bool) (items : List A) → All P items → All P (sort_by le items)
  unfolding sort_by
  sort_by-All P le [] all = tt
  sort_by-All P le (a ∷ rest) (p, all) =
      insert_sorted-All P le a (sort_by le rest) p (sort_by-All P le rest all)

  any-insert_sorted :
      (p : A → Bool) (le : A → A → Bool) (a : A) (bs : List A)
      → any p (insert_sorted le a bs) ≡ (p a || any p bs)
  unfolding insert_sorted
  any-insert_sorted p le a [] = refl
  any-insert_sorted p le a (b ∷ bs) = ground (arith, any-insert_sorted p le a bs)

  pub any-sort_by :
      (p : A → Bool) (le : A → A → Bool) (items : List A) → any p (sort_by le items) ≡ any p items
  unfolding sort_by
  any-sort_by p le [] = refl
  any-sort_by p le (a ∷ rest) =
      any-insert_sorted p le a (sort_by le rest) ∙ ap (λ b. p a || b) (any-sort_by p le rest)

  -- Each entry is not greater than the next.
  abbrev pub IsSorted : (A → A → Bool) → List A → Type 0
  IsSorted le [] = Unit {0}
  IsSorted le (a ∷ []) = Unit {0}
  IsSorted le (a ∷ b ∷ bs) = (le a b ≡ true) × IsSorted le (b ∷ bs)

  insert_sorted-IsSorted :
      (le : A → A → Bool) (total : (a b : A) → le a b ≡ false → le b a ≡ true) (a : A) (bs : List A)
      → IsSorted le bs
      → IsSorted le (insert_sorted le a bs)
  unfolding insert_sorted
  insert_sorted-IsSorted le total a [] s = tt
  insert_sorted-IsSorted le total a (b ∷ []) s = elim (Bool-cases (le a b)) [
    | inl smaller ↦ rw smaller (smaller, tt)
    | inr larger ↦ rw larger (total a b larger, tt)
  ]
  insert_sorted-IsSorted le total a (b ∷ c ∷ bs) (first, s) = elim (Bool-cases (le a b)) [
    | inl smaller ↦ rw smaller (smaller, (first, s))
    | inr larger ↦
        let rest = insert_sorted-IsSorted le total a (c ∷ bs) s in
        rw larger (elim (Bool-cases (le a c)) [
          | inl before ↦ rw before (total a b larger, (before, s))
          | inr after ↦ rw after (first, simp after at rest)
        ])
  ]

  pub sort_by-IsSorted :
      (le : A → A → Bool)
      → ((a b : A) → le a b ≡ false → le b a ≡ true)
      → (items : List A) → IsSorted le (sort_by le items)
  unfolding sort_by
  sort_by-IsSorted le total [] = tt
  sort_by-IsSorted le total (a ∷ rest) =
      insert_sorted-IsSorted le total a (sort_by le rest) (sort_by-IsSorted le total rest)

  -- How many entries pass a test.
  unfoldable pub count_if : (A → Bool) → List A → ℕ
  count_if p [] = 0
  count_if p (a ∷ rest) = (if p a then 1 else 0) + count_if p rest

  count_if-insert_sorted :
      (p : A → Bool) (le : A → A → Bool) (a : A) (bs : List A)
      → count_if p (insert_sorted le a bs) ≡ (if p a then 1 else 0) + count_if p bs
  unfolding insert_sorted count_if
  count_if-insert_sorted p le a [] = refl
  count_if-insert_sorted p le a (b ∷ bs) = ground (arith, count_if-insert_sorted p le a bs)

  pub count_if-sort_by :
      (p : A → Bool) (le : A → A → Bool) (items : List A)
      → count_if p (sort_by le items) ≡ count_if p items
  unfolding sort_by count_if
  count_if-sort_by p le [] = refl
  count_if-sort_by p le (a ∷ rest) =
      ground (arith, count_if-insert_sorted p le a (sort_by le rest), count_if-sort_by p le rest)

-- The order of texts is total.
pub leb_text-total : (s t : Text) → leb_text s t ≡ false → leb_text t s ≡ true
unfolding leb_text
leb_text-total [] t h = ground arith
leb_text-total (a ∷ s) [] h = refl
leb_text-total (a ∷ s) (b ∷ t) h = ground (arith, leb_text-total s t)
