-- ===== src/Base/Chars.antt =====
-- The chars of a text make it up, and what the bytes of a safe text are.
use Prim.Native.Nat.{ℕ, ◌≤◌, ◌<◌}
use mathlib.Core.Path.{◌≡◌, refl, ap, ◌∙◌}
use mathlib.Core.Logic.{◌≢◌}
use mathlib.Core.Bool.{Bool, true, false, ◌||◌}
use mathlib.Core.List.{List, [], ◌∷◌, ◌++◌}
use native.Mathlib.Omega.{arith}
use tule.Base.Lists.{any, All}
use tule.Base.Equality.{◌==◌, nat_eq, Text}
use tule.Base.Scalars.{chars, attach, join}

join-attach : (b : ℕ) (cs : List Text) → join (attach b cs) ≡ b ∷ join cs
unfolding join attach
join-attach b [] = refl
join-attach b ([] ∷ cs) = refl
join-attach b ((c ∷ rest) ∷ cs) = ground arith

-- The chars of a text, put together, are the text.
pub join-chars : (text : Text) → join (chars text) ≡ text
unfolding join chars
join-chars [] = refl
join-chars (b ∷ bs) = join-attach b (chars bs) ∙ ap (◌∷◌ b) (join-chars bs)

abbrev AllHigh : Text → Type 0
AllHigh [] = Unit {0}
AllHigh (b ∷ bs) = (128 ≤ b) × AllHigh bs

-- What UTF-8 says of a char: one byte below 128, or several from 128 on.
abbrev pub IsChar : Text → Type 0
IsChar [] = ⊥
IsChar (b ∷ []) = b < 128
IsChar (a ∷ b ∷ bs) = AllHigh (a ∷ b ∷ bs)

abbrev pub IsUtf8 : Text → Type 0
IsUtf8 text = All IsChar (chars text)

any-append {ℓ} :
    {A : Type ℓ} (p : A → Bool) (xs ys : List A) → any p (xs ++ ys) ≡ (any p xs || any p ys)
any-append p [] ys = refl
any-append p (x ∷ xs) ys = ground (arith, any-append p xs ys)

high-ne : (c : ℕ) (bs : Text) → c < 128 → AllHigh bs → any (λ b. b == c) bs ≡ false
high-ne c [] h a = refl
high-ne c (b ∷ bs) h a = ground (arith, high-ne c bs h)

char-ne :
    (c : ℕ) (char : Text) → c < 128 → IsChar char → char ≢ (c ∷ []) → any (λ b. b == c) char ≡ false
char-ne c [] h k n = refl
char-ne c (b ∷ []) h k n = ground arith
char-ne c (a ∷ b ∷ bs) h k n = high-ne c (a ∷ b ∷ bs) h k

bad_differs :
    (c : ℕ) (bad : Text → Bool) (char : Text)
    → bad (c ∷ []) ≡ true
    → bad char ≡ false
    → char ≢ (c ∷ [])
bad_differs c bad char h k same = cc (ap bad same)

-- An ASCII char that a test finds, and that is no char of a text, is no byte of it.
pub any-join :
    (c : ℕ) (bad : Text → Bool) (cs : List Text)
    → c < 128
    → bad (c ∷ []) ≡ true
    → All IsChar cs
    → any bad cs ≡ false
    → any (λ b. b == c) (join cs) ≡ false
unfolding join
any-join c bad [] h k all free = refl
any-join c bad (char ∷ cs) h k (is, all) free =
    any-append (λ b. b == c) char (join cs)
    ∙ ground (
      arith,
      char-ne c char h is (bad_differs c bad char k (ground arith)),
      any-join c bad cs h k all (ground arith),
    )
