-- ===== src/Base/Actions.antt =====
-- Calls on a shared store that can fail: the store after the call, and the result. A call that fails
-- keeps what it changed before it failed.
use mathlib.Core.Bool.{Bool}
use tule.Base.Results.{Result, ok, err}
use tule.Base.Tests.{if◌then◌else◌}

abbrev pub Action : Type 0 → Type 0 → Type 0 → Type 0
Action S E A = S → S × Result E A

infixl 5 ◌>>=◌ ◌>>◌
abbrev pub ◌>>=◌ : {S E A B : Type 0} → Action S E A → (A → Action S E B) → Action S E B
◌>>=◌ m f s = let (s', r) = m s in elim r [ ok a ↦ f a s' | err e ↦ (s', err e) ]

abbrev pub ◌>>◌ : {S E B : Type 0} → Action S E (Unit {0}) → Action S E B → Action S E B
m >> k = m >>= λ _. k

abbrev pub pure : {S E A : Type 0} → A → Action S E A
pure a s = (s, ok a)

-- `return Err(e)` if the test holds.
abbrev pub fail_if : {S E : Type 0} → Bool → E → Action S E (Unit {0})
fail_if b e s = if b then (s, err e) else (s, ok tt)

-- `?` on a result that is computed without the store.
abbrev pub lift : {S E A : Type 0} → Result E A → Action S E A
lift r s = (s, r)

-- `map_err(f)`.
abbrev pub on_error : {S E F A : Type 0} → (E → F) → Action S E A → Action S F A
on_error f m s = let (s', r) = m s in (s', elim r [ ok a ↦ ok a | err e ↦ err (f e) ])

abbrev pub modify : {S E : Type 0} → (S → S) → Action S E (Unit {0})
modify f s = (f s, ok tt)

abbrev pub read : {S E A : Type 0} → (S → A) → Action S E A
read f s = (s, ok (f s))
