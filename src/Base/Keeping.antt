-- ===== src/Base/Keeping.antt =====
-- What an action on a store keeps: an invariant of the store, whatever its result is, and a property of
-- the value where it has one. One rule for each way to build an action.
use mathlib.Core.Bool.{Bool, true, false}
use mathlib.Core.Option.{Option, none, some}
use tule.Base.Results.{Result, ok, err, ok_or}
use tule.Base.Actions.{Action, ◌>>=◌, ◌>>◌, pure, fail_if, lift, on_error, modify, read}

unfoldable pub OkIs : {E A : Type 0} → (A → Type 0) → Result E A → Type 0
OkIs Q (ok a) = Q a
OkIs Q (err e) = Unit {0}

pub record Keeps {S E A : Type 0} (Inv : S → Type 0) (Q : A → Type 0) (m : Action S E A)
    : Type 0 where
  pub keeps : (s : S) → Inv s → Inv (m s).0 × OkIs Q (m s).1

abbrev pub Any : {A : Type 0} → A → Type 0
Any a = Unit {0}

abbrev pub SomeIs : {A : Type 0} → (A → Type 0) → Option A → Type 0
SomeIs Q none = Unit {0}
SomeIs Q (some a) = Q a

pub ok_or-OkIs :
    {E A : Type 0} (Q : A → Type 0) (o : Option A) (e : E) → SomeIs Q o → OkIs Q (ok_or o e)
unfolding OkIs
ok_or-OkIs Q none e h = tt
ok_or-OkIs Q (some a) e h = h

pub result-Any : {E A : Type 0} (r : Result E A) → OkIs Any r
unfolding OkIs
result-Any (ok a) = tt
result-Any (err e) = tt

module _ {S E : Type 0} {Inv : S → Type 0} where
  after_bind :
      {A B : Type 0} (P : A → Type 0) (Q : B → Type 0) (after : S × Result E A)
      (f : A → Action S E B)
      → Inv after.0
      → OkIs P after.1
      → ((a : A) → P a → Keeps Inv Q (f a))
      → let last : S × Result E B = elim after.1 [
        | ok a ↦ f a after.0
        | err e ↦ (after.0, err e)
      ] in
        Inv last.0 × OkIs Q last.1
  unfolding OkIs
  after_bind P Q (s, ok a) f i p h = (h a p).keeps s i
  after_bind P Q (s, err e) f i p h = (i, tt)

  pub Keeps-bind :
      {A B : Type 0} {P : A → Type 0} {Q : B → Type 0} {m : Action S E A} {f : A → Action S E B}
      → Keeps Inv P m
      → ((a : A) → P a → Keeps Inv Q (f a))
      → Keeps Inv Q (m >>= f)
  Keeps-bind {P = P} {Q = Q} {m = m} {f = f} hm hf = record {
    keeps = λ s i. after_bind P Q (m s) f (hm.keeps s i).0 (hm.keeps s i).1 hf;
  }

  pub Keeps-then :
      {B : Type 0} {Q : B → Type 0} {m : Action S E (Unit {0})} {k : Action S E B}
      → Keeps Inv Any m
      → Keeps Inv Q k
      → Keeps Inv Q (m >> k)
  Keeps-then {Q = Q} {m = m} {k = k} hm hk = record {
    keeps = λ s i. after_bind Any Q (m s) (λ _. k) (hm.keeps s i).0 (hm.keeps s i).1 (λ _ _. hk);
  }

  pub Keeps-pure : {A : Type 0} {P : A → Type 0} (a : A) → P a → Keeps {E = E} Inv P (pure a)
  unfolding OkIs
  Keeps-pure a p = record { keeps = λ s i. (i, p) }

  pub Keeps-fail_if : (b : Bool) (e : E) → Keeps Inv Any (fail_if b e)
  unfolding OkIs
  Keeps-fail_if true e = record { keeps = λ s i. (i, tt) }
  Keeps-fail_if false e = record { keeps = λ s i. (i, tt) }

  pub Keeps-lift : {A : Type 0} {P : A → Type 0} (r : Result E A) → OkIs P r → Keeps Inv P (lift r)
  Keeps-lift r p = record { keeps = λ s i. (i, p) }

  pub Keeps-modify : (f : S → S) → ((s : S) → Inv s → Inv (f s)) → Keeps {E = E} Inv Any (modify f)
  unfolding OkIs
  Keeps-modify f h = record { keeps = λ s i. (h s i, tt) }

  pub Keeps-read :
      {A : Type 0} {P : A → Type 0} (f : S → A)
      → ((s : S) → Inv s → P (f s))
      → Keeps {E = E} Inv P (read f)
  unfolding OkIs
  Keeps-read f h = record { keeps = λ s i. (i, h s i) }

module _ {E F : Type 0} where
  after_error :
      {A : Type 0} (P : A → Type 0) (f : E → F) (r : Result E A)
      → OkIs P r
      → OkIs {E = F} P (elim r [ ok a ↦ ok a | err e ↦ err (f e) ])
  unfolding OkIs
  after_error P f (ok a) p = p
  after_error P f (err e) p = tt

  pub Keeps-on_error :
      {S : Type 0} {Inv : S → Type 0} {A : Type 0} {P : A → Type 0} (f : E → F) {m : Action S E A}
      → Keeps Inv P m
      → Keeps Inv P (on_error f m)
  Keeps-on_error {P = P} f {m = m} h = record {
    keeps = λ s i. ((h.keeps s i).0, after_error P f (m s).1 (h.keeps s i).1);
  }
