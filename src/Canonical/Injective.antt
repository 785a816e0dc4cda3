-- ===== src/Canonical/Injective.antt =====
-- The bytes of the canonical encoding: crates/tule-core/src/run.rs, `append_canonical_field`.
use mathlib.Core.List.{append_assoc, append-nil, append_cancel_left}
use tule.Base.{
  ℕ, ◌/◌, ◌%◌, ◌^◌, ◌<◌, ◌≡◌, ◌≢◌, refl, sym, ◌∙◌, List, [], ◌∷◌, ◌++◌, Text, All, length,
  append_inj, arith,
}
use tule.Canonical.{
  be_bytes_u32, be_bytes_u64, append_canonical_field, append_fields, canonical_buffer,
}

-- A text whose length is a u32, as that of any text below 4 GiB.
abbrev pub IsShort : List ℕ → Type 0
IsShort t = length t < 4294967296

abbrev pub IsShortField : Text × List ℕ → Type 0
IsShortField (n, v) = IsShort n × IsShort v

length-be_bytes_u32 : (a b : ℕ) → length (be_bytes_u32 a) ≡ length (be_bytes_u32 b)
unfolding be_bytes_u32
length-be_bytes_u32 a b = refl

be_bytes_u32_mod : (a b : ℕ) → be_bytes_u32 a ≡ be_bytes_u32 b → a % 4294967296 ≡ b % 4294967296
unfolding be_bytes_u32
be_bytes_u32_mod a b h = ground arith

-- The eight bytes of a u64 determine it.
pub be_bytes_u64_injective :
    (a b : ℕ)
    → a < 18446744073709551616
    → b < 18446744073709551616
    → be_bytes_u64 a ≡ be_bytes_u64 b
    → a ≡ b
unfolding be_bytes_u64
be_bytes_u64_injective a b p q h =
    let (high, low) =
      append_inj (be_bytes_u32 (a / 2 ^ 32)) (be_bytes_u32 (b / 2 ^ 32)) (be_bytes_u32 a)
        (be_bytes_u32 b) (length-be_bytes_u32 (a / 2 ^ 32) (b / 2 ^ 32)) h in
    omega (arith, be_bytes_u32_mod (a / 2 ^ 32) (b / 2 ^ 32) high, be_bytes_u32_mod a b low)

-- The bytes of one field.
pub field_bytes : Text → List ℕ → List ℕ
field_bytes n v = be_bytes_u32 (length n % 2 ^ 32) ++ (n ++ (be_bytes_u32 (length v % 2 ^ 32) ++ v))

pub fields_bytes : List (Text × List ℕ) → List ℕ
fields_bytes [] = []
fields_bytes ((n, v) ∷ fs) = field_bytes n v ++ fields_bytes fs

pub append_canonical_field_lem :
    (buffer : List ℕ) (n : Text) (v : List ℕ)
    → append_canonical_field buffer n v ≡ buffer ++ field_bytes n v
unfolding append_canonical_field field_bytes
append_canonical_field_lem buffer n v = refl

pub append_fields_lem :
    (buffer : List ℕ) (fs : List (Text × List ℕ))
    → append_fields buffer fs ≡ buffer ++ fields_bytes fs
unfolding append_fields fields_bytes
append_fields_lem buffer [] = simp append-nil
append_fields_lem buffer ((n, v) ∷ fs) =
    append_fields_lem (append_canonical_field buffer n v) fs
    ∙ rw (append_canonical_field_lem, append_assoc)

-- A length-prefixed text is split off the bytes that follow it in one way.
prefixed_injective :
    (x y s t : List ℕ)
    → IsShort x
    → IsShort y
    → be_bytes_u32 (length x % 2 ^ 32) ++ (x ++ s) ≡ be_bytes_u32 (length y % 2 ^ 32) ++ (y ++ t)
    → (x ≡ y) × (s ≡ t)
prefixed_injective x y s t p q h =
    let (l, r) = append_inj _ _ (x ++ s) (y ++ t) (length-be_bytes_u32 _ _) h in
    append_inj x y s t (same_length (be_bytes_u32_mod _ _ l)) r
  where
    same_length :
        length x % 2 ^ 32 % 4294967296 ≡ length y % 2 ^ 32 % 4294967296 → length x ≡ length y
    same_length e = omega arith

split_field :
    (n m : Text) (v w s t : List ℕ)
    → IsShortField (n, v)
    → IsShortField (m, w)
    → field_bytes n v ++ s ≡ field_bytes m w ++ t
    → (n ≡ m) × (v ≡ w) × (s ≡ t)
unfolding field_bytes
split_field n m v w s t p q h =
    let (e, r) = prefixed_injective n m _ _ p.0 q.0 (simp append_assoc at h) in
    let (f, g) = prefixed_injective v w s t p.1 q.1 r in (e, f, g)

field_bytes-ne-nil : (n : Text) (v s : List ℕ) → field_bytes n v ++ s ≢ []
unfolding field_bytes be_bytes_u32
field_bytes-ne-nil n v s h = cc

fields_bytes_injective :
    (fs gs : List (Text × List ℕ))
    → All IsShortField fs
    → All IsShortField gs
    → fields_bytes fs ≡ fields_bytes gs
    → fs ≡ gs
unfolding fields_bytes
fields_bytes_injective [] [] p q h = refl
fields_bytes_injective [] ((m, w) ∷ gs) p q h = absurd (field_bytes-ne-nil m w _ (sym h))
fields_bytes_injective ((n, v) ∷ fs) [] p q h = absurd (field_bytes-ne-nil n v _ h)
fields_bytes_injective ((n, v) ∷ fs) ((m, w) ∷ gs) p q h =
    let (e, f, r) = split_field n m v w _ _ p.0 q.0 h in
    cc (e, f, fields_bytes_injective fs gs p.1 q.1 r)

-- Fields below 4 GiB are determined by the buffer that `hash_canonical_fields` hashes: their number,
-- their order, their names and their values.
pub canonical_buffer_injective :
    (fs gs : List (Text × List ℕ))
    → All IsShortField fs
    → All IsShortField gs
    → canonical_buffer fs ≡ canonical_buffer gs
    → fs ≡ gs
unfolding canonical_buffer
canonical_buffer_injective fs gs p q h =
    fields_bytes_injective fs gs p q
      (append_cancel_left _ _ _ (sym (append_fields_lem _ fs) ∙ h ∙ append_fields_lem _ gs))
