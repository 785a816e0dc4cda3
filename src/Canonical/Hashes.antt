-- ===== src/Canonical/Hashes.antt =====
-- Hashes over the canonical encoding, up to a collision of the digest: crates/tule-core/src/run.rs,
-- `hash_canonical_fields` and `hash_expected_diff`.
use tule.Base.{
  ℕ, ◌/◌, ◌%◌, ◌<◌, ◌≡◌, ◌≢◌, refl, ◌⊎◌, inl, inr, List, [], ◌∷◌, Text, All, bytes, Text-discrete,
  arith,
}
use tule.Canonical.{
  Digest, hex_digit, to_hex, hash_source_bytes, append_fields, canonical_buffer,
  hash_canonical_fields, hash_expected_diff,
}
use tule.Canonical.Injective.{IsShort, IsShortField, canonical_buffer_injective}

-- Two inputs that the digest does not tell apart.
pub record Collision (digest : Digest) : Type 0 where
  pub first : List ℕ
  pub second : List ℕ
  pub differ : first ≢ second
  pub collide : digest first ≡ digest second

abbrev pub AreBytes : List ℕ → Type 0
AreBytes = All (λ b. b < 256)

hex_digit_injective : (a b : ℕ) → a < 16 → b < 16 → hex_digit a ≡ hex_digit b → a ≡ b
unfolding hex_digit
hex_digit_injective a b p q h = ground arith

hex_byte_injective :
    (a b : ℕ)
    → a < 256
    → b < 256
    → hex_digit (a / 16) ≡ hex_digit (b / 16)
    → hex_digit (a % 16) ≡ hex_digit (b % 16)
    → a ≡ b
hex_byte_injective a b p q h l = omega (
  arith,
  hex_digit_injective (a / 16) (b / 16) (omega arith) (omega arith) h,
  hex_digit_injective (a % 16) (b % 16) (omega arith) (omega arith) l,
)

to_hex_injective : (xs ys : List ℕ) → AreBytes xs → AreBytes ys → to_hex xs ≡ to_hex ys → xs ≡ ys
unfolding to_hex
to_hex_injective [] [] p q h = refl
to_hex_injective [] (y ∷ ys) p q h = cc
to_hex_injective (x ∷ xs) [] p q h = cc
to_hex_injective (x ∷ xs) (y ∷ ys) p q h =
    let rest : to_hex xs ≡ to_hex ys = ground arith in
    let same : x ≡ y = hex_byte_injective x y p.0 q.0 (ground arith) (ground arith) in
    cc (same, to_hex_injective xs ys p.1 q.1 rest)

module _ (digest : Digest) (digest_bytes : (x : List ℕ) → AreBytes (digest x)) where
  -- An equal hash of two contents.
  hash_source_bytes_binds :
      (x y : List ℕ)
      → hash_source_bytes digest x ≡ hash_source_bytes digest y
      → (x ≡ y) ⊎ Collision digest
  unfolding hash_source_bytes
  hash_source_bytes_binds x y h = elim (Text-discrete x y) [
    | yes same ↦ inl same
    | no differ ↦ inr (record {
      first = x;
      second = y;
      differ = differ;
      collide = to_hex_injective _ _ (digest_bytes x) (digest_bytes y) h;
    })
  ]

  -- Two lists of fields below 4 GiB have one hash only if they are the same list, or a collision of
  -- the digest is at hand.
  pub hash_canonical_fields_binds :
      (fs gs : List (Text × List ℕ))
      → All IsShortField fs
      → All IsShortField gs
      → hash_canonical_fields digest fs ≡ hash_canonical_fields digest gs
      → (fs ≡ gs) ⊎ Collision digest
  unfolding hash_canonical_fields
  hash_canonical_fields_binds fs gs p q h =
      elim (hash_source_bytes_binds (canonical_buffer fs) (canonical_buffer gs) h) [
        | inl same ↦ inl (canonical_buffer_injective fs gs p q same)
        | inr found ↦ inr found
      ]

  -- The hash of an expected diff stands for its preimage and its postimage: two diffs of texts below
  -- 4 GiB have one hash only if both texts are equal, or a collision of the digest is at hand.
  pub hash_expected_diff_binds :
      (pre post pre' post' : Text)
      → IsShort pre
      → IsShort post
      → IsShort pre'
      → IsShort post'
      → hash_expected_diff digest pre post ≡ hash_expected_diff digest pre' post'
      → ((pre ≡ pre') × (post ≡ post')) ⊎ Collision digest
  unfolding hash_expected_diff hash_canonical_fields canonical_buffer append_fields
  hash_expected_diff_binds pre post pre' post' a b c d h =
      elim (hash_canonical_fields_binds (fields pre post) (fields pre' post') (omega arith)
        (omega arith) h) [ inl same ↦ inl (ground arith) | inr found ↦ inr found ]
    where
      fields : Text → Text → List (Text × List ℕ)
      fields x y = (bytes "preimage", x) ∷ (bytes "postimage", y) ∷ []
