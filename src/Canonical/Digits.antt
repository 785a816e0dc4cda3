-- ===== src/Canonical/Digits.antt =====
-- The texts of hashes: crates/tule-core/src/run.rs, `is_canonical_sha256_hex` and `sha256_hex`.
use tule.Base.{ℕ, ◌*◌, ◌/◌, ◌%◌, ◌<◌, ◌≡◌, refl, true, List, [], ◌∷◌, length, arith}
use tule.Canonical.{hex_digit, to_hex, all_lower_hex, is_lower_hex, is_canonical_sha256_hex}
use tule.Canonical.Hashes.{AreBytes}

hex_digit_lower : (n : ℕ) → n < 16 → is_lower_hex (hex_digit n) ≡ true
unfolding hex_digit
hex_digit_lower n h = ground arith

all_lower_hex-to_hex : (bs : List ℕ) → AreBytes bs → all_lower_hex (to_hex bs) ≡ true
unfolding to_hex
all_lower_hex-to_hex [] h = refl
all_lower_hex-to_hex (b ∷ bs) h = rw (
  hex_digit_lower (b / 16) (omega arith),
  hex_digit_lower (b % 16) (omega arith),
  all_lower_hex-to_hex bs h.1,
)

length-to_hex : (bs : List ℕ) → length (to_hex bs) ≡ 2 * length bs
unfolding to_hex
length-to_hex [] = omega arith
length-to_hex (b ∷ bs) = omega (arith, length-to_hex bs)

-- The hash of 32 bytes is a canonical SHA-256 text.
pub is_canonical-to_hex :
    (bs : List ℕ) → AreBytes bs → length bs ≡ 32 → is_canonical_sha256_hex (to_hex bs) ≡ true
unfolding is_canonical_sha256_hex
is_canonical-to_hex bs h l = ground (arith, all_lower_hex-to_hex bs h, length-to_hex bs)
