-- ===== src/Dpop/Base64/RoundTrip.antt =====
-- What the decoder of RFC 4648 §5 reads back.
use vesper_platform.Base.{
  ap, ℕ, ◌+◌, ◌*◌, ◌/◌, ◌%◌, ◌<◌, ◌≡◌, refl, some, [], ◌∷◌, Bytes, AreBytes, arith,
}
use vesper_platform.Dpop.Base64.{base64_url_digit, base64_url_encode, base64_url_decode}
use vesper_platform.Dpop.Base64.Shape.{url_char, url_letters, base64_url_encode-letters}

base64_url_digit-url_char : (v : ℕ) → v < 64 → base64_url_digit (url_char v) ≡ some v
unfolding base64_url_digit url_char
base64_url_digit-url_char v h = ground arith

first_byte : (a b : ℕ) → b < 256 → a / 4 * 4 + (a % 4 * 16 + b / 16) / 16 ≡ a
first_byte a b h = omega arith

second_byte :
    (a b c : ℕ)
    → b < 256
    → c < 256
    → (a % 4 * 16 + b / 16) % 16 * 16 + (b % 16 * 4 + c / 64) / 4 ≡ b
second_byte a b c h k = omega arith

third_byte : (b c : ℕ) → c < 256 → (b % 16 * 4 + c / 64) % 4 * 64 + c % 64 ≡ c
third_byte b c h = omega arith

base64_url_decode-letters :
    (bytes : Bytes) → AreBytes bytes → base64_url_decode (url_letters bytes) ≡ some bytes
unfolding base64_url_decode url_letters
base64_url_decode-letters [] h = refl
base64_url_decode-letters (a ∷ []) (ha, _) =
    rw
      (
        base64_url_digit-url_char (a / 4) (omega arith),
        base64_url_digit-url_char (a % 4 * 16) (omega arith),
      )
      (ap (λ x. some (x ∷ [])) (omega arith))
base64_url_decode-letters (a ∷ b ∷ []) (ha, (hb, _)) =
    let second : (a % 4 * 16 + b / 16) % 16 * 16 + b % 16 * 4 / 4 ≡ b = omega arith in
    rw
      (
        base64_url_digit-url_char (a / 4) (omega arith),
        base64_url_digit-url_char (a % 4 * 16 + b / 16) (omega arith),
        base64_url_digit-url_char (b % 16 * 4) (omega arith),
        first_byte a b hb,
        second,
      )
      refl
base64_url_decode-letters (a ∷ b ∷ c ∷ rest) (ha, (hb, (hc, hs))) =
    rw
      (
        base64_url_digit-url_char (a / 4) (omega arith),
        base64_url_digit-url_char (a % 4 * 16 + b / 16) (omega arith),
        base64_url_digit-url_char (b % 16 * 4 + c / 64) (omega arith),
        base64_url_digit-url_char (c % 64) (omega arith),
        base64_url_decode-letters rest hs,
        first_byte a b hb,
        second_byte a b c hb hc,
        third_byte b c hc,
      )
      refl

-- The decoder reads back every sequence of bytes from its encoding.
pub base64_url_decode-base64_url_encode :
    (bytes : Bytes) → AreBytes bytes → base64_url_decode (base64_url_encode bytes) ≡ some bytes
base64_url_decode-base64_url_encode bytes h =
    rw (base64_url_encode-letters bytes) (base64_url_decode-letters bytes h)
