-- ===== src/Dpop/Base64/Shape.antt =====
-- The letters of `base64_url_encode`, group by group: how many there are, and which.
use vesper_platform.Base.{
  ℕ, ◌+◌, ◌-◌, ◌*◌, ◌/◌, ◌%◌, ◌≤◌, ◌≡◌, ◌⊎◌, refl, ap, [], ◌∷◌, ltb, ◌==◌, if◌then◌else◌, length,
  All, Bytes, arith,
}
use vesper_platform.Binary.Utf8.{Text}
use vesper_platform.Dpop.Base64.{base64_char, btoa, replace_char, strip_padding, base64_url_encode}

-- A letter of the alphabet of RFC 4648 §5.
abbrev pub IsBase64Url : ℕ → Type 0
IsBase64Url c =
    ((b'A' ≤ c) × (c ≤ b'Z'))
    ⊎ ((b'a' ≤ c) × (c ≤ b'z'))
    ⊎ ((b'0' ≤ c) × (c ≤ b'9'))
    ⊎ (c ≡ b'-')
    ⊎ (c ≡ b'_')

unfoldable pub url_char : ℕ → ℕ
url_char v =
    if ltb v 26
    then v + b'A'
    else if ltb v 52
    then v + 71
    else if ltb v 62
    then v - 4
    else if v == 62
    then b'-'
    else b'_'

pub url_char-IsBase64Url : (v : ℕ) → IsBase64Url (url_char v)
unfolding url_char
url_char-IsBase64Url v = ground arith

-- The encoding with the alphabet of RFC 4648 §5 and without padding.
unfoldable pub url_letters : Bytes → Text
url_letters [] = []
url_letters (a ∷ []) = url_char (a / 4) ∷ url_char (a % 4 * 16) ∷ []
url_letters (a ∷ b ∷ []) =
    url_char (a / 4) ∷ url_char (a % 4 * 16 + b / 16) ∷ url_char (b % 16 * 4) ∷ []
url_letters (a ∷ b ∷ c ∷ rest) =
    url_char (a / 4)
    ∷ url_char (a % 4 * 16 + b / 16)
    ∷ url_char (b % 16 * 4 + c / 64)
    ∷ url_char (c % 64)
    ∷ url_letters rest

abbrev url_safe : Text → Text
url_safe text = replace_char b'/' b'_' (replace_char b'+' b'-' text)

-- A letter is kept by the stripping, and exchanged where the alphabets differ.
strip_padding-letter :
    (v : ℕ) (rest : Text)
    → strip_padding (url_safe (base64_char v ∷ rest)) ≡ url_char v ∷ strip_padding (url_safe rest)
unfolding strip_padding replace_char base64_char url_char
strip_padding-letter v rest = ground arith

pub base64_url_encode-letters : (bytes : Bytes) → base64_url_encode bytes ≡ url_letters bytes
unfolding base64_url_encode btoa url_letters
base64_url_encode-letters [] = unfold replace_char strip_padding in refl
base64_url_encode-letters (a ∷ []) =
    rw (strip_padding-letter, strip_padding-letter) (unfold replace_char strip_padding in refl)
base64_url_encode-letters (a ∷ b ∷ []) =
    rw (strip_padding-letter, strip_padding-letter, strip_padding-letter)
      (unfold replace_char strip_padding in refl)
base64_url_encode-letters (a ∷ b ∷ c ∷ rest) =
    rw (strip_padding-letter, strip_padding-letter, strip_padding-letter, strip_padding-letter)
      (ap
        (λ t.
          url_char (a / 4)
          ∷ url_char (a % 4 * 16 + b / 16)
          ∷ url_char (b % 16 * 4 + c / 64)
          ∷ url_char (c % 64)
          ∷ t)
        (base64_url_encode-letters rest))

url_letters-IsBase64Url : (bytes : Bytes) → All IsBase64Url (url_letters bytes)
unfolding url_letters
url_letters-IsBase64Url [] = tt
url_letters-IsBase64Url (a ∷ []) = (url_char-IsBase64Url _, (url_char-IsBase64Url _, tt))
url_letters-IsBase64Url (a ∷ b ∷ []) =
    (url_char-IsBase64Url _, (url_char-IsBase64Url _, (url_char-IsBase64Url _, tt)))
url_letters-IsBase64Url (a ∷ b ∷ c ∷ rest) = (
  url_char-IsBase64Url _,
  (
    url_char-IsBase64Url _,
    (url_char-IsBase64Url _, (url_char-IsBase64Url _, url_letters-IsBase64Url rest)),
  ),
)

length-url_letters : (bytes : Bytes) → length (url_letters bytes) ≡ (4 * length bytes + 2) / 3
unfolding url_letters
length-url_letters [] = refl
length-url_letters (a ∷ []) = refl
length-url_letters (a ∷ b ∷ []) = refl
length-url_letters (a ∷ b ∷ c ∷ rest) = omega (arith, length-url_letters rest)

-- Every letter is one of A-Z, a-z, 0-9, `-` and `_`, so neither padding nor a separator, and n bytes
-- give 4n/3 letters, rounded up.
pub base64_url_encode_shape :
    (bytes : Bytes)
    → All IsBase64Url (base64_url_encode bytes)
      × (length (base64_url_encode bytes) ≡ (4 * length bytes + 2) / 3)
base64_url_encode_shape bytes =
    rw (base64_url_encode-letters bytes) (url_letters-IsBase64Url bytes, length-url_letters bytes)
