-- ===== src/Dpop/Base64.antt =====
-- `base64UrlEncode` of packages/ghost-ledger/src/ledger/fallback.ts, and `btoa` of the platform, which
-- it calls. The decoder is RFC 4648 §5 without padding; the source has none.
pub mod Shape
pub mod RoundTrip
use vesper_platform.Base.{
  ℕ, ◌+◌, ◌-◌, ◌*◌, ◌/◌, ◌%◌, Bool, true, false, ◌&&◌, Option, none, some, List, [], ◌∷◌, ◌++◌, map,
  leb, ltb, ◌==◌, if◌then◌else◌, length, Bytes, ◌>>=◌,
}
use vesper_platform.Binary.Utf8.{Text}

-- The letter of a group of six bits.
unfoldable pub base64_char : ℕ → ℕ
base64_char v =
    if ltb v 26
    then v + b'A'
    else if ltb v 52
    then v + 71
    else if ltb v 62
    then v - 4
    else if v == 62
    then b'+'
    else b'/'

-- btoa, of a string whose characters are the bytes
unfoldable pub btoa : Bytes → Text
btoa [] = []
btoa (a ∷ []) = base64_char (a / 4) ∷ base64_char (a % 4 * 16) ∷ b'=' ∷ b'=' ∷ []
btoa (a ∷ b ∷ []) =
    base64_char (a / 4) ∷ base64_char (a % 4 * 16 + b / 16) ∷ base64_char (b % 16 * 4) ∷ b'=' ∷ []
btoa (a ∷ b ∷ c ∷ rest) =
    base64_char (a / 4)
    ∷ base64_char (a % 4 * 16 + b / 16)
    ∷ base64_char (b % 16 * 4 + c / 64)
    ∷ base64_char (c % 64)
    ∷ btoa rest

-- text.replace(/<from>/g, to), of single characters
unfoldable pub replace_char : ℕ → ℕ → Text → Text
replace_char from to text = map (λ c. if c == from then to else c) text

-- text.replace(/=+$/, '')
unfoldable pub strip_padding : Text → Text
strip_padding [] = []
strip_padding (c ∷ cs) =
    let rest = strip_padding cs in if length rest == 0 && c == b'=' then [] else c ∷ rest

unfoldable pub base64_url_encode : Bytes → Text
base64_url_encode bytes =
    strip_padding (replace_char b'/' b'_' (replace_char b'+' b'-' (btoa bytes)))

-- The group of six bits of a letter.
unfoldable pub base64_url_digit : ℕ → Option ℕ
base64_url_digit c =
    if leb b'A' c && leb c b'Z'
    then some (c - b'A')
    else if leb b'a' c && leb c b'z'
    then some (c - 71)
    else if leb b'0' c && leb c b'9'
    then some (c + 4)
    else if c == b'-'
    then some 62
    else if c == b'_'
    then some 63
    else none

unfoldable pub base64_url_decode : Text → Option Bytes
base64_url_decode [] = some []
base64_url_decode (w ∷ []) = none
base64_url_decode (w ∷ x ∷ []) = do
  p ← base64_url_digit w
  q ← base64_url_digit x
  some ((p * 4 + q / 16) ∷ [])
base64_url_decode (w ∷ x ∷ y ∷ []) = do
  p ← base64_url_digit w
  q ← base64_url_digit x
  r ← base64_url_digit y
  some ((p * 4 + q / 16) ∷ (q % 16 * 16 + r / 4) ∷ [])
base64_url_decode (w ∷ x ∷ y ∷ z ∷ rest) = do
  p ← base64_url_digit w
  q ← base64_url_digit x
  r ← base64_url_digit y
  s ← base64_url_digit z
  bytes ← base64_url_decode rest
  some ((p * 4 + q / 16) ∷ (q % 16 * 16 + r / 4) ∷ (r % 4 * 64 + s) ∷ bytes)
