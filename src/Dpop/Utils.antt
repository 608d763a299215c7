-- ===== src/Dpop/Utils.antt =====
-- packages/ghost-ledger/src/dpop/utils.ts. The platform's URL parser is a parameter, which is `none`
-- where there is no `URL`; it answers `none` where the constructor throws.
pub mod Target
use vesper_platform.Base.{ℕ, Option, none, some, List, [], ◌∷◌, ◌++◌, ◌==◌, if◌then◌else◌}
use vesper_platform.Binary.Utf8.{Text, encode_text}
use vesper_platform.Binary.Json.{Json, stringify}
use vesper_platform.Dpop.Base64.{base64_url_encode}

pub data DpopAlgorithm : Type 0 where
  es256 : DpopAlgorithm
  ps256 : DpopAlgorithm

pub data SigningParams : Type 0 where
  ecdsa_sha256 : SigningParams
  rsa_pss : ℕ → SigningParams

pub record Url : Type 0 where
  pub protocol : Text
  pub host : Text
  pub pathname : Text

unfoldable pub base64_url_encode_json : Json → Text
base64_url_encode_json obj = base64_url_encode (encode_text (stringify obj))

-- text.split(separator)[0], for a separator of one character
unfoldable pub before_first : ℕ → Text → Text
before_first separator [] = []
before_first separator (c ∷ cs) =
    let rest = before_first separator cs in if c == separator then [] else c ∷ rest

-- `new URL(url)`: `none` without a parser, or where it throws.
abbrev pub parsed : Option (Text → Option Url) → Text → Option Url
parsed none url = none
parsed (some parse) url = parse url

unfoldable pub htu_of : Option Url → Text → Text
htu_of (some u) url = u.protocol ++ b'/' ∷ b'/' ∷ (u.host ++ u.pathname)
htu_of none url = before_first b'?' (before_first b'#' url)

unfoldable pub normalize_htu : Option (Text → Option Url) → Text → Text
normalize_htu parser url = htu_of (parsed parser url) url

unfoldable pub build_signing_params : DpopAlgorithm → SigningParams
build_signing_params es256 = ecdsa_sha256
build_signing_params ps256 = rsa_pss 32
