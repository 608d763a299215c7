-- ===== src/Dpop/Signer.antt =====
-- packages/ghost-ledger/src/dpop/signer.ts: `DPoPSigner`. The awaits of one proof follow each other,
-- and the signer's two fields never change: a proof is a function of the signer, the options and the
-- clock, or nothing where a promise of the provider is rejected. Methods are ASCII, as HTTP has them.
pub mod Proof
use vesper_platform.Base.{
  ℕ, ◌+◌, ◌-◌, ◌/◌, Bool, true, false, ◌&&◌, Option, none, some, List, [], ◌∷◌, ◌++◌, map, leb,
  if◌then◌else◌, Bytes, ◌>>=◌,
}
use vesper_platform.Binary.Utf8.{Text, encode_text}
use vesper_platform.Binary.Json.{Json, string, number, object, Members, empty, member}
use vesper_platform.Dpop.Base64.{base64_url_encode}
use vesper_platform.Dpop.Utils.{
  DpopAlgorithm, es256, ps256, Url, base64_url_encode_json, normalize_htu, build_signing_params,
}
use vesper_platform.Dpop.Keys.{CryptoProvider, DpopKeyPair, generate_dpop_key_pair}

pub record DpopSigner (Key : Type 0) : Type 0 where
  pub key_pair : DpopKeyPair Key
  pub crypto_provider : CryptoProvider Key

pub record ProofOptions : Type 0 where
  pub method : Text
  pub url : Text
  pub access_token : Option Text
  pub nonce : Option Text

abbrev text_es256 : Text
text_es256 = b'E' ∷ b'S' ∷ b'2' ∷ b'5' ∷ b'6' ∷ []

abbrev text_ps256 : Text
text_ps256 = b'P' ∷ b'S' ∷ b'2' ∷ b'5' ∷ b'6' ∷ []

-- "dpop+jwt"
abbrev text_proof_type : Text
text_proof_type = b'd' ∷ b'p' ∷ b'o' ∷ b'p' ∷ b'+' ∷ b'j' ∷ b'w' ∷ b't' ∷ []

unfoldable pub algorithm_name : DpopAlgorithm → Text
algorithm_name es256 = text_es256
algorithm_name ps256 = text_ps256

-- method.toUpperCase()
unfoldable pub to_upper : Text → Text
to_upper text = map (λ c. if leb b'a' c && leb c b'z' then c - 32 else c) text

-- A member that is there where the value is.
abbrev optional : Text → Option Text → Members → Members
optional name none rest = rest
optional name (some value) rest = member name (string value) rest

unfoldable pub proof_payload : Text → Text → Text → ℕ → Option Text → Option Text → Json
proof_payload jti htm htu iat ath nonce = object (
    member (b'j' ∷ b't' ∷ b'i' ∷ []) (string jti) (
      member (b'h' ∷ b't' ∷ b'm' ∷ []) (string htm) (
        member (b'h' ∷ b't' ∷ b'u' ∷ []) (string htu) (
          member (b'i' ∷ b'a' ∷ b't' ∷ []) (number iat) (
            optional (b'a' ∷ b't' ∷ b'h' ∷ []) ath
              (optional (b'n' ∷ b'o' ∷ b'n' ∷ b'c' ∷ b'e' ∷ []) nonce empty))))))

-- `${encodedHeader}.${encodedPayload}`
unfoldable pub signing_input : Json → Json → Text
signing_input header payload =
    base64_url_encode_json header ++ b'.' ∷ base64_url_encode_json payload

module _ {Key : Type 0} where
  unfoldable pub create : CryptoProvider Key → Option DpopAlgorithm → Option (DpopSigner Key)
  create provider config = do
    key_pair ← generate_dpop_key_pair provider config
    some (record { key_pair = key_pair; crypto_provider = provider })

  -- a copy of the public key
  unfoldable pub get_public_key_jwk : DpopSigner Key → Members
  get_public_key_jwk signer = signer.key_pair.public_key_jwk

  unfoldable pub get_algorithm : DpopSigner Key → DpopAlgorithm
  get_algorithm signer = signer.key_pair.algorithm

  unfoldable pub proof_header : DpopKeyPair Key → Json
  unfolding algorithm_name
  proof_header key_pair = object (
      member (b't' ∷ b'y' ∷ b'p' ∷ []) (string text_proof_type) (
        member (b'a' ∷ b'l' ∷ b'g' ∷ []) (string (algorithm_name key_pair.algorithm))
          (member (b'j' ∷ b'w' ∷ b'k' ∷ []) (object key_pair.public_key_jwk) empty)))

  unfoldable pub compact : DpopSigner Key → Json → Json → Option Text
  unfolding signing_input
  compact signer header payload = do
    raw_signature ←
        signer.crypto_provider.subtle.sign (build_signing_params signer.key_pair.algorithm)
          signer.key_pair.private_key (encode_text (signing_input header payload))
    some (signing_input header payload ++ b'.' ∷ base64_url_encode raw_signature)

  unfoldable pub generate_jti : DpopSigner Key → Text
  generate_jti signer = base64_url_encode (signer.crypto_provider.get_random_bytes 16)

  unfoldable pub compute_ath : DpopSigner Key → Text → Option Text
  compute_ath signer access_token = do
    hash_bytes ← signer.crypto_provider.sha256 (encode_text access_token)
    some (base64_url_encode hash_bytes)

  -- payload.ath, if there is a token: the outer option is the promise
  unfoldable pub ath_claim : DpopSigner Key → Option Text → Option (Option Text)
  unfolding compute_ath
  ath_claim signer none = some none
  ath_claim signer (some access_token) = do ath ← compute_ath signer access_token; some (some ath)

  -- The payload of a proof at the time `now`, in milliseconds.
  unfoldable pub payload_of :
      Option (Text → Option Url) → DpopSigner Key → ℕ → ProofOptions → Option Json
  unfolding ath_claim generate_jti to_upper
  payload_of parser signer now options = do
    ath ← ath_claim signer options.access_token
    some (
        proof_payload (generate_jti signer) (to_upper options.method)
          (normalize_htu parser options.url) (now / 1000) ath options.nonce)

  unfoldable pub generate_proof :
      Option (Text → Option Url) → DpopSigner Key → ℕ → ProofOptions → Option Text
  unfolding payload_of compact proof_header
  generate_proof parser signer now options = do
    payload ← payload_of parser signer now options
    compact signer (proof_header signer.key_pair) payload
