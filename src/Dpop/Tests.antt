-- ===== src/Dpop/Tests.antt =====
-- The proofs of possession on concrete inputs: one key pair, one request.
use vesper_platform.Base.{
  ℕ, ◌≡◌, ◌⊎◌, refl, subst, none, some, [], ◌∷◌, replicate, length, Bytes, ◌++◌, list_eq, AreBytes,
  All, arith, ◌%◌,
}
use vesper_platform.Binary.Utf8.{Text, encode_text}
use vesper_platform.Binary.Json.{Json, string, Members, empty, member, stringify, decimal, quote}
use vesper_platform.Dpop.Base64.{
  base64_url_encode, base64_url_decode, btoa, base64_char, replace_char, strip_padding,
}
use vesper_platform.Dpop.Base64.Shape.{base64_url_encode_shape, IsBase64Url}
use vesper_platform.Dpop.Base64.RoundTrip.{base64_url_decode-base64_url_encode}
use vesper_platform.Dpop.Utils.{
  Url, SigningParams, build_signing_params, es256, before_first, htu_of, normalize_htu, parsed,
}
use vesper_platform.Dpop.Utils.Target.{IsTarget, IsCut, normalize_htu-IsTarget}
use vesper_platform.Dpop.Keys.{
  CryptoProvider, DpopKeyPair, generate_dpop_key_pair, key_pair, build_key_gen_params,
  chosen_algorithm, is_private_field, strip_private_fields,
}
use vesper_platform.Dpop.Keys.Public.{IsPublicPart, generate_dpop_key_pair_public}
use vesper_platform.Dpop.Signer.{
  DpopSigner, ProofOptions, proof_header, proof_payload, signing_input, payload_of, generate_proof,
  compact, ath_claim, generate_jti, to_upper, algorithm_name,
}
use vesper_platform.Dpop.Signer.Proof.{IsCodePoint, generate_proof_segments, IsProofOf}

base64_url_encode_run :
    base64_url_encode (0xFB ∷ 0xFF ∷ 0xFE ∷ 0x4D ∷ [])
    ≡ b'-' ∷ b'_' ∷ b'_' ∷ b'-' ∷ b'T' ∷ b'Q' ∷ []
unfolding base64_url_encode btoa base64_char replace_char strip_padding
base64_url_encode_run = refl

base64_url_encode_shape_example :
    All IsBase64Url (base64_url_encode (0xFB ∷ 0xFF ∷ []))
    × (length (base64_url_encode (0xFB ∷ 0xFF ∷ [])) ≡ 3)
base64_url_encode_shape_example = base64_url_encode_shape (0xFB ∷ 0xFF ∷ [])

base64_url_decode-base64_url_encode_example :
    base64_url_decode (base64_url_encode (0xFB ∷ 0xFF ∷ [])) ≡ some (0xFB ∷ 0xFF ∷ [])
base64_url_decode-base64_url_encode_example =
    base64_url_decode-base64_url_encode (0xFB ∷ 0xFF ∷ []) (omega arith)

-- "/a?b#"
abbrev target : Text
target = b'/' ∷ b'a' ∷ b'?' ∷ b'b' ∷ b'#' ∷ []

normalize_htu_run : normalize_htu none target ≡ b'/' ∷ b'a' ∷ []
unfolding normalize_htu htu_of before_first
normalize_htu_run = refl

normalize_htu-IsTarget_example :
    IsTarget (normalize_htu none target)
    × (((u : Url) × (parsed none target ≡ some u))
        ⊎ ((rest : Text) × (target ≡ normalize_htu none target ++ rest) × IsCut rest))
normalize_htu-IsTarget_example = normalize_htu-IsTarget none target (λ u e. absurd cc)

-- {"kty":"EC"}, and the same with the private field "d"
abbrev public_jwk : Members
public_jwk = member (b'k' ∷ b't' ∷ b'y' ∷ []) (string (b'E' ∷ b'C' ∷ [])) empty

abbrev raw_jwk : Members
raw_jwk = member (b'd' ∷ []) (string (b's' ∷ [])) public_jwk

abbrev message_digest : Bytes
message_digest = replicate 32 1

-- Keys are numbers: 1 is the public one, 2 the private one.
abbrev provider : CryptoProvider ℕ
provider = record {
  get_random_bytes = λ n. replicate n 7;
  sha256 = λ _. some message_digest;
  subtle = record {
    generate_key = λ _. some (1, 2);
    export_key = λ _. some raw_jwk;
    sign = λ _ key _. some (key % 256 ∷ []);
  };
}

abbrev pair : DpopKeyPair ℕ
pair = record { public_key_jwk = public_jwk; private_key = 2; algorithm = es256 }

generate_dpop_key_pair_run : generate_dpop_key_pair provider none ≡ some pair
unfolding generate_dpop_key_pair chosen_algorithm key_pair strip_private_fields is_private_field
    list_eq
generate_dpop_key_pair_run = refl

generate_dpop_key_pair_public_example :
    (keys : ℕ × ℕ) × (raw : Members) × (provider.subtle.generate_key
        (build_key_gen_params (chosen_algorithm none))
      ≡ some keys)
    × (provider.subtle.export_key keys.0 ≡ some raw)
    × (pair.private_key ≡ keys.1)
    × (pair.algorithm ≡ chosen_algorithm none)
    × IsPublicPart raw pair.public_key_jwk
generate_dpop_key_pair_public_example =
    generate_dpop_key_pair_public provider none pair generate_dpop_key_pair_run

abbrev signer : DpopSigner ℕ
signer = record { key_pair = pair; crypto_provider = provider }

abbrev options : ProofOptions
options = record {
  method = b'g' ∷ b'e' ∷ b't' ∷ [];
  url = target;
  access_token = none;
  nonce = none;
}

abbrev claims : Json
claims =
    proof_payload (base64_url_encode (replicate 16 7)) (b'G' ∷ b'E' ∷ b'T' ∷ []) (b'/' ∷ b'a' ∷ [])
      9 none none

payload_of_run : payload_of none signer 9500 options ≡ some claims
unfolding payload_of ath_claim generate_jti to_upper normalize_htu htu_of before_first
payload_of_run = refl

abbrev proof : Text
proof = signing_input (proof_header pair) claims ++ b'.' ∷ base64_url_encode (2 ∷ [])

generate_proof_run : generate_proof none signer 9500 options ≡ some proof
unfolding generate_proof compact payload_of ath_claim generate_jti to_upper normalize_htu htu_of
    before_first
generate_proof_run = refl

header_text-IsCodePoint : All IsCodePoint (stringify (proof_header signer.key_pair))
unfolding stringify quote proof_header algorithm_name
header_text-IsCodePoint = omega arith

claims_text-IsCodePoint : All IsCodePoint (stringify claims)
unfolding stringify quote decimal proof_payload base64_url_encode btoa base64_char replace_char
    strip_padding
claims_text-IsCodePoint = omega arith

claims_only :
    (payload : Json)
    → payload_of none signer 9500 options ≡ some payload
    → All IsCodePoint (stringify payload)
claims_only payload e =
    let same : claims ≡ payload = cc (payload_of_run) in
    subst (λ p. All IsCodePoint (stringify p)) same claims_text-IsCodePoint

signatures-AreBytes :
    (params : SigningParams) (key : ℕ) (message signature : Bytes)
    → provider.subtle.sign params key message ≡ some signature
    → AreBytes signature
signatures-AreBytes params key message signature e =
    let same : (key % 256 ∷ []) ≡ signature = cc in subst AreBytes same (omega arith)

generate_proof_segments_example :
    (payload : Json) × (signature : Bytes) × (payload_of none signer 9500 options ≡ some payload)
    × (provider.subtle.sign
          (build_signing_params es256)
          2
          (encode_text (signing_input (proof_header pair) payload))
        ≡ some signature)
    × IsProofOf proof (proof_header pair) payload signature
generate_proof_segments_example =
    generate_proof_segments none signer 9500 options proof header_text-IsCodePoint claims_only
      signatures-AreBytes generate_proof_run
