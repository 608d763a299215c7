-- ===== src/Dpop/Signer/Proof.antt =====
-- What a verifier reads off a proof: the three segments of a JWT, decoded.
use vesper_platform.Base.{
  ℕ, ◌<◌, ◌≡◌, refl, subst, Option, some, List, [], ◌∷◌, ◌++◌, map, ◌==◌, if◌then◌else◌, Bytes,
  AreBytes, All, All-append, >>=-eq-some, arith, append_assoc,
}
use vesper_platform.Binary.Utf8.{Text, encode_char, encode_text}
use vesper_platform.Binary.Json.{Json, stringify}
use vesper_platform.Dpop.Base64.{base64_url_encode, base64_url_decode}
use vesper_platform.Dpop.Base64.Shape.{IsBase64Url, base64_url_encode_shape}
use vesper_platform.Dpop.Base64.RoundTrip.{base64_url_decode-base64_url_encode}
use vesper_platform.Dpop.Utils.{Url, SigningParams, base64_url_encode_json, build_signing_params}
use vesper_platform.Dpop.Signer.{
  DpopSigner, ProofOptions, proof_header, signing_input, compact, payload_of, generate_proof,
}

abbrev pub IsCodePoint : ℕ → Type 0
IsCodePoint c = c < 0x110000

encode_char-AreBytes : (c : ℕ) → IsCodePoint c → AreBytes (encode_char c)
unfolding encode_char
encode_char-AreBytes c h = ground arith

encode_text-AreBytes : (text : Text) → All IsCodePoint text → AreBytes (encode_text text)
unfolding encode_text
encode_text-AreBytes [] h = tt
encode_text-AreBytes (c ∷ text) h =
    All-append _ (encode_char c) (encode_text text) (encode_char-AreBytes c h.0)
      (encode_text-AreBytes text h.1)

put_front : ℕ → List Text → List Text
put_front c [] = (c ∷ []) ∷ []
put_front c (s ∷ rest) = (c ∷ s) ∷ rest

-- A text cut at its dots.
unfoldable pub segments : Text → List Text
unfolding put_front
segments [] = [] ∷ []
segments (c ∷ cs) = let rest = segments cs in if c == b'.' then [] ∷ rest else put_front c rest

segments-dot : (s rest : Text) → All IsBase64Url s → segments (s ++ b'.' ∷ rest) ≡ s ∷ segments rest
unfolding segments put_front
segments-dot [] rest h = refl
segments-dot (c ∷ s) rest h = ground (arith, segments-dot s rest h.1)

segments-last : (s : Text) → All IsBase64Url s → segments s ≡ s ∷ []
unfolding segments put_front
segments-last [] h = refl
segments-last (c ∷ s) h = ground (arith, segments-last s h.1)

segments-three :
    (a b c : Text)
    → All IsBase64Url a
    → All IsBase64Url b
    → All IsBase64Url c
    → segments ((a ++ b'.' ∷ b) ++ b'.' ∷ c) ≡ a ∷ b ∷ c ∷ []
segments-three a b c ha hb hc =
    rw
      (
        append_assoc a (b'.' ∷ b) (b'.' ∷ c),
        segments-dot a (b ++ b'.' ∷ c) ha,
        segments-dot b c hb,
        segments-last c hc,
      )
      refl

-- What the three segments of a proof stand for.
abbrev pub IsProofOf : Text → Json → Json → Bytes → Type 0
IsProofOf proof header payload signature =
    map base64_url_decode (segments proof)
    ≡ some (encode_text (stringify header))
      ∷ some (encode_text (stringify payload))
      ∷ some signature
      ∷ []

compact-IsProofOf :
    (header payload : Json) (signature : Bytes)
    → All IsCodePoint (stringify header)
    → All IsCodePoint (stringify payload)
    → AreBytes signature
    → IsProofOf
        (signing_input header payload ++ b'.' ∷ base64_url_encode signature)
        header
        payload
        signature
unfolding signing_input base64_url_encode_json
compact-IsProofOf header payload signature h p s =
    rw
      (
        segments-three _ _ _ (base64_url_encode_shape _).0 (base64_url_encode_shape _).0
            (base64_url_encode_shape signature).0,
        base64_url_decode-base64_url_encode (encode_text (stringify header))
            (encode_text-AreBytes _ h),
        base64_url_decode-base64_url_encode (encode_text (stringify payload))
            (encode_text-AreBytes _ p),
        base64_url_decode-base64_url_encode signature s,
      )
      refl

-- A proof that is returned has three segments between its dots, which decode to the UTF-8 texts of
-- its header (the type, the algorithm and the public key of the signer) and of its payload, and to the
-- bytes that the provider's `sign` answered under the private key for the first two segments with
-- their dot. The hypotheses are that the two JSON texts are made of code points, and that `sign`
-- answers bytes.
pub generate_proof_segments :
    {Key : Type 0} (parser : Option (Text → Option Url)) (signer : DpopSigner Key) (now : ℕ)
    (options : ProofOptions) (proof : Text)
    → All IsCodePoint (stringify (proof_header signer.key_pair))
    → ((payload : Json)
        → payload_of parser signer now options ≡ some payload
        → All IsCodePoint (stringify payload))
    → ((params : SigningParams) (key : Key) (message signature : Bytes)
        → signer.crypto_provider.subtle.sign params key message ≡ some signature
        → AreBytes signature)
    → generate_proof parser signer now options ≡ some proof
    → (payload : Json) × (signature : Bytes) × (payload_of parser signer now options ≡ some payload)
      × (signer.crypto_provider.subtle.sign
            (build_signing_params signer.key_pair.algorithm)
            signer.key_pair.private_key
            (encode_text (signing_input (proof_header signer.key_pair) payload))
          ≡ some signature)
      × IsProofOf proof (proof_header signer.key_pair) payload signature
unfolding generate_proof compact
generate_proof_segments parser signer now options proof hh hp hs e =
    let header = proof_header signer.key_pair in
    let (payload, made, e₁) = >>=-eq-some (payload_of parser signer now options) _ proof e in
    let (signature, signed, e₂) =
      >>=-eq-some
        (signer.crypto_provider.subtle.sign (build_signing_params signer.key_pair.algorithm)
          signer.key_pair.private_key (encode_text (signing_input header payload)))
        _ proof e₁ in
    let same : signing_input header payload ++ b'.' ∷ base64_url_encode signature ≡ proof = cc in
    (
      payload,
      signature,
      made,
      signed,
      subst (λ t. IsProofOf t header payload signature) same
          (compact-IsProofOf header payload signature hh (hp payload made)
            (hs _ _ _ signature signed)),
    )
