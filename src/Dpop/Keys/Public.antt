-- ===== src/Dpop/Keys/Public.antt =====
-- What a generated key pair shows of its keys.
use vesper_platform.Base.{
  ◌≡◌, ◌≢◌, ◌∙◌, false, list_eq, List, [], ◌∷◌, All, Option, none, some, if◌then◌else◌, list_eq_iff,
  arith, >>=-eq-some, sym, subst, ap,
}
use vesper_platform.Binary.Utf8.{Text}
use vesper_platform.Binary.Json.{Members, empty, member, get_member}
use vesper_platform.Dpop.Utils.{DpopAlgorithm}
use vesper_platform.Dpop.Keys.{
  CryptoProvider, DpopKeyPair, build_key_gen_params, is_private_field, strip_private_fields,
  chosen_algorithm, key_pair, generate_dpop_key_pair,
}

get_member-strip_private_fields :
    (name : Text) (jwk : Members)
    → get_member name (strip_private_fields jwk)
      ≡ (if is_private_field name then none else get_member name jwk)
unfolding get_member strip_private_fields
get_member-strip_private_fields name empty = ground arith
get_member-strip_private_fields name (member key value rest) =
    ground (arith, list_eq_iff key name, get_member-strip_private_fields name rest)

-- The fields of a JWK that hold parts of a private key: of an elliptic curve d, of RSA d, p, q, dp, dq
-- and qi.
abbrev pub private_names : List Text
private_names =
    (b'd' ∷ [])
    ∷ (b'p' ∷ [])
    ∷ (b'q' ∷ [])
    ∷ (b'd' ∷ b'p' ∷ [])
    ∷ (b'd' ∷ b'q' ∷ [])
    ∷ (b'q' ∷ b'i' ∷ [])
    ∷ []

not_private : (name : Text) → All (λ n. name ≢ n) private_names → is_private_field name ≡ false
unfolding is_private_field
not_private name h = ground (
  arith,
  list_eq_iff name (b'd' ∷ []),
  list_eq_iff name (b'p' ∷ []),
  list_eq_iff name (b'q' ∷ []),
  list_eq_iff name (b'd' ∷ b'p' ∷ []),
  list_eq_iff name (b'd' ∷ b'q' ∷ []),
  list_eq_iff name (b'q' ∷ b'i' ∷ []),
)

-- The stripped fields against the exported ones.
abbrev pub IsPublicPart : Members → Members → Type 0
IsPublicPart raw jwk =
    All (λ n. get_member n jwk ≡ none) private_names
    × ((name : Text)
        → All (λ n. name ≢ n) private_names
        → get_member name jwk ≡ get_member name raw)

strip_private_fields-IsPublicPart : (raw : Members) → IsPublicPart raw (strip_private_fields raw)
unfolding is_private_field list_eq
strip_private_fields-IsPublicPart raw =
    let read = λ (n : Text). get_member-strip_private_fields n raw in
    (
      (
        read (b'd' ∷ []),
        (
          read (b'p' ∷ []),
          (
            read (b'q' ∷ []),
            (read (b'd' ∷ b'p' ∷ []), (read (b'd' ∷ b'q' ∷ []), (read (b'q' ∷ b'i' ∷ []), tt))),
          ),
        ),
      ),
      λ name h. read name ∙ ap (λ b. if b then none else get_member name raw) (not_private name h),
    )

-- A generated pair has the algorithm that was asked for, or ES256; its private key is the handle of
-- the generated pair; and its JWK is the exported public key without the fields d, p, q, dp, dq and
-- qi: none of these is there, and every other field is as it was exported.
pub generate_dpop_key_pair_public :
    {Key : Type 0} (provider : CryptoProvider Key) (config : Option DpopAlgorithm)
    (pair : DpopKeyPair Key)
    → generate_dpop_key_pair provider config ≡ some pair
    → (keys : Key × Key) × (raw : Members) × (provider.subtle.generate_key
          (build_key_gen_params (chosen_algorithm config))
        ≡ some keys)
      × (provider.subtle.export_key keys.0 ≡ some raw)
      × (pair.private_key ≡ keys.1)
      × (pair.algorithm ≡ chosen_algorithm config)
      × IsPublicPart raw pair.public_key_jwk
unfolding generate_dpop_key_pair key_pair
generate_dpop_key_pair_public provider config pair e =
    let (keys, generated, e₁) =
      >>=-eq-some (provider.subtle.generate_key (build_key_gen_params (chosen_algorithm config))) _
        pair e in
    let (raw, exported, e₂) = >>=-eq-some (provider.subtle.export_key keys.0) _ pair e₁ in
    let same : key_pair (chosen_algorithm config) keys.1 raw ≡ pair = cc in
    (
      keys,
      raw,
      generated,
      exported,
      ap (λ p. p.private_key) (sym same),
      ap (λ p. p.algorithm) (sym same),
      subst (λ p. IsPublicPart raw p.public_key_jwk) same (strip_private_fields-IsPublicPart raw),
    )
