-- ===== src/Dpop/Keys.antt =====
-- packages/ghost-ledger/src/dpop/keys.ts and the contracts of contracts/crypto.ts. The crypto provider
-- is a parameter; its calls answer `none` where their promises are rejected.
pub mod Public
use vesper_platform.Base.{
  ℕ, Bool, true, false, ◌||◌, Option, none, some, List, [], ◌∷◌, if◌then◌else◌, list_eq, Bytes,
  ◌>>=◌,
}
use vesper_platform.Binary.Utf8.{Text}
use vesper_platform.Binary.Json.{Members, empty, member}
use vesper_platform.Dpop.Utils.{DpopAlgorithm, es256, ps256, SigningParams}

pub data KeyGenParams : Type 0 where
  ecdsa_p256 : KeyGenParams
  -- modulusLength and publicExponent; the hash is SHA-256
  rsa_pss_sha256 : ℕ → Bytes → KeyGenParams

-- What is used of SubtleCrypto: the keys are the public one and the private one.
pub record SubtleCrypto (Key : Type 0) : Type 0 where
  pub generate_key : KeyGenParams → Option (Key × Key)
  pub export_key : Key → Option Members
  pub sign : SigningParams → Key → Bytes → Option Bytes

pub record CryptoProvider (Key : Type 0) : Type 0 where
  pub get_random_bytes : ℕ → Bytes
  pub sha256 : Bytes → Option Bytes
  pub subtle : SubtleCrypto Key

pub record DpopKeyPair (Key : Type 0) : Type 0 where
  pub public_key_jwk : Members
  pub private_key : Key
  pub algorithm : DpopAlgorithm

unfoldable pub build_key_gen_params : DpopAlgorithm → KeyGenParams
build_key_gen_params es256 = ecdsa_p256
build_key_gen_params ps256 = rsa_pss_sha256 2048 (0x01 ∷ 0x00 ∷ 0x01 ∷ [])

-- The names that are taken out: d, p, q, dp, dq, qi.
unfoldable pub is_private_field : Text → Bool
is_private_field name =
    list_eq name (b'd' ∷ [])
    || list_eq name (b'p' ∷ [])
    || list_eq name (b'q' ∷ [])
    || list_eq name (b'd' ∷ b'p' ∷ [])
    || list_eq name (b'd' ∷ b'q' ∷ [])
    || list_eq name (b'q' ∷ b'i' ∷ [])

unfoldable pub strip_private_fields : Members → Members
unfolding is_private_field
strip_private_fields empty = empty
strip_private_fields (member name value rest) =
    let public_only = strip_private_fields rest in
    if is_private_field name then public_only else member name value public_only

-- config.algorithm ?? 'ES256'
unfoldable pub chosen_algorithm : Option DpopAlgorithm → DpopAlgorithm
chosen_algorithm none = es256
chosen_algorithm (some algorithm) = algorithm

module _ {Key : Type 0} where
  unfoldable pub key_pair : DpopAlgorithm → Key → Members → DpopKeyPair Key
  unfolding strip_private_fields
  key_pair algorithm private_key raw_jwk = record {
    public_key_jwk = strip_private_fields raw_jwk;
    private_key = private_key;
    algorithm = algorithm;
  }

  unfoldable pub generate_dpop_key_pair :
      CryptoProvider Key → Option DpopAlgorithm → Option (DpopKeyPair Key)
  unfolding build_key_gen_params chosen_algorithm key_pair
  generate_dpop_key_pair provider config = do
    keys ← provider.subtle.generate_key (build_key_gen_params (chosen_algorithm config))
    raw_jwk ← provider.subtle.export_key keys.0
    some (key_pair (chosen_algorithm config) keys.1 raw_jwk)
