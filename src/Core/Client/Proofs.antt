-- ===== src/Core/Client/Proofs.antt =====
-- packages/ghost-ledger/src/core/client.ts: the keys and the proofs of possession of the client, and
-- `withDPoP` of dpop/executor.ts. The clock, the URL parser and what a configured resolver answers are
-- arguments; a rejected promise is `none`.
use vesper_platform.Base.{
  ℕ, Bool, ◌&&◌, ◌||◌, Option, none, some, [], ltb, if◌then◌else◌, length, is_some, ◌>>=◌,
}
use vesper_platform.Binary.Utf8.{Text}
use vesper_platform.Binary.Headers.{Headers, decode_headers, append_header_to_binary}
use vesper_platform.Binary.Json.{Members}
use vesper_platform.Binary.Wire.{Received}
use vesper_platform.Core.Context.{
  PendingContext, ContextSource, from_token, configured, text_dpop, auth_header_value,
  has_dpop_header, access_token,
}
use vesper_platform.Dpop.Utils.{DpopAlgorithm, Url}
use vesper_platform.Dpop.Keys.{CryptoProvider}
use vesper_platform.Dpop.Signer.{
  DpopSigner, ProofOptions, create, generate_proof, get_public_key_jwk,
}

-- DPoPTokenContext
pub record TokenContext : Type 0 where
  pub access_token : Option Text
  pub nonce : Option Text

-- What a replayed request shows of its headers.
unfoldable pub replay_headers : Received → Headers
replay_headers r = if ltb 0 (length r.encoded_headers) then decode_headers r.encoded_headers else []

-- contextResolver()
unfoldable pub resolved_context :
    {Resolver : Type 0}
    → (Resolver → Option TokenContext)
    → ContextSource Resolver
    → Option TokenContext
resolved_context resolve (from_token token) = some (record { access_token = token; nonce = none })
resolved_context resolve (configured r) = resolve r

module _ {Signer Resolver : Type 0} where
  unfoldable pub with_dpop : Signer → Text → Text → Resolver → PendingContext Signer Resolver
  with_dpop signer method url context_resolver = record {
    signer = signer;
    method = method;
    url = url;
    source = configured context_resolver;
  }

  unfoldable pub proof_options : PendingContext Signer Resolver → TokenContext → ProofOptions
  proof_options p context = record {
    method = p.method;
    url = p.url;
    access_token = context.access_token;
    nonce = context.nonce;
  }

  -- The context that a replayed request without one is found to need.
  unfoldable pub detected :
      Bool → Option Signer → Received → Option (PendingContext Signer Resolver)
  unfolding replay_headers
  detected enable_auto_dpop none r = none
  detected enable_auto_dpop (some s) r =
      let token = access_token (auth_header_value (replay_headers r)) in
      if enable_auto_dpop && (has_dpop_header (replay_headers r) || is_some token)
      then some (record { signer = s; method = r.method; url = r.url; source = from_token token })
      else none

  unfoldable pub replay_context :
      Option (PendingContext Signer Resolver)
      → Bool
      → Option Signer
      → Received
      → Option (PendingContext Signer Resolver)
  unfolding detected
  replay_context (some dpop) enable_auto_dpop signer r = some dpop
  replay_context none enable_auto_dpop signer r = detected enable_auto_dpop signer r

-- A replayed request with the fresh proof as its DPoP header.
unfoldable pub replay_dispatched : Received → Option Text → Received
replay_dispatched r none = r
replay_dispatched r (some proof) = record r {
  encoded_headers = append_header_to_binary r.encoded_headers text_dpop proof;
}

module _ {Key Resolver : Type 0} where
  -- The proof for a context, at the time `now`.
  unfoldable pub proof_for :
      Option (Text → Option Url)
      → (Resolver → Option TokenContext)
      → ℕ
      → PendingContext (DpopSigner Key) Resolver
      → Option Text
  unfolding resolved_context proof_options
  proof_for parser resolve now p = do
    context ← resolved_context resolve p.source
    generate_proof parser p.signer now (proof_options p context)

-- The configuration of the client's keys: config.dpop with its algorithm, enableAutoDPoP and
-- dpopAlgorithm.
pub record KeyConfig : Type 0 where
  pub dpop : Option (Option DpopAlgorithm)
  pub enable_auto_dpop : Bool
  pub dpop_algorithm : Option DpopAlgorithm

-- this.dpopAlgorithm ?? this.dpopConfig?.algorithm
unfoldable pub bootstrap_algorithm : KeyConfig → Option DpopAlgorithm
bootstrap_algorithm config = elim config.dpop_algorithm [
  | some a ↦ some a
  | none ↦ elim config.dpop [ some a ↦ a | none ↦ none ]
]

module _ {Key : Type 0} where
  unfoldable pub get_dpop_public_key : Option (DpopSigner Key) → Option Members
  get_dpop_public_key none = none
  get_dpop_public_key (some signer) = some (get_public_key_jwk signer)

  -- `bootstrap`: the signer afterwards, and the public key.
  unfoldable pub bootstrap_auto_dpop :
      CryptoProvider Key
      → KeyConfig
      → Option (DpopSigner Key)
      → Option (Option (DpopSigner Key) × Option Members)
  unfolding get_dpop_public_key bootstrap_algorithm
  bootstrap_auto_dpop provider config (some signer) =
      some (some signer, get_dpop_public_key (some signer))
  bootstrap_auto_dpop provider config none =
      if is_some config.dpop || config.enable_auto_dpop
      then create provider (bootstrap_algorithm config)
        >>= (λ signer. some (some signer, get_dpop_public_key (some signer)))
      else some (none, none)
