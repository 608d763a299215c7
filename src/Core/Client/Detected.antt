-- ===== src/Core/Client/Detected.antt =====
-- The context that a replay detects against the one that the dispatch resolves.
use vesper_platform.Base.{◌≡◌, refl, ◌∙◌, true, false, Option, none, some, [], arith}
use vesper_platform.Binary.Utf8.RoundTrip.{HasNoMark}
use vesper_platform.Binary.Headers.{Headers, header_lines, decode_headers}
use vesper_platform.Binary.Headers.Lines.{AreHeaders, AreFresh}
use vesper_platform.Binary.Headers.RoundTrip.{decode_headers-encode_headers}
use vesper_platform.Binary.Wire.{
  AdapterRequest, Received, received, header_bytes, serialize_adapter_request,
  deserialize_adapter_request,
}
use vesper_platform.Binary.Wire.RoundTrip.{
  IsCarried, carried, deserialize-serialize_adapter_request,
}
use vesper_platform.Core.Context.{visible_headers, context_of, resolve_dpop_context}
use vesper_platform.Core.Client.Proofs.{replay_headers, detected}

replay_headers-bytes : (r : Received) → replay_headers r ≡ decode_headers r.encoded_headers
unfolding replay_headers decode_headers
replay_headers-bytes r = ground arith

module _ {Signer Resolver : Type 0} where
  detected-context_of :
      (signer : Option Signer) (r : Received) (headers : Headers)
      → replay_headers r ≡ headers
      → detected {Resolver = Resolver} true signer r
        ≡ context_of r.method r.url headers signer none false
  unfolding detected context_of
  detected-context_of none r headers e = refl
  detected-context_of (some s) r headers e = rw (e) refl

  -- A request with a record of headers, queued and replayed: it is read back, and the context that is
  -- detected for it is the one that the dispatch of the request resolves, with the same signer and
  -- without an explicit context, a configured resolver or the option to require a proof. The request
  -- is one that the layout can carry, and its headers are such as the line format can carry, with
  -- distinct keys and no byte order mark at the start.
  pub detected-resolve_dpop_context :
      (r : AdapterRequest) (headers : Headers) (signer : Option Signer)
      → IsCarried (record r { encoded_headers = none; headers = some headers })
      → AreHeaders headers
      → AreFresh [] headers
      → HasNoMark (header_lines headers)
      → (d : Received) × (deserialize_adapter_request (
            serialize_adapter_request (record r { encoded_headers = none; headers = some headers }))
          ≡ received d)
        × (detected {Resolver = Resolver} true signer d
            ≡ resolve_dpop_context
                (record r { encoded_headers = none; headers = some headers })
                signer
                none
                none
                false)
  unfolding carried header_bytes resolve_dpop_context visible_headers
  detected-resolve_dpop_context r headers signer c h f m =
      let q : AdapterRequest = record r { encoded_headers = none; headers = some headers } in
      (
        carried q,
        deserialize-serialize_adapter_request q c,
        detected-context_of signer (carried q) headers
            (replay_headers-bytes (carried q) ∙ decode_headers-encode_headers headers h f m),
      )
