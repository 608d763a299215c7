-- ===== src/Core/Tests.antt =====
-- Runs of the client's decisions, and their theorems at concrete inputs.
use vesper_platform.Base.{ℕ, ◌≡◌, refl, true, false, none, some, [], ◌∷◌, arith, list_eq}
use vesper_platform.Binary.Utf8.{Text}
use vesper_platform.Binary.Headers.{get_header, encode_headers, header_lines}
use vesper_platform.Binary.Wire.{
  AdapterRequest, Received, received, serialize_adapter_request, deserialize_adapter_request,
}
use vesper_platform.Binary.Tests.{
  two_headers, two_headers-AreHeaders, two_headers-AreFresh, order, order-IsCarried,
}
use vesper_platform.Core.Client.Proofs.{detected}
use vesper_platform.Core.Client.Detected.{detected-resolve_dpop_context}
use vesper_platform.Core.ErrorMatrix.{
  ErrorValue, object, resolve_trapping_config, extract_http_status, should_freeze_session,
  is_transport_error, is_freezable_http_status, freezes_on,
}
use vesper_platform.Core.Context.{
  from_token, text_authorization, to_lower, is_space, visible_headers, resolve_dpop_context,
}
use vesper_platform.Core.Context.Encoded.{
  credentials, resolve_dpop_context-token, resolve_dpop_context-encoded,
}

-- An Apollo error without a network error that carries a status.
abbrev error_with : ℕ → ErrorValue
error_with status = object (record {
  ghost_http_status = none;
  is_axios_error = false;
  response = none;
  status = some status;
  network_error = none;
  type_error_message = none;
})

freezes_on_503 : should_freeze_session (error_with 503) (resolve_trapping_config none) ≡ true
unfolding should_freeze_session is_transport_error is_freezable_http_status extract_http_status
    resolve_trapping_config freezes_on
freezes_on_503 = refl

throws_on_401 : should_freeze_session (error_with 401) (resolve_trapping_config none) ≡ false
unfolding should_freeze_session is_transport_error is_freezable_http_status extract_http_status
    resolve_trapping_config freezes_on
throws_on_401 = refl

abbrev token : Text
token = b'x' ∷ b'y' ∷ []

abbrev signed : AdapterRequest
signed = record order {
  headers =
      some ((text_authorization, credentials b'd' b'P' b'O' b'p' (32 ∷ []) token (9 ∷ [])) ∷ []);
}

signed_header :
    get_header text_authorization (visible_headers signed)
    ≡ some (credentials b'd' b'P' b'O' b'p' (32 ∷ []) token (9 ∷ []))
unfolding get_header visible_headers list_eq
signed_header = refl

resolve_signed_order :
    resolve_dpop_context {Signer = ℕ} {Resolver = ℕ} signed (some 7) (some 8) none false
    ≡ some (record {
      signer = 7;
      method = order.method;
      url = order.url;
      source = from_token (some token);
    })
unfolding to_lower is_space
resolve_signed_order =
    resolve_dpop_context-token signed 7 (some 8) false b'd' b'P' b'O' b'p' (32 ∷ []) token (9 ∷ [])
      signed_header (refl, refl, refl, refl) (refl, tt) (refl, (refl, tt)) (refl, tt) (ground arith)

resolve_encoded_order :
    resolve_dpop_context {Signer = ℕ} {Resolver = ℕ}
      (record order { encoded_headers = some (encode_headers two_headers); headers = none })
      (some 7)
      none
      none
      true
    ≡ resolve_dpop_context
        (record order { encoded_headers = none; headers = some two_headers })
        (some 7)
        none
        none
        true
unfolding header_lines
resolve_encoded_order =
    resolve_dpop_context-encoded order two_headers (some 7) none none true two_headers-AreHeaders
      two_headers-AreFresh (ground arith)

detected-resolve_dpop_context_example :
    (d : Received) × (deserialize_adapter_request (
        serialize_adapter_request
          (record order { encoded_headers = none; headers = some two_headers }))
      ≡ received d)
    × (detected {Signer = ℕ} {Resolver = ℕ} true (some 7) d
        ≡ resolve_dpop_context
            (record order { encoded_headers = none; headers = some two_headers })
            (some 7)
            none
            none
            false)
unfolding header_lines
detected-resolve_dpop_context_example =
    detected-resolve_dpop_context order two_headers (some 7) order-IsCarried two_headers-AreHeaders
      two_headers-AreFresh (ground arith)
