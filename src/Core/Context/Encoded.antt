-- ===== src/Core/Context/Encoded.antt =====
-- The DPoP context of requests that carry a token, in a record or encoded.
use vesper_platform.Base.{
  ℕ, ◌≡◌, ◌≢◌, refl, ap, ◌∙◌, Bool, true, false, Option, none, some, [], ◌∷◌, ◌++◌, arith, Bytes,
  All,
}
use vesper_platform.Binary.Utf8.{Text}
use vesper_platform.Binary.Utf8.RoundTrip.{HasNoMark}
use vesper_platform.Binary.Headers.{
  Headers, get_header, header_lines, encode_headers, decode_headers,
}
use vesper_platform.Binary.Headers.Lines.{AreHeaders, AreFresh}
use vesper_platform.Binary.Headers.RoundTrip.{decode_headers-encode_headers}
use vesper_platform.Binary.Wire.{AdapterRequest}
use vesper_platform.Core.Context.{
  from_token, PendingContext, text_authorization, first_non_empty, auth_header_value, to_lower,
  starts_with_dpop, is_space, trim_start, trim_end, access_token, visible_headers, context_of,
  resolve_dpop_context,
}

-- "dpop" in any case.
abbrev pub IsScheme : ℕ → ℕ → ℕ → ℕ → Type 0
IsScheme a b c d =
    (to_lower a ≡ b'd') × (to_lower b ≡ b'p') × (to_lower c ≡ b'o') × (to_lower d ≡ b'p')

abbrev pub AreSpaces : Text → Type 0
AreSpaces t = All (λ c. is_space c ≡ true) t

abbrev pub HasNoSpace : Text → Type 0
HasNoSpace t = All (λ c. is_space c ≡ false) t

abbrev pub credentials : ℕ → ℕ → ℕ → ℕ → Text → Text → Text → Text
credentials a b c d before token after = a ∷ b ∷ c ∷ d ∷ b' ' ∷ (before ++ (token ++ after))

trim_end-spaces : (t : Text) → AreSpaces t → trim_end t ≡ []
unfolding trim_end
trim_end-spaces [] h = refl
trim_end-spaces (c ∷ t) h = ground (arith, trim_end-spaces t h.1)

trim_end-append :
    (token after : Text) → HasNoSpace token → AreSpaces after → trim_end (token ++ after) ≡ token
unfolding trim_end
trim_end-append [] after n h = trim_end-spaces after h
trim_end-append (c ∷ t) after n h = ground (arith, trim_end-append t after n.1 h)

trim_start-append :
    (before : Text) (c : ℕ) (rest : Text)
    → AreSpaces before
    → is_space c ≡ false
    → trim_start (before ++ c ∷ rest) ≡ c ∷ rest
unfolding trim_start
trim_start-append [] c rest h n = ground arith
trim_start-append (b ∷ before) c rest h n = ground (arith, trim_start-append before c rest h.1 n)

trim-append :
    (before token after : Text)
    → AreSpaces before
    → HasNoSpace token
    → AreSpaces after
    → token ≢ []
    → trim_end (trim_start (before ++ (token ++ after))) ≡ token
trim-append before [] after h n k e = absurd (e refl)
trim-append before (c ∷ token) after h n k e =
    rw (trim_start-append before c (token ++ after) h n.0) (trim_end-append (c ∷ token) after n k)

starts_with_dpop-credentials :
    (a b c d : ℕ) (rest : Text)
    → IsScheme a b c d
    → starts_with_dpop (a ∷ b ∷ c ∷ d ∷ b' ' ∷ rest) ≡ true
unfolding starts_with_dpop
starts_with_dpop-credentials a b c d rest h = rw (h.0, h.1, h.2, h.3) refl

access_token-credentials :
    (a b c d : ℕ) (before token after : Text)
    → IsScheme a b c d
    → AreSpaces before
    → HasNoSpace token
    → AreSpaces after
    → token ≢ []
    → access_token (some (credentials a b c d before token after)) ≡ some token
unfolding access_token
access_token-credentials a b c d before token after h x y z e =
    rw
      (
        starts_with_dpop-credentials a b c d (before ++ (token ++ after)) h,
        trim-append before token after x y z e,
      )
      refl

auth_header_value-set :
    (headers : Headers) (c : ℕ) (value : Text)
    → get_header text_authorization headers ≡ some (c ∷ value)
    → auth_header_value headers ≡ some (c ∷ value)
unfolding auth_header_value first_non_empty
auth_header_value-set headers c value e = rw e refl

visible-encoded :
    (r : AdapterRequest) (encoded : Bytes)
    → visible_headers (record r { encoded_headers = some encoded; headers = none })
      ≡ decode_headers encoded
unfolding visible_headers decode_headers
visible-encoded r [] = refl
visible-encoded r (x ∷ b) = ground arith

module _ {Signer Resolver : Type 0} where
  -- A request without an explicit context whose Authorization header is "DPoP", in any case, and a
  -- token without white space, padded or not, is given a context by the client's signer: for the
  -- request's method and url, and with just that token, whatever is configured beside it.
  pub resolve_dpop_context-token :
      (r : AdapterRequest) (signer : Signer) (resolver : Option Resolver) (require_dpop : Bool)
      (a b c d : ℕ) (before token after : Text)
      → get_header text_authorization (visible_headers r)
        ≡ some (credentials a b c d before token after)
      → IsScheme a b c d
      → AreSpaces before
      → HasNoSpace token
      → AreSpaces after
      → token ≢ []
      → resolve_dpop_context r (some signer) resolver none require_dpop
        ≡ some (record {
          signer = signer;
          method = r.method;
          url = r.url;
          source = from_token (some token);
        })
  unfolding resolve_dpop_context context_of
  resolve_dpop_context-token r signer resolver require_dpop a b c d before token after e h x y z n =
      let v = auth_header_value-set (visible_headers r) a _ e in
      rw (v, access_token-credentials a b c d before token after h x y z n) (ground (arith))

  -- Headers that the line format can carry give the same context encoded as in a record, whatever
  -- the signer, the configuration and the explicit context are.
  pub resolve_dpop_context-encoded :
      (r : AdapterRequest) (headers : Headers) (signer : Option Signer) (resolver : Option Resolver)
      (dpop : Option (PendingContext Signer Resolver)) (require_dpop : Bool)
      → AreHeaders headers
      → AreFresh [] headers
      → HasNoMark (header_lines headers)
      → resolve_dpop_context
          (record r { encoded_headers = some (encode_headers headers); headers = none })
          signer
          resolver
          dpop
          require_dpop
        ≡ resolve_dpop_context
            (record r { encoded_headers = none; headers = some headers })
            signer
            resolver
            dpop
            require_dpop
  unfolding resolve_dpop_context visible_headers
  resolve_dpop_context-encoded r headers signer resolver (some dpop) require_dpop h f m = refl
  resolve_dpop_context-encoded r headers signer resolver none require_dpop h f m =
      ap (λ (hs : Headers). context_of r.method r.url hs signer resolver require_dpop)
        (visible-encoded r (encode_headers headers) ∙ decode_headers-encode_headers headers h f m)
