-- ===== src/Adapters/Encoded.antt =====
-- Encoded headers against a record of them, in all three adapters.
use vesper_platform.Base.{◌≡◌, refl, ap, ◌∙◌, Option, none, some, [], ◌∷◌, Bytes, arith}
use vesper_platform.Binary.Utf8.{Text}
use vesper_platform.Binary.Utf8.RoundTrip.{HasNoMark}
use vesper_platform.Binary.Headers.{Headers, header_lines, encode_headers, decode_headers}
use vesper_platform.Binary.Headers.Lines.{AreHeaders, AreFresh}
use vesper_platform.Binary.Headers.RoundTrip.{decode_headers-encode_headers}
use vesper_platform.Binary.Wire.{AdapterRequest}
use vesper_platform.Adapters.Outcome.{resolved_headers, resolved_body, unless_empty, ◌>>=◌}
use vesper_platform.Adapters.Fetch.{
  first_fetch, FetchFn, FetchInit, fetch_init, fetch_request, fetch_with_trapping, fetch_response,
}
use vesper_platform.Adapters.Axios.{
  AxiosConfig, AxiosRequest, axios_config, axios_request, axios_with_trapping,
}
use vesper_platform.Adapters.Graphql.{
  Envelope, graphql_init, post_graphql, graphql_request, with_defaults,
}

abbrev pub encoded : AdapterRequest → Headers → AdapterRequest
encoded r headers = record r { encoded_headers = some (encode_headers headers); headers = none }

abbrev pub plain : AdapterRequest → Headers → AdapterRequest
plain r headers = record r { encoded_headers = none; headers = some headers }

pub resolved_headers-bytes :
    (r : AdapterRequest) (bytes : Bytes)
    → resolved_headers (record r { encoded_headers = some bytes; headers = none })
      ≡ decode_headers bytes
unfolding resolved_headers decode_headers
resolved_headers-bytes r [] = refl
resolved_headers-bytes r (x ∷ b) = ground arith

resolved_headers-encoded :
    (r : AdapterRequest) (headers : Headers)
    → AreHeaders headers
    → AreFresh [] headers
    → HasNoMark (header_lines headers)
    → resolved_headers (encoded r headers) ≡ headers
resolved_headers-encoded r headers h f m =
    resolved_headers-bytes r (encode_headers headers) ∙ decode_headers-encode_headers headers h f m

-- What is made of the headers is the same.
fetch_init-encoded :
    (r : AdapterRequest) (headers : Headers)
    → resolved_headers (encoded r headers) ≡ headers
    → fetch_init (encoded r headers) ≡ fetch_init (plain r headers)
unfolding fetch_init resolved_headers resolved_body
fetch_init-encoded r headers e =
    ap
      (λ (hs : Headers). record {
        method = r.method;
        headers = unless_empty hs;
        body = resolved_body r;
      })
      e

axios_config-encoded :
    (r : AdapterRequest) (headers : Headers)
    → resolved_headers (encoded r headers) ≡ headers
    → axios_config (encoded r headers) ≡ axios_config (plain r headers)
unfolding axios_config resolved_headers resolved_body
axios_config-encoded r headers e =
    ap
      (λ (hs : Headers). record {
        method = r.method;
        url = r.url;
        headers = unless_empty hs;
        content = resolved_body r;
        timeout = r.timeout_ms;
      })
      e

graphql_init-encoded :
    (r : AdapterRequest) (headers : Headers)
    → resolved_headers (encoded r headers) ≡ headers
    → graphql_init (encoded r headers) ≡ graphql_init (plain r headers)
unfolding graphql_init resolved_headers resolved_body
graphql_init-encoded r headers e =
    ap (λ (hs : Headers). record (graphql_init r) { headers = some (with_defaults hs) }) e

-- Each of the three adapters comes to the same outcome, by the same call of its HTTP client, for a
-- request with encoded headers as for one with those headers as a record. The headers are such as the
-- line format can carry, with distinct keys and no byte order mark at the start; there may be none.
pub adapters_encoded :
    {Data : Type 0} (global_fetch fetch_impl : Option (FetchFn Data Data))
    (global_graphql graphql_impl : Option (FetchFn Data (Envelope Data)))
    (axios : AxiosRequest Data) (url : Text) (r : AdapterRequest) (headers : Headers)
    → AreHeaders headers
    → AreFresh [] headers
    → HasNoMark (header_lines headers)
    → (fetch_request global_fetch fetch_impl (encoded r headers)
        ≡ fetch_request global_fetch fetch_impl (plain r headers))
      × (axios_request axios (encoded r headers) ≡ axios_request axios (plain r headers))
      × (graphql_request global_graphql graphql_impl url (encoded r headers)
          ≡ graphql_request global_graphql graphql_impl url (plain r headers))
unfolding fetch_request axios_request graphql_request
adapters_encoded global_fetch fetch_impl global_graphql graphql_impl axios url r headers h f m =
    let e = resolved_headers-encoded r headers h f m in
    (
      ap
          (λ (init : FetchInit).
            fetch_with_trapping global_fetch fetch_impl r.url init >>= fetch_response)
          (fetch_init-encoded r headers e),
      ap (λ (config : AxiosConfig). axios_with_trapping axios config)
          (axios_config-encoded r headers e),
      ap (λ (init : FetchInit). post_graphql (first_fetch graphql_impl global_graphql) url init)
          (graphql_init-encoded r headers e),
    )
