-- ===== src/Adapters/Proven.antt =====
-- What an adapter sends of a request that was given a proof: the header of the proof among the others.
use vesper_platform.Base.{Option, ◌≡◌, none, some}
use vesper_platform.Binary.Utf8.{Text}
use vesper_platform.Binary.Headers.{Headers}
use vesper_platform.Binary.Wire.{AdapterRequest, Received}
use vesper_platform.Adapters.Fetch.{
  FetchFn, fetch_init, first_fetch, fetch_with_trapping, fetch_response, fetch_request,
}
use vesper_platform.Adapters.Axios.{AxiosRequest, axios_config, axios_with_trapping, axios_request}
use vesper_platform.Adapters.Graphql.{
  Envelope, with_defaults, graphql_init, post_graphql, graphql_request,
}
use vesper_platform.Adapters.Outcome.{◌>>=◌}

-- A deserialized request as the adapter takes it.
abbrev pub request_from : Received → AdapterRequest
request_from d = record {
  method = d.method;
  url = d.url;
  encoded_headers = some d.encoded_headers;
  headers = none;
  body = d.body;
  timeout_ms = d.timeout_ms;
}

module _ {Data : Type 0} (global_fetch fetch_impl : Option (FetchFn Data Data))
    (global_graphql graphql_impl : Option (FetchFn Data (Envelope Data)))
    (axios : AxiosRequest Data) (url : Text) where
  -- The calls that the three adapters make for a request, with these headers in place of those that they
  -- read off it. The GraphQL adapter has its defaults under them.
  abbrev pub IsSentWith : AdapterRequest → Headers → Type 0
  IsSentWith r headers =
      (fetch_request global_fetch fetch_impl r ≡ (
        fetch_with_trapping global_fetch fetch_impl r.url
          (record (fetch_init r) { headers = some headers })
        >>= fetch_response))
      × (axios_request axios r
          ≡ axios_with_trapping axios (record (axios_config r) { headers = some headers }))
      × (graphql_request global_graphql graphql_impl url r
          ≡ post_graphql (first_fetch graphql_impl global_graphql) url
              (record (graphql_init r) { headers = some (with_defaults headers) }))
