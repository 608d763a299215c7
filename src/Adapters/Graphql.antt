-- ===== src/Adapters/Graphql.antt =====
-- packages/ghost-ledger/src/adapters/graphql: GraphQLAdapter, graphqlWithTrapping and
-- GraphQLRequestError.
use vesper_platform.Base.{String, Option, none, some, List, [], ◌∷◌, ◌++◌}
use vesper_platform.Binary.Utf8.{Text}
use vesper_platform.Binary.Headers.{Headers, assign}
use vesper_platform.Binary.Json.{Json, string, object, Members, empty, member, stringify}
use vesper_platform.Binary.Wire.{AdapterRequest}
use vesper_platform.Adapters.Outcome.{
  AdapterResponse, AdapterError, type_error, graphql_request_error, Outcome, returned, thrown,
  ◌>>=◌, resolved_headers, resolved_body, collect_headers,
}
use vesper_platform.Adapters.Fetch.{FetchInit, FetchResponse, FetchFn, first_fetch, trap}

-- The body of a response: the messages of `errors` where that is an array, and `data` where it is
-- neither undefined nor null.
pub record Envelope (Data : Type 0) : Type 0 where
  pub errors : Option (List Text)
  pub content : Option Data

pub record GraphqlQuery : Type 0 where
  pub query : Text
  pub variables : Option Json
  pub operation_name : Option Text

abbrev pub no_adapter_fetch_message : String
no_adapter_fetch_message =
    "[GhostLedger] GraphQLAdapter: no fetch implementation available. Pass a fetchImpl option for environments without a global fetch."

abbrev pub no_graphql_fetch_message : String
no_graphql_fetch_message =
    "[GhostLedger] graphqlWithTrapping: no fetch implementation available. Pass a fetchImpl option (e.g. node-fetch, cross-fetch) for environments that do not provide a global fetch."

-- "GraphQL response contained no data and no errors."
abbrev pub no_data_message : Text
no_data_message =
    b'G' ∷ b'r' ∷ b'a' ∷ b'p' ∷ b'h' ∷ b'Q' ∷ b'L' ∷ b' ' ∷ b'r' ∷ b'e' ∷ b's' ∷ b'p' ∷ b'o' ∷ b'n'
    ∷ b's' ∷ b'e' ∷ b' ' ∷ b'c' ∷ b'o' ∷ b'n' ∷ b't' ∷ b'a' ∷ b'i' ∷ b'n' ∷ b'e' ∷ b'd' ∷ b' '
    ∷ b'n' ∷ b'o' ∷ b' ' ∷ b'd' ∷ b'a' ∷ b't' ∷ b'a' ∷ b' ' ∷ b'a' ∷ b'n' ∷ b'd' ∷ b' ' ∷ b'n'
    ∷ b'o' ∷ b' ' ∷ b'e' ∷ b'r' ∷ b'r' ∷ b'o' ∷ b'r' ∷ b's' ∷ b'.' ∷ []

abbrev pub text_content_type : Text
text_content_type =
    b'C' ∷ b'o' ∷ b'n' ∷ b't' ∷ b'e' ∷ b'n' ∷ b't' ∷ b'-' ∷ b'T' ∷ b'y' ∷ b'p' ∷ b'e' ∷ []

abbrev pub text_accept : Text
text_accept = b'A' ∷ b'c' ∷ b'c' ∷ b'e' ∷ b'p' ∷ b't' ∷ []

abbrev pub text_json : Text
text_json =
    b'a' ∷ b'p' ∷ b'p' ∷ b'l' ∷ b'i' ∷ b'c' ∷ b'a' ∷ b't' ∷ b'i' ∷ b'o' ∷ b'n' ∷ b'/' ∷ b'j' ∷ b's'
    ∷ b'o' ∷ b'n' ∷ []

abbrev text_post : Text
text_post = b'P' ∷ b'O' ∷ b'S' ∷ b'T' ∷ []

-- errors.map((e) => e.message).join(' | ')
unfoldable pub join_messages : List Text → Text
join_messages [] = []
join_messages (m ∷ []) = m
join_messages (m ∷ n ∷ rest) = m ++ b' ' ∷ b'|' ∷ b' ' ∷ join_messages (n ∷ rest)

-- new GraphQLRequestError(errors, partialData)
unfoldable pub request_error : {Data : Type 0} → List Text → Option Data → AdapterError Data
request_error errors partial_data = graphql_request_error (join_messages errors) errors partial_data

-- { ...defaults, ...headers }
abbrev pub assign_each : Headers → Headers → Headers
assign_each [] result = result
assign_each ((key, value) ∷ rest) result = assign_each rest (assign key value result)

-- The defaults, under the caller's headers.
unfoldable pub with_defaults : Headers → Headers
with_defaults headers =
    assign_each headers ((text_content_type, text_json) ∷ (text_accept, text_json) ∷ [])

abbrev body_or_empty : Option Text → Text
body_or_empty none = b'{' ∷ b'}' ∷ []
body_or_empty (some body) = body

unfoldable pub graphql_init : AdapterRequest → FetchInit
unfolding with_defaults
graphql_init config = record {
  method = text_post;
  headers = some (with_defaults (resolved_headers config));
  body = some (body_or_empty (resolved_body config));
}

abbrev optional : Text → Option Json → Members → Members
optional name none rest = rest
optional name (some value) rest = member name value rest

abbrev string_option : Option Text → Option Json
string_option none = none
string_option (some t) = some (string t)

-- { query, variables?, operationName? }
unfoldable pub query_body : GraphqlQuery → Json
query_body request = object (
    member (b'q' ∷ b'u' ∷ b'e' ∷ b'r' ∷ b'y' ∷ []) (string request.query) (
      optional (b'v' ∷ b'a' ∷ b'r' ∷ b'i' ∷ b'a' ∷ b'b' ∷ b'l' ∷ b'e' ∷ b's' ∷ []) request.variables
        (optional
          (b'o' ∷ b'p' ∷ b'e' ∷ b'r' ∷ b'a' ∷ b't' ∷ b'i' ∷ b'o' ∷ b'n' ∷ b'N' ∷ b'a' ∷ b'm' ∷ b'e'
            ∷ [])
          (string_option request.operation_name) empty)))

module _ {Data : Type 0} where
  -- From the envelope to the data, or the error that there is none.
  unfoldable pub read_data : Option Data → Outcome Data Data
  unfolding request_error
  read_data none = thrown (request_error (no_data_message ∷ []) none)
  read_data (some content) = returned content

  unfoldable pub read_envelope : Option (List Text) → Option Data → Outcome Data Data
  unfolding read_data request_error
  read_envelope none content = read_data content
  read_envelope (some []) content = read_data content
  read_envelope (some (m ∷ ms)) content = thrown (request_error (m ∷ ms) content)

  -- From the response of fetch: the status, then the envelope.
  unfoldable pub read_response :
      FetchResponse Data (Envelope Data) → Outcome Data (FetchResponse Data (Envelope Data) × Data)
  unfolding trap
  read_response response = do
    ok ← trap response
    envelope ← ok.json
    content ← read_envelope envelope.errors envelope.content
    returned (ok, content)

  -- From the call of fetch to the adapter's answer.
  unfoldable pub post_graphql :
      Option (FetchFn Data (Envelope Data)) → Text → FetchInit → Outcome Data (AdapterResponse Data)
  unfolding read_response
  post_graphql none url init = thrown (type_error no_adapter_fetch_message)
  post_graphql (some fetch_fn) url init = do
    response ← fetch_fn url init
    read ← read_response response
    returned (record {
      status = read.0.status;
      status_text = read.0.status_text;
      headers = collect_headers read.0.headers [];
      content = read.1;
    })

  unfoldable pub graphql_request :
      Option (FetchFn Data (Envelope Data))
      → Option (FetchFn Data (Envelope Data))
      → Text
      → AdapterRequest
      → Outcome Data (AdapterResponse Data)
  unfolding post_graphql
  graphql_request global_fetch fetch_impl url config =
      post_graphql (first_fetch fetch_impl global_fetch) url (graphql_init config)

  -- `headers` is {} where the options have none.
  unfoldable pub graphql_with_trapping :
      Option (FetchFn Data (Envelope Data))
      → Option (FetchFn Data (Envelope Data))
      → Headers
      → Text
      → GraphqlQuery
      → Outcome Data Data
  unfolding read_response with_defaults query_body
  graphql_with_trapping global_fetch fetch_impl headers url request =
      elim (first_fetch fetch_impl global_fetch) [
        | none ↦ thrown (type_error no_graphql_fetch_message)
        | some fetch_fn ↦ do
          response ← fetch_fn url (record {
            method = text_post;
            headers = some (with_defaults headers);
            body = some (stringify (query_body request));
          })
          read ← read_response response
          returned read.1
      ]
