-- ===== src/Adapters/Outcome.antt =====
-- What the adapters have in common: responses, the errors of types.ts and adapters/graphql/error.ts,
-- and the translation of headers and body that each adapter begins with.
use vesper_platform.Base.{
  ℕ, String, Bool, false, ◌&&◌, Option, none, some, List, [], ◌∷◌, ◌++◌, ltb, leb, if◌then◌else◌,
  length,
}
use vesper_platform.Binary.Utf8.{Text, decode_text}
use vesper_platform.Binary.Headers.{Headers, assign, decode_headers}
use vesper_platform.Binary.Json.{decimal}
use vesper_platform.Binary.Wire.{AdapterRequest}
use vesper_platform.Core.ErrorMatrix.{ErrorValue, object, ErrorObject}

-- GhostAdapterResponse
pub record AdapterResponse (Data : Type 0) : Type 0 where
  pub status : ℕ
  pub status_text : Text
  pub headers : Headers
  pub content : Data

-- A GraphQLRequestError holds the messages of its errors, and the data that came with them.
pub data AdapterError (Data : Type 0) : Type 0 where
  ghost_http_error : ℕ → Text → AdapterError Data
  type_error : String → AdapterError Data
  graphql_request_error : Text → List Text → Option Data → AdapterError Data
  -- what the HTTP client raised
  foreign : ErrorValue → AdapterError Data

pub data Outcome (Data A : Type 0) : Type 0 where
  returned : A → Outcome Data A
  thrown : AdapterError Data → Outcome Data A

infixl 5 ◌>>=◌
abbrev pub ◌>>=◌ : {Data A B : Type 0} → Outcome Data A → (A → Outcome Data B) → Outcome Data B
returned a >>= f = f a
thrown e >>= f = thrown e

abbrev bare : ErrorObject
bare = record {
  ghost_http_status = none;
  is_axios_error = false;
  response = none;
  status = none;
  network_error = none;
  type_error_message = none;
}

-- What the error matrix reads of an error.
unfoldable pub error_value : {Data : Type 0} → AdapterError Data → ErrorValue
error_value (ghost_http_error status message) =
    object (record bare { ghost_http_status = some status; status = some status })
error_value (type_error message) = object (record bare { type_error_message = some message })
error_value (graphql_request_error message errors partial_data) = object bare
error_value (foreign e) = e

-- `HTTP ${status} ${statusText}`
unfoldable pub http_message : ℕ → Text → Text
http_message status status_text =
    b'H' ∷ b'T' ∷ b'T' ∷ b'P' ∷ b' ' ∷ (decimal status ++ b' ' ∷ status_text)

abbrev headers_or_empty : Option Headers → Headers
headers_or_empty none = []
headers_or_empty (some headers) = headers

-- The encoded headers where there are any bytes, else the record, else {}.
unfoldable pub resolved_headers : AdapterRequest → Headers
resolved_headers request = elim request.encoded_headers [
  | some encoded ↦
      if ltb 0 (length encoded) then decode_headers encoded else headers_or_empty request.headers
  | none ↦ headers_or_empty request.headers
]

unfoldable pub resolved_body : AdapterRequest → Option Text
resolved_body request = elim request.body [ some body ↦ some (decode_text body) | none ↦ none ]

-- `headers` is set only where there is one.
abbrev pub unless_empty : Headers → Option Headers
unless_empty [] = none
unless_empty (h ∷ rest) = some (h ∷ rest)

-- response.headers.forEach((value, key) => { responseHeaders[key] = value; })
abbrev pub collect_headers : Headers → Headers → Headers
collect_headers [] result = result
collect_headers ((key, value) ∷ rest) result = collect_headers rest (assign key value result)

-- response.ok, of the fetch standard
unfoldable pub is_ok : ℕ → Bool
is_ok status = leb 200 status && leb status 299
