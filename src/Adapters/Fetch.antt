-- ===== src/Adapters/Fetch.antt =====
-- packages/ghost-ledger/src/adapters/fetch: fetchWithTrapping and FetchAdapter.
use vesper_platform.Base.{ℕ, String, Option, none, some, [], if◌then◌else◌}
use vesper_platform.Binary.Utf8.{Text}
use vesper_platform.Binary.Headers.{Headers}
use vesper_platform.Binary.Wire.{AdapterRequest}
use vesper_platform.Adapters.Outcome.{
  AdapterResponse, ghost_http_error, type_error, Outcome, returned, thrown, ◌>>=◌, http_message,
  resolved_headers, resolved_body, unless_empty, collect_headers, is_ok,
}

-- RequestInit
pub record FetchInit : Type 0 where
  pub method : Text
  pub headers : Option Headers
  pub body : Option Text

-- A Response; `json` is what response.json() comes to.
pub record FetchResponse (Data Json : Type 0) : Type 0 where
  pub status : ℕ
  pub status_text : Text
  pub headers : Headers
  pub json : Outcome Data Json

-- A fetch implementation.
abbrev pub FetchFn : Type 0 → Type 0 → Type 0
FetchFn Data Json = Text → FetchInit → Outcome Data (FetchResponse Data Json)

-- first ?? second
abbrev pub first_fetch {ℓ} : {A : Type ℓ} → Option A → Option A → Option A
first_fetch none second = second
first_fetch (some f) second = some f

abbrev pub no_fetch_message : String
no_fetch_message =
    "[GhostLedger] fetchWithTrapping: no fetch implementation available. Pass a fetchImpl option (e.g. node-fetch, cross-fetch) for environments that do not provide a global fetch."

-- globalThis.fetch is `none` where it is no function.
module _ {Data Json : Type 0} where
  unfoldable pub trap : FetchResponse Data Json → Outcome Data (FetchResponse Data Json)
  trap response =
      if is_ok response.status
      then returned response
      else thrown
          (ghost_http_error response.status (http_message response.status response.status_text))

  unfoldable pub fetch_with_trapping :
      Option (FetchFn Data Json)
      → Option (FetchFn Data Json)
      → Text
      → FetchInit
      → Outcome Data (FetchResponse Data Json)
  unfolding trap
  fetch_with_trapping global_fetch fetch_impl url init =
      elim (first_fetch fetch_impl global_fetch) [
        | none ↦ thrown (type_error no_fetch_message)
        | some fetch_fn ↦ fetch_fn url init >>= trap
      ]

unfoldable pub fetch_init : AdapterRequest → FetchInit
fetch_init config = record {
  method = config.method;
  headers = unless_empty (resolved_headers config);
  body = resolved_body config;
}

module _ {Data : Type 0} where
  unfoldable pub fetch_response : FetchResponse Data Data → Outcome Data (AdapterResponse Data)
  fetch_response response = do
    content ← response.json
    returned (record {
      status = response.status;
      status_text = response.status_text;
      headers = collect_headers response.headers [];
      content = content;
    })

  unfoldable pub fetch_request :
      Option (FetchFn Data Data)
      → Option (FetchFn Data Data)
      → AdapterRequest
      → Outcome Data (AdapterResponse Data)
  unfolding fetch_with_trapping fetch_response
  fetch_request global_fetch fetch_impl config = do
    response ← fetch_with_trapping global_fetch fetch_impl config.url (fetch_init config)
    fetch_response response
