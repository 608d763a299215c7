-- ===== src/Adapters/Axios.antt =====
-- packages/ghost-ledger/src/adapters/axios: axiosWithTrapping and AxiosAdapter.
use vesper_platform.Base.{ℕ, Option, leb, if◌then◌else◌}
use vesper_platform.Binary.Utf8.{Text}
use vesper_platform.Binary.Headers.{Headers}
use vesper_platform.Binary.Wire.{AdapterRequest}
use vesper_platform.Adapters.Outcome.{
  AdapterResponse, ghost_http_error, Outcome, returned, thrown, ◌>>=◌, http_message,
  resolved_headers, resolved_body, unless_empty,
}

pub record AxiosConfig : Type 0 where
  pub method : Text
  pub url : Text
  pub headers : Option Headers
  pub content : Option Text
  pub timeout : Option ℕ

-- axiosInstance.request
abbrev pub AxiosRequest : Type 0 → Type 0
AxiosRequest Data = AxiosConfig → Outcome Data (AdapterResponse Data)

unfoldable pub axios_config : AdapterRequest → AxiosConfig
axios_config config = record {
  method = config.method;
  url = config.url;
  headers = unless_empty (resolved_headers config);
  content = resolved_body config;
  timeout = config.timeout_ms;
}

module _ {Data : Type 0} where
  unfoldable pub trap : AdapterResponse Data → Outcome Data (AdapterResponse Data)
  trap response =
      if leb 400 response.status
      then thrown
          (ghost_http_error response.status (http_message response.status response.status_text))
      else returned response

  unfoldable pub axios_with_trapping :
      AxiosRequest Data → AxiosConfig → Outcome Data (AdapterResponse Data)
  unfolding trap
  axios_with_trapping request config = request config >>= trap

  unfoldable pub axios_request :
      AxiosRequest Data → AdapterRequest → Outcome Data (AdapterResponse Data)
  unfolding axios_with_trapping
  axios_request request config = axios_with_trapping request (axios_config config)
