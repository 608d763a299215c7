-- ===== src/App/Auth.antt =====
-- examples/demo-mobile/src/core/auth: tokenStore.ts and useAuthenticatedRequest.ts, and
-- core/network/handshakeValidator.ts. The secure store is a record of its two items; the errors
-- with which its calls reject are a `Keychain`, an argument. The client is what `executeRequest` answers to each attempt, numbered from 0;
-- when it fails with an answer's status it has zeroed the request's buffers, which the hook still holds.
pub mod Handshake
pub mod Outcomes
pub mod Refresh
pub mod Sent
use vesper_platform.Base.{
  ℕ, suc, ◌+◌, String, Bool, true, false, ◌||◌, not, Option, none, some, List, [], ◌∷◌, ◌++◌, ◌==◌,
  if◌then◌else◌, Bytes,
}
use vesper_platform.Binary.Utf8.{Text}
use vesper_platform.Binary.Headers.{Headers, assign}
use vesper_platform.Binary.Wire.{AdapterRequest}
use vesper_platform.Core.ErrorMatrix.{ErrorValue, primitive, object}
use vesper_platform.Core.Context.{non_empty, text_authorization, zero_request_buffers}
use vesper_platform.Core.Client.{Reply, answer, failure}
use vesper_platform.Adapters.Outcome.{is_ok}
use vesper_platform.App.Store.{AppState, logout}

-- SecureStore, at the keys "accessToken" and "refreshToken".
pub record TokenStore : Type 0 where
  pub access : Option Text
  pub refresh : Option Text

abbrev or_kept : Option Text → Option Text → Option Text
or_kept none kept = kept
or_kept (some token) kept = some token

-- An absent or empty token is not written.
unfoldable pub save_tokens : Option Text → Option Text → TokenStore → TokenStore
save_tokens access refresh s = record {
  access = or_kept (non_empty access) s.access;
  refresh = or_kept (non_empty refresh) s.refresh;
}

unfoldable pub clear_tokens : TokenStore → TokenStore
clear_tokens s = record { access = none; refresh = none }

-- The errors that a read, a write of the access token and one of the refresh token reject with.
pub record Keychain : Type 0 where
  pub read_error : Option ErrorValue
  pub access_error : Option ErrorValue
  pub refresh_error : Option ErrorValue

unfoldable pub get_access_token : Keychain → TokenStore → Reply (Option Text)
get_access_token keychain s = elim keychain.read_error [
  | none ↦ answer s.access
  | some e ↦ failure e
]

unfoldable pub get_refresh_token : Keychain → TokenStore → Reply (Option Text)
get_refresh_token keychain s = elim keychain.read_error [
  | none ↦ answer s.refresh
  | some e ↦ failure e
]

-- The error of writing a token, which is not written where there is none.
abbrev pub write_error : Option ErrorValue → Option Text → Option ErrorValue
write_error error none = none
write_error error (some token) = error

-- By the errors of the two writes: the error, and the store that is left.
unfoldable pub saved_with :
    Option ErrorValue
    → Option ErrorValue
    → Option Text
    → Option Text
    → TokenStore
    → Option ErrorValue × TokenStore
unfolding save_tokens
saved_with (some e) refresh_error access refresh s = (some e, s)
saved_with none (some e) access refresh s = (some e, save_tokens access none s)
saved_with none none access refresh s = (none, save_tokens access refresh s)

-- saveTokens where the store may reject.
unfoldable pub try_save_tokens :
    Keychain → Option Text → Option Text → TokenStore → Option ErrorValue × TokenStore
unfolding saved_with
try_save_tokens keychain access refresh s =
    saved_with (write_error keychain.access_error (non_empty access))
      (write_error keychain.refresh_error (non_empty refresh)) access refresh s

pub record ExecuteRequestConfig : Type 0 where
  pub method : Text
  pub path : Option Text
  pub url : Option Text
  pub headers : Option Headers
  pub encoded_headers : Option Bytes
  pub body : Option Bytes

-- What the call of the refresh endpoint comes to: an error, or a response with its status and what
-- reading its body gives, the two tokens where they are strings, or an error.
pub data RefreshReply : Type 0 where
  no_answer : ErrorValue → RefreshReply
  answered : ℕ → Reply (Option Text × Option Text) → RefreshReply

-- The hook's surroundings. `executed` logs the requests handed to the client, and `refreshes` the
-- tokens sent to the refresh endpoint.
pub record Session : Type 0 where
  pub tokens : TokenStore
  pub app : AppState
  pub executed : List AdapterRequest
  pub refreshes : List Text

abbrev or_else : Text → Option Text → Text
or_else d none = d
or_else d (some t) = t

unfoldable pub request_of : Text → ExecuteRequestConfig → AdapterRequest
request_of api_url config = record {
  method = config.method;
  url = or_else (api_url ++ or_else [] config.path) config.url;
  encoded_headers = config.encoded_headers;
  headers = config.headers;
  body = config.body;
  timeout_ms = none;
}

-- error?.status === 401
unfoldable pub is_unauthorized : ErrorValue → Bool
is_unauthorized primitive = false
is_unauthorized (object e) = elim e.status [ none ↦ false | some status ↦ status == 401 ]

-- new Error('Token refresh failed')
abbrev pub refresh_failed : ErrorValue
refresh_failed = object (record {
  ghost_http_status = none;
  is_axios_error = false;
  response = none;
  status = none;
  network_error = none;
  type_error_message = none;
})

-- `Bearer ${newAccess}`
unfoldable pub bearer : Option Text → Text
bearer access =
    b'B'
    ∷ b'e'
    ∷ b'a'
    ∷ b'r'
    ∷ b'e'
    ∷ b'r'
    ∷ b' '
    ∷ or_else (b'u' ∷ b'n' ∷ b'd' ∷ b'e' ∷ b'f' ∷ b'i' ∷ b'n' ∷ b'e' ∷ b'd' ∷ []) access

abbrev headers_or_empty : Option Headers → Headers
headers_or_empty none = []
headers_or_empty (some h) = h

-- The request again, as its buffers were left, with the new token.
unfoldable pub updated_request : Option Text → AdapterRequest → AdapterRequest
unfolding bearer
updated_request access request = record (zero_request_buffers request) {
  headers = some (assign text_authorization (bearer access) (headers_or_empty request.headers));
}

-- The catch block around the refresh.
abbrev pub log_out : Session → Session
log_out s = record s { app = logout s.app }

-- What comes of the retry: a failure ends the session, in the catch block.
unfoldable pub after_retry : {Answer : Type 0} → Reply Answer → Session → Reply Answer × Session
after_retry (answer a) s = (answer a, s)
after_retry (failure e) s = (failure e, log_out s)

module _ {Answer : Type 0} (keychain : Keychain) (client : ℕ → AdapterRequest → Reply Answer) where
  -- From what saving the new tokens comes to.
  unfoldable pub after_save :
      Option Text
      → AdapterRequest
      → Option ErrorValue × TokenStore
      → Session
      → Reply Answer × Session
  unfolding updated_request after_retry
  after_save access request (some e, tokens) s = (failure e, log_out (record s { tokens = tokens }))
  after_save access request (none, tokens) s =
      let again = updated_request access request in
      after_retry (client 1 again)
        (record s { tokens = tokens; executed = s.executed ++ again ∷ [] })

  unfoldable pub retry :
      Option Text → Option Text → AdapterRequest → Session → Reply Answer × Session
  unfolding after_save try_save_tokens
  retry access refresh request s =
      after_save access request (try_save_tokens keychain access refresh s.tokens) s

  -- From the answer of the refresh endpoint. A refusal logs out where it is found and once more in
  -- the catch block.
  unfoldable pub after_refresh : RefreshReply → AdapterRequest → Session → Reply Answer × Session
  unfolding retry
  after_refresh (no_answer e) request s = (failure e, log_out s)
  after_refresh (answered status (failure e)) request s =
      if status == 401 || not (is_ok status)
      then (failure refresh_failed, log_out (log_out s))
      else (failure e, log_out s)
  after_refresh (answered status (answer pair)) request s =
      if status == 401 || not (is_ok status)
      then (failure refresh_failed, log_out (log_out s))
      else retry pair.0 pair.1 request s

  module _ (refresh : Text → RefreshReply) where
    -- After a first attempt that failed with the status 401, with the stored token.
    unfoldable pub refresh_session :
        Option Text → ErrorValue → AdapterRequest → Session → Reply Answer × Session
    unfolding after_refresh
    refresh_session none error request s = (failure error, log_out s)
    refresh_session (some token) error request s =
        after_refresh (refresh token) request (record s { refreshes = s.refreshes ++ token ∷ [] })

    -- From what reading the stored token comes to. This read is outside the inner try block.
    unfoldable pub after_read :
        Reply (Option Text) → ErrorValue → AdapterRequest → Session → Reply Answer × Session
    unfolding refresh_session
    after_read (failure e) error request s = (failure e, s)
    after_read (answer token) error request s = refresh_session (non_empty token) error request s

    unfoldable pub after_attempt : Reply Answer → AdapterRequest → Session → Reply Answer × Session
    unfolding after_read get_refresh_token
    after_attempt (answer a) request s = (answer a, s)
    after_attempt (failure e) request s =
        if is_unauthorized e
        then after_read (get_refresh_token keychain s.tokens) e request s
        else (failure e, s)

    unfoldable pub execute : Text → ExecuteRequestConfig → Session → Reply Answer × Session
    unfolding after_attempt request_of
    execute api_url config s =
        let request = request_of api_url config in
        after_attempt (client 0 request) request
          (record s { executed = s.executed ++ request ∷ [] })
