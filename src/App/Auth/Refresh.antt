-- ===== src/App/Auth/Refresh.antt =====
-- How often `execute` sends a request, and what it leaves behind.
use vesper_platform.Base.{
  ℕ, ◌+◌, ◌≤◌, Option, none, some, [], ◌∷◌, ◌++◌, length, length-append, arith,
}
use vesper_platform.Binary.Utf8.{Text}
use vesper_platform.Binary.Wire.{AdapterRequest}
use vesper_platform.Core.ErrorMatrix.{ErrorValue}
use vesper_platform.Core.Context.{non_empty}
use vesper_platform.Core.Client.{Reply, answer, failure}
use vesper_platform.App.Auth.{
  Session, ExecuteRequestConfig, RefreshReply, no_answer, answered, get_refresh_token, Keychain,
  TokenStore, try_save_tokens, after_save, after_read, request_of, updated_request, after_retry,
  retry, after_refresh, refresh_session, after_attempt, execute,
}

-- At most `m` requests and `n` refreshes more.
abbrev pub IsWithin : ℕ → ℕ → Session → Session → Type 0
IsWithin m n s t =
    (length t.executed ≤ length s.executed + m) × (length t.refreshes ≤ length s.refreshes + n)

after_retry-IsWithin :
    {Answer : Type 0} (r : Reply Answer) (s : Session) → IsWithin 0 0 s (after_retry r s).1
unfolding after_retry
after_retry-IsWithin (answer a) s = omega arith
after_retry-IsWithin (failure e) s = omega arith

module _ {Answer : Type 0} (keychain : Keychain) (client : ℕ → AdapterRequest → Reply Answer) where
  after_save-IsWithin :
      (access : Option Text) (request : AdapterRequest) (saved : Option ErrorValue × TokenStore)
      (s : Session)
      → IsWithin 1 0 s (after_save keychain client access request saved s).1
  unfolding after_save
  after_save-IsWithin access request (some e, tokens) s = omega arith
  after_save-IsWithin access request (none, tokens) s =
      let again = updated_request access request in
      let sent = record s { tokens = tokens; executed = s.executed ++ again ∷ [] } in
      omega
        (arith, length-append s.executed (again ∷ []), after_retry-IsWithin (client 1 again) sent)

  retry-IsWithin :
      (access refresh : Option Text) (request : AdapterRequest) (s : Session)
      → IsWithin 1 0 s (retry keychain client access refresh request s).1
  unfolding retry
  retry-IsWithin access refresh request s =
      after_save-IsWithin access request (try_save_tokens keychain access refresh s.tokens) s

  after_refresh-IsWithin :
      (r : RefreshReply) (request : AdapterRequest) (s : Session)
      → IsWithin 1 0 s (after_refresh keychain client r request s).1
  unfolding after_refresh
  after_refresh-IsWithin (no_answer e) request s = omega arith
  after_refresh-IsWithin (answered status (failure e)) request s = ground arith
  after_refresh-IsWithin (answered status (answer pair)) request s =
      ground (arith, retry-IsWithin pair.0 pair.1 request s)

  module _ (refresh : Text → RefreshReply) where
    refresh_session-IsWithin :
        (token : Option Text) (e : ErrorValue) (request : AdapterRequest) (s : Session)
        → IsWithin 1 1 s (refresh_session keychain client refresh token e request s).1
    unfolding refresh_session
    refresh_session-IsWithin none e request s = omega arith
    refresh_session-IsWithin (some token) e request s =
        let sent = record s { refreshes = s.refreshes ++ token ∷ [] } in
        omega (
          arith,
          length-append s.refreshes (token ∷ []),
          after_refresh-IsWithin (refresh token) request sent,
        )

    after_read-IsWithin :
        (stored : Reply (Option Text)) (e : ErrorValue) (request : AdapterRequest) (s : Session)
        → IsWithin 1 1 s (after_read keychain client refresh stored e request s).1
    unfolding after_read
    after_read-IsWithin (failure f) e request s = omega arith
    after_read-IsWithin (answer token) e request s =
        refresh_session-IsWithin (non_empty token) e request s

    after_attempt-IsWithin :
        (r : Reply Answer) (request : AdapterRequest) (s : Session)
        → IsWithin 1 1 s (after_attempt keychain client refresh r request s).1
    unfolding after_attempt
    after_attempt-IsWithin (answer a) request s = omega arith
    after_attempt-IsWithin (failure e) request s =
        ground (arith, after_read-IsWithin (get_refresh_token keychain s.tokens) e request s)

    -- Whatever the client, the token store and the refresh endpoint answer, `execute` ends after handing at most two
    -- requests to the client and at most one token to the refresh endpoint.
    pub execute-IsWithin :
        (api_url : Text) (config : ExecuteRequestConfig) (s : Session)
        → IsWithin 2 1 s (execute keychain client refresh api_url config s).1
    unfolding execute
    execute-IsWithin api_url config s =
        let request = request_of api_url config in
        let tried = record s { executed = s.executed ++ request ∷ [] } in
        omega (
          arith,
          length-append s.executed (request ∷ []),
          after_attempt-IsWithin (client 0 request) request tried,
        )
