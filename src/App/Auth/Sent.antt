-- ===== src/App/Auth/Sent.antt =====
-- The requests that `execute` hands to the client: the first is the one of its configuration.
use vesper_platform.Base.{
  ℕ, ◌≡◌, refl, sym, ◌∙◌, ◌||◌, not, ◌==◌, Option, none, some, List, [], ◌∷◌, ◌++◌, append_assoc,
  append-nil, if_cases,
}
use vesper_platform.Binary.Utf8.{Text}
use vesper_platform.Binary.Wire.{AdapterRequest}
use vesper_platform.Core.ErrorMatrix.{ErrorValue}
use vesper_platform.Core.Context.{non_empty}
use vesper_platform.Core.Client.{Reply, answer, failure}
use vesper_platform.Adapters.Outcome.{is_ok}
use vesper_platform.App.Auth.{
  Session, ExecuteRequestConfig, RefreshReply, no_answer, answered, get_refresh_token, Keychain,
  TokenStore, try_save_tokens, request_of, is_unauthorized, updated_request, after_retry,
  after_save, retry, after_refresh, refresh_session, after_read, after_attempt, execute,
}

-- Only more requests stand in the log.
abbrev pub IsLonger : Session → Session → Type 0
IsLonger s t = (more : List AdapterRequest) × (t.executed ≡ s.executed ++ more)

none-IsLonger : (s t : Session) → t.executed ≡ s.executed → IsLonger s t
none-IsLonger s t e = ([], e ∙ sym (append-nil s.executed))

after_retry-IsLonger :
    {Answer : Type 0} (r : Reply Answer) (s : Session) → IsLonger s (after_retry r s).1
unfolding after_retry
after_retry-IsLonger (answer a) s = none-IsLonger s s refl
after_retry-IsLonger (failure e) s = none-IsLonger s s refl

module _ {Answer : Type 0} (keychain : Keychain) (client : ℕ → AdapterRequest → Reply Answer) where
  after_save-IsLonger :
      (access : Option Text) (request : AdapterRequest) (saved : Option ErrorValue × TokenStore)
      (s : Session)
      → IsLonger s (after_save keychain client access request saved s).1
  unfolding after_save
  after_save-IsLonger access request (some e, tokens) s = none-IsLonger s s refl
  after_save-IsLonger access request (none, tokens) s =
      let again = updated_request access request in
      let (more, e) =
        after_retry-IsLonger (client 1 again)
          (record s { tokens = tokens; executed = s.executed ++ again ∷ [] }) in
      (again ∷ more, e ∙ append_assoc s.executed (again ∷ []) more)

  after_refresh-IsLonger :
      (r : RefreshReply) (request : AdapterRequest) (s : Session)
      → IsLonger s (after_refresh keychain client r request s).1
  unfolding after_refresh retry
  after_refresh-IsLonger (no_answer e) request s = none-IsLonger s s refl
  after_refresh-IsLonger (answered status (failure e)) request s =
      if_cases (λ (o : Reply Answer × Session). IsLonger s o.1)
        (status == 401 || not (is_ok status)) _ _ (λ _. none-IsLonger s s refl)
        (λ _. none-IsLonger s s refl)
  after_refresh-IsLonger (answered status (answer pair)) request s =
      if_cases (λ (o : Reply Answer × Session). IsLonger s o.1)
        (status == 401 || not (is_ok status)) _ _ (λ _. none-IsLonger s s refl)
        (λ _.
          after_save-IsLonger pair.0 request (try_save_tokens keychain pair.0 pair.1 s.tokens) s)

  module _ (refresh : Text → RefreshReply) where
    refresh_session-IsLonger :
        (token : Option Text) (e : ErrorValue) (request : AdapterRequest) (s : Session)
        → IsLonger s (refresh_session keychain client refresh token e request s).1
    unfolding refresh_session
    refresh_session-IsLonger none e request s = none-IsLonger s s refl
    refresh_session-IsLonger (some token) e request s =
        after_refresh-IsLonger (refresh token) request
          (record s { refreshes = s.refreshes ++ token ∷ [] })

    after_read-IsLonger :
        (stored : Reply (Option Text)) (e : ErrorValue) (request : AdapterRequest) (s : Session)
        → IsLonger s (after_read keychain client refresh stored e request s).1
    unfolding after_read
    after_read-IsLonger (failure f) e request s = none-IsLonger s s refl
    after_read-IsLonger (answer token) e request s =
        refresh_session-IsLonger (non_empty token) e request s

    after_attempt-IsLonger :
        (r : Reply Answer) (request : AdapterRequest) (s : Session)
        → IsLonger s (after_attempt keychain client refresh r request s).1
    unfolding after_attempt
    after_attempt-IsLonger (answer a) request s = none-IsLonger s s refl
    after_attempt-IsLonger (failure e) request s =
        if_cases (λ (o : Reply Answer × Session). IsLonger s o.1) (is_unauthorized e) _ _
          (λ _. after_read-IsLonger (get_refresh_token keychain s.tokens) e request s)
          (λ _. none-IsLonger s s refl)

    pub executed-execute :
        (api_url : Text) (config : ExecuteRequestConfig) (s : Session)
        → (more : List AdapterRequest) × ((execute keychain client refresh api_url config
              s).1.executed
            ≡ s.executed ++ request_of api_url config ∷ more)
    unfolding execute
    executed-execute api_url config s =
        let request = request_of api_url config in
        let (more, e) =
          after_attempt-IsLonger (client 0 request) request
            (record s { executed = s.executed ++ request ∷ [] }) in
        (more, e ∙ append_assoc s.executed (request ∷ []) more)
