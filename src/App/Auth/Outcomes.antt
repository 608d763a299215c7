-- ===== src/App/Auth/Outcomes.antt =====
-- What `execute` answers, and what it does to the session.
use vesper_platform.Base.{
  subst, sym, ℕ, ◌≡◌, ◌⊎◌, inl, inr, refl, ap, true, false, ◌||◌, not, Option, none, some, [], ◌∷◌,
  ◌++◌, ◌==◌, arith, Bool-cases, if_cases,
}
use vesper_platform.Binary.Utf8.{Text}
use vesper_platform.Binary.Wire.{AdapterRequest}
use vesper_platform.Core.ErrorMatrix.{ErrorValue}
use vesper_platform.Core.Context.{non_empty}
use vesper_platform.Core.Client.{Reply, answer, failure}
use vesper_platform.Adapters.Outcome.{is_ok}
use vesper_platform.App.Store.{logout}
use vesper_platform.App.Auth.{
  Session, ExecuteRequestConfig, RefreshReply, no_answer, answered, get_refresh_token, Keychain,
  TokenStore, saved_with, save_tokens, try_save_tokens, after_save, after_read, request_of,
  is_unauthorized, refresh_failed, updated_request, after_retry, retry, after_refresh,
  refresh_session, after_attempt, execute,
}

abbrev pub IsOther : {Answer : Type 0} → Reply Answer → Type 0
IsOther (answer a) = Unit
IsOther (failure e) = is_unauthorized e ≡ false

module _ {Answer : Type 0} where
  -- The reply is handed on, and the tokens and the app are as they were.
  abbrev pub IsPassed : Reply Answer → Session → Reply Answer × Session → Type 0
  IsPassed r s o = (o.0 ≡ r) × (o.1.tokens ≡ s.tokens) × (o.1.app ≡ s.app)

  -- It fails with an error of the kind, and the app is logged out.
  abbrev pub IsLoggedOut : (ErrorValue → Type 0) → Session → Reply Answer × Session → Type 0
  IsLoggedOut kind s o = (e : ErrorValue) × (o.0 ≡ failure e) × kind e × (o.1.app ≡ logout s.app)

  module _ (keychain : Keychain) (client : ℕ → AdapterRequest → Reply Answer) where
    -- The refresh endpoint gave two tokens, which were stored, and the retry with the first answered.
    abbrev pub IsRetried : RefreshReply → AdapterRequest → Session → Reply Answer × Session → Type 0
    IsRetried reply request s o =
        (status : ℕ) × (access : Option Text) × (refreshed : Option Text) × (a : Answer) × (reply
          ≡ answered status (answer (access, refreshed)))
        × (is_ok status ≡ true)
        × (client 1 (updated_request access request) ≡ answer a)
        × (o.0 ≡ answer a)
        × (o.1.app ≡ s.app)
        × (try_save_tokens keychain access refreshed s.tokens
            ≡ (none, save_tokens access refreshed s.tokens))
        × (o.1.tokens ≡ save_tokens access refreshed s.tokens)

    -- The same after a good status, by its body.
    abbrev IsLostAfter :
        Reply (Option Text × Option Text) → AdapterRequest → TokenStore → ErrorValue → Type 0
    IsLostAfter (failure f) request tokens e = f ≡ e
    IsLostAfter (answer pair) request tokens e =
        ((kept : TokenStore) × (try_save_tokens keychain pair.0 pair.1 tokens ≡ (some e, kept)))
        ⊎ (client 1 (updated_request pair.0 request) ≡ failure e)

    -- The error that a refresh ends with: that of the endpoint, which gave no answer, a refusal or a
    -- body that cannot be read; that of saving the tokens; or that of the retry.
    abbrev pub IsLost : RefreshReply → AdapterRequest → TokenStore → ErrorValue → Type 0
    IsLost (no_answer f) request tokens e = f ≡ e
    IsLost (answered status body) request tokens e =
        ((is_ok status ≡ false) × (refresh_failed ≡ e))
        ⊎ ((is_ok status ≡ true) × IsLostAfter body request tokens e)

    abbrev IsRecovered : RefreshReply → AdapterRequest → Session → Reply Answer × Session → Type 0
    IsRecovered reply request s o =
        IsLoggedOut (IsLost reply request s.tokens) s o ⊎ IsRetried reply request s o

    after_retry-cases :
        (status : ℕ) (access refreshed : Option Text) (r : Reply Answer) (request : AdapterRequest)
        (s t : Session)
        → is_ok status ≡ true
        → client 1 (updated_request access request) ≡ r
        → t.app ≡ s.app
        → try_save_tokens keychain access refreshed s.tokens
          ≡ (none, save_tokens access refreshed s.tokens)
        → t.tokens ≡ save_tokens access refreshed s.tokens
        → IsRecovered (answered status (answer (access, refreshed))) request s (after_retry r t)
    unfolding after_retry
    after_retry-cases status access refreshed (answer a) request s t ok e app saved tokens =
        inr (status, access, refreshed, a, refl, ok, e, refl, app, saved, tokens)
    after_retry-cases status access refreshed (failure e) request s t ok h app saved tokens =
        inl (e, refl, inr (ok, inr h), ap logout app)

    -- Saving either fails, or leaves both tokens where they are not empty.
    saved_with-cases :
        (e₁ e₂ : Option ErrorValue) (access refreshed : Option Text) (t : TokenStore)
        → ((e : ErrorValue) × (kept : TokenStore) × (saved_with e₁ e₂ access refreshed t
              ≡ (some e, kept)))
          ⊎ (saved_with e₁ e₂ access refreshed t ≡ (none, save_tokens access refreshed t))
    unfolding saved_with
    saved_with-cases (some e) e₂ access refreshed t = inl (e, t, refl)
    saved_with-cases none (some e) access refreshed t = inl (e, save_tokens access none t, refl)
    saved_with-cases none none access refreshed t = inr refl

    try_save_tokens-cases :
        (access refreshed : Option Text) (t : TokenStore)
        → ((e : ErrorValue) × (kept : TokenStore) × (try_save_tokens keychain access refreshed t
              ≡ (some e, kept)))
          ⊎ (try_save_tokens keychain access refreshed t ≡ (none, save_tokens access refreshed t))
    unfolding try_save_tokens
    try_save_tokens-cases access refreshed t = saved_with-cases _ _ access refreshed t

    retry-cases :
        (status : ℕ) (access refreshed : Option Text) (request : AdapterRequest) (s : Session)
        → is_ok status ≡ true
        → IsRecovered
            (answered status (answer (access, refreshed)))
            request
            s
            (retry keychain client access refreshed request s)
    unfolding retry after_save
    retry-cases status access refreshed request s ok =
        elim (try_save_tokens-cases access refreshed s.tokens) [
          | inl (e, kept, h) ↦ rw h (inl (e, refl, inr (ok, inl (kept, refl)), refl))
          | inr h ↦
              subst
                (λ saved.
                  IsRecovered (answered status (answer (access, refreshed))) request s
                    (after_save keychain client access request saved s))
                (sym h)
                (after_retry-cases status access refreshed
                  (client 1 (updated_request access request)) request s _ ok refl refl h refl)
        ]

    refused : (status : ℕ) → (status == 401 || not (is_ok status)) ≡ true → is_ok status ≡ false
    unfolding is_ok
    refused status h = ground arith

    taken : (status : ℕ) → (status == 401 || not (is_ok status)) ≡ false → is_ok status ≡ true
    taken status h = elim (Bool-cases (is_ok status)) [ inl e ↦ e | inr e ↦ ground (arith) ]

    after_refresh-cases :
        (reply : RefreshReply) (request : AdapterRequest) (s : Session)
        → IsRecovered reply request s (after_refresh keychain client reply request s)
    unfolding after_refresh logout
    after_refresh-cases (no_answer e) request s = inl (e, refl, refl, refl)
    after_refresh-cases (answered status (failure e)) request s =
        if_cases (λ o. IsRecovered (answered status (failure e)) request s o)
          (status == 401 || not (is_ok status)) _ _
          (λ h. inl (refresh_failed, refl, inl (refused status h, refl), refl))
          (λ h. inl (e, refl, inr (taken status h, refl), refl))
    after_refresh-cases (answered status (answer pair)) request s =
        if_cases (λ o. IsRecovered (answered status (answer pair)) request s o)
          (status == 401 || not (is_ok status)) _ _
          (λ h. inl (refresh_failed, refl, inl (refused status h, refl), refl))
          (λ h. retry-cases status pair.0 pair.1 request s (taken status h))

    module _ (refresh : Text → RefreshReply) where
      -- After a first attempt that failed with the status 401: the session is logged out, or the stored
      -- token was exchanged and the retry answered.
      abbrev pub IsRefreshed :
          Option Text → ErrorValue → AdapterRequest → Session → Reply Answer × Session → Type 0
      IsRefreshed stored error request s o =
          IsLoggedOut
            (λ e.
              ((non_empty stored ≡ none) × (error ≡ e))
              ⊎ ((token : Text) × (non_empty stored ≡ some token)
                  × IsLost (refresh token) request s.tokens e))
            s o
          ⊎ ((token : Text) × (non_empty stored ≡ some token)
              × IsRetried (refresh token) request s o)

      refresh_session-cases :
          (stored token : Option Text) (e : ErrorValue) (request : AdapterRequest) (s : Session)
          → non_empty stored ≡ token
          → IsRefreshed stored e request s
              (refresh_session keychain client refresh token e request s)
      unfolding refresh_session
      refresh_session-cases stored none e request s h = inl (e, refl, inl (h, refl), refl)
      refresh_session-cases stored (some token) e request s h =
          elim (after_refresh-cases (refresh token) request
            (record s { refreshes = s.refreshes ++ token ∷ [] })) [
              | inl (f, failed, lost, out) ↦ inl (f, failed, inr (token, h, lost), out)
              | inr done ↦ inr (token, h, done)
            ]

      -- By what the token store answers: its error is handed on, with the tokens and the app untouched, or the stored
      -- token is there to refresh the session with.
      abbrev pub IsAfterRead :
          Option ErrorValue
          → ErrorValue
          → AdapterRequest
          → Session
          → Reply Answer × Session
          → Type 0
      IsAfterRead read_error error request s o =
          ((f : ErrorValue) × (read_error ≡ some f) × IsPassed (failure f) s o)
          ⊎ ((read_error ≡ none) × IsRefreshed s.tokens.refresh error request s o)

      after_read-cases :
          (read_error : Option ErrorValue) (e : ErrorValue) (request : AdapterRequest) (s : Session)
          → IsAfterRead read_error e request s (
              after_read keychain client refresh
                (elim read_error [ none ↦ answer s.tokens.refresh | some f ↦ failure f ])
                e
                request
                s)
      unfolding after_read
      after_read-cases none e request s = inr (
        refl,
        refresh_session-cases s.tokens.refresh (non_empty s.tokens.refresh) e request s refl,
      )
      after_read-cases (some f) e request s = inl (f, refl, (refl, refl, refl))

      abbrev pub IsExecuted :
          Reply Answer → AdapterRequest → Session → Reply Answer × Session → Type 0
      IsExecuted r request s o =
          (IsOther r × IsPassed r s o)
          ⊎ ((e : ErrorValue) × (r ≡ failure e)
              × (is_unauthorized e ≡ true)
              × IsAfterRead keychain.read_error e request s o)

      after_attempt-cases :
          (r : Reply Answer) (request : AdapterRequest) (s : Session)
          → IsExecuted r request s (after_attempt keychain client refresh r request s)
      unfolding after_attempt get_refresh_token
      after_attempt-cases (answer a) request s = inl (tt, (refl, refl, refl))
      after_attempt-cases (failure e) request s =
          if_cases (λ o. IsExecuted (failure e) request s o) (is_unauthorized e) _ _
            (λ h. inr (e, refl, h, after_read-cases keychain.read_error e request s))
            (λ h. inl (h, (refl, refl, refl)))

      pub execute-IsExecuted :
          (api_url : Text) (config : ExecuteRequestConfig) (s : Session)
          → IsExecuted
              (client 0 (request_of api_url config))
              (request_of api_url config)
              s
              (execute keychain client refresh api_url config s)
      unfolding execute
      execute-IsExecuted api_url config s =
          let request = request_of api_url config in
          after_attempt-cases (client 0 request) request
            (record s { executed = s.executed ++ request ∷ [] })
