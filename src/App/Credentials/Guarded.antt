-- ===== src/App/Credentials/Guarded.antt =====
-- When the two forms send their request.
use vesper_platform.Base.{◌≡◌, Bool, true, false, ◌||◌, none, some, [], ◌∷◌, ◌++◌}
use vesper_platform.Binary.Utf8.{Text}
use vesper_platform.Binary.Json.{string, object, empty, member}
use vesper_platform.Core.Context.{non_empty}
use vesper_platform.App.Auth.{save_tokens}
use vesper_platform.Binary.Wire.{AdapterRequest}
use vesper_platform.App.Credentials.{
  Form, Attempt, credentials_request, accepted, refused, failed, text_username, text_password,
}
use vesper_platform.App.Words.{text_login_path}

abbrev pub login_request : Text → Text → Text → AdapterRequest
login_request api_url email password =
    credentials_request (api_url ++ text_login_path)
      (object (member text_username (string email) (member text_password (string password) empty)))

-- What the form is after its one request was answered: with the new tokens, the app signed in and, where
-- there is a page to go back to, gone back to it; or with the error's message, or a general one, and all
-- else as it was.
abbrev pub IsAnswered : Attempt → Bool → AdapterRequest → Form → Form → Type 0
IsAnswered (accepted r) can_go_back request f t =
    (t.sent ≡ f.sent ++ request ∷ [])
    × (t.is_pending ≡ false)
    × (t.error ≡ none)
    × (t.tokens ≡ save_tokens r.access_token r.refresh_token f.tokens)
    × (t.app.is_authenticated ≡ true)
    × (t.went_back ≡ (f.went_back || can_go_back))
IsAnswered (refused message) can_go_back request f t =
    (t.sent ≡ f.sent ++ request ∷ [])
    × (t.is_pending ≡ false)
    × (t.error ≡ some (failed (non_empty (some message))))
    × (t.tokens ≡ f.tokens)
    × (t.app ≡ f.app)
    × (t.went_back ≡ f.went_back)
