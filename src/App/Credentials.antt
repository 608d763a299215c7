-- ===== src/App/Credentials.antt =====
-- examples/demo-mobile/src/features/auth/hooks/useVesperLogin.ts and useVesperRegister.ts: the form
-- and the handler of each. The client, what its error says and whether there is a page to go back to
-- are arguments; the translations of the messages are left out.
pub mod Email
pub mod Guarded
use vesper_platform.Base.{
  ℕ, suc, ◌+◌, String, Bool, true, false, ◌&&◌, ◌||◌, not, Option, none, some, List, [], ◌∷◌, ◌++◌,
  ltb, ◌==◌, if◌then◌else◌, length,
}
use vesper_platform.App.Words.{text_content_type, text_json, text_login_path, text_register_path}
use vesper_platform.Binary.Utf8.{Text}
use vesper_platform.Binary.Json.{Json, string, object, Members, empty, member, encode_json_body}
use vesper_platform.Binary.Wire.{AdapterRequest}
use vesper_platform.Core.Context.{is_space, non_empty}
use vesper_platform.App.Store.{AppState, set_is_authenticated}
use vesper_platform.App.Auth.{TokenStore, save_tokens}

abbrev text_post : Text
text_post = b'P' ∷ b'O' ∷ b'S' ∷ b'T' ∷ []

abbrev text_username : Text
text_username = b'u' ∷ b's' ∷ b'e' ∷ b'r' ∷ b'n' ∷ b'a' ∷ b'm' ∷ b'e' ∷ []

abbrev text_email : Text
text_email = b'e' ∷ b'm' ∷ b'a' ∷ b'i' ∷ b'l' ∷ []

abbrev text_first_name : Text
text_first_name = b'f' ∷ b'i' ∷ b'r' ∷ b's' ∷ b't' ∷ b'N' ∷ b'a' ∷ b'm' ∷ b'e' ∷ []

abbrev text_last_name : Text
text_last_name = b'l' ∷ b'a' ∷ b's' ∷ b't' ∷ b'N' ∷ b'a' ∷ b'm' ∷ b'e' ∷ []

abbrev text_phone : Text
text_phone = b'p' ∷ b'h' ∷ b'o' ∷ b'n' ∷ b'e' ∷ []

abbrev text_password : Text
text_password = b'p' ∷ b'a' ∷ b's' ∷ b's' ∷ b'w' ∷ b'o' ∷ b'r' ∷ b'd' ∷ []

-- [^\s@]
unfoldable pub is_part : ℕ → Bool
is_part c = not (is_space c) && not (c == b'@')

-- [^\s@]+ up to the end, after any such characters
unfoldable pub are_parts : Text → Bool
unfolding is_part
are_parts [] = true
are_parts (c ∷ cs) = is_part c && are_parts cs

unfoldable pub is_label : Text → Bool
unfolding are_parts
is_label [] = false
is_label (c ∷ cs) = are_parts (c ∷ cs)

-- [^\s@]+\.[^\s@]+$, where `seen` tells whether a character stands before the text
unfoldable pub is_domain : Bool → Text → Bool
unfolding is_label
is_domain seen [] = false
is_domain seen (c ∷ cs) = is_part c && ((seen && c == b'.' && is_label cs) || is_domain true cs)

-- ^[^\s@]+@[^\s@]+\.[^\s@]+$
unfoldable pub is_address : Bool → Text → Bool
unfolding is_domain
is_address seen [] = false
is_address seen (c ∷ cs) =
    if c == b'@' then seen && is_domain false cs else is_part c && is_address true cs

-- emailRegex.test(email)
unfoldable pub is_email : Text → Bool
is_email email = is_address false email

-- password.length, in UTF-16 code units
unfoldable pub utf16_length : Text → ℕ
utf16_length [] = 0
utf16_length (c ∷ cs) = (if ltb c 0x10000 then 1 else 2) + utf16_length cs

-- What the form shows.
pub data FormError : Type 0 where
  empty_fields : FormError
  invalid_email : FormError
  short_password : FormError
  -- the message of the error, or a general one
  failed : Option Text → FormError

pub record AuthResponse : Type 0 where
  pub username : String
  pub access_token : Option Text
  pub refresh_token : Option Text

-- What `executeRequest` comes to: a response, or an error with its message.
pub data Attempt : Type 0 where
  accepted : AuthResponse → Attempt
  refused : Text → Attempt

-- The form and what it changes beside itself. `sent` logs the requests, `went_back` the navigation.
pub record Form : Type 0 where
  pub error : Option FormError
  pub is_pending : Bool
  pub tokens : TokenStore
  pub app : AppState
  pub sent : List AdapterRequest
  pub went_back : Bool

abbrev pub credentials_request : Text → Json → AdapterRequest
credentials_request url body = record {
  method = text_post;
  url = url;
  encoded_headers = none;
  headers = some ((text_content_type, text_json) ∷ []);
  body = some (encode_json_body body);
  timeout_ms = none;
}

-- The answer of the client, to the end of the handler.
unfoldable pub after_answer : Bool → Attempt → Form → Form
after_answer can_go_back (accepted r) f = record f {
  is_pending = false;
  tokens = save_tokens r.access_token r.refresh_token f.tokens;
  app = set_is_authenticated true (some r.username) f.app;
  went_back = f.went_back || can_go_back;
}
after_answer can_go_back (refused message) f = record f {
  error = some (failed (non_empty (some message)));
  is_pending = false;
}

module _ (client : AdapterRequest → Attempt) (can_go_back : Bool) where
  unfoldable pub submit : AdapterRequest → Form → Form
  unfolding after_answer
  submit request f =
      after_answer can_go_back (client request)
        (record f { is_pending = true; sent = f.sent ++ request ∷ [] })

  -- The name is a field of the form too; it is neither looked at nor sent.
  unfoldable pub handle_login : Text → Text → Text → Text → Form → Form
  unfolding submit is_email utf16_length
  handle_login api_url name email password form =
      let f = record form { error = none } in
      if length email == 0 || length password == 0
      then record f { error = some empty_fields }
      else if not (is_email email)
      then record f { error = some invalid_email }
      else if ltb (utf16_length password) 4
      then record f { error = some short_password }
      else submit
          (credentials_request (api_url ++ text_login_path) (
            object
              (member text_username (string email) (member text_password (string password) empty))))
          f

pub record Registration : Type 0 where
  pub username : Text
  pub email : Text
  pub first_name : Text
  pub last_name : Text
  pub phone : Text
  pub password : Text

unfoldable pub registration_json : Registration → Json
registration_json r = object (
    member text_username (string r.username) (
      member text_email (string r.email) (
        member text_first_name (string r.first_name) (
          member text_last_name (string r.last_name) (
            member text_phone (string r.phone) (member text_password (string r.password) empty))))))

module _ (client : AdapterRequest → Attempt) (can_go_back : Bool) where
  unfoldable pub handle_register : Text → Registration → Form → Form
  unfolding submit is_email utf16_length registration_json
  handle_register api_url r form =
      let f = record form { error = none } in
      if length r.username == 0 || length r.email == 0
      then record f { error = some empty_fields }
      else if not (is_email r.email)
      then record f { error = some invalid_email }
      else if ltb (utf16_length r.password) 8
      then record f { error = some short_password }
      else submit client can_go_back
          (credentials_request (api_url ++ text_register_path) (registration_json r)) f
