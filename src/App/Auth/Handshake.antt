-- ===== src/App/Auth/Handshake.antt =====
-- examples/demo-mobile/src/core/network/handshakeValidator.ts. The two calls of fetch are parameters,
-- and an error that either raises is caught. Numbers of a body are natural numbers.
use vesper_platform.Base.{
  ℕ, Bool, true, false, not, Option, none, some, [], ◌∷◌, ◌==◌, if◌then◌else◌, length, list_eq,
  ◌>>=◌,
}
use vesper_platform.Binary.Utf8.{Text}
use vesper_platform.Binary.Json.{
  Json, string, number, boolean, array, object, get_member, stringify,
}
use vesper_platform.Adapters.Outcome.{is_ok}

-- A response: its status, and its body, which is `none` for null.
pub record JsonResponse : Type 0 where
  pub status : ℕ
  pub body : Option Json

-- Whether a value counts as true.
unfoldable pub is_truthy : Json → Bool
is_truthy (string text) = not (length text == 0)
is_truthy (number n) = not (n == 0)
is_truthy (boolean b) = b
is_truthy (array items) = true
is_truthy (object members) = true

-- value || other
abbrev pub or_value : Option Json → Option Json → Option Json
or_value none other = other
or_value (some value) other = if is_truthy value then some value else other

-- value[name], which is undefined unless the value is an object that has it
unfoldable pub property_of : Text → Json → Option Json
property_of name (object members) = get_member name members
property_of name (string text) = none
property_of name (number n) = none
property_of name (boolean b) = none
property_of name (array items) = none

abbrev text_encoded_challenge : Text
text_encoded_challenge =
    b'e' ∷ b'n' ∷ b'c' ∷ b'o' ∷ b'd' ∷ b'e' ∷ b'd' ∷ b'_' ∷ b'c' ∷ b'h' ∷ b'a' ∷ b'l' ∷ b'l' ∷ b'e'
    ∷ b'n' ∷ b'g' ∷ b'e' ∷ []

abbrev text_status : Text
text_status = b's' ∷ b't' ∷ b'a' ∷ b't' ∷ b'u' ∷ b's' ∷ []

abbrev text_message : Text
text_message = b'm' ∷ b'e' ∷ b's' ∷ b's' ∷ b'a' ∷ b'g' ∷ b'e' ∷ []

abbrev text_result : Text
text_result = b'r' ∷ b'e' ∷ b's' ∷ b'u' ∷ b'l' ∷ b't' ∷ []

-- "channel_verified"
abbrev pub text_verified : Text
text_verified =
    b'c' ∷ b'h' ∷ b'a' ∷ b'n' ∷ b'n' ∷ b'e' ∷ b'l' ∷ b'_' ∷ b'v' ∷ b'e' ∷ b'r' ∷ b'i' ∷ b'f' ∷ b'i'
    ∷ b'e' ∷ b'd' ∷ []

-- The outer option is `none` where the function throws.
unfoldable pub get_challenge : Option JsonResponse → Option (Option Json)
unfolding property_of
get_challenge got = do
  response ← got
  if is_ok response.status
      then response.body >>= (λ body.
        some (or_value (property_of text_encoded_challenge body) (or_value (some body) none)))
      else some none

-- typeof challenge === 'string' ? challenge : JSON.stringify(challenge)
unfoldable pub raw_challenge : Json → Text
raw_challenge (string text) = text
raw_challenge (number n) = stringify (number n)
raw_challenge (boolean b) = stringify (boolean b)
raw_challenge (array items) = stringify (array items)
raw_challenge (object members) = stringify (object members)

-- value === 'channel_verified'
abbrev is_verified : Option Json → Bool
is_verified (some (string text)) = list_eq text text_verified
is_verified _ = false

unfoldable pub verify_challenge : (Text → Option JsonResponse) → Json → Option Bool
unfolding raw_challenge property_of
verify_challenge post challenge = do
  response ← post (raw_challenge challenge)
  if is_ok response.status
      then response.body >>= (λ body. some (
          is_verified (
            or_value (property_of text_status body) (
              or_value (property_of text_message body)
                (or_value (property_of text_result body) (some body))))))
      else some false

-- What is caught counts as false.
abbrev or_false : Option Bool → Bool
or_false none = false
or_false (some b) = b

unfoldable pub validate_handshake : Option JsonResponse → (Text → Option JsonResponse) → Bool
unfolding get_challenge verify_challenge
validate_handshake got post = or_false (
    get_challenge got >>= λ challenge. elim challenge [
      | none ↦ some false
      | some c ↦ verify_challenge post c
    ])
