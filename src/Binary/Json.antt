-- ===== src/Binary/Json.antt =====
-- `JSON.stringify` of values that are strings, natural numbers, truth values, arrays and objects.
-- The members of an object are listed in the order in which JavaScript enumerates them.
use vesper_platform.Base.{
  ℕ, zero, suc, ◌+◌, ◌/◌, ◌%◌, Bool, true, false, ◌&&◌, ◌||◌, Option, none, some, [], ◌∷◌, ◌++◌,
  leb, ltb, ◌==◌, if◌then◌else◌, list_eq, Bytes,
}
use vesper_platform.Binary.Utf8.{Text, encode_text}

mutual
  pub data Json : Type 0 where
    string : Text → Json
    number : ℕ → Json
    boolean : Bool → Json
    array : Items → Json
    object : Members → Json

  pub data Items : Type 0 where
    end : Items
    item : Json → Items → Items

  pub data Members : Type 0 where
    empty : Members
    member : Text → Json → Members → Members

-- object[name]
unfoldable pub get_member : Text → Members → Option Json
get_member name empty = none
get_member name (member key value rest) =
    if list_eq key name then some value else get_member name rest

-- The digits of a number in front of a text; twenty are enough below 10^20.
decimal_from : ℕ → ℕ → Text → Text
decimal_from zero n after = after
decimal_from (suc fuel) n after =
    let more = decimal_from fuel (n / 10) ((b'0' + n % 10) ∷ after) in
    if ltb n 10 then (b'0' + n) ∷ after else more

unfoldable pub decimal : ℕ → Text
unfolding decimal_from
decimal n = decimal_from 20 n []

hex_digit : ℕ → ℕ
hex_digit d = if ltb d 10 then b'0' + d else 87 + d

-- A character inside quotes; control characters and lone surrogates by their number.
escape : ℕ → Text
unfolding hex_digit
escape c =
    if c == 34
    then 92 ∷ 34 ∷ []
    else if c == 92
    then 92 ∷ 92 ∷ []
    else if c == 8
    then 92 ∷ b'b' ∷ []
    else if c == 9
    then 92 ∷ b't' ∷ []
    else if c == 10
    then 92 ∷ b'n' ∷ []
    else if c == 12
    then 92 ∷ b'f' ∷ []
    else if c == 13
    then 92 ∷ b'r' ∷ []
    else if ltb c 32 || (leb 0xD800 c && leb c 0xDFFF)
    then 92
      ∷ b'u'
      ∷ hex_digit (c / 4096 % 16)
      ∷ hex_digit (c / 256 % 16)
      ∷ hex_digit (c / 16 % 16)
      ∷ hex_digit (c % 16)
      ∷ []
    else c ∷ []

escape_all : Text → Text
unfolding escape
escape_all [] = []
escape_all (c ∷ cs) = escape c ++ escape_all cs

unfoldable pub quote : Text → Text
unfolding escape_all
quote text = 34 ∷ (escape_all text ++ 34 ∷ [])

unfoldable mutual
  unfolding quote decimal

  pub stringify : Json → Text
  stringify (string text) = quote text
  stringify (number n) = decimal n
  stringify (boolean true) = b't' ∷ b'r' ∷ b'u' ∷ b'e' ∷ []
  stringify (boolean false) = b'f' ∷ b'a' ∷ b'l' ∷ b's' ∷ b'e' ∷ []
  stringify (array items) = b'[' ∷ (stringify_items items ++ b']' ∷ [])
  stringify (object members) = b'{' ∷ (stringify_members members ++ b'}' ∷ [])

  pub stringify_items : Items → Text
  stringify_items end = []
  stringify_items (item value end) = stringify value
  stringify_items (item value (item next rest)) =
      stringify value ++ b',' ∷ stringify_items (item next rest)

  pub stringify_members : Members → Text
  stringify_members empty = []
  stringify_members (member key value empty) = quote key ++ b':' ∷ stringify value
  stringify_members (member key value (member next v rest)) =
      quote key ++ b':' ∷ (stringify value ++ b',' ∷ stringify_members (member next v rest))

-- encodeJsonBody
unfoldable pub encode_json_body : Json → Bytes
encode_json_body value = encode_text (stringify value)
