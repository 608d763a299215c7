-- ===== src/Binary/Headers.antt =====
-- packages/ghost-ledger/src/binary.ts: headers. A `Record<string, string>` is the list of its
-- entries in order of insertion; keys that JavaScript treats apart (array indices, which it lists
-- first, and `__proto__`) are left out.
pub mod Lines
pub mod RoundTrip
use mathlib.Core.Option
use vesper_platform.Base.{
  ℕ, zero, suc, ◌+◌, Bool, true, false, ◌&&◌, not, Option, none, some, List, [], ◌∷◌, ◌++◌, map,
  ltb, ◌==◌, if◌then◌else◌, length, take, drop, Bytes, list_eq,
}
use vesper_platform.Binary.Utf8.{Text, encode_text, decode_text}

abbrev pub Headers : Type 0
Headers = List (Text × Text)

abbrev pub newline : ℕ
newline = 10

-- `${key}: ${value}\n`
unfoldable pub header_line : Text → Text → Text
header_line key value = key ++ (b':' ∷ b' ' ∷ (value ++ newline ∷ []))

unfoldable pub header_lines : Headers → Text
unfolding header_line
header_lines [] = []
header_lines ((key, value) ∷ rest) = header_line key value ++ header_lines rest

unfoldable pub encode_headers : Headers → Bytes
unfolding header_lines
encode_headers headers = encode_text (header_lines headers)

unfoldable pub append_header_to_binary : Bytes → Text → Text → Bytes
append_header_to_binary encoded key value = encoded ++ encode_text (header_line key value)

-- The first character joins the first line, or ends it.
put_first : ℕ → List Text → List Text
put_first c [] = (c ∷ []) ∷ []
put_first c (line ∷ lines) = if c == newline then [] ∷ line ∷ lines else (c ∷ line) ∷ lines

-- text.split('\n')
unfoldable pub split_lines : Text → List Text
unfolding put_first
split_lines [] = [] ∷ []
split_lines (c ∷ cs) = put_first c (split_lines cs)

-- line.indexOf(': ')
unfoldable pub colon_index : Text → Option ℕ
colon_index [] = none
colon_index (c ∷ []) = none
colon_index (c ∷ d ∷ cs) =
    if c == b':' && d == b' ' then some 0 else Option.map (λ i. suc i) (colon_index (d ∷ cs))

-- result[key] = value
unfoldable pub assign : Text → Text → Headers → Headers
assign key value [] = (key, value) ∷ []
assign key value ((k, v) ∷ rest) =
    if list_eq k key then (k, value) ∷ rest else (k, v) ∷ assign key value rest

-- headers[key]
unfoldable pub get_header : Text → Headers → Option Text
get_header key [] = none
get_header key ((k, v) ∷ rest) = if list_eq k key then some v else get_header key rest

-- one round of the loop of `decodeHeaders`
unfoldable pub add_line : Text → Headers → Headers
add_line line result = elim (colon_index line) [
  | none ↦ result
  | some i ↦
      if ltb 0 (length (take i line))
      then assign (take i line) (drop (i + 2) line) result
      else result
]

unfoldable pub add_lines : List Text → Headers → Headers
unfolding add_line
add_lines [] result = result
add_lines (line ∷ lines) result = add_lines lines (add_line line result)

unfoldable pub decode_headers : Bytes → Headers
unfolding add_lines split_lines
decode_headers buffer =
    if length buffer == 0 then [] else add_lines (split_lines (decode_text buffer)) []
