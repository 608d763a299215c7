-- ===== src/Core/Context.antt =====
-- packages/ghost-ledger/src/core/utils.ts: the DPoP context of a request, and the zeroing of its
-- buffers. A signer and a configured resolver are opaque values, of the parameters' types.
pub mod Encoded
use vesper_platform.Base.{
  ℕ, suc, ◌+◌, Bool, true, false, ◌&&◌, ◌||◌, not, Option, none, some, List, [], ◌∷◌, leb, ltb,
  ◌==◌, if◌then◌else◌, length, take, drop, list_eq, is_some, Bytes, fill_zero,
}
use vesper_platform.Binary.Utf8.{Text}
use vesper_platform.Binary.Headers.{Headers, get_header, decode_headers}
use vesper_platform.Binary.Wire.{AdapterRequest}

-- What `contextResolver` stands for: the access token of the request, if any, or the configured one.
pub data ContextSource (Resolver : Type 0) : Type 0 where
  from_token : Option Text → ContextSource Resolver
  configured : Resolver → ContextSource Resolver

pub record PendingContext (Signer Resolver : Type 0) : Type 0 where
  pub signer : Signer
  pub method : Text
  pub url : Text
  pub source : ContextSource Resolver

abbrev pub text_authorization : Text
text_authorization =
    b'A' ∷ b'u' ∷ b't' ∷ b'h' ∷ b'o' ∷ b'r' ∷ b'i' ∷ b'z' ∷ b'a' ∷ b't' ∷ b'i' ∷ b'o' ∷ b'n' ∷ []

abbrev pub text_authorization_lower : Text
text_authorization_lower =
    b'a' ∷ b'u' ∷ b't' ∷ b'h' ∷ b'o' ∷ b'r' ∷ b'i' ∷ b'z' ∷ b'a' ∷ b't' ∷ b'i' ∷ b'o' ∷ b'n' ∷ []

abbrev pub text_dpop : Text
text_dpop = b'D' ∷ b'P' ∷ b'o' ∷ b'P' ∷ []

abbrev pub text_dpop_lower : Text
text_dpop_lower = b'd' ∷ b'p' ∷ b'o' ∷ b'p' ∷ []

-- An undefined or empty string is false.
unfoldable pub non_empty : Option Text → Option Text
non_empty none = none
non_empty (some []) = none
non_empty (some (c ∷ cs)) = some (c ∷ cs)

unfoldable pub first_non_empty : Option Text → Option Text → Option Text
unfolding non_empty
first_non_empty a b = elim (non_empty a) [ some t ↦ some t | none ↦ non_empty b ]

-- The two headers that name the token, and whether a DPoP header stands beside them.
unfoldable pub auth_header_value : Headers → Option Text
auth_header_value headers =
    first_non_empty (get_header text_authorization headers)
      (get_header text_authorization_lower headers)

unfoldable pub has_dpop_header : Headers → Bool
has_dpop_header headers =
    is_some (get_header text_dpop headers) || is_some (get_header text_dpop_lower headers)

-- The case of ASCII letters is folded; no other character folds to one of "dpop ".
unfoldable pub to_lower : ℕ → ℕ
to_lower c = if leb 65 c && leb c 90 then c + 32 else c

-- value.toLowerCase().startsWith('dpop ')
unfoldable pub starts_with_dpop : Text → Bool
unfolding to_lower
starts_with_dpop (a ∷ b ∷ c ∷ d ∷ e ∷ _) =
    to_lower a == b'd'
    && to_lower b == b'p'
    && to_lower c == b'o'
    && to_lower d == b'p'
    && e == b' '
starts_with_dpop _ = false

-- White space and line ends of ECMAScript.
unfoldable pub is_space : ℕ → Bool
is_space c =
    (leb 9 c && leb c 13)
    || c == 32
    || c == 160
    || c == 0x1680
    || (leb 0x2000 c && leb c 0x200A)
    || c == 0x2028
    || c == 0x2029
    || c == 0x202F
    || c == 0x205F
    || c == 0x3000
    || c == 0xFEFF

unfoldable pub trim_start : Text → Text
unfolding is_space
trim_start [] = []
trim_start (c ∷ cs) = let rest = trim_start cs in if is_space c then rest else c ∷ cs

unfoldable pub trim_end : Text → Text
unfolding is_space
trim_end [] = []
trim_end (c ∷ cs) =
    let rest = trim_end cs in if length rest == 0 && is_space c then [] else c ∷ rest

-- value.slice(5).trim(), where the value is a DPoP authorization
unfoldable pub access_token : Option Text → Option Text
unfolding trim_start trim_end starts_with_dpop
access_token none = none
access_token (some value) =
    if starts_with_dpop value then some (trim_end (trim_start (drop 5 value))) else none

-- The headers that the function reads: the encoded ones where there are any bytes, else the record.
unfoldable pub visible_headers : AdapterRequest → Headers
visible_headers r = elim r.encoded_headers [
  | some encoded ↦
      if ltb 0 (length encoded)
      then decode_headers encoded
      else elim r.headers [ some h ↦ h | none ↦ [] ]
  | none ↦ elim r.headers [ some h ↦ h | none ↦ [] ]
]

module _ {Signer Resolver : Type 0} where
  -- From what was read off the headers.
  unfoldable pub context_of :
      Text
      → Text
      → Headers
      → Option Signer
      → Option Resolver
      → Bool
      → Option (PendingContext Signer Resolver)
  context_of method url headers signer resolver require_dpop =
      let token = access_token (auth_header_value headers) in
      elim signer [
        | none ↦ none
        | some s ↦
            if require_dpop || has_dpop_header headers || is_some token
            then some (record { signer = s; method = method; url = url; source = from_token token })
            else elim resolver [
              | none ↦ none
              | some r ↦
                  some (record { signer = s; method = method; url = url; source = configured r })
            ]
      ]

  -- The arguments in the source's order; `require_dpop` is `config?.requireDPoP === true`.
  unfoldable pub resolve_dpop_context :
      AdapterRequest
      → Option Signer
      → Option Resolver
      → Option (PendingContext Signer Resolver)
      → Bool
      → Option (PendingContext Signer Resolver)
  resolve_dpop_context request signer resolver (some dpop) require_dpop = some dpop
  resolve_dpop_context request signer resolver none require_dpop =
      context_of request.method request.url (visible_headers request) signer resolver require_dpop

abbrev wiped : Option Bytes → Option Bytes
wiped none = none
wiped (some b) = some (if ltb 0 (length b) then fill_zero b else b)

unfoldable pub zero_request_buffers : AdapterRequest → AdapterRequest
zero_request_buffers r = record r { body = wiped r.body; encoded_headers = wiped r.encoded_headers }
