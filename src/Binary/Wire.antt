-- ===== src/Binary/Wire.antt =====
-- packages/ghost-ledger/src/binary.ts: the flat layout of a request that crosses to the adapter.
-- A buffer is taken to own its whole ArrayBuffer.
mod Segments
pub mod RoundTrip
pub mod Truncation
use mathlib.Core.Option
use vesper_platform.Base.{
  ℕ, ◌+◌, ◌≡◌, Bool, true, false, Option, none, some, List, [], ◌∷◌, ◌++◌, ltb, ◌==◌, if◌then◌else◌,
  length, take, drop, Bytes, u32_bytes, get_u32, ◌>>=◌,
}
use vesper_platform.Binary.Utf8.{Text, encode_text, decode_text}
use vesper_platform.Binary.Headers.{Headers, encode_headers}

pub record AdapterRequest : Type 0 where
  pub method : Text
  pub url : Text
  pub encoded_headers : Option Bytes
  pub headers : Option Headers
  -- a `null` body and an absent one are both `none`
  pub body : Option Bytes
  pub timeout_ms : Option ℕ

unfoldable pub header_bytes : AdapterRequest → Bytes
header_bytes r = elim r.encoded_headers [
  | some hdrs ↦ hdrs
  | none ↦ elim r.headers [ some h ↦ encode_headers h | none ↦ [] ]
]

unfoldable pub body_bytes : AdapterRequest → Bytes
body_bytes r = elim r.body [ some body ↦ body | none ↦ [] ]

unfoldable pub timeout_or_zero : AdapterRequest → ℕ
timeout_or_zero r = elim r.timeout_ms [ some t ↦ t | none ↦ 0 ]

unfoldable pub write_segment : Bytes → Bytes
write_segment segment = u32_bytes (length segment) ++ segment

unfoldable pub serialize_adapter_request : AdapterRequest → Bytes
unfolding write_segment
serialize_adapter_request r =
    write_segment (encode_text r.method)
    ++ (write_segment (encode_text r.url)
        ++ (write_segment (header_bytes r)
            ++ (write_segment (body_bytes r) ++ u32_bytes (timeout_or_zero r))))

pub record Received : Type 0 where
  pub method : Text
  pub url : Text
  pub encoded_headers : Bytes
  pub body : Option Bytes
  pub timeout_ms : Option ℕ

pub data Deserialized : Type 0 where
  null : Deserialized
  -- an access past the end of the view throws
  range_error : Deserialized
  received : Received → Deserialized

-- The segment at the front and what follows it. `subarray` stops at the end of the buffer; the
-- offset does not.
unfoldable pub read_segment : Bytes → Option (Bytes × Bytes)
read_segment rest = do n ← get_u32 rest; some (take n (drop 4 rest), drop n (drop 4 rest))

unfoldable pub read_request : Bytes → Option Received
unfolding read_segment
read_request buffer = do
  method ← read_segment buffer
  url ← read_segment method.1
  hdrs ← read_segment url.1
  body ← read_segment hdrs.1
  timeout ← get_u32 body.1
  some (record {
    method = decode_text (method.0);
    url = decode_text (url.0);
    encoded_headers = hdrs.0;
    body = if ltb 0 (length (body.0)) then some (body.0) else none;
    timeout_ms = if ltb 0 timeout then some timeout else none;
  })

unfoldable pub or_range_error : Option Received → Deserialized
or_range_error (some r) = received r
or_range_error none = range_error

unfoldable pub deserialize_adapter_request : Bytes → Deserialized
deserialize_adapter_request buffer = if length buffer == 0 then null else elim (get_u32 buffer) [
  | none ↦ range_error
  | some first ↦ if first == 0 then null else or_range_error (read_request buffer)
]
