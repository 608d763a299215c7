-- ===== src/Binary/Wire/RoundTrip.antt =====
-- Requests that are serialized and read back.
use vesper_platform.Base.{
  ℕ, ◌<◌, ◌≡◌, ◌≢◌, refl, sym, ap, ◌∙◌, none, some, [], ◌∷◌, ◌++◌, arith, ltb, if◌then◌else◌,
  length, All, Bytes, u32_bytes, get_u32-u32_bytes, length-u32_bytes, append_assoc, append-nil,
  length-append,
}
use vesper_platform.Binary.Wire.Segments.{u32_limit, Fits, read_segment-write_segment}
use vesper_platform.Binary.Utf8.{Text, IsScalar, encode_char, encode_text}
use vesper_platform.Binary.Utf8.RoundTrip.{HasNoMark, decode_text-encode_text}
use vesper_platform.Binary.Wire.{
  AdapterRequest, header_bytes, body_bytes, timeout_or_zero, write_segment,
  serialize_adapter_request, Received, received, read_request, or_range_error,
  deserialize_adapter_request,
}

-- A request that the layout can carry: a method that is not empty, texts of code points that UTF-8
-- carries without a byte order mark in front, and lengths and a timeout of 32 bits.
pub record IsCarried (r : AdapterRequest) : Type 0 where
  pub method_nonempty : r.method ≢ []
  pub method_scalar : All IsScalar r.method
  pub method_mark : HasNoMark r.method
  pub url_scalar : All IsScalar r.url
  pub url_mark : HasNoMark r.url
  pub method_fits : Fits (encode_text r.method)
  pub url_fits : Fits (encode_text r.url)
  pub headers_fit : Fits (header_bytes r)
  pub body_fits : Fits (body_bytes r)
  pub timeout_fits : timeout_or_zero r < u32_limit

-- What the layout keeps of a request: an empty body becomes `null`, a zero timeout none at all.
unfoldable pub carried : AdapterRequest → Received
carried r = record {
  method = r.method;
  url = r.url;
  encoded_headers = header_bytes r;
  body = if ltb 0 (length (body_bytes r)) then some (body_bytes r) else none;
  timeout_ms = if ltb 0 (timeout_or_zero r) then some (timeout_or_zero r) else none;
}

pub encode_text-nonempty : (t : Text) → t ≢ [] → 0 < length (encode_text t)
unfolding encode_text encode_char
encode_text-nonempty [] h = absurd (h refl)
encode_text-nonempty (c ∷ cs) h = ground arith

abbrev pub after_method : AdapterRequest → Bytes
after_method r =
    write_segment (encode_text r.url)
    ++ (write_segment (header_bytes r)
        ++ (write_segment (body_bytes r) ++ u32_bytes (timeout_or_zero r)))

read_request-serialize :
    (r : AdapterRequest)
    → IsCarried r
    → read_request (serialize_adapter_request r) ≡ some (carried r)
unfolding read_request serialize_adapter_request carried
read_request-serialize r h =
    let t = u32_bytes (timeout_or_zero r) in
    let b = write_segment (body_bytes r) ++ t in
    let hs = write_segment (header_bytes r) ++ b in
    rw
      (
        read_segment-write_segment (encode_text r.method) (after_method r) h.method_fits,
        read_segment-write_segment (encode_text r.url) hs h.url_fits,
        read_segment-write_segment (header_bytes r) b h.headers_fit,
        read_segment-write_segment (body_bytes r) t h.body_fits,
        ← append-nil t,
        get_u32-u32_bytes (timeout_or_zero r) [] h.timeout_fits,
        decode_text-encode_text r.method h.method_scalar h.method_mark,
        decode_text-encode_text r.url h.url_scalar h.url_mark,
      )
      refl

deserialize-length_first :
    (n : ℕ) (rest : Bytes)
    → 0 < n
    → n < u32_limit
    → deserialize_adapter_request (u32_bytes n ++ rest)
      ≡ or_range_error (read_request (u32_bytes n ++ rest))
unfolding deserialize_adapter_request
deserialize-length_first n rest pos lt =
    rw (get_u32-u32_bytes n rest lt, length-append (u32_bytes n) rest, length-u32_bytes n)
      (ground arith)

pub method_first :
    (r : AdapterRequest)
    → serialize_adapter_request r
      ≡ u32_bytes (length (encode_text r.method)) ++ (encode_text r.method ++ after_method r)
unfolding serialize_adapter_request write_segment
method_first r =
    append_assoc (u32_bytes (length (encode_text r.method))) (encode_text r.method) (after_method r)

-- A request that the layout can carry (a method that is not empty, texts that UTF-8 carries without
-- a byte order mark in front, lengths and a timeout below 2^32) is read back from its serialized
-- form: method, url, header bytes, body and timeout, an empty body as `null` and a zero timeout as
-- absent.
pub deserialize-serialize_adapter_request :
    (r : AdapterRequest)
    → IsCarried r
    → deserialize_adapter_request (serialize_adapter_request r) ≡ received (carried r)
unfolding or_range_error
deserialize-serialize_adapter_request r h =
    let m = encode_text r.method in
    let pos = encode_text-nonempty r.method h.method_nonempty in
    rw (method_first r) (
      deserialize-length_first (length m) (m ++ after_method r) pos h.method_fits
      ∙ ap or_range_error (ap read_request (sym (method_first r)) ∙ read_request-serialize r h))
