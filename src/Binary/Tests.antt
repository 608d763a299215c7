-- ===== src/Binary/Tests.antt =====
-- Runs of the binary encodings, and the properties at concrete inputs.
use vesper_platform.Base.{
  ◌≡◌, refl, inr, none, some, [], ◌∷◌, ◌++◌, arith, take, list_eq, u32_bytes, fill_zero,
}
use vesper_platform.Binary.Utf8.{Text, encode_text, decode_text}
use vesper_platform.Binary.Utf8.RoundTrip.{decode_text-encode_text}
use vesper_platform.Binary.Headers.{
  Headers, header_lines, encode_headers, append_header_to_binary, assign, decode_headers,
  colon_index, get_header,
}
use vesper_platform.Binary.Headers.Lines.{IsHeader, AreHeaders, AreFresh}
use vesper_platform.Binary.Headers.RoundTrip.{
  decode_headers-encode_headers, decode_headers-append_header_to_binary,
}
use vesper_platform.Binary.Wire.{
  AdapterRequest, header_bytes, body_bytes, timeout_or_zero, serialize_adapter_request,
  deserialize_adapter_request, null, range_error, received,
}
use vesper_platform.Binary.Wire.RoundTrip.{
  IsCarried, carried, deserialize-serialize_adapter_request,
}
use vesper_platform.Binary.Wire.Truncation.{deserialize-cut, deserialize-fill_zero}

-- "Ñ€😀": characters of two, three and four bytes.
abbrev sample : Text
sample = 0xD1 ∷ 0x20AC ∷ 0x1F600 ∷ []

abbrev accept : Text
accept = b'A' ∷ b'c' ∷ []

abbrev json : Text
json = b'j' ∷ b's' ∷ []

abbrev etag : Text
etag = b'E' ∷ []

abbrev tag : Text
tag = b'4' ∷ b':' ∷ []

abbrev pub two_headers : Headers
two_headers = (accept, json) ∷ (etag, tag) ∷ []

accept-IsHeader : IsHeader accept json
unfolding colon_index
accept-IsHeader = record {
  key_scalar = ground arith;
  value_scalar = ground arith;
  key_line = (ground arith, (ground arith, tt));
  value_line = (ground arith, (ground arith, tt));
  key_nonempty = ground arith;
  key_plain = refl;
}

etag-IsHeader : IsHeader etag tag
unfolding colon_index
etag-IsHeader = record {
  key_scalar = ground arith;
  value_scalar = ground arith;
  key_line = (ground arith, tt);
  value_line = (ground arith, (ground arith, tt));
  key_nonempty = ground arith;
  key_plain = refl;
}

accept-tag-IsHeader : IsHeader accept tag
accept-tag-IsHeader = record {
  key_scalar = accept-IsHeader.key_scalar;
  value_scalar = etag-IsHeader.value_scalar;
  key_line = accept-IsHeader.key_line;
  value_line = etag-IsHeader.value_line;
  key_nonempty = accept-IsHeader.key_nonempty;
  key_plain = accept-IsHeader.key_plain;
}

pub two_headers-AreHeaders : AreHeaders two_headers
two_headers-AreHeaders = (accept-IsHeader, (etag-IsHeader, tt))

pub two_headers-AreFresh : AreFresh [] two_headers
unfolding get_header list_eq
two_headers-AreFresh = (refl, (refl, tt))

abbrev pub order : AdapterRequest
order = record {
  method = b'P' ∷ b'U' ∷ b'T' ∷ [];
  url = b'/' ∷ b'o' ∷ [];
  encoded_headers = none;
  headers = some two_headers;
  body = some (123 ∷ 125 ∷ []);
  timeout_ms = some 5000;
}

pub order-IsCarried : IsCarried order
unfolding header_bytes body_bytes timeout_or_zero encode_text encode_headers
order-IsCarried = record {
  method_nonempty = ground arith;
  method_scalar = ground arith;
  method_mark = ground arith;
  url_scalar = ground arith;
  url_mark = ground arith;
  method_fits = omega arith;
  url_fits = omega arith;
  headers_fit = omega arith;
  body_fits = omega arith;
  timeout_fits = omega arith;
}

sample_run : encode_text sample ≡ 0xC3 ∷ 0x91 ∷ 0xE2 ∷ 0x82 ∷ 0xAC ∷ 0xF0 ∷ 0x9F ∷ 0x98 ∷ 0x80 ∷ []
unfolding encode_text
sample_run = refl

-- A value that breaks a line is read back as two headers.
injection_run :
    decode_headers (encode_headers ((etag, b'4' ∷ 10 ∷ (accept ++ b':' ∷ b' ' ∷ json)) ∷ []))
    ≡ (etag, b'4' ∷ []) ∷ (accept, json) ∷ []
unfolding decode_headers encode_headers encode_text decode_text colon_index assign list_eq
injection_run = refl

decode_encoded_sample : decode_text (encode_text sample) ≡ sample
decode_encoded_sample = decode_text-encode_text sample (ground arith) (ground arith)

decode_headers-encode_headers_example : decode_headers (encode_headers two_headers) ≡ two_headers
unfolding header_lines
decode_headers-encode_headers_example =
    decode_headers-encode_headers two_headers two_headers-AreHeaders two_headers-AreFresh
      (ground arith)

decode_appended_tag :
    decode_headers (append_header_to_binary (encode_headers two_headers) accept tag)
    ≡ assign accept tag two_headers
unfolding header_lines
decode_appended_tag =
    decode_headers-append_header_to_binary two_headers accept tag two_headers-AreHeaders
      two_headers-AreFresh accept-tag-IsHeader (ground arith)

deserialize-serialize_adapter_request_example :
    deserialize_adapter_request (serialize_adapter_request order) ≡ received (carried order)
deserialize-serialize_adapter_request_example =
    deserialize-serialize_adapter_request order order-IsCarried

deserialize-cut_example :
    deserialize_adapter_request (take 11 (serialize_adapter_request order)) ≡ range_error
unfolding serialize_adapter_request header_bytes body_bytes encode_text encode_headers u32_bytes
deserialize-cut_example = deserialize-cut order 11 order-IsCarried (omega arith) (omega arith)

deserialize_zeroed :
    deserialize_adapter_request (fill_zero (serialize_adapter_request order)) ≡ null
unfolding serialize_adapter_request header_bytes body_bytes encode_text encode_headers u32_bytes
deserialize_zeroed = deserialize-fill_zero (serialize_adapter_request order) (inr (omega arith))
