-- ===== src/Binary/Headers/RoundTrip.antt =====
-- Headers that are encoded, extended and decoded.
use vesper_platform.Base.{
  ◌≡◌, refl, ap, sym, ◌∙◌, none, [], ◌∷◌, ◌++◌, arith, All, All-append, append_assoc, append-nil,
  Bytes,
}
use vesper_platform.Binary.Utf8.{Text, IsScalar, encode_char, encode_text, decode_text}
use vesper_platform.Binary.Utf8.RoundTrip.{HasNoMark, decode_text-encode_text}
use vesper_platform.Binary.Headers.{
  Headers, newline, header_line, header_lines, encode_headers, append_header_to_binary, split_lines,
  assign, get_header, add_lines, decode_headers,
}
use vesper_platform.Binary.Headers.Lines.{
  IsHeader, AreHeaders, AreFresh, assign_all, add_lines-blank, add_lines-header_lines,
}

encode_text-append : (xs ys : Text) → encode_text (xs ++ ys) ≡ encode_text xs ++ encode_text ys
unfolding encode_text
encode_text-append [] ys = refl
encode_text-append (x ∷ xs) ys =
    ap (λ t. encode_char x ++ t) (encode_text-append xs ys)
    ∙ sym (append_assoc (encode_char x) (encode_text xs) (encode_text ys))

header_lines-append :
    (xs : Headers) (key value : Text)
    → header_lines (xs ++ (key, value) ∷ []) ≡ header_lines xs ++ header_line key value
unfolding header_lines
header_lines-append [] key value = append-nil (header_line key value)
header_lines-append ((k, v) ∷ xs) key value =
    ap (λ t. header_line k v ++ t) (header_lines-append xs key value)
    ∙ sym (append_assoc (header_line k v) (header_lines xs) (header_line key value))

header_line-IsScalar :
    (key value : Text) → IsHeader key value → All IsScalar (header_line key value)
unfolding header_line
header_line-IsScalar key value h =
    All-append IsScalar key (b':' ∷ b' ' ∷ (value ++ newline ∷ [])) h.key_scalar (
      ground arith,
      (ground arith, All-append IsScalar value (newline ∷ []) h.value_scalar (ground arith)),
    )

header_lines-IsScalar :
    (headers : Headers) → AreHeaders headers → All IsScalar (header_lines headers)
unfolding header_lines
header_lines-IsScalar [] h = tt
header_lines-IsScalar ((key, value) ∷ rest) h =
    All-append IsScalar (header_line key value) (header_lines rest)
      (header_line-IsScalar key value h.0) (header_lines-IsScalar rest h.1)

decode_text-empty : decode_text [] ≡ []
unfolding encode_text
decode_text-empty = decode_text-encode_text [] tt tt

decode_headers-lines : (b : Bytes) → decode_headers b ≡ add_lines (split_lines (decode_text b)) []
unfolding decode_headers
decode_headers-lines [] = rw decode_text-empty (sym (add_lines-blank []))
decode_headers-lines (x ∷ b) = ground arith

decode_headers-encode_headers_all :
    (headers : Headers)
    → AreHeaders headers
    → HasNoMark (header_lines headers)
    → decode_headers (encode_headers headers) ≡ assign_all headers []
unfolding encode_headers
decode_headers-encode_headers_all headers h m =
    rw
      (
        decode_headers-lines (encode_text (header_lines headers)),
        decode_text-encode_text (header_lines headers) (header_lines-IsScalar headers h) m,
      )
      (add_lines-header_lines headers [] h)

assign-unset :
    (key value : Text) (result : Headers)
    → get_header key result ≡ none
    → assign key value result ≡ result ++ (key, value) ∷ []
unfolding assign get_header
assign-unset key value [] h = refl
assign-unset key value ((k, v) ∷ rest) h = ground (arith, assign-unset key value rest)

assign_all-fresh :
    (headers set : Headers) → AreFresh set headers → assign_all headers set ≡ set ++ headers
unfolding assign_all
assign_all-fresh [] set h = sym (append-nil set)
assign_all-fresh ((key, value) ∷ rest) set h = rw (assign-unset key value set h.0) (
    assign_all-fresh rest (set ++ (key, value) ∷ []) h.1
    ∙ append_assoc set ((key, value) ∷ []) rest)

AreHeaders-append :
    (headers : Headers) (key value : Text)
    → AreHeaders headers
    → IsHeader key value
    → AreHeaders (headers ++ (key, value) ∷ [])
AreHeaders-append [] key value h k = (k, tt)
AreHeaders-append ((a, b) ∷ rest) key value h k = (h.0, AreHeaders-append rest key value h.1 k)

assign_all-append :
    (headers set : Headers) (key value : Text)
    → assign_all (headers ++ (key, value) ∷ []) set ≡ assign key value (assign_all headers set)
unfolding assign_all
assign_all-append [] set key value = refl
assign_all-append ((k, v) ∷ rest) set key value = assign_all-append rest (assign k v set) key value

-- Headers that the line format can carry (code points that UTF-8 carries, no line break in a key or
-- a value, keys that are not empty and hold no ": "), with distinct keys and no byte order mark at
-- the start, are decoded from their encoding unchanged and in order.
pub decode_headers-encode_headers :
    (headers : Headers)
    → AreHeaders headers
    → AreFresh [] headers
    → HasNoMark (header_lines headers)
    → decode_headers (encode_headers headers) ≡ headers
decode_headers-encode_headers headers h f m =
    decode_headers-encode_headers_all headers h m ∙ assign_all-fresh headers [] f

-- Appending a header to the encoding of such headers is setting it: the decoder reads back the
-- headers with the key assigned, in its old place where the key was there and at the end where not.
pub decode_headers-append_header_to_binary :
    (headers : Headers) (key value : Text)
    → AreHeaders headers
    → AreFresh [] headers
    → IsHeader key value
    → HasNoMark (header_lines (headers ++ (key, value) ∷ []))
    → decode_headers (append_header_to_binary (encode_headers headers) key value)
      ≡ assign key value headers
unfolding append_header_to_binary encode_headers
decode_headers-append_header_to_binary headers key value h f k m =
    let all = headers ++ (key, value) ∷ [] in
    let e : encode_text (header_lines headers) ++ encode_text (header_line key value)
        ≡ encode_headers all =
      sym (encode_text-append (header_lines headers) (header_line key value))
      ∙ ap encode_text (sym (header_lines-append headers key value)) in
    rw
      (
        e,
        decode_headers-encode_headers_all all (AreHeaders-append headers key value h k) m,
        assign_all-append headers [] key value,
        assign_all-fresh headers [] f,
      )
      refl
