-- ===== src/Binary/Wire/Truncation.antt =====
-- Serialized requests that are cut short, and buffers that were zeroed.
use vesper_platform.Base.{
  ℕ, ◌+◌, ◌-◌, ◌<◌, ◌≤◌, ◌≡◌, ◌≢◌, refl, sym, ap, ap₂, Bool-cases, ◌∙◌, Option, none, some, [], ◌∷◌,
  ◌++◌, arith, ltb, length, take, Bytes, Option-cases, ◌⊎◌, inl, inr, u32_bytes, get_u32, ◌>>=◌,
  get_u32-u32_bytes, length-u32_bytes, length-append, fill_zero,
}
use vesper_platform.Binary.Wire.Segments.{
  u32_limit, Fits, read_segment-IsCut, get_u32-short, length-take_le, length-take-short,
  length-write_segment, take-long,
}
use vesper_platform.Binary.Utf8.{encode_text}
use vesper_platform.Binary.Wire.{
  AdapterRequest, header_bytes, body_bytes, timeout_or_zero, write_segment,
  serialize_adapter_request, Received, null, range_error, read_segment, read_request,
  or_range_error, deserialize_adapter_request,
}
use vesper_platform.Binary.Wire.RoundTrip.{
  IsCarried, encode_text-nonempty, method_first, after_method,
}

length-write_segment-append :
    (s rest : Bytes) → length (write_segment s ++ rest) ≡ 4 + length s + length rest
length-write_segment-append s rest =
    omega (arith, length-append (write_segment s) rest, length-write_segment s)

-- A reader that fails where nothing follows the segment, and where less follows than was written,
-- fails on a buffer that is cut.
cut-none :
    (s rest : Bytes)
    → Fits s
    → (k : (Bytes × Bytes) → Option Received) → ((x : Bytes) → k (x, []) ≡ none)
    → ((m : ℕ) → m < length rest → k (s, take m rest) ≡ none)
    → (n : ℕ) → n < length (write_segment s ++ rest)
    → (read_segment (take n (write_segment s ++ rest)) >>= k) ≡ none
cut-none s rest fits k f g n lt = elim (read_segment-IsCut n s rest fits) [
  | inl e ↦ rw e refl
  | inr (inl (x, e)) ↦ rw e (f x)
  | inr (inr (m, l, e)) ↦ rw e (g m (omega (arith, length-write_segment-append s rest)))
]

get_u32-cut : (n : ℕ) (b : Bytes) → n < 4 → get_u32 (take n b) ≡ none
get_u32-cut n b lt = get_u32-short (take n b) (omega (arith, length-take_le n b))

read_segment-empty : read_segment [] ≡ none
unfolding read_segment get_u32
read_segment-empty = refl

read_request-cut :
    (r : AdapterRequest) (n : ℕ)
    → IsCarried r
    → n < length (serialize_adapter_request r)
    → read_request (take n (serialize_adapter_request r)) ≡ none
unfolding read_request serialize_adapter_request
read_request-cut r n h lt =
    let t = u32_bytes (timeout_or_zero r) in
    let b = write_segment (body_bytes r) ++ t in
    let hs = write_segment (header_bytes r) ++ b in
    cut-none (encode_text r.method) (after_method r) h.method_fits _
      (λ x. rw read_segment-empty refl)
      (λ m1 lt1.
        cut-none (encode_text r.url) hs h.url_fits _ (λ x. rw read_segment-empty refl)
          (λ m2 lt2.
            cut-none (header_bytes r) b h.headers_fit _ (λ x. rw read_segment-empty refl)
              (λ m3 lt3.
                cut-none (body_bytes r) t h.body_fits _
                  (λ x. rw (get_u32-short [] (omega arith)) refl)
                  (λ m4 lt4.
                    rw (get_u32-cut m4 t (omega (arith, length-u32_bytes (timeout_or_zero r))))
                      refl)
                  m3 lt3)
              m2 lt2)
          m1 lt1)
      n lt

deserialize-range_error :
    (b : Bytes)
    → 0 < length b
    → get_u32 b ≢ some 0
    → read_request b ≡ none
    → deserialize_adapter_request b ≡ range_error
unfolding deserialize_adapter_request or_range_error
deserialize-range_error b pos first e = elim (Option-cases (get_u32 b)) [
  | inl n ↦ rw n (ground arith)
  | inr (v, n) ↦ let nz : v ≢ 0 = λ z. first (n ∙ ap some z) in rw (n, e) (ground arith)
]

get_u32-take :
    (k m : ℕ) (rest : Bytes) → m < u32_limit → get_u32 (take (4 + k) (u32_bytes m ++ rest)) ≡ some m
get_u32-take k m rest lt =
    let e : 4 + k ≡ length (u32_bytes m) + k = ap (λ j. j + k) (sym (length-u32_bytes m)) in
    rw (e, take-long k (u32_bytes m) rest) (get_u32-u32_bytes m (take k rest) lt)

get_u32-first :
    (n : ℕ) (r : AdapterRequest)
    → IsCarried r
    → get_u32 (take n (serialize_adapter_request r)) ≢ some 0
get_u32-first n r h e = elim (Bool-cases (ltb n 4)) [
  | inl lt ↦ ground (arith, get_u32-cut n (serialize_adapter_request r))
  | inr ge ↦
      let m = length (encode_text r.method) in
      let split : n ≡ 4 + (n - 4) = ground arith in
      let shape : take n (serialize_adapter_request r)
          ≡ take (4 + (n - 4)) (u32_bytes m ++ (encode_text r.method ++ after_method r)) =
        ap₂ take split (method_first r) in
      let first : get_u32 (take n (serialize_adapter_request r)) ≡ some m =
        ap get_u32 shape
        ∙ get_u32-take (n - 4) m (encode_text r.method ++ after_method r) h.method_fits in
      ground (arith, encode_text-nonempty r.method h.method_nonempty)
]

-- A serialized request that is cut short, but not to nothing, never reads back as a request: reading
-- past the end throws.
pub deserialize-cut :
    (r : AdapterRequest) (n : ℕ)
    → IsCarried r
    → 0 < n
    → n < length (serialize_adapter_request r)
    → deserialize_adapter_request (take n (serialize_adapter_request r)) ≡ range_error
deserialize-cut r n h pos lt =
    deserialize-range_error (take n (serialize_adapter_request r))
      (omega (arith, length-take-short n (serialize_adapter_request r) (omega arith)))
      (get_u32-first n r h) (read_request-cut r n h lt)

-- A buffer of at least four bytes, or of none, that has been zeroed reads back as `null`.
pub deserialize-fill_zero :
    (b : Bytes) → (length b ≡ 0) ⊎ (4 ≤ length b) → deserialize_adapter_request (fill_zero b) ≡ null
unfolding deserialize_adapter_request get_u32
deserialize-fill_zero [] h = ground arith
deserialize-fill_zero (x ∷ []) h = ground arith
deserialize-fill_zero (x ∷ y ∷ []) h = ground arith
deserialize-fill_zero (x ∷ y ∷ z ∷ []) h = ground arith
deserialize-fill_zero (x ∷ y ∷ z ∷ w ∷ b) h = ground arith
