-- ===== src/Binary/Utf8/RoundTrip.antt =====
-- Decoding what was encoded.
use vesper_platform.Base.{
  ℕ, suc, ◌+◌, ◌*◌, ◌/◌, ◌%◌, ◌≤◌, ◌<◌, ◌≡◌, ◌≢◌, refl, ap, ◌∙◌, sym, [], ◌∷◌, ◌++◌, arith, Bytes,
  All, append_assoc, append-nil, if◌then◌else◌, ◌==◌,
}
use vesper_platform.Binary.Utf8.{
  Text, IsScalar, encode_char, encode_text, Decoder, idle, next_byte, decode_from, strip_mark,
  decode_text,
}

-- One round of the decoder, for each kind of byte that an encoder writes.
decode_ascii : (b : ℕ) (bs : Bytes) → b < 0x80 → decode_from idle (b ∷ bs) ≡ b ∷ decode_from idle bs
unfolding decode_from next_byte
decode_ascii b bs h = ground arith

decode_lead2 :
    (b : ℕ) (bs : Bytes)
    → 0xC2 ≤ b
    → b ≤ 0xDF
    → decode_from idle (b ∷ bs) ≡ decode_from (record idle { needed = 1; code_point = b % 32 }) bs
unfolding decode_from next_byte
decode_lead2 b bs p q = ground arith

abbrev after_lead3 : ℕ → Decoder
after_lead3 b = record {
  needed = 2;
  code_point = b % 16;
  lower = if b == 0xE0 then 0xA0 else 0x80;
  upper = if b == 0xED then 0x9F else 0xBF;
}

decode_lead3 :
    (b : ℕ) (bs : Bytes)
    → 0xE0 ≤ b
    → b ≤ 0xEF
    → decode_from idle (b ∷ bs) ≡ decode_from (after_lead3 b) bs
unfolding decode_from next_byte
decode_lead3 b bs p q = ground arith

abbrev after_lead4 : ℕ → Decoder
after_lead4 b = record {
  needed = 3;
  code_point = b % 8;
  lower = if b == 0xF0 then 0x90 else 0x80;
  upper = if b == 0xF4 then 0x8F else 0xBF;
}

decode_lead4 :
    (b : ℕ) (bs : Bytes)
    → 0xF0 ≤ b
    → b ≤ 0xF4
    → decode_from idle (b ∷ bs) ≡ decode_from (after_lead4 b) bs
unfolding decode_from next_byte
decode_lead4 b bs p q = ground arith

decode_last :
    (d : Decoder) (b : ℕ) (bs : Bytes)
    → d.needed ≡ 1
    → d.lower ≤ b
    → b ≤ d.upper
    → decode_from d (b ∷ bs) ≡ (d.code_point * 64 + b % 64) ∷ decode_from idle bs
unfolding decode_from next_byte
decode_last d b bs n p q = ground arith

decode_more :
    (d : Decoder) (b n : ℕ) (bs : Bytes)
    → d.needed ≡ suc (suc n)
    → d.lower ≤ b
    → b ≤ d.upper
    → decode_from d (b ∷ bs)
      ≡ decode_from (record idle { needed = suc n; code_point = d.code_point * 64 + b % 64 }) bs
unfolding decode_from next_byte
decode_more d b n bs e p q = ground arith

decode2 :
    (c : ℕ) (bs : Bytes)
    → 0x80 ≤ c
    → c < 0x800
    → decode_from idle ((0xC0 + c / 64) ∷ (0x80 + c % 64) ∷ bs) ≡ c ∷ decode_from idle bs
decode2 c bs p q =
    decode_lead2 (0xC0 + c / 64) _ (omega arith) (omega arith)
    ∙ decode_last _ (0x80 + c % 64) bs refl (omega arith) (omega arith)
    ∙ ap (λ (n : ℕ). n ∷ decode_from idle bs) (omega arith)

decode3 :
    (c : ℕ) (bs : Bytes)
    → 0x800 ≤ c
    → c < 0x10000
    → IsScalar c
    → decode_from idle ((0xE0 + c / 4096) ∷ (0x80 + c / 64 % 64) ∷ (0x80 + c % 64) ∷ bs)
      ≡ c ∷ decode_from idle bs
decode3 c bs p q h =
    decode_lead3 (0xE0 + c / 4096) _ (omega arith) (omega arith)
    ∙ decode_more (after_lead3 (0xE0 + c / 4096)) (0x80 + c / 64 % 64) 0 _ refl (ground arith)
        (ground arith)
    ∙ decode_last _ (0x80 + c % 64) bs refl (omega arith) (omega arith)
    ∙ ap (λ (n : ℕ). n ∷ decode_from idle bs) (omega arith)

decode4 :
    (c : ℕ) (bs : Bytes)
    → 0x10000 ≤ c
    → c < 0x110000
    → decode_from idle
        ((0xF0 + c / 262144) ∷ (0x80 + c / 4096 % 64) ∷ (0x80 + c / 64 % 64) ∷ (0x80 + c % 64) ∷ bs)
      ≡ c ∷ decode_from idle bs
decode4 c bs p q =
    decode_lead4 (0xF0 + c / 262144) _ (omega arith) (omega arith)
    ∙ decode_more (after_lead4 (0xF0 + c / 262144)) (0x80 + c / 4096 % 64) 1 _ refl (ground arith)
        (ground arith)
    ∙ decode_more _ (0x80 + c / 64 % 64) 0 _ refl (omega arith) (omega arith)
    ∙ decode_last _ (0x80 + c % 64) bs refl (omega arith) (omega arith)
    ∙ ap (λ (n : ℕ). n ∷ decode_from idle bs) (omega arith)

decode-encode_char :
    (c : ℕ) (rest : Bytes)
    → IsScalar c
    → decode_from idle (encode_char c ++ rest) ≡ c ∷ decode_from idle rest
unfolding encode_char
decode-encode_char c rest h =
    ground (arith, decode_ascii c rest, decode2 c rest, decode3 c rest, decode4 c rest)

decode_from-encode_text :
    (t : Text) (rest : Bytes)
    → All IsScalar t
    → decode_from idle (encode_text t ++ rest) ≡ t ++ decode_from idle rest
unfolding encode_text
decode_from-encode_text [] rest h = refl
decode_from-encode_text (c ∷ cs) rest h =
    ap (decode_from idle) (append_assoc (encode_char c) (encode_text cs) rest)
    ∙ decode-encode_char c (encode_text cs ++ rest) h.0
    ∙ ap (◌∷◌ c) (decode_from-encode_text cs rest h.1)

-- The text does not begin with a byte order mark.
abbrev pub HasNoMark : Text → Type 0
HasNoMark [] = Unit
HasNoMark (c ∷ cs) = c ≢ 0xFEFF

strip_mark_other : (a : ℕ) (bs : Bytes) → a ≢ 0xEF → strip_mark (a ∷ bs) ≡ a ∷ bs
unfolding strip_mark
strip_mark_other a [] h = refl
strip_mark_other a (b ∷ []) h = refl
strip_mark_other a (b ∷ c ∷ bs) h = ground arith

strip_mark3 :
    (c : ℕ) (bs : Bytes)
    → c ≢ 0xFEFF
    → c < 0x10000
    → strip_mark ((0xE0 + c / 4096) ∷ (0x80 + c / 64 % 64) ∷ (0x80 + c % 64) ∷ bs)
      ≡ (0xE0 + c / 4096) ∷ (0x80 + c / 64 % 64) ∷ (0x80 + c % 64) ∷ bs
unfolding strip_mark
strip_mark3 c bs h p = ground arith

strip_mark-encode_char :
    (c : ℕ) (bs : Bytes)
    → IsScalar c
    → c ≢ 0xFEFF
    → strip_mark (encode_char c ++ bs) ≡ encode_char c ++ bs
unfolding encode_char
strip_mark-encode_char c bs h m = ground (
  arith,
  strip_mark_other c bs,
  strip_mark_other (0xC0 + c / 64) ((0x80 + c % 64) ∷ bs),
  strip_mark3 c bs m,
  strip_mark_other (0xF0 + c / 262144)
      ((0x80 + c / 4096 % 64) ∷ (0x80 + c / 64 % 64) ∷ (0x80 + c % 64) ∷ bs),
)

strip_mark-encode_text :
    (t : Text) → All IsScalar t → HasNoMark t → strip_mark (encode_text t) ≡ encode_text t
unfolding strip_mark encode_text
strip_mark-encode_text [] h m = refl
strip_mark-encode_text (c ∷ cs) h m = strip_mark-encode_char c (encode_text cs) h.0 m

-- Decoding gives back every encoded text of Unicode scalar values that does not begin with a byte
-- order mark, which the decoder drops.
pub decode_text-encode_text :
    (t : Text) → All IsScalar t → HasNoMark t → decode_text (encode_text t) ≡ t
unfolding decode_text
decode_text-encode_text t h m =
    ap (decode_from idle) (strip_mark-encode_text t h m ∙ sym (append-nil (encode_text t)))
    ∙ decode_from-encode_text t [] h
    ∙ (ap (◌++◌ t) end ∙ append-nil t)
  where
    end : decode_from idle [] ≡ []
    end = refl
