-- ===== src/Binary/Utf8.antt =====
-- `TextEncoder` and `TextDecoder`, of the WHATWG encoding standard, which binary.ts calls. A text is
-- the list of its code points; a lone surrogate is encoded as U+FFFD.
pub mod RoundTrip
use vesper_platform.Base.{
  ℕ, zero, suc, ◌+◌, ◌-◌, ◌*◌, ◌/◌, ◌%◌, ◌≤◌, ◌<◌, ◌⊎◌, Bool, true, false, ◌&&◌, List, [], ◌∷◌,
  ◌++◌, ltb, leb, ◌==◌, if◌then◌else◌, Bytes,
}

abbrev pub Text : Type 0
Text = List ℕ

abbrev pub replacement : ℕ
replacement = 0xFFFD

abbrev pub IsScalar : ℕ → Type 0
IsScalar c = (c < 0xD800) ⊎ ((0xE000 ≤ c) × (c < 0x110000))

abbrev between : ℕ → ℕ → ℕ → Bool
between lo c hi = leb lo c && leb c hi

unfoldable pub encode_char : ℕ → Bytes
encode_char c =
    if ltb c 0x80
    then c ∷ []
    else if ltb c 0x800
    then (0xC0 + c / 64) ∷ (0x80 + c % 64) ∷ []
    else if between 0xD800 c 0xDFFF
    then 0xEF ∷ 0xBF ∷ 0xBD ∷ []
    else if ltb c 0x10000
    then (0xE0 + c / 4096) ∷ (0x80 + c / 64 % 64) ∷ (0x80 + c % 64) ∷ []
    else (0xF0 + c / 262144) ∷ (0x80 + c / 4096 % 64) ∷ (0x80 + c / 64 % 64) ∷ (0x80 + c % 64) ∷ []

-- TEXT_ENCODER.encode
unfoldable pub encode_text : Text → Bytes
unfolding encode_char
encode_text [] = []
encode_text (c ∷ cs) = encode_char c ++ encode_text cs

-- The state of the UTF-8 decoder: the bytes that are still needed, what the code point is so far,
-- and the range in which the next byte has to lie.
pub record Decoder : Type 0 where
  pub needed : ℕ
  pub code_point : ℕ
  pub lower : ℕ
  pub upper : ℕ

abbrev pub idle : Decoder
idle = record { needed = 0; code_point = 0; lower = 0x80; upper = 0xBF }

-- A byte that begins a character: what is put out, and the next state.
lead_byte : ℕ → Text × Decoder
lead_byte b =
    if leb b 0x7F
    then (b ∷ [], idle)
    else if between 0xC2 b 0xDF
    then ([], record idle { needed = 1; code_point = b % 32 })
    else if between 0xE0 b 0xEF
    then (
      [],
      record {
        needed = 2;
        code_point = b % 16;
        lower = if b == 0xE0 then 0xA0 else 0x80;
        upper = if b == 0xED then 0x9F else 0xBF;
      },
    )
    else if between 0xF0 b 0xF4
    then (
      [],
      record {
        needed = 3;
        code_point = b % 8;
        lower = if b == 0xF0 then 0x90 else 0x80;
        upper = if b == 0xF4 then 0x8F else 0xBF;
      },
    )
    else (replacement ∷ [], idle)

next_byte : Decoder → ℕ → Text × Decoder
unfolding lead_byte
next_byte d b =
    if d.needed == 0
    then lead_byte b
    else if between d.lower b d.upper
    then (if d.needed == 1
        then ((d.code_point * 64 + b % 64) ∷ [], idle)
        else ([], record idle { needed = d.needed - 1; code_point = d.code_point * 64 + b % 64 }))
    else (replacement ∷ (lead_byte b).0, (lead_byte b).1)

pub decode_from : Decoder → Bytes → Text
decode_from d [] = if d.needed == 0 then [] else replacement ∷ []
decode_from d (b ∷ bs) = let r = next_byte d b in r.0 ++ decode_from r.1 bs

-- A byte order mark at the start is not part of the text.
strip_mark : Bytes → Bytes
strip_mark (a ∷ b ∷ c ∷ bs) = if a == 0xEF && b == 0xBB && c == 0xBF then bs else a ∷ b ∷ c ∷ bs
strip_mark bs = bs

-- TEXT_DECODER.decode
unfoldable pub decode_text : Bytes → Text
unfolding decode_from next_byte strip_mark
decode_text bs = decode_from idle (strip_mark bs)
