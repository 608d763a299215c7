-- ===== src/Binary/Headers/Lines.antt =====
-- The line format of headers: what the decoder makes of the lines of an encoding.
use vesper_platform.Base.{
  ℕ, suc, ◌+◌, ◌≡◌, ◌≢◌, refl, ap, ◌∙◌, true, none, some, List, [], ◌∷◌, ◌++◌, arith, length, drop,
  All, All-append, append_assoc, take-append, ltb,
}
use vesper_platform.Binary.Utf8.{Text, IsScalar}
use vesper_platform.Binary.Headers.{
  Headers, newline, header_line, header_lines, put_first, split_lines, colon_index, assign,
  get_header, add_line, add_lines,
}

abbrev pub HasNoNewline : Text → Type 0
HasNoNewline t = All (λ c. c ≢ newline) t

-- A header that the line format can carry: code points that UTF-8 can, no line break, and a key
-- that is not empty and holds no ": ".
pub record IsHeader (key value : Text) : Type 0 where
  pub key_scalar : All IsScalar key
  pub value_scalar : All IsScalar value
  pub key_line : HasNoNewline key
  pub value_line : HasNoNewline value
  pub key_nonempty : key ≢ []
  pub key_plain : colon_index key ≡ none

abbrev pub AreHeaders : Headers → Type 0
AreHeaders [] = Unit
AreHeaders ((key, value) ∷ rest) = IsHeader key value × AreHeaders rest

-- No key of the second list is set before it is reached.
abbrev pub AreFresh : Headers → Headers → Type 0
AreFresh set [] = Unit
AreFresh set ((key, value) ∷ rest) =
    (get_header key set ≡ none) × AreFresh (set ++ (key, value) ∷ []) rest

unfoldable pub assign_all : Headers → Headers → Headers
assign_all [] result = result
assign_all ((key, value) ∷ rest) result = assign_all rest (assign key value result)

put_first-put_first :
    (c : ℕ) (lines : List Text) → put_first newline (put_first c lines) ≡ [] ∷ put_first c lines
unfolding put_first
put_first-put_first c [] = refl
put_first-put_first c (line ∷ lines) = ground arith

put_first-split_lines : (t : Text) → put_first newline (split_lines t) ≡ [] ∷ split_lines t
unfolding split_lines put_first
put_first-split_lines [] = refl
put_first-split_lines (c ∷ cs) = put_first-put_first c (split_lines cs)

split_lines-append :
    (line rest : Text)
    → HasNoNewline line
    → split_lines (line ++ newline ∷ rest) ≡ line ∷ split_lines rest
unfolding split_lines
split_lines-append [] rest h = put_first-split_lines rest
split_lines-append (c ∷ line) rest h =
    ap (put_first c) (split_lines-append line rest h.1) ∙ ground arith

colon_index-append :
    (key value : Text)
    → colon_index key ≡ none
    → colon_index (key ++ b':' ∷ b' ' ∷ value) ≡ some (length key)
unfolding colon_index
colon_index-append [] value h = refl
colon_index-append (c ∷ []) value h = ground arith
colon_index-append (c ∷ d ∷ cs) value h = ground (arith, colon_index-append (d ∷ cs) value)

drop-key : (key value : Text) → drop (length key + 2) (key ++ b':' ∷ b' ' ∷ value) ≡ value
drop-key [] value = refl
drop-key (c ∷ key) value =
    let e : suc (length key) + 2 ≡ suc (length key + 2) = omega arith in rw e (drop-key key value)

nonempty_length : (key : Text) → key ≢ [] → ltb 0 (length key) ≡ true
nonempty_length [] h = absurd (h refl)
nonempty_length (c ∷ key) h = ground arith

add_line-header :
    (key value : Text) (result : Headers)
    → IsHeader key value
    → add_line (key ++ b':' ∷ b' ' ∷ value) result ≡ assign key value result
unfolding add_line
add_line-header key value result h =
    rw
      (
        colon_index-append key value h.key_plain,
        add_line,
        take-append key (b':' ∷ b' ' ∷ value),
        drop-key key value,
        nonempty_length key h.key_nonempty,
      )
      refl

header_line_shape :
    (key value rest : Text)
    → header_line key value ++ rest ≡ (key ++ b':' ∷ b' ' ∷ value) ++ newline ∷ rest
unfolding header_line
header_line_shape [] value rest = ap (λ t. b':' ∷ b' ' ∷ t) (append_assoc value (newline ∷ []) rest)
header_line_shape (c ∷ key) value rest = ap (◌∷◌ c) (header_line_shape key value rest)

line-HasNoNewline :
    (key value : Text) → IsHeader key value → HasNoNewline (key ++ b':' ∷ b' ' ∷ value)
line-HasNoNewline key value h =
    All-append (λ c. c ≢ newline) key (b':' ∷ b' ' ∷ value) h.key_line
      (ground arith, (ground arith, h.value_line))

pub add_lines-blank : (result : Headers) → add_lines (split_lines []) result ≡ result
unfolding add_lines split_lines add_line colon_index
add_lines-blank result = refl

pub add_lines-header_lines :
    (headers : Headers) (result : Headers)
    → AreHeaders headers
    → add_lines (split_lines (header_lines headers)) result ≡ assign_all headers result
unfolding header_lines assign_all add_lines
add_lines-header_lines [] result h = add_lines-blank result
add_lines-header_lines ((key, value) ∷ rest) result h =
    rw
      (
        header_line_shape key value (header_lines rest),
        split_lines-append (key ++ b':' ∷ b' ' ∷ value) (header_lines rest)
            (line-HasNoNewline key value h.0),
      )
      (ap (add_lines (split_lines (header_lines rest))) (add_line-header key value result h.0)
        ∙ add_lines-header_lines rest (assign key value result) h.1)
