-- ===== src/Binary/Wire/Segments.antt =====
-- Segments that are written, cut and read back.
use vesper_platform.Base.{
  ℕ, zero, suc, ◌+◌, ◌<◌, ◌≤◌, ◌≡◌, ◌⊎◌, inl, inr, refl, sym, ap, none, some, [], ◌∷◌, ◌++◌, arith,
  length, take, drop, Bytes, u32_bytes, get_u32, get_u32-u32_bytes, length-u32_bytes, take-append,
  drop-append, append_assoc, length-append, Bool-cases, ltb, leb, ◌-◌,
}
use vesper_platform.Binary.Wire.{write_segment, read_segment}

abbrev pub u32_limit : ℕ
u32_limit = 4294967296

abbrev pub Fits : Bytes → Type 0
Fits bs = length bs < u32_limit

drop4-u32_bytes : (n : ℕ) (rest : Bytes) → drop 4 (u32_bytes n ++ rest) ≡ rest
unfolding u32_bytes
drop4-u32_bytes n rest = refl

pub read_segment-write_segment :
    (s rest : Bytes) → Fits s → read_segment (write_segment s ++ rest) ≡ some (s, rest)
unfolding read_segment write_segment
read_segment-write_segment s rest h =
    rw
      (
        append_assoc (u32_bytes (length s)) s rest,
        get_u32-u32_bytes (length s) (s ++ rest) h,
        drop4-u32_bytes (length s) (s ++ rest),
        take-append s rest,
        drop-append s rest,
      )
      refl

take-short : (n : ℕ) (s rest : Bytes) → n ≤ length s → take n (s ++ rest) ≡ take n s
take-short zero s rest h = refl
take-short (suc n) [] rest h = absurd (omega arith)
take-short (suc n) (x ∷ s) rest h = ap (◌∷◌ x) (take-short n s rest (omega arith))

pub take-long : (n : ℕ) (s rest : Bytes) → take (length s + n) (s ++ rest) ≡ s ++ take n rest
take-long n [] rest = let e : 0 + n ≡ n = omega arith in rw e refl
take-long n (x ∷ s) rest =
    let e : suc (length s) + n ≡ suc (length s + n) = omega arith in
    rw e (ap (◌∷◌ x) (take-long n s rest))

take-all : (n : ℕ) (s : Bytes) → length s ≤ n → take n s ≡ s
take-all zero [] h = refl
take-all (suc n) [] h = refl
take-all zero (x ∷ s) h = absurd (omega arith)
take-all (suc n) (x ∷ s) h = ap (◌∷◌ x) (take-all n s (omega arith))

drop-all : (n : ℕ) (s : Bytes) → length s ≤ n → drop n s ≡ []
drop-all zero [] h = refl
drop-all (suc n) [] h = refl
drop-all zero (x ∷ s) h = absurd (omega arith)
drop-all (suc n) (x ∷ s) h = drop-all n s (omega arith)

pub length-take-short : (n : ℕ) (s : Bytes) → n ≤ length s → length (take n s) ≡ n
length-take-short zero s h = refl
length-take-short (suc n) [] h = absurd (omega arith)
length-take-short (suc n) (x ∷ s) h = ap suc (length-take-short n s (omega arith))

pub get_u32-short : (b : Bytes) → length b < 4 → get_u32 b ≡ none
unfolding get_u32
get_u32-short [] h = refl
get_u32-short (x ∷ []) h = refl
get_u32-short (x ∷ y ∷ []) h = refl
get_u32-short (x ∷ y ∷ z ∷ []) h = refl
get_u32-short (x ∷ y ∷ z ∷ w ∷ b) h = absurd (omega arith)

-- A buffer that ends inside the segment: it yields what is left of the segment, and then nothing.
read_segment-inside :
    (n : ℕ) (s rest : Bytes)
    → Fits s
    → n ≤ length s
    → read_segment (take (4 + n) (write_segment s ++ rest)) ≡ some (take n s, [])
unfolding read_segment write_segment
read_segment-inside n s rest h le =
    let e : 4 + n ≡ length (u32_bytes (length s)) + n =
      ap (λ k. k + n) (sym (length-u32_bytes (length s))) in
    rw
      (
        append_assoc (u32_bytes (length s)) s rest,
        e,
        take-long n (u32_bytes (length s)) (s ++ rest),
        take-short n s rest le,
        get_u32-u32_bytes (length s) (take n s) h,
        drop4-u32_bytes (length s) (take n s),
        take-all (length s) (take n s) (omega (arith, length-take-short n s le)),
        drop-all (length s) (take n s) (omega (arith, length-take-short n s le)),
      )
      refl

pub length-write_segment : (s : Bytes) → length (write_segment s) ≡ 4 + length s
unfolding write_segment
length-write_segment s =
    omega (arith, length-append (u32_bytes (length s)) s, length-u32_bytes (length s))

-- A buffer that goes on past the segment.
read_segment-past :
    (n : ℕ) (s rest : Bytes)
    → Fits s
    → read_segment (take (4 + length s + n) (write_segment s ++ rest)) ≡ some (s, take n rest)
read_segment-past n s rest h =
    let e : 4 + length s + n ≡ length (write_segment s) + n =
      omega (arith, length-write_segment s) in
    rw (e, take-long n (write_segment s) rest) (read_segment-write_segment s (take n rest) h)

-- What reading a segment off a buffer cut after `n` bytes can give: nothing, a part of the segment
-- with nothing after it, or the segment with what the cut leaves after it.
abbrev pub IsCut : ℕ → Bytes → Bytes → Bytes → Type 0
IsCut n s rest cut =
    (read_segment cut ≡ none)
    ⊎ (((x : Bytes) × (read_segment cut ≡ some (x, [])))
        ⊎ ((m : ℕ) × (n ≡ 4 + length s + m) × (read_segment cut ≡ some (s, take m rest))))

pub length-take_le : (n : ℕ) (s : Bytes) → length (take n s) ≤ n
length-take_le zero s = omega arith
length-take_le (suc n) [] = omega arith
length-take_le (suc n) (x ∷ s) = omega (arith, length-take_le n s)

-- A number is below `4 + l` and at least 4, below 4, or `4 + l` and more.
cut_cases : (n l : ℕ) → (n < 4) ⊎ (((k : ℕ) × (n ≡ 4 + k) × (k ≤ l)) ⊎ ((m : ℕ) × (n ≡ 4 + l + m)))
cut_cases n l = elim (Bool-cases (ltb n 4)) [
  | inl e ↦ inl (ground arith)
  | inr e ↦ elim (Bool-cases (leb n (4 + l))) [
    | inl f ↦ inr (inl (n - 4, ground arith, ground arith))
    | inr f ↦ inr (inr (n - (4 + l), ground arith))
  ]
]

pub read_segment-IsCut :
    (n : ℕ) (s rest : Bytes) → Fits s → IsCut n s rest (take n (write_segment s ++ rest))
unfolding read_segment
read_segment-IsCut n s rest h = elim (cut_cases n (length s)) [
  | inl lt ↦
      let all = write_segment s ++ rest in
      inl (rw (get_u32-short (take n all) (omega (arith, length-take_le n all))) refl)
  | inr (inl (k, e, le)) ↦ inr (inl (take k s, rw e (read_segment-inside k s rest h le)))
  | inr (inr (m, e)) ↦ inr (inr (m, e, rw e (read_segment-past m s rest h)))
]
