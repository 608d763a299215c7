-- ===== src/Ledger/Sha256/Padding.antt =====
-- The padding of `sha256Sync` against FIPS 180-4 §5.1.1, and the shape of its digest.
use vesper_platform.Base.{
  ℕ, ◌+◌, ◌-◌, ◌*◌, ◌/◌, ◌%◌, ◌<◌, ◌≡◌, refl, [], ◌∷◌, ◌++◌, ap, ◌∙◌, arith, length, length-append,
  length-replicate, replicate-add, append_assoc, Bytes, AreBytes, zeros, u32_bytes,
  length-u32_bytes, get_u32,
}
use vesper_platform.Ledger.Sha256.{pad, digest_bytes, sha256_sync}

-- A 64-bit big-endian integer.
abbrev u64_bytes : ℕ → Bytes
u64_bytes n = u32_bytes (n / 4294967296) ++ u32_bytes n

-- FIPS 180-4 §5.1.1: a one bit, the least number of zero bits that leaves 64 bits of a block free,
-- and the length in bits as a 64-bit integer.
pub record IsFipsPadding (message padded : Bytes) : Type 0 where
  pub gap : ℕ
  pub gap_least : gap < 64
  pub gap_fits : (length message + 1 + gap) % 64 ≡ 56
  pub padded_eq : padded ≡ message ++ 0x80 ∷ (zeros gap ++ u64_bytes (8 * length message))

abbrev gap_of : ℕ → ℕ
gap_of n = (56 + 64 - (n + 1) % 64) % 64

length-padded :
    (message : Bytes) (gap n : ℕ)
    → length (message ++ 0x80 ∷ (zeros (gap + 4) ++ u32_bytes n)) ≡ length message + 1 + gap + 8
length-padded message gap n = omega (
  arith,
  length-append {0} message (0x80 ∷ (zeros (gap + 4) ++ u32_bytes n)),
  length-append {0} (zeros (gap + 4)) (u32_bytes n),
  length-replicate {A = ℕ} (gap + 4) 0,
  length-u32_bytes n,
)

-- A padded message is a whole number of chunks of 64 bytes, so the chunk loop reads all of it.
pub length-pad-mod : (message : Bytes) → length (pad message) % 64 ≡ 0
unfolding pad
length-pad-mod message =
    omega (arith, length-padded message (gap_of (length message)) (length message * 8))

zeros_high_word :
    (gap n : ℕ) → n < 4294967296 → zeros (gap + 4) ++ u32_bytes n ≡ zeros gap ++ u64_bytes n
unfolding u32_bytes
zeros_high_word gap n h =
    let high : n / 4294967296 ≡ 0 = omega arith in
    rw (replicate-add {A = ℕ} gap 4 0, high) (append_assoc (zeros gap) (zeros 4) (u32_bytes n))

-- Below 2 ^ 29 bytes the padding is that of FIPS 180-4.
pub pad-IsFipsPadding :
    (message : Bytes) → length message < 536870912 → IsFipsPadding message (pad message)
unfolding pad
pad-IsFipsPadding message h = record {
  gap = gap_of (length message);
  gap_least = omega arith;
  gap_fits = omega arith;
  padded_eq =
      let bits : length message * 8 ≡ 8 * length message = omega arith in
      let split = zeros_high_word (gap_of (length message)) (length message * 8) (omega arith) in
      ap (λ (t : Bytes). message ++ 0x80 ∷ t) split
      ∙ ap (λ (n : ℕ). message ++ 0x80 ∷ (zeros (gap_of (length message)) ++ u64_bytes n)) bits;
}

-- A digest is 32 bytes.
pub length-sha256_sync : (message : Bytes) → length (sha256_sync message) ≡ 32
unfolding sha256_sync digest_bytes u32_bytes
length-sha256_sync message = refl

pub sha256_sync-AreBytes : (message : Bytes) → AreBytes (sha256_sync message)
unfolding sha256_sync digest_bytes u32_bytes
sha256_sync-AreBytes message = omega arith

empty_digest :
    sha256_sync []
    ≡ 0xe3 ∷ 0xb0 ∷ 0xc4 ∷ 0x42 ∷ 0x98 ∷ 0xfc ∷ 0x1c ∷ 0x14 ∷ 0x9a ∷ 0xfb ∷ 0xf4 ∷ 0xc8 ∷ 0x99
      ∷ 0x6f ∷ 0xb9 ∷ 0x24 ∷ 0x27 ∷ 0xae ∷ 0x41 ∷ 0xe4 ∷ 0x64 ∷ 0x9b ∷ 0x93 ∷ 0x4c ∷ 0xa4 ∷ 0x95
      ∷ 0x99 ∷ 0x1b ∷ 0x78 ∷ 0x52 ∷ 0xb8 ∷ 0x55 ∷ []
unfolding sha256_sync u32_bytes get_u32
empty_digest = refl
