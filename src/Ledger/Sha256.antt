-- ===== src/Ledger/Sha256.antt =====
-- packages/ghost-ledger/src/ledger/crypto.ts: `sha256Sync`. A 32-bit word is a number below 2 ^ 32;
-- `| 0` and the stores into a `Uint32Array` keep the low 32 bits of a sum.
pub mod Padding
use Prim.Native.Nat.{bit_and, bit_or, bit_xor}
use vesper_platform.Base.{
  ℕ, zero, suc, ◌+◌, ◌-◌, ◌*◌, ◌/◌, ◌%◌, ◌^◌, Option, none, some, List, [], ◌∷◌, ◌++◌, length, take,
  drop, get_or, Bytes, zeros, u32_bytes, get_u32,
}

abbrev pub Words : Type 0
Words = List ℕ

abbrev pub round_constants : Words
round_constants =
    0x428a2f98 ∷ 0x71374491 ∷ 0xb5c0fbcf ∷ 0xe9b5dba5 ∷ 0x3956c25b ∷ 0x59f111f1 ∷ 0x923f82a4
    ∷ 0xab1c5ed5 ∷ 0xd807aa98 ∷ 0x12835b01 ∷ 0x243185be ∷ 0x550c7dc3 ∷ 0x72be5d74 ∷ 0x80deb1fe
    ∷ 0x9bdc06a7 ∷ 0xc19bf174 ∷ 0xe49b69c1 ∷ 0xefbe4786 ∷ 0x0fc19dc6 ∷ 0x240ca1cc ∷ 0x2de92c6f
    ∷ 0x4a7484aa ∷ 0x5cb0a9dc ∷ 0x76f988da ∷ 0x983e5152 ∷ 0xa831c66d ∷ 0xb00327c8 ∷ 0xbf597fc7
    ∷ 0xc6e00bf3 ∷ 0xd5a79147 ∷ 0x06ca6351 ∷ 0x14292967 ∷ 0x27b70a85 ∷ 0x2e1b2138 ∷ 0x4d2c6dfc
    ∷ 0x53380d13 ∷ 0x650a7354 ∷ 0x766a0abb ∷ 0x81c2c92e ∷ 0x92722c85 ∷ 0xa2bfe8a1 ∷ 0xa81a664b
    ∷ 0xc24b8b70 ∷ 0xc76c51a3 ∷ 0xd192e819 ∷ 0xd6990624 ∷ 0xf40e3585 ∷ 0x106aa070 ∷ 0x19a4c116
    ∷ 0x1e376c08 ∷ 0x2748774c ∷ 0x34b0bcb5 ∷ 0x391c0cb3 ∷ 0x4ed8aa4a ∷ 0x5b9cca4f ∷ 0x682e6ff3
    ∷ 0x748f82ee ∷ 0x78a5636f ∷ 0x84c87814 ∷ 0x8cc70208 ∷ 0x90befffa ∷ 0xa4506ceb ∷ 0xbef9a3f7
    ∷ 0xc67178f2 ∷ []

pub record Digest : Type 0 where
  pub h0 : ℕ
  pub h1 : ℕ
  pub h2 : ℕ
  pub h3 : ℕ
  pub h4 : ℕ
  pub h5 : ℕ
  pub h6 : ℕ
  pub h7 : ℕ

abbrev pub initial : Digest
initial = record {
  h0 = 0x6a09e667;
  h1 = 0xbb67ae85;
  h2 = 0x3c6ef372;
  h3 = 0xa54ff53a;
  h4 = 0x510e527f;
  h5 = 0x9b05688c;
  h6 = 0x1f83d9ab;
  h7 = 0x5be0cd19;
}

-- `x >>> n | x << (32 - n)`
rotate_right : ℕ → ℕ → ℕ
rotate_right x n = bit_or (x / 2 ^ n) (x * 2 ^ (32 - n) % 2 ^ 32)

xor3 : ℕ → ℕ → ℕ → ℕ
xor3 a b c = bit_xor (bit_xor a b) c

low32 : ℕ → ℕ
low32 n = n % 2 ^ 32

-- The rounds `t = 16 … 63` of the message schedule; the newest word stands at the head.
extend_schedule : ℕ → Words → Words
extend_schedule zero w = w
extend_schedule (suc rounds) w =
    extend_schedule rounds (low32 (s1 + get_or w 6 0 + s0 + get_or w 15 0) ∷ w)
  where
    s0 : ℕ
    s0 =
        xor3 (rotate_right (get_or w 14 0) 7) (rotate_right (get_or w 14 0) 18)
          (get_or w 14 0 / 2 ^ 3)

    s1 : ℕ
    s1 =
        xor3 (rotate_right (get_or w 1 0) 17) (rotate_right (get_or w 1 0) 19)
          (get_or w 1 0 / 2 ^ 10)

-- The first `n` big-endian words of a chunk, the last of them at the head.
read_words : ℕ → Bytes → Words → Words
read_words zero bs w = w
read_words (suc n) bs w = read_words n (drop 4 bs) (word (get_u32 bs) ∷ w)
  where
    word : Option ℕ → ℕ
    word none = 0
    word (some x) = x

reverse_onto : Words → Words → Words
reverse_onto [] acc = acc
reverse_onto (w ∷ ws) acc = reverse_onto ws (w ∷ acc)

schedule : Bytes → Words
schedule chunk = reverse_onto (extend_schedule 48 (read_words 16 chunk [])) []

round : ℕ → ℕ → Digest → Digest
round k w v = record {
  h0 = low32 (temp1 + temp2);
  h1 = v.h0;
  h2 = v.h1;
  h3 = v.h2;
  h4 = low32 (v.h3 + temp1);
  h5 = v.h4;
  h6 = v.h5;
  h7 = v.h6;
}
  where
    big_s1 : ℕ
    big_s1 = xor3 (rotate_right v.h4 6) (rotate_right v.h4 11) (rotate_right v.h4 25)

    choice : ℕ
    choice = bit_xor (bit_and v.h4 v.h5) (bit_and (2 ^ 32 - 1 - v.h4) v.h6)

    temp1 : ℕ
    temp1 = low32 (v.h7 + big_s1 + choice + k + w)

    big_s0 : ℕ
    big_s0 = xor3 (rotate_right v.h0 2) (rotate_right v.h0 13) (rotate_right v.h0 22)

    majority : ℕ
    majority = xor3 (bit_and v.h0 v.h1) (bit_and v.h0 v.h2) (bit_and v.h1 v.h2)

    temp2 : ℕ
    temp2 = low32 (big_s0 + majority)

rounds : Words → Words → Digest → Digest
rounds (k ∷ ks) (w ∷ ws) v = rounds ks ws (round k w v)
rounds _ _ v = v

add_digest : Digest → Digest → Digest
add_digest d v = record {
  h0 = low32 (d.h0 + v.h0);
  h1 = low32 (d.h1 + v.h1);
  h2 = low32 (d.h2 + v.h2);
  h3 = low32 (d.h3 + v.h3);
  h4 = low32 (d.h4 + v.h4);
  h5 = low32 (d.h5 + v.h5);
  h6 = low32 (d.h6 + v.h6);
  h7 = low32 (d.h7 + v.h7);
}

compress : Bytes → Digest → Digest
compress chunk d = add_digest d (rounds round_constants (schedule chunk) d)

-- The loop over the chunks of 64 bytes.
compress_all : ℕ → Bytes → Digest → Digest
compress_all zero msg d = d
compress_all (suc chunks) msg d = compress_all chunks (drop 64 msg) (compress (take 64 msg) d)

-- The padded message: the high word of the bit length stays zero.
unfoldable pub pad : Bytes → Bytes
pad input =
    input
    ++ 0x80 ∷ (zeros ((56 + 64 - (length input + 1) % 64) % 64 + 4) ++ u32_bytes (length input * 8))

unfoldable pub digest_bytes : Digest → Bytes
digest_bytes d =
    u32_bytes d.h0
    ++ (u32_bytes d.h1
        ++ (u32_bytes d.h2
            ++ (u32_bytes d.h3
                ++ (u32_bytes d.h4 ++ (u32_bytes d.h5 ++ (u32_bytes d.h6 ++ (u32_bytes d.h7)))))))

unfoldable pub sha256_sync : Bytes → Bytes
unfolding compress_all compress add_digest rounds round schedule reverse_onto read_words
    extend_schedule low32 xor3 rotate_right pad digest_bytes
sha256_sync input = digest_bytes (compress_all (length (pad input) / 64) (pad input) initial)
