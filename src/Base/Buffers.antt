-- ===== src/Base/Buffers.antt =====
-- Byte buffers as lists of numbers, and what `.fill(0)` leaves in them.
use Prim.Native.Nat.{ℕ, suc, ◌+◌, ◌*◌, ◌/◌, ◌%◌, ◌<◌}
use mathlib.Core.Path.{◌≡◌, refl, ap}
use mathlib.Core.List.{List, [], ◌∷◌, ◌++◌, map}
use mathlib.Core.Option.{Option, none, some}
use native.Mathlib.Omega.{arith}
use vesper_platform.Base.Lists.{length, replicate, All}

abbrev pub Bytes : Type 0
Bytes = List ℕ

abbrev pub IsByte : ℕ → Type 0
IsByte b = b < 256

abbrev pub AreBytes : Bytes → Type 0
AreBytes bs = All IsByte bs

-- new Uint8Array(n)
abbrev pub zeros : ℕ → Bytes
zeros n = replicate n 0

-- buffer.fill(0)
abbrev pub fill_zero : Bytes → Bytes
fill_zero bs = map (λ _. 0) bs

abbrev pub IsZero : Bytes → Type 0
IsZero bs = All (λ b. b ≡ 0) bs

pub fill_zero-IsZero : (bs : Bytes) → IsZero (fill_zero bs)
fill_zero-IsZero [] = tt
fill_zero-IsZero (b ∷ bs) = (refl, fill_zero-IsZero bs)

pub length-fill_zero : (bs : Bytes) → length (fill_zero bs) ≡ length bs
length-fill_zero [] = refl
length-fill_zero (b ∷ bs) = ap suc (length-fill_zero bs)

-- DataView.setUint32(_, n, false) keeps the low 32 bits, most significant byte first.
unfoldable pub u32_bytes : ℕ → Bytes
u32_bytes n = n / 16777216 % 256 ∷ n / 65536 % 256 ∷ n / 256 % 256 ∷ n % 256 ∷ []

-- DataView.getUint32(0, false) of a buffer, or `none` where it is out of bounds.
unfoldable pub get_u32 : Bytes → Option ℕ
get_u32 (a ∷ b ∷ c ∷ d ∷ _) = some (a * 16777216 + b * 65536 + c * 256 + d)
get_u32 _ = none

pub get_u32-u32_bytes :
    (n : ℕ) (rest : Bytes) → n < 4294967296 → get_u32 (u32_bytes n ++ rest) ≡ some n
unfolding get_u32 u32_bytes
get_u32-u32_bytes n rest h = ap some (omega arith)

pub length-u32_bytes : (n : ℕ) → length (u32_bytes n) ≡ 4
unfolding u32_bytes
length-u32_bytes n = refl

pub u32_bytes-AreBytes : (n : ℕ) → AreBytes (u32_bytes n)
unfolding u32_bytes
u32_bytes-AreBytes n = omega arith
