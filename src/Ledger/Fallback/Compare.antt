-- ===== src/Ledger/Fallback/Compare.antt =====
-- `constantTimeEqual` decides equality of two buffers, although it never stops early.
use Prim.Native.Nat.{bit_or, bit_xor}
use vesper_platform.Base.{
  ℕ, ◌≡◌, ◌↔◌, true, [], ◌∷◌, arith, length, Bytes, ==_iff, ◌==◌, bit_or-eq-zero_iff,
  bit_xor-eq-zero_iff, ap, Bool-cases, inl, inr,
}
use vesper_platform.Ledger.Fallback.{diff_bits, constant_time_equal}

diff_bits-eq-zero_iff :
    (diff : ℕ) (a b : Bytes)
    → length a ≡ length b
    → (diff_bits diff a b ≡ 0) ↔ ((diff ≡ 0) × (a ≡ b))
unfolding diff_bits
diff_bits-eq-zero_iff diff [] [] h = ground arith
diff_bits-eq-zero_iff diff [] (y ∷ ys) h = absurd (omega arith)
diff_bits-eq-zero_iff diff (x ∷ xs) [] h = absurd (omega arith)
diff_bits-eq-zero_iff diff (x ∷ xs) (y ∷ ys) h = ground (
  arith,
  diff_bits-eq-zero_iff (bit_or diff (bit_xor x y)) xs ys (omega arith),
  bit_or-eq-zero_iff diff (bit_xor x y),
  bit_xor-eq-zero_iff x y,
)

-- The comparison answers true exactly for equal buffers.
pub constant_time_equal_iff : (a b : Bytes) → (constant_time_equal a b ≡ true) ↔ (a ≡ b)
unfolding constant_time_equal
constant_time_equal_iff a b = elim (Bool-cases (length a == length b)) [
  | inl same ↦
      let sizes = (==_iff (length a) (length b)).0 same in
      ground (arith, diff_bits-eq-zero_iff 0 a b sizes, sizes)
  | inr other ↦ rw other ((λ e. cc), λ e. cc ((==_iff (length a) (length b)).1 (ap length e)))
]
