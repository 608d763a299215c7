-- ===== src/Ledger/Fallback/Verify.antt =====
-- `verifyIntegrity`: what it accepts, and what it does to the ledger when it does not.
use vesper_platform.Base.{
  ℕ, ◌≡◌, refl, sym, ap, ◌∙◌, ◌↔◌, ◌⊎◌, inl, inr, Bool, true, false, List, [], ◌∷◌, arith, Bytes,
  StringMap,
}
use vesper_platform.Ledger.Fallback.{
  LedgerBlock, Host, Ledger, compute_block_hash, breach, verify_from, verify_integrity,
}
use vesper_platform.Ledger.Fallback.Compare.{constant_time_equal_iff}
use vesper_platform.Ledger.Fallback.Chain.{hash_of, IsChained, SameBook}
use vesper_platform.Ledger.Fallback.Invariant.{genesis, IsWellFormed, IsWellFormed-same}

-- Every block names its predecessor, and every block that still holds its payload has the hash of
-- its content.
abbrev pub IsIntact : Bytes → List LedgerBlock → Type 0
IsIntact expected [] = Unit
IsIntact expected (b ∷ bs) =
    (b.previous_hash ≡ expected)
    × ((b.is_zeroized ≡ true) ⊎ (b.current_hash ≡ hash_of b b.previous_hash))
    × IsIntact b.current_hash bs

pub IsChained-IsIntact : (e : Bytes) (bs : List LedgerBlock) → IsChained e bs → IsIntact e bs
IsChained-IsIntact e [] h = tt
IsChained-IsIntact e (b ∷ bs) h =
    (h.0, inr (h.1 ∙ ap (hash_of b) (sym h.0)), IsChained-IsIntact b.current_hash bs h.3)

-- How a ledger stands after the check: intact and as it was but for clocks and telemetry, or locked.
abbrev pub Verdict : Ledger → Bool × Ledger → Type 0
Verdict s v =
    ((v.0 ≡ true) × SameBook s v.1)
    ⊎ ((v.0 ≡ false)
        × (v.1.queue ≡ s.queue)
        × (v.1.is_locked ≡ true)
        × (v.1.is_integrity_compromised ≡ true))

module _ (host : Host) where
  verify_from-Verdict :
      (e : Bytes) (bs : List LedgerBlock) (s : Ledger) → Verdict s (verify_from host e bs s)
  unfolding verify_from breach compute_block_hash
  verify_from-Verdict e [] s = inl (refl, ground arith)
  verify_from-Verdict e (b ∷ bs) s =
      let r = compute_block_hash host b.serialized_request b.previous_hash b.timestamp s in
      ground
        (arith, verify_from-Verdict b.current_hash bs s, verify_from-Verdict b.current_hash bs r.1)

  verify_from_iff :
      (e : Bytes) (bs : List LedgerBlock) (s : Ledger)
      → ((verify_from host e bs s).0 ≡ true) ↔ IsIntact e bs
  unfolding verify_from compute_block_hash
  verify_from_iff e [] s = ground arith
  verify_from_iff e (b ∷ bs) s =
      let r = compute_block_hash host b.serialized_request b.previous_hash b.timestamp s in
      ground (
        arith,
        verify_from_iff b.current_hash bs s,
        verify_from_iff b.current_hash bs r.1,
        constant_time_equal_iff b.previous_hash e,
        constant_time_equal_iff b.current_hash (hash_of b b.previous_hash),
      )

  -- `verifyIntegrity` answers true exactly for a ledger whose chain is intact.
  pub verify_integrity_iff :
      (s : Ledger) → ((verify_integrity host s).0 ≡ true) ↔ IsIntact genesis s.queue
  unfolding verify_integrity
  verify_integrity_iff s = verify_from_iff genesis s.queue s

  pub verify_integrity-Verdict : (s : Ledger) → Verdict s (verify_integrity host s)
  unfolding verify_integrity
  verify_integrity-Verdict s = verify_from-Verdict genesis s.queue s

  verify_from_index :
      (e : Bytes) (bs : List LedgerBlock) (s : Ledger)
      → (verify_from host e bs s).1.id_to_index ≡ s.id_to_index
  unfolding verify_from breach compute_block_hash
  verify_from_index e [] s = refl
  verify_from_index e (b ∷ bs) s =
      let r = compute_block_hash host b.serialized_request b.previous_hash b.timestamp s in
      ground (arith, verify_from_index b.current_hash bs s, verify_from_index b.current_hash bs r.1)

  -- Neither verdict moves a block.
  pub verify_integrity-IsWellFormed :
      (s : Ledger) → IsWellFormed s → IsWellFormed (verify_integrity host s).1
  unfolding verify_integrity
  verify_integrity-IsWellFormed s w =
      IsWellFormed-same (verify_integrity host s).1 w
        (ground (arith, verify_from-Verdict genesis s.queue s))
        (λ id. ap (λ (m : StringMap ℕ). m id) (verify_from_index genesis s.queue s))

  -- A well-formed ledger passes.
  pub verify_integrity_of_IsWellFormed :
      (s : Ledger) → IsWellFormed s → (verify_integrity host s).0 ≡ true
  verify_integrity_of_IsWellFormed s w =
      (verify_integrity_iff s).1 (IsChained-IsIntact genesis s.queue w.chained)
