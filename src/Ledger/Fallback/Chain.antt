-- ===== src/Ledger/Fallback/Chain.antt =====
-- The hash chain of the ledger: what `rechainLedger` rebuilds and `verifyIntegrity` checks.
use vesper_platform.Base.{
  ℕ, suc, subst, ◌≡◌, refl, ap, false, List, [], ◌∷◌, ◌++◌, arith, Bytes, zeros,
}
use vesper_platform.Ledger.Sha256.{sha256_sync}
use vesper_platform.Ledger.Fallback.{
  LedgerBlock, Host, Ledger, pre_image, last_hash, compute_block_hash, rechain_at, rechain_from,
}

abbrev pub hash_of : LedgerBlock → Bytes → Bytes
hash_of b previous = sha256_sync (pre_image b.serialized_request previous b.timestamp)

-- Every block names the hash of the block before it, and carries the hash of its own content.
abbrev pub IsChained : Bytes → List LedgerBlock → Type 0
IsChained expected [] = Unit
IsChained expected (b ∷ bs) =
    (b.previous_hash ≡ expected)
    × (b.current_hash ≡ hash_of b expected)
    × (b.is_zeroized ≡ false)
    × IsChained b.current_hash bs

-- The blocks of the queue that still hold their payload.
abbrev pub AreLive : List LedgerBlock → Type 0
AreLive [] = Unit
AreLive (b ∷ bs) = (b.is_zeroized ≡ false) × AreLive bs

pub IsChained-AreLive : (e : Bytes) (bs : List LedgerBlock) → IsChained e bs → AreLive bs
IsChained-AreLive e [] h = tt
IsChained-AreLive e (b ∷ bs) h = (h.2, IsChained-AreLive b.current_hash bs h.3)

-- The chain that `rechainLedger` builds, without the ledger's state.
unfoldable pub relink : Bytes → List LedgerBlock → List LedgerBlock
relink previous [] = []
relink previous (b ∷ bs) =
    record b { previous_hash = previous; current_hash = hash_of b previous }
    ∷ relink (hash_of b previous) bs

pub relink-IsChained :
    (previous : Bytes) (bs : List LedgerBlock)
    → AreLive bs
    → IsChained previous (relink previous bs)
unfolding relink
relink-IsChained previous [] h = tt
relink-IsChained previous (b ∷ bs) h =
    (refl, refl, h.0, relink-IsChained (hash_of b previous) bs h.1)

-- What a chain of operations on the clocks and the telemetry leaves alone.
pub record SameBook (s t : Ledger) : Type 0 where
  pub queue : t.queue ≡ s.queue
  pub is_locked : t.is_locked ≡ s.is_locked
  pub is_integrity_compromised : t.is_integrity_compromised ≡ s.is_integrity_compromised
  pub is_online : t.is_online ≡ s.is_online
  pub released : t.released ≡ s.released

module _ (host : Host) where
  pub rechain_from-eq-relink :
      (previous : Bytes) (i : ℕ) (bs : List LedgerBlock) (s : Ledger)
      → AreLive bs
      → (rechain_from host previous i bs s).0 ≡ relink previous bs
  unfolding rechain_from rechain_at relink compute_block_hash
  rechain_from-eq-relink previous i [] s h = refl
  rechain_from-eq-relink previous i (b ∷ bs) s h =
      let r = rechain_at host previous i b s in
      ground (arith, rechain_from-eq-relink r.0.current_hash (suc i) bs r.1 h.1)

  pub rechain_from-SameBook :
      (previous : Bytes) (i : ℕ) (bs : List LedgerBlock) (s : Ledger)
      → SameBook s (rechain_from host previous i bs s).1
  unfolding rechain_from rechain_at relink compute_block_hash
  rechain_from-SameBook previous i [] s = ground arith
  rechain_from-SameBook previous i (b ∷ bs) s =
      let r = rechain_at host previous i b s in
      ground (arith, rechain_from-SameBook r.0.current_hash (suc i) bs r.1)

-- The hash that the next block of a chain has to name.
pub tail_hash : Bytes → List LedgerBlock → Bytes
tail_hash e [] = e
tail_hash e (b ∷ bs) = tail_hash b.current_hash bs

last_hash-cons :
    (b : LedgerBlock) (bs : List LedgerBlock) → last_hash (b ∷ bs) ≡ tail_hash b.current_hash bs
unfolding last_hash tail_hash
last_hash-cons b [] = refl
last_hash-cons b (c ∷ bs) = last_hash-cons c bs

pub last_hash_lem : (bs : List LedgerBlock) → last_hash bs ≡ tail_hash (zeros 32) bs
unfolding last_hash tail_hash
last_hash_lem [] = refl
last_hash_lem (b ∷ bs) = last_hash-cons b bs

pub IsChained-append :
    (e : Bytes) (bs : List LedgerBlock) (b : LedgerBlock)
    → IsChained e bs
    → IsChained (tail_hash e bs) (b ∷ [])
    → IsChained e (bs ++ b ∷ [])
unfolding tail_hash
IsChained-append e [] b h k = k
IsChained-append e (c ∷ bs) b h k = (h.0, h.1, h.2, IsChained-append c.current_hash bs b h.3 k)

-- Rechaining a chain changes nothing.
pub relink_chained : (e : Bytes) (bs : List LedgerBlock) → IsChained e bs → relink e bs ≡ bs
unfolding relink
relink_chained e [] h = refl
relink_chained e (b ∷ bs) h =
    let same : relink (hash_of b e) bs ≡ bs =
      relink_chained (hash_of b e) bs (subst (λ x. IsChained x bs) h.1 h.3) in
    rw same (ap (λ (c : LedgerBlock). c ∷ bs) (ground arith))
