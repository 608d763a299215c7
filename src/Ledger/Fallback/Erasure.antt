-- ===== src/Ledger/Fallback/Erasure.antt =====
-- Zeroization: what is left in memory of a block that leaves the queue.
use vesper_platform.Base.{
  ℕ, String, ◌≡◌, refl, sym, ◌∙◌, inl, inr, true, none, some, ◌∷◌, arith, Bytes, IsZero,
  fill_zero-IsZero, get_elem?, erase_idx, Option-cases, empty_map,
}
use vesper_platform.Ledger.Fallback.{
  LedgerBlock, Host, Ledger, erased, zeroize_block, zero_at, drop_at, zeroize, rechain_ledger,
  get_transaction_payload, payload_in, payload_at,
}
use vesper_platform.Ledger.Fallback.Chain.{rechain_from-SameBook}
use vesper_platform.Ledger.Fallback.Index.{get_elem?-position}
use vesper_platform.Ledger.Fallback.Invariant.{
  genesis, IsWellFormed, position-zeroize, zeroize-IsWellFormed,
}

-- No byte of the request or of a hash survives.
pub record IsErased (b : LedgerBlock) : Type 0 where
  pub request : IsZero b.serialized_request
  pub previous : IsZero b.previous_hash
  pub current : IsZero b.current_hash
  pub marked : b.is_zeroized ≡ true

pub erased-IsErased : (b : LedgerBlock) → IsErased (erased b)
erased-IsErased b = record {
  request = fill_zero-IsZero b.serialized_request;
  previous = fill_zero-IsZero b.previous_hash;
  current = fill_zero-IsZero b.current_hash;
  marked = refl;
}

module _ (host : Host) where
  released-rechain_ledger : (s : Ledger) → (rechain_ledger host s).released ≡ s.released
  unfolding rechain_ledger
  released-rechain_ledger s =
      (rechain_from-SameBook host genesis 0 s.queue (record s { id_to_index = empty_map })).released

  released-drop_at :
      (idx : ℕ) (s : Ledger) (b : LedgerBlock)
      → get_elem? s.queue idx ≡ some b
      → (drop_at host idx s).released ≡ erased b ∷ s.released
  unfolding drop_at zero_at zeroize_block
  released-drop_at idx s b h =
      released-rechain_ledger (record (zero_at host idx s) { queue = erase_idx s.queue idx })
      ∙ rw (h, zero_at) refl

  -- Zeroizing an id that holds a request leaves the erased image of its block in memory, and the
  -- request can no longer be read from the ledger.
  pub zeroize-IsErased :
      (id : String) (s : Ledger) (request : Bytes)
      → IsWellFormed s
      → get_transaction_payload id s ≡ some request
      → (b : LedgerBlock) × (b.id ≡ id)
        × (b.serialized_request ≡ request)
        × IsErased (erased b)
        × ((zeroize host id s).released ≡ erased b ∷ s.released)
        × (get_transaction_payload id (zeroize host id s) ≡ none)
  unfolding zeroize get_transaction_payload payload_in payload_at
  zeroize-IsErased id s request w h = elim (Option-cases (s.id_to_index id)) [
    | inl e ↦ absurd (ground arith)
    | inr (idx, e) ↦
        let (b, at, same) = get_elem?-position id s.queue idx (sym (w.indexed id) ∙ e) in
        let gone = (zeroize-IsWellFormed host id s w).indexed id ∙ position-zeroize host id s w in
        (
          b,
          same,
          ground arith,
          erased-IsErased b,
          ground (arith, released-drop_at idx s b at),
          rw gone refl,
        )
  ]
