-- ===== src/Ledger/Fallback.antt =====
-- packages/ghost-ledger/src/ledger/fallback.ts: the methods of `GhostSecureClientFallback` that
-- change the queue. An exception is the outcome `blocked`; it leaves the ledger as it was.
mod State
pub mod Compare
pub mod Chain
pub mod Index
pub mod Invariant
pub mod Verify
pub mod Lifecycle
pub mod View
pub mod Tamper
pub mod Erasure
pub mod Released
pub mod Telemetry
unfoldable pub use State.*
use vesper_platform.Base.{
  ℕ, suc, ◌+◌, String, Bool, true, false, not, none, some, List, [], ◌∷◌, ◌++◌, if◌then◌else◌,
  length, get_elem?, erase_idx, empty_map, map_set, Bytes, zeros,
}
use vesper_platform.Ledger.Sha256.{sha256_sync}

module _ (host : Host) where
  unfoldable pub record_telemetry_event : ℕ → ℕ → Ledger → Ledger
  record_telemetry_event type value s = record s {
    telemetry_events =
        s.telemetry_events
        ++ record { type = type; timestamp = host.date_now s.readings; value = value } ∷ [];
    readings = s.readings + 1;
  }

  -- 1.0 as a float64
  abbrev one_value : ℕ
  one_value = 0x3FF0000000000000

  unfoldable pub compute_block_hash : Bytes → Bytes → ℕ → Ledger → Bytes × Ledger
  unfolding record_telemetry_event
  compute_block_hash request previous timestamp s = (
    sha256_sync (pre_image request previous timestamp),
    record_telemetry_event 3 (host.elapsed_ms s.readings) (record s { readings = s.readings + 1 }),
  )

  unfoldable pub zeroize_block : LedgerBlock → Ledger → Ledger
  unfolding record_telemetry_event
  zeroize_block b s =
      record_telemetry_event 1 one_value (record s { released = erased b ∷ s.released })

  rechain_block : Bytes → LedgerBlock → Ledger → LedgerBlock × Ledger
  unfolding compute_block_hash
  rechain_block previous b s =
      if b.is_zeroized
      then (record b { previous_hash = previous }, s)
      else let (hash, s') = compute_block_hash b.serialized_request previous b.timestamp s in
        (record b { previous_hash = previous; current_hash = hash }, s')

  -- one round of the loop of `rechainLedger`, at index `i`
  pub rechain_at : Bytes → ℕ → LedgerBlock → Ledger → LedgerBlock × Ledger
  unfolding rechain_block
  rechain_at previous i b s =
      let (b', s') = rechain_block previous b s in
      (b', record s' { id_to_index = map_set b.id i s'.id_to_index })

  -- the loop, from index `i`
  pub rechain_from : Bytes → ℕ → List LedgerBlock → Ledger → List LedgerBlock × Ledger
  rechain_from previous i [] s = ([], s)
  rechain_from previous i (b ∷ bs) s =
      let r = rechain_at previous i b s in
      let (rest, s') = rechain_from r.0.current_hash (suc i) bs r.1 in (r.0 ∷ rest, s')

  unfoldable pub rechain_ledger : Ledger → Ledger
  unfolding rechain_from rechain_at
  rechain_ledger s =
      let (queue, s') = rechain_from (zeros 32) 0 s.queue (record s { id_to_index = empty_map }) in
      record s' { queue = queue }

  pub zero_at : ℕ → Ledger → Ledger
  zero_at idx s = elim (get_elem? s.queue idx) [ none ↦ s | some b ↦ zeroize_block b s ]

  -- the common end of `dequeueTransaction` and `zeroize`
  pub drop_at : ℕ → Ledger → Ledger
  unfolding zero_at
  drop_at idx s = rechain_ledger (record (zero_at idx s) { queue = erase_idx s.queue idx })

  unfoldable pub zeroize : String → Ledger → Ledger
  unfolding drop_at
  zeroize id s = elim (s.id_to_index id) [ none ↦ s | some idx ↦ drop_at idx s ]

  unfoldable pub dequeue_transaction : String → Ledger → Outcome (Unit {0})
  unfolding drop_at
  dequeue_transaction id s =
      if is_blocked s
      then blocked
      else elim (s.id_to_index id) [ none ↦ done tt s | some idx ↦ done tt (drop_at idx s) ]

  unfoldable pub append_block : String → Bytes → ℕ → Ledger → Ledger
  append_block id request ttl s = record hashed.1 {
    queue = s.queue ++ block ∷ [];
    id_to_index = map_set id (length s.queue) s.id_to_index;
  }
    where
      now : ℕ
      now = host.date_now s.readings

      hashed : Bytes × Ledger
      hashed =
          compute_block_hash request (resolve_previous_hash s) now
            (record s { readings = s.readings + 1 })

      block : LedgerBlock
      block = record {
        id = id;
        serialized_request = request;
        timestamp = now;
        ttl = ttl;
        previous_hash = resolve_previous_hash s;
        current_hash = hashed.0;
        is_zeroized = false;
      }

  -- `if (idx !== undefined) this.zeroize(id);`
  unfoldable pub replaced : String → Ledger → Ledger
  replaced id s = elim (s.id_to_index id) [ none ↦ s | some _ ↦ zeroize id s ]

  unfoldable pub execute_transaction : String → Bytes → ℕ → Ledger → Outcome Bool
  execute_transaction id request ttl s =
      if is_blocked s
      then blocked
      else let s' = replaced id s in
        if s'.is_online then done true s' else done false (append_block id request ttl s')

  pub breach : Ledger → Ledger
  breach s =
      record_telemetry_event 2 one_value
        (record s { is_locked = true; is_integrity_compromised = true })

  -- the loop of `verifyIntegrity`
  pub verify_from : Bytes → List LedgerBlock → Ledger → Bool × Ledger
  verify_from expected [] s = (true, s)
  verify_from expected (b ∷ bs) s =
      let (recomputed, s') =
        compute_block_hash b.serialized_request b.previous_hash b.timestamp s in
      let rest = verify_from b.current_hash bs (if b.is_zeroized then s else s') in
      if not (constant_time_equal b.previous_hash expected)
      then (false, breach s)
      else if b.is_zeroized
      then rest
      else if not (constant_time_equal b.current_hash recomputed)
      then (false, breach s')
      else rest

  unfoldable pub verify_integrity : Ledger → Bool × Ledger
  unfolding verify_from breach
  verify_integrity s = verify_from (zeros 32) s.queue s

  pub zeroize_all : List LedgerBlock → Ledger → Ledger
  zeroize_all [] s = s
  zeroize_all (b ∷ bs) s = zeroize_all bs (zeroize_block b s)

  unfoldable pub clear_queue : Ledger → Ledger
  unfolding zeroize_all
  clear_queue s = record (zeroize_all s.queue s) {
    queue = [];
    id_to_index = empty_map;
    is_locked = false;
  }
