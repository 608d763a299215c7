-- ===== src/Ledger/Fallback/Lifecycle.antt =====
-- Sequences of calls on the ledger, and what no call changes.
use vesper_platform.Base.{
  ℕ, String, ◌≡◌, refl, inl, inr, Bool, false, List, [], ◌∷◌, arith, Bytes, Option-cases, erase_idx,
  empty_map,
}
use vesper_platform.Ledger.Fallback.{
  LedgerBlock, Host, Ledger, Outcome, done, blocked, new_ledger, zeroize_block, compute_block_hash,
  rechain_ledger, zero_at, drop_at, zeroize, dequeue_transaction, append_block, execute_transaction,
  verify_integrity, zeroize_all, clear_queue, toggle_network_sim, get_telemetry_snapshot,
}
use vesper_platform.Ledger.Fallback.Chain.{rechain_from-SameBook}
use vesper_platform.Ledger.Fallback.Invariant.{
  IsWellFormed, IsWellFormed-same, Ensures, new_ledger-IsWellFormed, zeroize-IsWellFormed,
  execute_transaction-IsWellFormed, dequeue_transaction-IsWellFormed, clear_queue-IsWellFormed,
  replaced-eq-zeroize, genesis,
}
use vesper_platform.Ledger.Fallback.Verify.{
  verify_integrity-Verdict, verify_integrity-IsWellFormed, verify_integrity_of_IsWellFormed,
}

pub record SameMode (s t : Ledger) : Type 0 where
  pub is_locked : t.is_locked ≡ s.is_locked
  pub is_integrity_compromised : t.is_integrity_compromised ≡ s.is_integrity_compromised
  pub is_online : t.is_online ≡ s.is_online

abbrev pub IsReady : Ledger → Type 0
IsReady s = (s.is_locked ≡ false) × (s.is_integrity_compromised ≡ false)

pub data Call : Type 0 where
  execute : String → Bytes → ℕ → Call
  dequeue : String → Call
  erase : String → Call
  clear : Call
  online : Bool → Call
  verify : Call
  snapshot : Call

-- A call that throws leaves the ledger as it was.
abbrev pub after {ℓ} : {A : Type ℓ} → Ledger → Outcome A → Ledger
after s blocked = s
after s (done a t) = t

pub after-Ensures {ℓ} :
    {A : Type ℓ} (P : Ledger → Type 0) (s : Ledger) (o : Outcome A)
    → P s
    → Ensures P o
    → P (after s o)
after-Ensures P s blocked p q = p
after-Ensures P s (done a t) p q = q

module _ (host : Host) where
  unfoldable pub step : Ledger → Call → Ledger
  step s (execute id request ttl) = after s (execute_transaction host id request ttl s)
  step s (dequeue id) = after s (dequeue_transaction host id s)
  step s (erase id) = zeroize host id s
  step s clear = clear_queue host s
  step s (online o) = toggle_network_sim o s
  step s verify = (verify_integrity host s).1
  step s snapshot = (get_telemetry_snapshot s).1

  unfoldable pub run : Ledger → List Call → Ledger
  unfolding step
  run s [] = s
  run s (c ∷ cs) = run (step s c) cs

  rechain_ledger-SameMode : (s : Ledger) → SameMode s (rechain_ledger host s)
  unfolding rechain_ledger
  rechain_ledger-SameMode s =
      ground
        (arith, rechain_from-SameBook host genesis 0 s.queue (record s { id_to_index = empty_map }))

  drop_at-SameMode : (idx : ℕ) (s : Ledger) → SameMode s (drop_at host idx s)
  unfolding drop_at zero_at zeroize_block
  drop_at-SameMode idx s = ground (
    arith,
    rechain_ledger-SameMode (record (zero_at host idx s) { queue = erase_idx s.queue idx }),
  )

  pub zeroize-SameMode : (id : String) (s : Ledger) → SameMode s (zeroize host id s)
  unfolding zeroize
  zeroize-SameMode id s = elim (Option-cases (s.id_to_index id)) [
    | inl e ↦
        rw (e, zeroize)
          (record { is_locked = refl; is_integrity_compromised = refl; is_online = refl })
    | inr (idx, e) ↦ rw (e, zeroize) (drop_at-SameMode idx s)
  ]

  append_block-SameMode :
      (id : String) (request : Bytes) (ttl : ℕ) (s : Ledger)
      → SameMode s (append_block host id request ttl s)
  unfolding append_block compute_block_hash
  append_block-SameMode id request ttl s = ground arith

  -- Every call keeps the invariant, on a ready ledger and on a locked one.
  pub step-IsWellFormed : (s : Ledger) (c : Call) → IsWellFormed s → IsWellFormed (step s c)
  unfolding step toggle_network_sim get_telemetry_snapshot
  step-IsWellFormed s (execute id request ttl) w =
      after-Ensures IsWellFormed s (execute_transaction host id request ttl s) w
        (execute_transaction-IsWellFormed host id request ttl s w)
  step-IsWellFormed s (dequeue id) w =
      after-Ensures IsWellFormed s (dequeue_transaction host id s) w
        (dequeue_transaction-IsWellFormed host id s w)
  step-IsWellFormed s (erase id) w = zeroize-IsWellFormed host id s w
  step-IsWellFormed s clear w = clear_queue-IsWellFormed host s
  step-IsWellFormed s (online o) w = IsWellFormed-same _ w refl (λ id. refl)
  step-IsWellFormed s verify w = verify_integrity-IsWellFormed host s w
  step-IsWellFormed s snapshot w = IsWellFormed-same _ w refl (λ id. refl)

  pub zeroize_all-SameMode :
      (bs : List LedgerBlock) (s : Ledger) → SameMode s (zeroize_all host bs s)
  unfolding zeroize_all zeroize_block
  zeroize_all-SameMode [] s = ground arith
  zeroize_all-SameMode (b ∷ bs) s = ground (arith, zeroize_all-SameMode bs (zeroize_block host b s))

  execute_transaction-IsReady :
      (id : String) (request : Bytes) (ttl : ℕ) (s : Ledger)
      → IsReady s
      → Ensures IsReady (execute_transaction host id request ttl s)
  unfolding execute_transaction
  execute_transaction-IsReady id request ttl s r = rw (replaced-eq-zeroize host id s) (
      ground
        (arith, zeroize-SameMode id s, append_block-SameMode id request ttl (zeroize host id s)))

  dequeue_transaction-IsReady :
      (id : String) (s : Ledger) → IsReady s → Ensures IsReady (dequeue_transaction host id s)
  unfolding dequeue_transaction
  dequeue_transaction-IsReady id s r = elim (Option-cases (s.id_to_index id)) [
    | inl e ↦ rw (e, dequeue_transaction) (ground arith)
    | inr (idx, e) ↦ rw (e, dequeue_transaction) (ground (arith, drop_at-SameMode idx s))
  ]

  -- No call on a well-formed ledger locks it.
  pub step-IsReady : (s : Ledger) (c : Call) → IsWellFormed s → IsReady s → IsReady (step s c)
  unfolding step toggle_network_sim get_telemetry_snapshot clear_queue
  step-IsReady s (execute id request ttl) w r =
      after-Ensures IsReady s (execute_transaction host id request ttl s) r
        (execute_transaction-IsReady id request ttl s r)
  step-IsReady s (dequeue id) w r =
      after-Ensures IsReady s (dequeue_transaction host id s) r (dequeue_transaction-IsReady id s r)
  step-IsReady s (erase id) w r = ground (arith, zeroize-SameMode id s)
  step-IsReady s clear w r = ground (arith, zeroize_all-SameMode s.queue s)
  step-IsReady s (online o) w r = r
  step-IsReady s verify w r =
      ground (arith, verify_integrity_of_IsWellFormed host s w, verify_integrity-Verdict host s)
  step-IsReady s snapshot w r = r

  run-IsSound :
      (s : Ledger) (cs : List Call)
      → IsWellFormed s
      → IsReady s
      → IsWellFormed (run s cs) × IsReady (run s cs)
  unfolding run
  run-IsSound s [] w r = (w, r)
  run-IsSound s (c ∷ cs) w r =
      run-IsSound (step s c) cs (step-IsWellFormed s c w) (step-IsReady s c w r)

  -- After any sequence of calls on a new ledger the index map gives the place of every id, ids are
  -- distinct, the queue is a hash chain from 32 zero bytes, and the ledger is neither locked nor
  -- marked compromised.
  pub run-new_ledger-IsSound :
      (cs : List Call) → IsWellFormed (run new_ledger cs) × IsReady (run new_ledger cs)
  run-new_ledger-IsSound cs = run-IsSound new_ledger cs new_ledger-IsWellFormed (refl, refl)
