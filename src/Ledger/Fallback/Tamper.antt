-- ===== src/Ledger/Fallback/Tamper.antt =====
-- What the ledger does about memory that somebody else wrote to.
use vesper_platform.Base.{
  refl, ℕ, String, ◌≡◌, ◌≢◌, sym, ap, ◌∙◌, ◌⊎◌, inl, inr, true, false, List, [], ◌∷◌, ◌++◌, arith,
  Bytes, subst,
}
use vesper_platform.Ledger.Fallback.{
  LedgerBlock, Host, Ledger, blocked, verify_integrity, execute_transaction, dequeue_transaction,
  clear_queue, toggle_network_sim, get_telemetry_snapshot,
}
use vesper_platform.Ledger.Fallback.Chain.{hash_of, IsChained}
use vesper_platform.Ledger.Fallback.Invariant.{genesis, IsWellFormed}
use vesper_platform.Ledger.Fallback.Verify.{
  IsIntact, verify_integrity_iff, verify_integrity-Verdict,
}
use vesper_platform.Ledger.Fallback.Lifecycle.{
  Call, execute, dequeue, erase, clear, online, verify, snapshot, step, run, zeroize-SameMode,
  zeroize_all-SameMode,
}

-- Every later write and removal is refused.
pub record IsSealed (host : Host) (s : Ledger) : Type 0 where
  pub no_execute :
      (id : String) (request : Bytes) (ttl : ℕ)
      → execute_transaction host id request ttl s ≡ blocked
  pub no_dequeue : (id : String) → dequeue_transaction host id s ≡ blocked

IsIntact-middle :
    (e : Bytes) (xs : List LedgerBlock) (b : LedgerBlock) (ys : List LedgerBlock)
    → IsIntact e (xs ++ b ∷ ys)
    → (b.is_zeroized ≡ true) ⊎ (b.current_hash ≡ hash_of b b.previous_hash)
IsIntact-middle e [] b ys h = h.1
IsIntact-middle e (x ∷ xs) b ys h = IsIntact-middle x.current_hash xs b ys h.2

IsChained-middle :
    (e : Bytes) (xs : List LedgerBlock) (b : LedgerBlock) (ys : List LedgerBlock)
    → IsChained e (xs ++ b ∷ ys)
    → (b.current_hash ≡ hash_of b b.previous_hash) × (b.is_zeroized ≡ false)
IsChained-middle e [] b ys h = (h.1 ∙ ap (hash_of b) (sym h.0), h.2)
IsChained-middle e (x ∷ xs) b ys h = IsChained-middle x.current_hash xs b ys h.3

compromised-IsSealed :
    (host : Host) (s : Ledger) → s.is_integrity_compromised ≡ true → IsSealed host s
unfolding execute_transaction dequeue_transaction
compromised-IsSealed host s h = record {
  no_execute = λ id request ttl. ground arith;
  no_dequeue = λ id. ground arith;
}

abbrev pub overwritten : Ledger → List LedgerBlock → LedgerBlock → Bytes → List LedgerBlock → Ledger
overwritten s xs b request ys = record s {
  queue = xs ++ record b { serialized_request = request } ∷ ys;
}

module _ (host : Host) where
  -- A request overwritten in the memory of a well-formed ledger is detected by the next
  -- `verifyIntegrity`, wherever its block stands, unless the new content has the hash of the old:
  -- the answer is false, and every later `executeTransaction` and `dequeueTransaction` throws.
  pub verify_integrity-detects :
      (s : Ledger) (xs : List LedgerBlock) (b : LedgerBlock) (ys : List LedgerBlock)
      (request : Bytes)
      → IsWellFormed s
      → s.queue ≡ xs ++ b ∷ ys
      → hash_of (record b { serialized_request = request }) b.previous_hash
        ≢ hash_of b b.previous_hash
      → let v = verify_integrity host (overwritten s xs b request ys) in
        (v.0 ≡ false) × IsSealed host v.1
  verify_integrity-detects s xs b ys request w q differs = elim (verify_integrity-Verdict host t) [
    | inl (accepted, _) ↦ absurd (refuted accepted)
    | inr (rejected, _, _, compromised) ↦ (rejected, compromised-IsSealed host _ compromised)
  ]
    where
      t : Ledger
      t = overwritten s xs b request ys

      refuted : (verify_integrity host t).0 ≡ true → ⊥
      refuted accepted =
          let sound = IsChained-middle genesis xs b ys (subst (IsChained genesis) q w.chained) in
          ground (
            arith,
            IsIntact-middle genesis xs (record b { serialized_request = request }) ys
                ((verify_integrity_iff host t).0 accepted),
            sound,
            differs,
          )

  compromised-step :
      (s : Ledger) (c : Call)
      → s.is_integrity_compromised ≡ true
      → (step host s c).is_integrity_compromised ≡ true
  unfolding step execute_transaction dequeue_transaction clear_queue toggle_network_sim
      get_telemetry_snapshot
  compromised-step s (execute id request ttl) h = ground arith
  compromised-step s (dequeue id) h = ground arith
  compromised-step s (erase id) h = ground (arith, zeroize-SameMode host id s)
  compromised-step s clear h = ground (arith, zeroize_all-SameMode host s.queue s)
  compromised-step s (online o) h = h
  compromised-step s verify h = ground (arith, verify_integrity-Verdict host s)
  compromised-step s snapshot h = h

  compromised-run :
      (s : Ledger) (cs : List Call)
      → s.is_integrity_compromised ≡ true
      → (run host s cs).is_integrity_compromised ≡ true
  unfolding run
  compromised-run s [] h = h
  compromised-run s (c ∷ cs) h = compromised-run (step host s c) cs (compromised-step s c h)

  -- Once compromised, a ledger refuses every transaction and every dequeue, whatever is called on it.
  -- That is so after `clearQueue` too, although it leaves the queue empty and unlocked: the compromise
  -- flag stays. Zeroizing and clearing are not refused.
  pub compromised-run-IsSealed :
      (s : Ledger) (cs : List Call)
      → s.is_integrity_compromised ≡ true
      → let t = run host s cs in
        IsSealed host t
        × (t.is_integrity_compromised ≡ true)
        × IsSealed host (clear_queue host t)
        × ((clear_queue host t).is_integrity_compromised ≡ true)
        × ((clear_queue host t).is_locked ≡ false)
        × ((clear_queue host t).queue ≡ [])
  unfolding clear_queue step
  compromised-run-IsSealed s cs h =
      let t = run host s cs in
      let here = compromised-run s cs h in
      let cleared = compromised-step t clear here in
      (
        compromised-IsSealed host t here,
        here,
        compromised-IsSealed host (clear_queue host t) cleared,
        cleared,
        refl,
        refl,
      )
