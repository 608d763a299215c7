-- ===== src/Ledger/Queue/Watchdog.antt =====
-- What the watchdog does about memory that somebody else wrote to.
use vesper_platform.Base.{
  ℕ, String, ◌≡◌, ◌≢◌, refl, sym, ◌∙◌, true, false, List, [], ◌∷◌, ◌++◌, arith, Bytes, ltb,
  length-append,
}
use vesper_platform.Ledger.Fallback.{Host, LedgerBlock, Ledger, verify_integrity, get_queue_status}
use vesper_platform.Ledger.Fallback.Verify.{verify_integrity-Verdict}
use vesper_platform.Ledger.Queue.{
  MemoryQueue, ledger_locked, check_status, drop_timers, enqueue, dequeue, active_zeroization,
  verify_ledger_integrity, tick, suspend_and_freeze_ledger, size,
}
use vesper_platform.Ledger.Queue.Timers.{AreSeparate, clear_timeouts_all}
use vesper_platform.Ledger.Queue.Timed.{IsTimed}
use vesper_platform.Ledger.Fallback.Chain.{hash_of}
use vesper_platform.Ledger.Fallback.Tamper.{overwritten, verify_integrity-detects}

-- The watchdog has stopped, no timer is left, and every later call on an id throws.
pub record IsSuspended (host : Host) (q : MemoryQueue) : Type 0 where
  pub stopped : q.is_watchdog_running ≡ false
  pub no_tick : q.tick_pending ≡ false
  pub no_scheduled : q.scheduled ≡ []
  pub no_timers : q.expiry_timers ≡ []
  pub no_enqueue :
      (id : String) (payload : Bytes) (ttl : ℕ) → enqueue host id payload ttl q ≡ ledger_locked
  pub no_dequeue : (id : String) → dequeue host id q ≡ ledger_locked
  pub no_zeroization : (id : String) → active_zeroization host id q ≡ ledger_locked

module _ (host : Host) where
  locked-IsSuspended :
      (q : MemoryQueue)
      → q.client.is_locked ≡ true
      → q.scheduled ≡ q.expiry_timers
      → AreSeparate q.expiry_timers
      → IsSuspended host (suspend_and_freeze_ledger q)
  unfolding suspend_and_freeze_ledger drop_timers enqueue dequeue active_zeroization check_status
      get_queue_status
  locked-IsSuspended q l e s = record {
    stopped = refl;
    no_tick = refl;
    no_scheduled = rw e (clear_timeouts_all q.expiry_timers s);
    no_timers = refl;
    no_enqueue = λ id payload ttl. rw l refl;
    no_dequeue = λ id. rw l refl;
    no_zeroization = λ id. rw l refl;
  }

  rejected-tick :
      (q : MemoryQueue)
      → q.is_watchdog_running ≡ true
      → ltb 0 (size q) ≡ true
      → (verify_integrity host q.client).0 ≡ false
      → tick host q ≡ (
        true,
        suspend_and_freeze_ledger
            (record q { client = (verify_integrity host q.client).1; tick_pending = false }),
      )
  unfolding tick verify_ledger_integrity
  rejected-tick q running busy e = ground arith

  rejected_locked :
      (s : Ledger)
      → (verify_integrity host s).0 ≡ false
      → (verify_integrity host s).1.is_locked ≡ true
  rejected_locked s e = ground (arith, verify_integrity-Verdict host s)

  busy :
      (q : MemoryQueue) (xs : List LedgerBlock) (b : LedgerBlock) (ys : List LedgerBlock)
      → ltb 0 (size (record q { client = record q.client { queue = xs ++ b ∷ ys } })) ≡ true
  unfolding get_queue_status
  busy q xs b ys = ground (arith, length-append xs (b ∷ ys))

  -- A request overwritten in the memory of a timed queue, unless the new content has the hash of
  -- the old, is detected by the next watchdog tick: `onTamper` is called, the watchdog and every
  -- expiry timer are stopped, and every later enqueue, dequeue and zeroization throws.
  pub tick-detects :
      (q : MemoryQueue) (xs : List LedgerBlock) (b : LedgerBlock) (ys : List LedgerBlock)
      (request : Bytes)
      → IsTimed q
      → q.tick_pending ≡ true
      → q.client.queue ≡ xs ++ b ∷ ys
      → hash_of (record b { serialized_request = request }) b.previous_hash
        ≢ hash_of b b.previous_hash
      → let t = tick host (record q { client = overwritten q.client xs b request ys }) in
        (t.0 ≡ true) × IsSuspended host t.1
  tick-detects q xs b ys request h p e differs =
      let s = overwritten q.client xs b request ys in
      let t = record q { client = s } in
      let rejected = (verify_integrity-detects host q.client xs b ys request h.well e differs).0 in
      rw
        (rejected-tick t (sym h.watched ∙ p)
          (busy q xs (record b { serialized_request = request }) ys) rejected)
        (
          refl,
          locked-IsSuspended
              (record q { client = (verify_integrity host s).1; tick_pending = false })
              (rejected_locked s rejected) h.same h.separate,
        )
