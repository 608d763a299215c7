-- ===== src/Ledger/Queue/Steps.antt =====
-- Sequences of calls on the memory queue.
use vesper_platform.Base.{
  ℕ, String, ◌≡◌, refl, sym, ap, ◌∙◌, inl, inr, Bool, true, false, List, [], ◌∷◌, if◌then◌else◌,
  Bytes, ltb, Bool-cases, if_cases,
}
use vesper_platform.Ledger.Fallback.{Host, Ledger, verify_integrity}
use vesper_platform.Ledger.Fallback.Invariant.{IsWellFormed, new_ledger-IsWellFormed}
use vesper_platform.Ledger.Fallback.Verify.{verify_integrity_of_IsWellFormed}
use vesper_platform.Ledger.Fallback.Lifecycle.{
  IsReady, clear, online, verify, step, step-IsWellFormed, step-IsReady,
}
use vesper_platform.Ledger.Fallback.View.{entries_of, find_key, outbox_step}
use vesper_platform.Ledger.Queue.{
  MemoryQueue, new_queue, kept, drop_timers, start_watchdog, stop_watchdog,
  suspend_and_freeze_ledger, toggle_queue_network, enqueue, dequeue, active_zeroization, expire,
  clear_all, verify_ledger_integrity, tick, check_or_suspend, size,
}
use vesper_platform.Ledger.Queue.Timers.{clear_timeouts_all}
use vesper_platform.Ledger.Queue.Timed.{
  IsTimed, entries-step, active_zeroization-dropped, erased-IsTimed, dequeue-IsTimed, put-IsTimed,
  expire-IsTimed,
}

pub data QueueCall : Type 0 where
  put : String → Bytes → ℕ → QueueCall
  remove : String → QueueCall
  erase_now : String → QueueCall
  timer_fires : ℕ → QueueCall
  tick_fires : QueueCall
  empty : QueueCall
  check : QueueCall
  watch : QueueCall
  unwatch : QueueCall
  network : Bool → QueueCall

module _ (host : Host) where
  unfoldable pub queue_step : MemoryQueue → QueueCall → MemoryQueue
  queue_step q (put id payload ttl) = kept q (enqueue host id payload ttl q)
  queue_step q (remove id) = kept q (dequeue host id q)
  queue_step q (erase_now id) = kept q (active_zeroization host id q)
  queue_step q (timer_fires h) = expire host h q
  queue_step q tick_fires = if q.tick_pending then (tick host q).1 else q
  queue_step q empty = clear_all host q
  queue_step q check = check_or_suspend host q
  queue_step q watch = start_watchdog q
  queue_step q unwatch = stop_watchdog q
  queue_step q (network o) = toggle_queue_network o q

  unfoldable pub queue_run : MemoryQueue → List QueueCall → MemoryQueue
  unfolding queue_step
  queue_run q [] = q
  queue_run q (c ∷ cs) = queue_run (queue_step q c) cs

  -- A ledger with the same requests, in a queue with the same timers.
  client-IsTimed :
      (q : MemoryQueue) (t : Ledger)
      → IsTimed q
      → IsWellFormed t
      → IsReady t
      → entries_of t.queue ≡ entries_of q.client.queue
      → IsTimed (record q { client = t })
  client-IsTimed q t h w r e = record {
    well = w;
    ready = r;
    same = h.same;
    separate = h.separate;
    below = h.below;
    covered = rw e h.covered;
    watched = h.watched;
  }

  pub verified-IsTimed : (q : MemoryQueue) → IsTimed q → IsTimed (verify_ledger_integrity host q).1
  unfolding verify_ledger_integrity step outbox_step
  verified-IsTimed q h =
      client-IsTimed q (step host q.client verify) h (step-IsWellFormed host q.client verify h.well)
        (step-IsReady host q.client verify h.well h.ready)
        (entries-step host q.client verify h.well h.ready)

  pub verified : (q : MemoryQueue) → IsTimed q → (verify_ledger_integrity host q).0 ≡ true
  unfolding verify_ledger_integrity
  verified q h = verify_integrity_of_IsWellFormed host q.client h.well

  check-IsTimed : (q : MemoryQueue) → IsTimed q → IsTimed (check_or_suspend host q)
  unfolding check_or_suspend
  check-IsTimed q h = rw (verified q h) (verified-IsTimed q h)

  network-IsTimed : (o : Bool) (q : MemoryQueue) → IsTimed q → IsTimed (toggle_queue_network o q)
  unfolding toggle_queue_network step outbox_step
  network-IsTimed o q h =
      client-IsTimed q (step host q.client (online o)) h
        (step-IsWellFormed host q.client (online o) h.well)
        (step-IsReady host q.client (online o) h.well h.ready)
        (entries-step host q.client (online o) h.well h.ready)

  ticking-IsTimed :
      (q : MemoryQueue) (t : Ledger)
      → IsTimed (record q { client = t })
      → IsTimed (record q { client = t; tick_pending = true; is_watchdog_running = true })
  ticking-IsTimed q t h = record {
    well = h.well;
    ready = h.ready;
    same = h.same;
    separate = h.separate;
    below = h.below;
    covered = h.covered;
    watched = refl;
  }

  pub tick-IsTimed : (q : MemoryQueue) → IsTimed q → q.tick_pending ≡ true → IsTimed (tick host q).1
  unfolding tick verify_ledger_integrity
  tick-IsTimed q h p =
      let running : q.is_watchdog_running ≡ true = sym h.watched ∙ p in
      let v = verified-IsTimed q h in
      elim (Bool-cases (ltb 0 (size q))) [
        | inl e ↦
            rw (running, e, verify_integrity_of_IsWellFormed host q.client h.well)
              (ticking-IsTimed q (verify_integrity host q.client).1 v)
        | inr e ↦ rw (running, e) (ticking-IsTimed q q.client h)
      ]

  -- On a timed queue the watchdog finds nothing.
  pub tick-quiet : (q : MemoryQueue) → IsTimed q → q.tick_pending ≡ true → (tick host q).0 ≡ false
  unfolding tick verify_ledger_integrity
  tick-quiet q h p =
      let running : q.is_watchdog_running ≡ true = sym h.watched ∙ p in
      elim (Bool-cases (ltb 0 (size q))) [
        | inl e ↦ rw (running, e, verify_integrity_of_IsWellFormed host q.client h.well) refl
        | inr e ↦ rw (running, e) refl
      ]

  pub clear_all-IsTimed : (q : MemoryQueue) → IsTimed q → IsTimed (clear_all host q)
  unfolding clear_all drop_timers step outbox_step find_key
  clear_all-IsTimed q h = record {
    well = step-IsWellFormed host q.client clear h.well;
    ready = step-IsReady host q.client clear h.well h.ready;
    same = rw h.same (clear_timeouts_all q.expiry_timers h.separate);
    separate = tt;
    below = tt;
    covered = λ id e. ap (find_key id) (entries-step host q.client clear h.well h.ready);
    watched = h.watched;
  }

  start-IsTimed : (q : MemoryQueue) → IsTimed q → IsTimed (start_watchdog q)
  unfolding start_watchdog
  start-IsTimed q h =
      if_cases IsTimed q.is_watchdog_running q _ (λ e. h) (λ e. ticking-IsTimed q q.client h)

  stop-IsTimed : (q : MemoryQueue) → IsTimed q → IsTimed (stop_watchdog q)
  unfolding stop_watchdog
  stop-IsTimed q h = record {
    well = h.well;
    ready = h.ready;
    same = h.same;
    separate = h.separate;
    below = h.below;
    covered = h.covered;
    watched = refl;
  }

  -- A queue without timers, neither in its map nor at the host, over the same ledger.
  abbrev pub IsTimerless : MemoryQueue → MemoryQueue → Type 0
  IsTimerless q t =
      (t.client ≡ q.client)
      × (t.expiry_timers ≡ [])
      × (t.scheduled ≡ [])
      × (t.is_watchdog_running ≡ false)
      × (t.tick_pending ≡ false)

  suspend-IsTimerless : (q : MemoryQueue) → IsTimed q → IsTimerless q (suspend_and_freeze_ledger q)
  unfolding suspend_and_freeze_ledger drop_timers stop_watchdog
  suspend-IsTimerless q h =
      (refl, refl, rw h.same (clear_timeouts_all q.expiry_timers h.separate), refl, refl)

  pub queue_step-IsTimed : (q : MemoryQueue) (c : QueueCall) → IsTimed q → IsTimed (queue_step q c)
  unfolding queue_step
  queue_step-IsTimed q (put id payload ttl) h = put-IsTimed host id payload ttl q h
  queue_step-IsTimed q (remove id) h = dequeue-IsTimed host id q h
  queue_step-IsTimed q (erase_now id) h =
      rw (active_zeroization-dropped host id q h) (erased-IsTimed host id q h)
  queue_step-IsTimed q (timer_fires n) h = expire-IsTimed host n q h
  queue_step-IsTimed q tick_fires h =
      if_cases IsTimed q.tick_pending (tick host q).1 q (tick-IsTimed q h) (λ e. h)
  queue_step-IsTimed q empty h = clear_all-IsTimed q h
  queue_step-IsTimed q check h = check-IsTimed q h
  queue_step-IsTimed q watch h = start-IsTimed q h
  queue_step-IsTimed q unwatch h = stop-IsTimed q h
  queue_step-IsTimed q (network o) h = network-IsTimed o q h

  queue_run-from : (q : MemoryQueue) (cs : List QueueCall) → IsTimed q → IsTimed (queue_run q cs)
  unfolding queue_run
  queue_run-from q [] h = h
  queue_run-from q (c ∷ cs) h = queue_run-from (queue_step q c) cs (queue_step-IsTimed q c h)

  new_queue-IsTimed : IsTimed new_queue
  unfolding find_key
  new_queue-IsTimed = record {
    well = new_ledger-IsWellFormed;
    ready = (refl, refl);
    same = refl;
    separate = tt;
    below = tt;
    covered = λ id e. refl;
    watched = refl;
  }

  -- After any sequence of enqueues, dequeues, zeroizations, clearings, network toggles, integrity
  -- checks, starts and stops of the watchdog, expiries and watchdog ticks on a new queue, the host holds
  -- exactly the timers of the map, one for each id; every request in the ledger has a timer that will
  -- erase it; the watchdog's timer is pending exactly while it runs; and the ledger is sound. A caller
  -- that then suspends the queue, as `suspendAndFreezeLedger` allows on a sound ledger too, leaves its
  -- requests where they are, without any timer, and the watchdog stopped.
  pub queue_run-IsTimed :
      (cs : List QueueCall)
      → let q = queue_run new_queue cs in IsTimed q × IsTimerless q (suspend_and_freeze_ledger q)
  queue_run-IsTimed cs =
      let h = queue_run-from new_queue cs new_queue-IsTimed in (h, suspend-IsTimerless _ h)
