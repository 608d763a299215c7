-- ===== src/Ledger/Queue/Timed.antt =====
-- Queues whose requests have the timers that will erase them, and the calls on one id.
use vesper_platform.Ledger.Queue.Covered.{AreCovered, AreCovered-drop, AreCovered-execute}
use vesper_platform.Base.{
  ℕ, String, ◌≡◌, refl, sym, ap, ◌∙◌, inl, inr, none, some, arith, Bytes, Option-cases,
}
use vesper_platform.Ledger.Fallback.{Host, Ledger, zeroize, get_queue_status}
use vesper_platform.Ledger.Fallback.Invariant.{IsWellFormed}
use vesper_platform.Ledger.Fallback.Lifecycle.{
  IsReady, execute, erase, clear, online, verify, step, step-IsWellFormed, step-IsReady, after,
}
use vesper_platform.Ledger.Fallback.Lifecycle
use vesper_platform.Ledger.Fallback.View.{
  Outbox, entries_of, view, drop_key, outbox_step, view-step,
}
use vesper_platform.Ledger.Queue.{
  MemoryQueue, passed, kept, check_status, timer_of, delete_timer, holder_of, clear_timeout,
  drop_timer, set_timer, enqueue, dequeue, active_zeroization, fire, expire,
}
use vesper_platform.Ledger.Queue.Timers.{
  AreSeparate, AreBelow, clear_timeout-timer_of, timer_of-holder_of, clear_timeout_twice,
  timer_of-delete_timer_self, delete_timer-AreSeparate, delete_timer-AreBelow, delete_timer_absent,
  append-AreSeparate, append-AreBelow,
}

-- The ledger is well-formed and ready; the host holds just the timers of the map, one for each id;
-- every request in the ledger has one; and the watchdog's timer is pending while it runs.
pub record IsTimed (q : MemoryQueue) : Type 0 where
  pub well : IsWellFormed q.client
  pub ready : IsReady q.client
  pub same : q.scheduled ≡ q.expiry_timers
  pub separate : AreSeparate q.expiry_timers
  pub below : AreBelow q.next_handle q.expiry_timers
  pub covered : AreCovered q.expiry_timers (entries_of q.client.queue)
  pub watched : q.tick_pending ≡ q.is_watchdog_running

-- An id dropped from the maps, beside a ledger.
abbrev pub dropped : String → MemoryQueue → Ledger → MemoryQueue
dropped id q t = record q {
  client = t;
  scheduled = delete_timer id q.expiry_timers;
  expiry_timers = delete_timer id q.expiry_timers;
}

pub check_status-ready :
    (q next : MemoryQueue) → IsReady q.client → check_status q next ≡ passed next
unfolding check_status get_queue_status
check_status-ready q next r = ground arith

-- On the maps of a timed queue, dropping a timer deletes the id from both.
pub drop_timer-delete :
    (id : String) (q : MemoryQueue)
    → q.scheduled ≡ q.expiry_timers
    → AreSeparate q.expiry_timers
    → drop_timer id q ≡ record q {
      scheduled = delete_timer id q.expiry_timers;
      expiry_timers = delete_timer id q.expiry_timers;
    }
unfolding drop_timer
drop_timer-delete id q e s = elim (Option-cases (timer_of id q.expiry_timers)) [
  | inl n ↦ rw (n, drop_timer) (ground (arith, delete_timer_absent id q.expiry_timers n))
  | inr (h, n) ↦
      rw (n, drop_timer) (ground (arith, clear_timeout-timer_of id h q.expiry_timers s n))
]

-- After a timer has fired, the dropping of its holder's entry finds nothing more to clear.
drop_timer-fired :
    (id : String) (n : ℕ) (q : MemoryQueue)
    → IsTimed q
    → holder_of n q.scheduled ≡ some id
    → drop_timer id (record q { scheduled = clear_timeout n q.scheduled }) ≡ dropped id q q.client
unfolding drop_timer
drop_timer-fired id n q h e =
    let m = q.expiry_timers in
    let t = timer_of-holder_of id n m h.separate (ap (holder_of n) (sym h.same) ∙ e) in
    let cleared = clear_timeout-timer_of id n m h.separate t in
    rw (t, drop_timer, h.same, clear_timeout_twice n m, cleared) refl

module _ (host : Host) where
  -- The entries after one call of the ledger.
  pub entries-step :
      (s : Ledger) (c : Lifecycle.Call)
      → IsWellFormed s
      → IsReady s
      → entries_of (step host s c).queue ≡ (outbox_step (view s) c).entries
  entries-step s c w r = ap (λ (o : Outbox). o.entries) (view-step host s c w r)

  pub dropped-IsTimed :
      (id : String) (q : MemoryQueue) (t : Ledger)
      → IsTimed q
      → IsWellFormed t
      → IsReady t
      → entries_of t.queue ≡ drop_key id (entries_of q.client.queue)
      → IsTimed (dropped id q t)
  dropped-IsTimed id q t h w r e = record {
    well = w;
    ready = r;
    same = refl;
    separate = delete_timer-AreSeparate id q.expiry_timers h.separate;
    below = delete_timer-AreBelow id q.next_handle q.expiry_timers h.below;
    covered = rw e (AreCovered-drop id q.expiry_timers (entries_of q.client.queue) h.covered);
    watched = h.watched;
  }

  -- On a timed queue `activeZeroization` drops the timer and erases the request.
  pub active_zeroization-dropped :
      (id : String) (q : MemoryQueue)
      → IsTimed q
      → active_zeroization host id q ≡ passed (dropped id q (zeroize host id q.client))
  unfolding active_zeroization
  active_zeroization-dropped id q h =
      rw (drop_timer-delete id q h.same h.separate, check_status-ready q _ h.ready) refl

  pub erased-IsTimed :
      (id : String) (q : MemoryQueue)
      → IsTimed q
      → IsTimed (dropped id q (zeroize host id q.client))
  unfolding step outbox_step
  erased-IsTimed id q h =
      dropped-IsTimed id q (step host q.client (erase id)) h
        (step-IsWellFormed host q.client (erase id) h.well)
        (step-IsReady host q.client (erase id) h.well h.ready)
        (entries-step q.client (erase id) h.well h.ready)

  -- On a timed queue `dequeue` drops the timer and the request.
  pub dequeue-dropped :
      (id : String) (q : MemoryQueue)
      → IsTimed q
      → dequeue host id q ≡ passed (dropped id q (step host q.client (Lifecycle.dequeue id)))
  unfolding dequeue step
  dequeue-dropped id q h =
      rw (drop_timer-delete id q h.same h.separate, check_status-ready q _ h.ready) refl

  pub dequeued-IsTimed :
      (id : String) (q : MemoryQueue)
      → IsTimed q
      → IsTimed (dropped id q (step host q.client (Lifecycle.dequeue id)))
  unfolding outbox_step
  dequeued-IsTimed id q h =
      let c = Lifecycle.dequeue id in
      dropped-IsTimed id q (step host q.client c) h (step-IsWellFormed host q.client c h.well)
        (step-IsReady host q.client c h.well h.ready) (entries-step q.client c h.well h.ready)

  pub dequeue-IsTimed :
      (id : String) (q : MemoryQueue) → IsTimed q → IsTimed (kept q (dequeue host id q))
  dequeue-IsTimed id q h = rw (dequeue-dropped id q h) (dequeued-IsTimed id q h)

  -- A fired timer erases the request of its holder, and only that, just as `activeZeroization` does.
  pub expire-dropped :
      (id : String) (n : ℕ) (q : MemoryQueue)
      → IsTimed q
      → holder_of n q.scheduled ≡ some id
      → expire host n q ≡ dropped id q (zeroize host id q.client)
  unfolding expire fire active_zeroization
  expire-dropped id n q h e =
      rw
        (
          e,
          expire,
          drop_timer-fired id n q h e,
          check_status-ready (record q { scheduled = clear_timeout n q.scheduled }) _ h.ready,
        )
        refl

  pub put-IsTimed :
      (id : String) (payload : Bytes) (ttl : ℕ) (q : MemoryQueue)
      → IsTimed q
      → IsTimed (kept q (enqueue host id payload ttl q))
  unfolding enqueue set_timer step outbox_step
  put-IsTimed id payload ttl q h =
      let c = execute id payload ttl in
      let m = delete_timer id q.expiry_timers in
      let es = drop_key id (entries_of q.client.queue) in
      let covered = AreCovered-drop id q.expiry_timers (entries_of q.client.queue) h.covered in
      rw (drop_timer-delete id q h.same h.separate, check_status-ready q _ h.ready)
        (record {
          well = step-IsWellFormed host q.client c h.well;
          ready = step-IsReady host q.client c h.well h.ready;
          same = refl;
          separate =
              append-AreSeparate id q.next_handle m
                (delete_timer-AreSeparate id q.expiry_timers h.separate)
                (delete_timer-AreBelow id q.next_handle q.expiry_timers h.below)
                (timer_of-delete_timer_self id q.expiry_timers);
          below =
              append-AreBelow id q.next_handle m
                (delete_timer-AreBelow id q.next_handle q.expiry_timers h.below);
          covered =
              rw (entries-step q.client c h.well h.ready)
                (AreCovered-execute q.client.is_online id q.next_handle payload m es covered);
          watched = h.watched;
        })

  expire-unknown : (n : ℕ) (q : MemoryQueue) → holder_of n q.scheduled ≡ none → expire host n q ≡ q
  unfolding expire fire
  expire-unknown n q e = rw (e, expire) refl

  pub expire-IsTimed : (n : ℕ) (q : MemoryQueue) → IsTimed q → IsTimed (expire host n q)
  expire-IsTimed n q h = elim (Option-cases (holder_of n q.scheduled)) [
    | inl e ↦ rw (expire-unknown n q e) h
    | inr (id, e) ↦ rw (expire-dropped id n q h e) (erased-IsTimed id q h)
  ]
