-- ===== src/Ledger/Queue/Resident.antt =====
-- When a payload is in the memory queue: queued while the ledger is told to be offline or online, and
-- dequeued.
use vesper_platform.Base.{
  ℕ, String, ◌≡◌, refl, ap, ◌∙◌, true, false, none, some, List, [], ◌∷◌, ◌++◌, arith, eq_refl,
  Bytes, if◌then◌else◌,
}
use vesper_platform.Ledger.Fallback.{Host, get_transaction_payload}
use vesper_platform.Ledger.Fallback.Lifecycle as Lifecycle
use vesper_platform.Ledger.Fallback.Lifecycle.{step, execute, erase, step-IsWellFormed}
use vesper_platform.Ledger.Fallback.View.{
  entries_of, drop_key, find_key, outbox_step, payload-find_key,
}
use vesper_platform.Ledger.Queue.{
  MemoryQueue, Checked, passed, kept, enqueue, dequeue, set_timer, get_payload,
}
use vesper_platform.Ledger.Queue.Covered.{find_key-drop_self}
use vesper_platform.Ledger.Queue.Timed.{
  IsTimed, dropped, entries-step, check_status-ready, drop_timer-delete, dequeue-dropped,
}

find_key-put :
    (id : String) (payload : Bytes) (es : List (String × Bytes))
    → find_key id (drop_key id es ++ (id, payload) ∷ []) ≡ some payload
unfolding find_key drop_key
find_key-put id payload [] = rw (eq_refl id) refl
find_key-put id payload ((k, v) ∷ es) = ground (arith, find_key-put id payload es)

module _ (host : Host) where
  payload-execute-online :
      (id : String) (payload : Bytes) (ttl : ℕ) (q : MemoryQueue)
      → IsTimed q
      → q.client.is_online ≡ true
      → get_transaction_payload id (step host q.client (execute id payload ttl)) ≡ none
  unfolding outbox_step
  payload-execute-online id payload ttl q h o =
      let c = execute id payload ttl in
      let es = entries_of q.client.queue in
      let entries : entries_of (step host q.client c).queue ≡ drop_key id es =
        entries-step host q.client c h.well h.ready
        ∙ ap (λ online. if online then drop_key id es else drop_key id es ++ (id, payload) ∷ [])
            o in
      payload-find_key id (step host q.client c) (step-IsWellFormed host q.client c h.well)
      ∙ (ap (find_key id) entries ∙ find_key-drop_self id es)

  payload-execute-offline :
      (id : String) (payload : Bytes) (ttl : ℕ) (q : MemoryQueue)
      → IsTimed q
      → q.client.is_online ≡ false
      → get_transaction_payload id (step host q.client (execute id payload ttl)) ≡ some payload
  unfolding outbox_step
  payload-execute-offline id payload ttl q h o =
      let c = execute id payload ttl in
      let es = entries_of q.client.queue in
      let entries : entries_of (step host q.client c).queue ≡ drop_key id es ++ (id, payload) ∷ [] =
        entries-step host q.client c h.well h.ready
        ∙ ap (λ online. if online then drop_key id es else drop_key id es ++ (id, payload) ∷ [])
            o in
      payload-find_key id (step host q.client c) (step-IsWellFormed host q.client c h.well)
      ∙ (ap (find_key id) entries ∙ find_key-put id payload es)

  -- What `enqueue` leaves of a timed queue: a fresh timer, beside what the ledger made of the call.
  unfoldable pub enqueued : String → Bytes → ℕ → MemoryQueue → MemoryQueue
  enqueued id payload ttl q =
      set_timer id (dropped id q (step host q.client (execute id payload ttl)))

  pub enqueue-enqueued :
      (id : String) (payload : Bytes) (ttl : ℕ) (q : MemoryQueue)
      → IsTimed q
      → enqueue host id payload ttl q ≡ passed (enqueued id payload ttl q)
  unfolding enqueue enqueued set_timer step
  enqueue-enqueued id payload ttl q h =
      rw (drop_timer-delete id q h.same h.separate, check_status-ready q _ h.ready) refl

  pub payload-enqueued :
      (id : String) (payload : Bytes) (ttl : ℕ) (q : MemoryQueue)
      → IsTimed q
      → q.client.is_online ≡ true
      → get_payload id (enqueued id payload ttl q) ≡ none
  unfolding get_payload enqueued set_timer
  payload-enqueued id payload ttl q h o = payload-execute-online id payload ttl q h o

  pub payload-enqueued_offline :
      (id : String) (payload : Bytes) (ttl : ℕ) (q : MemoryQueue)
      → IsTimed q
      → q.client.is_online ≡ false
      → get_payload id (enqueued id payload ttl q) ≡ some payload
  unfolding get_payload enqueued set_timer
  payload-enqueued_offline id payload ttl q h o = payload-execute-offline id payload ttl q h o

  -- A payload that is queued while the ledger is told to be offline is there under its id.
  pub payload-put_offline :
      (id : String) (payload : Bytes) (ttl : ℕ) (q : MemoryQueue)
      → IsTimed q
      → q.client.is_online ≡ false
      → get_payload id (kept q (enqueue host id payload ttl q)) ≡ some payload
  payload-put_offline id payload ttl q h o =
      ap (λ (r : Checked MemoryQueue). get_payload id (kept q r))
        (enqueue-enqueued id payload ttl q h)
      ∙ payload-enqueued_offline id payload ttl q h o

  -- A payload that is dequeued is not there any more.
  pub payload-dequeue :
      (id : String) (q : MemoryQueue)
      → IsTimed q
      → get_payload id (kept q (dequeue host id q)) ≡ none
  unfolding get_payload outbox_step
  payload-dequeue id q h =
      let d = Lifecycle.dequeue id in
      ap (λ (r : Checked MemoryQueue). get_payload id (kept q r)) (dequeue-dropped host id q h)
      ∙ payload-find_key id (step host q.client d) (step-IsWellFormed host q.client d h.well)
      ∙ ap (find_key id) (entries-step host q.client d h.well h.ready)
      ∙ find_key-drop_self id (entries_of q.client.queue)
