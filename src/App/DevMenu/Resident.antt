-- ===== src/App/DevMenu/Resident.antt =====
-- The two steps between which the memory of the process is scanned.
use vesper_platform.Base.{String, ◌≡◌, refl, ap, ◌∙◌, subst, sym, true, false, none, some}
use vesper_platform.Binary.Wire.{AdapterRequest, serialize_adapter_request}
use vesper_platform.Ledger.Fallback.{Host, toggle_network_sim}
use vesper_platform.Ledger.Queue.{MemoryQueue, Checked, kept, get_payload, toggle_queue_network}
use vesper_platform.Ledger.Queue.Timed.{IsTimed, dequeue-dropped}
use vesper_platform.Ledger.Queue.Steps.{network, put, queue_step, queue_step-IsTimed}
use vesper_platform.Ledger.Queue.Resident.{
  enqueued, enqueue-enqueued, payload-enqueued_offline, payload-dequeue,
}
use vesper_platform.App.DevMenu.{
  DevMenu, go_network, with_queue, refresh_status, after_test_enqueue, after_test_dequeue,
  enqueue_test_payload, dequeue_test_payload,
}

module _ {Signer Resolver Answer : Type 0} (host : Host) where
  -- On a queue whose timers and entries match, a test payload is in the ledger from `enqueueTestPayload`
  -- to `dequeueTestPayload`, as the request was serialized, and no longer: after the first step it is
  -- there under the remembered id, after the second nothing is there and no id is remembered.
  pub test_payload-resident :
      (id : String) (request : AdapterRequest) (m : DevMenu Signer Resolver Answer)
      → IsTimed m.client.queue
      → let t = enqueue_test_payload host id request m in
        let u = dequeue_test_payload host t in
        (get_payload id t.client.queue ≡ some (serialize_adapter_request request))
        × (t.last_enqueued_id ≡ some id)
        × (get_payload id u.client.queue ≡ none)
        × (u.last_enqueued_id ≡ none)
        × (u.is_busy ≡ false)
  unfolding enqueue_test_payload after_test_enqueue dequeue_test_payload after_test_dequeue
      refresh_status queue_step toggle_queue_network toggle_network_sim
  test_payload-resident id request m h =
      let off = toggle_queue_network false m.client.queue in
      let offline = go_network false true (record m { is_busy = true }) in
      let payload = serialize_adapter_request request in
      let timed : IsTimed off = queue_step-IsTimed host m.client.queue (network false) h in
      let q = enqueued host id payload 60000 off in
      let queued = enqueue-enqueued host id payload 60000 off timed in
      let later : IsTimed q =
        subst (λ (r : Checked MemoryQueue). IsTimed (kept off r)) queued
          (queue_step-IsTimed host off (put id payload 60000) timed) in
      let menu = refresh_status (record (with_queue q offline) { last_enqueued_id = some id }) in
      let out = dequeue-dropped host id q later in
      let here = payload-enqueued_offline host id payload 60000 off timed refl in
      let gone = payload-dequeue host id q later in
      rw (queued, out)
        (
          here,
          refl,
          ap (λ (r : Checked MemoryQueue). get_payload id (kept q r)) (sym out) ∙ gone,
          refl,
          refl,
        )
