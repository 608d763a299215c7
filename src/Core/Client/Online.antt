-- ===== src/Core/Client/Online.antt =====
-- Requests that are queued while the ledger takes the network to be there.
use vesper_platform.Base.{
  ℕ, String, ◌≡◌, refl, sym, ap, ◌∙◌, true, Option, none, some, [], ◌∷◌, arith, eq_refl, if_cases,
  subst,
}
use vesper_platform.Binary.Wire.{AdapterRequest, serialize_adapter_request}
use vesper_platform.Ledger.Fallback.{Host}
use vesper_platform.Ledger.Queue.{MemoryQueue, get_payload}
use vesper_platform.Ledger.Queue.Resident.{enqueue-enqueued, payload-enqueued}
use vesper_platform.Ledger.Queue.Timed.{IsTimed}
use vesper_platform.Core.Context.{PendingContext}
use vesper_platform.Core.Client.{
  Pending, Pendings, ClientCore, pending_of, set_pending, freeze, wipe, enqueue_structured_request,
}

set_pending_self :
    {Signer Resolver : Type 0} (id : String) (p : Pending Signer Resolver)
    (m : Pendings Signer Resolver)
    → pending_of id (set_pending id p m) ≡ some p
unfolding pending_of set_pending
set_pending_self id p [] = rw (eq_refl id) refl
set_pending_self id p ((k, old) ∷ m) = ground (arith, set_pending_self id p m)

module _ {Signer Resolver Answer : Type 0} (host : Host) where
  queue-frozen :
      (r : AdapterRequest) (c : ClientCore Signer Resolver Answer)
      → (freeze (wipe r c)).queue ≡ c.queue
  unfolding freeze
  queue-frozen r c =
      if_cases (λ (t : ClientCore Signer Resolver Answer). t.queue ≡ c.queue) c.is_frozen _ _
        (λ e. refl) (λ e. refl)

  -- A request that the client queues while its ledger is told to be online, as during a replay or
  -- after a status 503, is not kept: its promise waits, but no payload is stored for its id.
  pub enqueue_structured_request-online :
      (id : String) (promise : ℕ) (r : AdapterRequest)
      (dpop : Option (PendingContext Signer Resolver)) (ttl : ℕ)
      (c : ClientCore Signer Resolver Answer)
      → IsTimed c.queue
      → c.queue.client.is_online ≡ true
      → let t = enqueue_structured_request host id promise r dpop ttl c in
        (pending_of id t.pending ≡ some (record { promise = promise; dpop = dpop }))
        × (get_payload id t.queue ≡ none)
  unfolding enqueue_structured_request
  enqueue_structured_request-online id promise r dpop ttl c h o =
      let payload = serialize_adapter_request r in
      let f = freeze (wipe r c) in
      let timed = subst IsTimed (sym (queue-frozen r c)) h in
      let still = ap (λ (q : MemoryQueue). q.client.is_online) (queue-frozen r c) ∙ o in
      rw (enqueue-enqueued host id payload ttl f.queue timed, enqueue_structured_request)
        (
          set_pending_self id (record { promise = promise; dpop = dpop }) f.pending,
          payload-enqueued host id payload ttl f.queue timed still,
        )
