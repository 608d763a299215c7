-- ===== src/Core/Client/Kept.antt =====
-- What each part of the client leaves of a timed queue.
use vesper_platform.Base.{
  ℕ, String, ◌≡◌, refl, sym, Bool, true, false, Option, List, [], ◌∷◌, subst, Bytes, ◌&&◌, ◌==◌,
  if_cases, Option-cases, inl, inr,
}
use vesper_platform.Binary.Wire.{
  AdapterRequest, Deserialized, null, range_error, received, serialize_adapter_request,
  deserialize_adapter_request,
}
use vesper_platform.Ledger.Fallback.{Host}
use vesper_platform.Ledger.Queue.{
  MemoryQueue, fire, Checked, passed, ledger_locked, ledger_compromised, kept, enqueue, dequeue,
  size, get_payload, expire,
}
use vesper_platform.Ledger.Queue.Timed.{IsTimed}
use vesper_platform.Ledger.Queue.Steps.{
  put, remove, timer_fires, queue_step, queue_step-IsTimed, tick-IsTimed, tick-quiet,
  clear_all-IsTimed, verified, verified-IsTimed,
}
use vesper_platform.Core.Context.{PendingContext}
use vesper_platform.Core.Client.{
  Pending, Reply, answer, failure, Replay, resting, shaking_hands, replaying, waiting, ClientConfig,
  ClientCore, freeze, finish_replay, pending_of, purge_all, enqueue_structured_request,
  expire_request, watchdog_tick,
}
use vesper_platform.Core.Client.Processing.{
  after_handshake, drop_unowned, drop_zeroized, dispatch_owned, replay_id, replay_next,
  replay_answer, replay_reply,
}
use vesper_platform.Core.Client.Purge.{reject_all-rejections}

module _ {Signer Resolver Answer : Type 0} (host : Host)
    (config : ClientConfig Signer Resolver) where
  queue-freeze : (c : ClientCore Signer Resolver Answer) → (freeze c).queue ≡ c.queue
  unfolding freeze
  queue-freeze c =
      if_cases (λ (t : ClientCore Signer Resolver Answer). t.queue ≡ c.queue) c.is_frozen _ _
        (λ e. refl) (λ e. refl)

  queue-finish_replay : (c : ClientCore Signer Resolver Answer) → (finish_replay c).queue ≡ c.queue
  unfolding finish_replay
  queue-finish_replay c =
      if_cases (λ (t : ClientCore Signer Resolver Answer). t.queue ≡ c.queue)
        (c.is_frozen && size c.queue == 0) _ _ (λ e. refl) (λ e. refl)

  -- What follows a checked call of the queue, whether the call passed or threw.
  pub checked-IsTimed :
      (q : MemoryQueue) (o : Checked MemoryQueue)
      (f : MemoryQueue → ClientCore Signer Resolver Answer)
      (x y : ClientCore Signer Resolver Answer)
      → IsTimed (kept q o)
      → ((t : MemoryQueue) → IsTimed t → IsTimed (f t).queue)
      → (IsTimed q → IsTimed x.queue)
      → (IsTimed q → IsTimed y.queue)
      → IsTimed
          (elim o as (λ z. ClientCore Signer Resolver Answer) [
            | passed t ↦ f t
            | ledger_locked ↦ x
            | ledger_compromised ↦ y
          ]).queue
  checked-IsTimed q (passed t) f x y h a b c = a t h
  checked-IsTimed q ledger_locked f x y h a b c = b h
  checked-IsTimed q ledger_compromised f x y h a b c = c h

  pub freeze-IsTimed :
      (c : ClientCore Signer Resolver Answer) → IsTimed c.queue → IsTimed (freeze c).queue
  freeze-IsTimed c h = subst IsTimed (sym (queue-freeze c)) h

  pub finish_replay-IsTimed :
      (c : ClientCore Signer Resolver Answer) → IsTimed c.queue → IsTimed (finish_replay c).queue
  finish_replay-IsTimed c h = subst IsTimed (sym (queue-finish_replay c)) h

  pub enqueue_structured_request-IsTimed :
      (id : String) (promise : ℕ) (r : AdapterRequest)
      (dpop : Option (PendingContext Signer Resolver)) (ttl : ℕ)
      (c : ClientCore Signer Resolver Answer)
      → IsTimed c.queue
      → IsTimed (enqueue_structured_request host id promise r dpop ttl c).queue
  unfolding enqueue_structured_request queue_step
  enqueue_structured_request-IsTimed id promise r dpop ttl c h =
      checked-IsTimed _ (enqueue host id (serialize_adapter_request r) ttl _) _ _ _
        (queue_step-IsTimed host _ (put id (serialize_adapter_request r) ttl) (freeze-IsTimed _ h))
        (λ t k. k) (λ k. k) (λ k. k)

  pub drop_unowned-IsTimed :
      (id : String) (rest : List String) (c : ClientCore Signer Resolver Answer)
      → IsTimed c.queue
      → IsTimed (drop_unowned host config id rest c).queue
  unfolding drop_unowned queue_step
  drop_unowned-IsTimed id rest c h =
      checked-IsTimed c.queue (dequeue host id c.queue) _ _ _
        (queue_step-IsTimed host c.queue (remove id) h) (λ t k. k) (λ k. k) (λ k. k)

  pub drop_zeroized-IsTimed :
      (id : String) (p : Pending Signer Resolver) (rest : List String)
      (c : ClientCore Signer Resolver Answer)
      → IsTimed c.queue
      → IsTimed (drop_zeroized host config id p rest c).queue
  unfolding drop_zeroized queue_step
  drop_zeroized-IsTimed id p rest c h =
      checked-IsTimed c.queue (dequeue host id c.queue) _ _ _
        (queue_step-IsTimed host c.queue (remove id) h) (λ t k. k) (finish_replay-IsTimed _)
        (finish_replay-IsTimed _)

  pub dispatch_owned-IsTimed :
      (id : String) (payload : Bytes) (p : Pending Signer Resolver) (rest : List String)
      (c : ClientCore Signer Resolver Answer)
      → IsTimed c.queue
      → IsTimed (dispatch_owned host config id payload p rest c).queue
  unfolding dispatch_owned
  dispatch_owned-IsTimed id payload p rest c h =
      dispatched (deserialize_adapter_request payload) refl
    where
      dispatched :
          (d : Deserialized)
          → deserialize_adapter_request payload ≡ d
          → IsTimed (dispatch_owned host config id payload p rest c).queue
      dispatched null e = rw (e, dispatch_owned) (drop_zeroized-IsTimed id p rest c h)
      dispatched range_error e = rw (e, dispatch_owned) (finish_replay-IsTimed _ h)
      dispatched (received r) e = rw (e, dispatch_owned) h

  pub replay_answer-IsTimed :
      (id : String) (p : Pending Signer Resolver) (rest : List String) (reply : Reply Answer)
      (c : ClientCore Signer Resolver Answer)
      → IsTimed c.queue
      → IsTimed (replay_answer host config id p rest reply c).queue
  unfolding replay_answer queue_step
  replay_answer-IsTimed id p rest (answer a) c h =
      checked-IsTimed c.queue (dequeue host id c.queue) _ _ _
        (queue_step-IsTimed host c.queue (remove id) h) (λ t k. k) (finish_replay-IsTimed _)
        (finish_replay-IsTimed _)
  replay_answer-IsTimed id p rest (failure e) c h = finish_replay-IsTimed _ h

  pub replay_id-IsTimed :
      (id : String) (rest : List String) (c : ClientCore Signer Resolver Answer)
      → IsTimed c.queue
      → IsTimed (replay_id host config id rest c).queue
  unfolding replay_id
  replay_id-IsTimed id rest c h = elim (Option-cases (get_payload id c.queue)) [
    | inl e ↦ rw (e, replay_id) h
    | inr (payload, e) ↦ elim (Option-cases (pending_of id c.pending)) [
      | inl n ↦ rw (e, replay_id, n) (drop_unowned-IsTimed id rest c h)
      | inr (p, n) ↦
          rw (e, replay_id, n)
            (if_cases (λ (t : ClientCore Signer Resolver Answer). IsTimed t.queue)
              config.has_adapter _ _ (λ z. dispatch_owned-IsTimed id payload p rest c h)
              (λ z. drop_unowned-IsTimed id rest c h))
    ]
  ]

  pub loop-IsTimed :
      (ids : List String) (c : ClientCore Signer Resolver Answer)
      → IsTimed c.queue
      → IsTimed
          (elim ids as (λ z. ClientCore Signer Resolver Answer) [
            | [] ↦ finish_replay c
            | id ∷ rest ↦ replay_id host config id rest c
          ]).queue
  loop-IsTimed [] c h = finish_replay-IsTimed c h
  loop-IsTimed (id ∷ rest) c h = replay_id-IsTimed id rest c h

  pub replay_next-IsTimed :
      (c : ClientCore Signer Resolver Answer)
      → IsTimed c.queue
      → IsTimed (replay_next host config c).queue
  unfolding replay_next
  replay_next-IsTimed c h = by_phase c.replay
    where
      by_phase :
          (r : Replay Signer Resolver)
          → IsTimed
              (elim r as (λ z. ClientCore Signer Resolver Answer) [
                | resting ↦ c
                | shaking_hands ↦ c
                | replaying ids ↦ elim ids [
                  | [] ↦ finish_replay c
                  | id ∷ rest ↦ replay_id host config id rest c
                ]
                | waiting id p rest ↦ c
              ]).queue
      by_phase resting = h
      by_phase shaking_hands = h
      by_phase (replaying ids) = loop-IsTimed ids c h
      by_phase (waiting id p rest) = h

  pub replay_reply-IsTimed :
      (reply : Reply Answer) (c : ClientCore Signer Resolver Answer)
      → IsTimed c.queue
      → IsTimed (replay_reply host config reply c).queue
  unfolding replay_reply
  replay_reply-IsTimed reply c h = by_phase c.replay
    where
      by_phase :
          (r : Replay Signer Resolver)
          → IsTimed
              (elim r as (λ z. ClientCore Signer Resolver Answer) [
                | resting ↦ c
                | shaking_hands ↦ c
                | replaying ids ↦ c
                | waiting id p rest ↦ replay_answer host config id p rest reply c
              ]).queue
      by_phase resting = h
      by_phase shaking_hands = h
      by_phase (replaying ids) = h
      by_phase (waiting id p rest) = replay_answer-IsTimed id p rest reply c h

  pub purge_all-IsTimed :
      (c : ClientCore Signer Resolver Answer) → IsTimed c.queue → IsTimed (purge_all host c).queue
  unfolding purge_all
  purge_all-IsTimed c h = rw (reject_all-rejections c.pending _) (clear_all-IsTimed host c.queue h)

  pub after_handshake-IsTimed :
      (legitimate : Bool) (c : ClientCore Signer Resolver Answer)
      → IsTimed c.queue
      → IsTimed (after_handshake host config legitimate c).queue
  unfolding after_handshake
  after_handshake-IsTimed false c h = purge_all-IsTimed c h
  after_handshake-IsTimed true c h =
      let r = (verified-IsTimed host c.queue h).ready in
      rw (verified host c.queue h, r.1) (verified-IsTimed host c.queue h)

  queue-expire_request :
      (n : ℕ) (c : ClientCore Signer Resolver Answer)
      → (expire_request host n c).queue ≡ expire host n c.queue
  unfolding expire_request expire
  queue-expire_request n c = elim (Option-cases (fire host n c.queue)) [
    | inl e ↦ rw (e, expire_request, expire) refl
    | inr (x, e) ↦ rw (e, expire_request, expire) refl
  ]

  pub expire_request-IsTimed :
      (n : ℕ) (c : ClientCore Signer Resolver Answer)
      → IsTimed c.queue
      → IsTimed (expire_request host n c).queue
  unfolding queue_step
  expire_request-IsTimed n c h =
      subst IsTimed (sym (queue-expire_request n c))
        (queue_step-IsTimed host c.queue (timer_fires n) h)

  pub watchdog_tick-IsTimed :
      (c : ClientCore Signer Resolver Answer)
      → IsTimed c.queue
      → c.queue.tick_pending ≡ true
      → IsTimed (watchdog_tick host c).queue
  unfolding watchdog_tick
  watchdog_tick-IsTimed c h p = rw (tick-quiet host c.queue h p) (tick-IsTimed host c.queue h p)
