-- ===== src/Core/Client.antt =====
-- packages/ghost-ledger/src/core/client.ts: the request path of `GhostClientCore`.
-- An async method is cut at its awaits: each part is a function of the state, and what the client
-- then waits for stands in the state, so that other calls and timers can come between.
mod State
pub mod Processing
mod Owned
pub mod Replayed
pub mod Purge
pub mod Kept
pub mod Online
pub mod Proofs
pub mod Telemetry
pub mod Instance
pub mod Bootstrap
pub mod Detected
pub mod Steps
pub mod Tests
unfoldable pub use State.*
use vesper_platform.Base.{
  ℕ, String, Bool, true, false, ◌&&◌, ◌||◌, not, Option, none, some, List, [], ◌∷◌, ◌++◌, ◌==◌,
  if◌then◌else◌, Bytes,
}
use vesper_platform.Binary.Utf8.{Text}
use vesper_platform.Binary.Headers.{assign, append_header_to_binary}
use vesper_platform.Binary.Wire.{
  AdapterRequest, Received, Deserialized, null, range_error, received, serialize_adapter_request,
  deserialize_adapter_request,
}
use vesper_platform.Ledger.Fallback.{Host}
use vesper_platform.Ledger.Queue.{
  MemoryQueue, passed, ledger_locked, ledger_compromised, kept, size, enqueue, dequeue, fire,
  active_zeroization, clear_all, get_execution_order, get_payload, verify_ledger_integrity,
  suspend_and_freeze_ledger, tick,
}
use vesper_platform.Core.ErrorMatrix.{ErrorValue, should_freeze_session}
use vesper_platform.Core.Context.{
  PendingContext, text_dpop, resolve_dpop_context, zero_request_buffers,
}

-- A request with the fresh proof as its DPoP header.
unfoldable pub with_proof : Text → AdapterRequest → AdapterRequest
with_proof proof r = elim r.encoded_headers [
  | some encoded ↦ record r {
    encoded_headers = some (append_header_to_binary encoded text_dpop proof);
  }
  | none ↦ record r {
    headers = some (assign text_dpop proof (elim r.headers [ some h ↦ h | none ↦ [] ]));
  }
]

-- What is dispatched: with a proof where there is a context.
unfoldable pub dispatched : AdapterRequest → Option Text → AdapterRequest
dispatched request proof = elim proof [ none ↦ request | some p ↦ with_proof p request ]

module _ {Signer Resolver : Type 0} (config : ClientConfig Signer Resolver) where
  abbrev context_for :
      AdapterRequest → RequestOptions Signer Resolver → Option (PendingContext Signer Resolver)
  context_for request options =
      resolve_dpop_context request config.signer config.dpop_resolver options.dpop
        options.require_dpop

  abbrev ttl_for : RequestOptions Signer Resolver → ℕ
  ttl_for options = elim options.ttl [ some t ↦ t | none ↦ config.default_ttl ]

module _ {Signer Resolver Answer : Type 0} where
  abbrev settle :
      ℕ → Settlement Answer → ClientCore Signer Resolver Answer → ClientCore Signer Resolver Answer
  settle promise s c = record c { settled = c.settled ++ (promise, s) ∷ [] }

  abbrev observe : Event → ClientCore Signer Resolver Answer → ClientCore Signer Resolver Answer
  observe e c = record c { events = c.events ++ e ∷ [] }

  -- zeroRequestBuffers(request): what is left of it in memory
  abbrev wipe :
      AdapterRequest → ClientCore Signer Resolver Answer → ClientCore Signer Resolver Answer
  wipe r c = record c { wiped = c.wiped ++ zero_request_buffers r ∷ [] }

  -- this.isIntegrityCompromised
  abbrev pub is_compromised : ClientCore Signer Resolver Answer → Bool
  is_compromised c = c.queue.client.is_integrity_compromised || c.queue.client.is_locked

  unfoldable pub reject_all :
      Pendings Signer Resolver
      → ClientCore Signer Resolver Answer
      → ClientCore Signer Resolver Answer
  reject_all [] c = c
  reject_all ((id, p) ∷ rest) c = reject_all rest (settle p.promise (rejected purged) c)

  unfoldable pub freeze : ClientCore Signer Resolver Answer → ClientCore Signer Resolver Answer
  freeze c = if c.is_frozen then c else observe session_freeze (record c { is_frozen = true })

  -- onExpiry
  unfoldable pub on_expiry :
      String → ClientCore Signer Resolver Answer → ClientCore Signer Resolver Answer
  on_expiry id c = elim (pending_of id c.pending) [
    | none ↦ c
    | some p ↦
        settle p.promise (rejected expired) (record c { pending = delete_pending id c.pending })
  ]

  -- The end of a replay: after the loop, and the `finally` block.
  unfoldable pub finish_replay :
      ClientCore Signer Resolver Answer → ClientCore Signer Resolver Answer
  finish_replay c =
      let idle = record c { is_processing_queue = false; replay = resting } in
      if c.is_frozen && size c.queue == 0
      then observe session_resume (record idle { is_frozen = false })
      else idle

  module _ (host : Host) where
    unfoldable pub purge_all : ClientCore Signer Resolver Answer → ClientCore Signer Resolver Answer
    unfolding reject_all
    purge_all c =
        let cleared = record c { queue = clear_all host c.queue } in
        observe session_purge
          (record (reject_all c.pending cleared) { pending = []; is_frozen = false })

    unfoldable pub enqueue_structured_request :
        String
        → ℕ
        → AdapterRequest
        → Option (PendingContext Signer Resolver)
        → ℕ
        → ClientCore Signer Resolver Answer
        → ClientCore Signer Resolver Answer
    enqueue_structured_request id promise request dpop ttl c =
        let frozen = freeze (wipe request c) in
        elim (enqueue host id (serialize_adapter_request request) ttl frozen.queue) [
          | passed q ↦ record frozen {
            queue = q;
            pending = set_pending id (record { promise = promise; dpop = dpop }) frozen.pending;
          }
          | ledger_locked ↦ settle promise (rejected integrity_breach) frozen
          | ledger_compromised ↦ settle promise (rejected integrity_breach) frozen
        ]

    -- The host fires the expiry timer `h`.
    unfoldable pub expire_request :
        ℕ → ClientCore Signer Resolver Answer → ClientCore Signer Resolver Answer
    expire_request h c = elim (fire host h c.queue) [
      | none ↦ c
      | some (id, fired) ↦ record (on_expiry id c) {
        queue = kept fired (active_zeroization host id fired);
      }
    ]

    -- The host fires the watchdog's timer.
    unfoldable pub watchdog_tick :
        ClientCore Signer Resolver Answer → ClientCore Signer Resolver Answer
    watchdog_tick c =
        let t = tick host c.queue in
        let ticked = record c { queue = t.1 } in
        if t.0
        then observe integrity_breached (record c { queue = suspend_and_freeze_ledger t.1 })
        else ticked

    module _ (config : ClientConfig Signer Resolver) where
      -- executeRequest, up to the question to the network resolver: whether it goes on.
      unfoldable pub begin_request :
          ℕ → ClientCore Signer Resolver Answer → Bool × ClientCore Signer Resolver Answer
      begin_request promise c =
          if is_compromised c
          then (false, settle promise (rejected integrity_breach) c)
          else if config.has_adapter
          then (true, c)
          else (false, settle promise (rejected no_adapter) c)

      -- From the resolver's answer to the dispatch: whether the request goes out, or is queued.
      unfoldable pub route_request :
          String
          → ℕ
          → AdapterRequest
          → RequestOptions Signer Resolver
          → Bool
          → ClientCore Signer Resolver Answer
          → Bool × ClientCore Signer Resolver Answer
      route_request id promise request options online c =
          if online && not c.is_processing_queue then (true, c) else (
            false,
            enqueue_structured_request id promise request (context_for config request options)
                (ttl_for config options) c,
          )

      -- From the adapter's answer, or an error of the proof or the adapter, to the end.
      unfoldable pub end_request :
          String
          → ℕ
          → AdapterRequest
          → RequestOptions Signer Resolver
          → Option Text
          → Reply Answer
          → ClientCore Signer Resolver Answer
          → ClientCore Signer Resolver Answer
      end_request id promise request options proof (answer a) c =
          let wiped = wipe request c in
          settle promise (resolved a)
            (elim proof [ none ↦ wiped | some p ↦ wipe (with_proof p request) wiped ])
      end_request id promise request options proof (failure e) c =
          if should_freeze_session e config.trapping
          then enqueue_structured_request id promise request (context_for config request options)
              (ttl_for config options) c
          else settle promise (rejected (adapter_error e)) (wipe request c)
