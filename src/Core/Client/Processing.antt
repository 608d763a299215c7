-- ===== src/Core/Client/Processing.antt =====
-- packages/ghost-ledger/src/core/client.ts: `processSynchronizedQueue`, cut at its awaits. Left out
-- are the proof that a replayed request is given, and the context it is detected to need.
use vesper_platform.Base.{
  String, Bool, true, false, ◌||◌, not, none, some, List, [], ◌∷◌, if◌then◌else◌, Bytes,
}
use vesper_platform.Binary.Wire.{null, range_error, received, deserialize_adapter_request}
use vesper_platform.Ledger.Fallback.{Host}
use vesper_platform.Ledger.Queue.{
  passed, ledger_locked, ledger_compromised, dequeue, get_execution_order, get_payload,
  verify_ledger_integrity, suspend_and_freeze_ledger,
}
use vesper_platform.Core.Client.{
  integrity_breach, zeroized_before_replay, unreadable, adapter_error, resolved, rejected, Reply,
  answer, failure, integrity_breached, Started, refused, already_running, started, Pending, resting,
  shaking_hands, replaying, waiting, ClientConfig, ClientCore, pending_of, delete_pending, settle,
  observe, is_compromised, finish_replay, purge_all,
}

module _ {Signer Resolver Answer : Type 0} (host : Host)
    (config : ClientConfig Signer Resolver) where
  -- processSynchronizedQueue, up to the handshake: whether the replay goes on.
  unfoldable pub begin_replay :
      ClientCore Signer Resolver Answer → Started × ClientCore Signer Resolver Answer
  begin_replay c =
      if is_compromised c
      then (refused, c)
      else if c.is_processing_queue
      then (already_running, c)
      else (started, record c { is_processing_queue = true; replay = shaking_hands })

  -- From the handshake's answer to the order of execution.
  unfoldable pub after_handshake :
      Bool → ClientCore Signer Resolver Answer → ClientCore Signer Resolver Answer
  after_handshake legitimate c =
      let v = verify_ledger_integrity host c.queue in
      if not legitimate
      then record (purge_all host c) { is_processing_queue = false; replay = resting }
      else if not v.0 || v.1.client.is_integrity_compromised
      then observe integrity_breached (record c {
        queue = suspend_and_freeze_ledger v.1;
        is_processing_queue = false;
        replay = resting;
      })
      else record c { queue = v.1; replay = replaying (get_execution_order v.1) }

  -- A block whose request nobody waits for, or that cannot be sent, is dropped. An error of
  -- `dequeue` ends the replay.
  unfoldable pub drop_unowned :
      String → List String → ClientCore Signer Resolver Answer → ClientCore Signer Resolver Answer
  drop_unowned id rest c = elim (dequeue host id c.queue) [
    | passed q ↦ record c {
      queue = q;
      pending = delete_pending id c.pending;
      replay = replaying rest;
    }
    | ledger_locked ↦ record c { is_processing_queue = false; replay = resting }
    | ledger_compromised ↦ record c { is_processing_queue = false; replay = resting }
  ]

  -- A request whose block was zeroed: its promise is rejected, its block dropped.
  unfoldable pub drop_zeroized :
      String
      → Pending Signer Resolver
      → List String
      → ClientCore Signer Resolver Answer
      → ClientCore Signer Resolver Answer
  drop_zeroized id p rest c =
      let told =
        settle p.promise (rejected zeroized_before_replay)
          (record c { pending = delete_pending id c.pending }) in
      elim (dequeue host id told.queue) [
        | passed q ↦ record told { queue = q; replay = replaying rest }
        | ledger_locked ↦ finish_replay told
        | ledger_compromised ↦ finish_replay told
      ]

  -- A request with its owner: it is dispatched, and the replay waits for its answer.
  unfoldable pub dispatch_owned :
      String
      → Bytes
      → Pending Signer Resolver
      → List String
      → ClientCore Signer Resolver Answer
      → ClientCore Signer Resolver Answer
  dispatch_owned id payload p rest c = elim (deserialize_adapter_request payload) [
    | null ↦ drop_zeroized id p rest c
    | range_error ↦ finish_replay (settle p.promise (rejected unreadable) c)
    | received r ↦ record c { replay = waiting id p rest }
  ]

  unfoldable pub replay_id :
      String → List String → ClientCore Signer Resolver Answer → ClientCore Signer Resolver Answer
  replay_id id rest c = elim (get_payload id c.queue) [
    | none ↦ record c { replay = replaying rest }
    | some payload ↦ elim (pending_of id c.pending) [
      | none ↦ drop_unowned id rest c
      | some p ↦
          if config.has_adapter then dispatch_owned id payload p rest c else drop_unowned id rest c
    ]
  ]

  -- One round of the loop of the replay, up to the dispatch of a request.
  unfoldable pub replay_next : ClientCore Signer Resolver Answer → ClientCore Signer Resolver Answer
  replay_next c = elim c.replay [
    | resting ↦ c
    | shaking_hands ↦ c
    | replaying ids ↦ elim ids [ [] ↦ finish_replay c | id ∷ rest ↦ replay_id id rest c ]
    | waiting id p rest ↦ c
  ]

  -- The rest of the round: an answer resolves the promise, an error ends the replay with the
  -- block still in the queue.
  unfoldable pub replay_answer :
      String
      → Pending Signer Resolver
      → List String
      → Reply Answer
      → ClientCore Signer Resolver Answer
      → ClientCore Signer Resolver Answer
  replay_answer id p rest (answer a) c = elim (dequeue host id c.queue) [
    | passed q ↦
        settle p.promise (resolved a)
          (record c { queue = q; pending = delete_pending id c.pending; replay = replaying rest })
    | ledger_locked ↦ finish_replay (settle p.promise (rejected integrity_breach) c)
    | ledger_compromised ↦ finish_replay (settle p.promise (rejected integrity_breach) c)
  ]
  replay_answer id p rest (failure e) c =
      finish_replay (settle p.promise (rejected (adapter_error e)) c)

  unfoldable pub replay_reply :
      Reply Answer → ClientCore Signer Resolver Answer → ClientCore Signer Resolver Answer
  replay_reply reply c = elim c.replay [
    | resting ↦ c
    | shaking_hands ↦ c
    | replaying ids ↦ c
    | waiting id p rest ↦ replay_answer id p rest reply c
  ]
