-- ===== src/Core/Client/Steps.antt =====
-- Calls, answers and timers of the client in any order.
use vesper_platform.Base.{
  ℕ, String, Bool, Option, none, some, List, [], ◌∷◌, ◌&&◌, not, if◌then◌else◌, if_cases,
}
use vesper_platform.Binary.Utf8.{Text}
use vesper_platform.Binary.Wire.{AdapterRequest}
use vesper_platform.Ledger.Fallback.{Host}
use vesper_platform.Ledger.Queue.{new_queue, start_watchdog, toggle_queue_network}
use vesper_platform.Ledger.Queue.Timed.{IsTimed}
use vesper_platform.Ledger.Queue.Steps.{
  network, queue_step, queue_step-IsTimed, watch, queue_run, queue_run-IsTimed,
}
use vesper_platform.Core.ErrorMatrix.{should_freeze_session}
use vesper_platform.Core.Client.{
  Started, Reply, answer, failure, Replay, resting, shaking_hands, replaying, waiting, ClientConfig,
  RequestOptions, ClientCore, new_client, is_compromised, purge_all, expire_request, watchdog_tick,
  begin_request, route_request, end_request,
}
use vesper_platform.Core.Client.Processing.{
  begin_replay, after_handshake, replay_next, replay_reply,
}
use vesper_platform.Core.Client.Kept.{
  enqueue_structured_request-IsTimed, replay_next-IsTimed, replay_reply-IsTimed, purge_all-IsTimed,
  after_handshake-IsTimed, expire_request-IsTimed, watchdog_tick-IsTimed,
}

pub data ClientCall (Signer Resolver Answer : Type 0) : Type 0 where
  -- the guards of executeRequest
  attempt : ℕ → ClientCall Signer Resolver Answer
  -- a call of executeRequest, once the resolver has told whether the network is there
  request :
      String
      → ℕ
      → AdapterRequest
      → RequestOptions Signer Resolver
      → Bool
      → ClientCall Signer Resolver Answer
  -- the adapter's answer to a request that went out
  response :
      String
      → ℕ
      → AdapterRequest
      → RequestOptions Signer Resolver
      → Option Text
      → Reply Answer
      → ClientCall Signer Resolver Answer
  start_replay : ClientCall Signer Resolver Answer
  handshake : Bool → ClientCall Signer Resolver Answer
  next_round : ClientCall Signer Resolver Answer
  replay_response : Reply Answer → ClientCall Signer Resolver Answer
  expiry_timer : ℕ → ClientCall Signer Resolver Answer
  watchdog_timer : ClientCall Signer Resolver Answer
  purge : ClientCall Signer Resolver Answer
  simulate_network : Bool → ClientCall Signer Resolver Answer

module _ {Signer Resolver Answer : Type 0} (host : Host)
    (config : ClientConfig Signer Resolver) where
  unfoldable pub client_step :
      ClientCore Signer Resolver Answer
      → ClientCall Signer Resolver Answer
      → ClientCore Signer Resolver Answer
  client_step c (attempt promise) = (begin_request host config promise c).1
  client_step c (request id promise r options online) =
      (route_request host config id promise r options online c).1
  client_step c (response id promise r options proof reply) =
      end_request host config id promise r options proof reply c
  client_step c start_replay = (begin_replay host config c).1
  client_step c (handshake legitimate) = elim c.replay [
    | resting ↦ c
    | shaking_hands ↦ after_handshake host config legitimate c
    | replaying ids ↦ c
    | waiting id p rest ↦ c
  ]
  client_step c next_round = replay_next host config c
  client_step c (replay_response reply) = replay_reply host config reply c
  client_step c (expiry_timer h) = expire_request host h c
  client_step c watchdog_timer = if c.queue.tick_pending then watchdog_tick host c else c
  client_step c purge = purge_all host c
  client_step c (simulate_network online) = record c { queue = toggle_queue_network online c.queue }

  unfoldable pub client_run :
      ClientCore Signer Resolver Answer
      → List (ClientCall Signer Resolver Answer)
      → ClientCore Signer Resolver Answer
  unfolding client_step
  client_run c [] = c
  client_run c (call ∷ calls) = client_run (client_step c call) calls

  handshake-IsTimed :
      (legitimate : Bool) (c : ClientCore Signer Resolver Answer)
      → IsTimed c.queue
      → IsTimed (client_step c (handshake legitimate)).queue
  unfolding client_step
  handshake-IsTimed legitimate c h = by_phase c.replay
    where
      by_phase :
          (r : Replay Signer Resolver)
          → IsTimed
              (elim r as (λ z. ClientCore Signer Resolver Answer) [
                | resting ↦ c
                | shaking_hands ↦ after_handshake host config legitimate c
                | replaying ids ↦ c
                | waiting id p rest ↦ c
              ]).queue
      by_phase resting = h
      by_phase shaking_hands = after_handshake-IsTimed host config legitimate c h
      by_phase (replaying ids) = h
      by_phase (waiting id p rest) = h

  client_step-IsTimed :
      (c : ClientCore Signer Resolver Answer) (call : ClientCall Signer Resolver Answer)
      → IsTimed c.queue
      → IsTimed (client_step c call).queue
  unfolding client_step begin_request route_request end_request begin_replay queue_step
  client_step-IsTimed c (attempt promise) h =
      if_cases (λ (t : Bool × ClientCore Signer Resolver Answer). IsTimed t.1.queue)
        (is_compromised c) _ _ (λ e. h)
        (λ e.
          if_cases (λ (t : Bool × ClientCore Signer Resolver Answer). IsTimed t.1.queue)
            config.has_adapter _ _ (λ d. h) (λ d. h))
  client_step-IsTimed c (request id promise r options online) h =
      if_cases (λ (t : Bool × ClientCore Signer Resolver Answer). IsTimed t.1.queue)
        (online && not c.is_processing_queue) _ _ (λ e. h)
        (λ e. enqueue_structured_request-IsTimed host config id promise r _ _ c h)
  client_step-IsTimed c (response id promise r options none (answer a)) h = h
  client_step-IsTimed c (response id promise r options (some p) (answer a)) h = h
  client_step-IsTimed c (response id promise r options proof (failure e)) h =
      if_cases (λ (t : ClientCore Signer Resolver Answer). IsTimed t.queue)
        (should_freeze_session e config.trapping) _ _
        (λ z. enqueue_structured_request-IsTimed host config id promise r _ _ c h) (λ z. h)
  client_step-IsTimed c start_replay h =
      if_cases (λ (t : Started × ClientCore Signer Resolver Answer). IsTimed t.1.queue)
        (is_compromised c) _ _ (λ e. h)
        (λ e.
          if_cases (λ (t : Started × ClientCore Signer Resolver Answer). IsTimed t.1.queue)
            c.is_processing_queue _ _ (λ d. h) (λ d. h))
  client_step-IsTimed c (handshake legitimate) h = handshake-IsTimed legitimate c h
  client_step-IsTimed c next_round h = replay_next-IsTimed host config c h
  client_step-IsTimed c (replay_response reply) h = replay_reply-IsTimed host config reply c h
  client_step-IsTimed c (expiry_timer n) h = expire_request-IsTimed host config n c h
  client_step-IsTimed c watchdog_timer h =
      if_cases (λ (t : ClientCore Signer Resolver Answer). IsTimed t.queue) c.queue.tick_pending _ _
        (watchdog_tick-IsTimed host config c h) (λ e. h)
  client_step-IsTimed c purge h = purge_all-IsTimed host config c h
  client_step-IsTimed c (simulate_network o) h = queue_step-IsTimed host c.queue (network o) h

  client_run-from :
      (c : ClientCore Signer Resolver Answer) (calls : List (ClientCall Signer Resolver Answer))
      → IsTimed c.queue
      → IsTimed (client_run c calls).queue
  unfolding client_run
  client_run-from c [] h = h
  client_run-from c (call ∷ calls) h =
      client_run-from (client_step c call) calls (client_step-IsTimed c call h)

  -- After any sequence of requests, answers, replays, handshakes, expiries and watchdog ticks on a
  -- new client, in any order, the ledger is sound, and every request in it has a timer that the host
  -- still holds and that will erase it.
  pub client_run-IsTimed :
      (calls : List (ClientCall Signer Resolver Answer))
      → IsTimed (client_run new_client calls).queue
  unfolding queue_step start_watchdog queue_run
  client_run-IsTimed calls =
      client_run-from new_client calls
        (queue_step-IsTimed host new_queue watch (queue_run-IsTimed host []).0)
