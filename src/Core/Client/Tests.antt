-- ===== src/Core/Client/Tests.antt =====
-- Runs of the client, and its theorems at concrete inputs.
use vesper_platform.Base.{ℕ, ◌≡◌, refl, true, false, none, some, List, [], ◌∷◌, length}
use vesper_platform.Binary.Utf8.{encode_text, decode_text}
use vesper_platform.Binary.Wire.{
  AdapterRequest, header_bytes, body_bytes, timeout_or_zero, write_segment, read_segment,
  read_request, or_range_error, serialize_adapter_request, deserialize_adapter_request, Received,
}
use vesper_platform.Core.Client.Bootstrap.{
  BootStep, called, created, AreCurrent, new_boot, boot_run, boot_run-AreCurrent, begin_bootstrap,
  end_bootstrap,
}
use vesper_platform.Ledger.Fallback.View.{entries_of}
use vesper_platform.Ledger.Queue.Timed.{IsTimed}
use vesper_platform.Ledger.Queue.Tests.{queue}
use vesper_platform.Ledger.Tests.{host}
use vesper_platform.Core.ErrorMatrix.{resolve_trapping_config}
use vesper_platform.Core.Context.{resolve_dpop_context, context_of}
use vesper_platform.Core.Client.{
  ClientConfig, RequestOptions, ClientCore, new_client, pending_of, set_pending, freeze,
  enqueue_structured_request, route_request,
}
use vesper_platform.Core.Client.Processing.{begin_replay, after_handshake}
use vesper_platform.Core.Client.Owned.{AreOwned}
use vesper_platform.Core.Client.Replayed.{IsReplayed, replay_all, after_handshake-IsReplayed}
use vesper_platform.Core.Client.Online.{enqueue_structured_request-online}
use vesper_platform.Ledger.Queue.{get_payload}
use vesper_platform.Core.Client.Purge.{IsPurged, after_handshake-IsPurged}
use vesper_platform.Core.Client.Steps.{
  ClientCall, request, start_replay, simulate_network, client_run, client_run-IsTimed,
}

abbrev pub config : ClientConfig ℕ ℕ
config = record {
  signer = none;
  dpop_resolver = none;
  has_adapter = true;
  default_ttl = 900_000;
  trapping = resolve_trapping_config none;
}

abbrev plain : RequestOptions ℕ ℕ
plain = record { dpop = none; ttl = none; require_dpop = false }

abbrev get : ℕ → AdapterRequest
get path = record {
  method = b'G' ∷ [];
  url = b'/' ∷ path ∷ [];
  encoded_headers = none;
  headers = none;
  body = none;
  timeout_ms = none;
}

abbrev seen : ℕ → Received
seen path = record {
  method = b'G' ∷ [];
  url = b'/' ∷ path ∷ [];
  encoded_headers = [];
  body = none;
  timeout_ms = none;
}

-- Two requests while offline, then a replay up to its handshake.
abbrev calls : List (ClientCall ℕ ℕ ℕ)
calls =
    simulate_network false
    ∷ request "first" 1 (get b'a') plain false
    ∷ request "second" 2 (get b'b') plain false
    ∷ start_replay
    ∷ []

abbrev waiting_client : ClientCore ℕ ℕ ℕ
waiting_client = client_run host config new_client calls

client : Unit {0}
unfolding queue resolve_dpop_context context_of client_run route_request begin_replay
    enqueue_structured_request freeze set_pending pending_of serialize_adapter_request
    deserialize_adapter_request read_request read_segment write_segment header_bytes body_bytes
    timeout_or_zero encode_text decode_text or_range_error
client = tt

client_run-IsTimed_example : IsTimed waiting_client.queue
client_run-IsTimed_example = client_run-IsTimed host config calls

timed : IsTimed waiting_client.queue
timed = client_run-IsTimed host config calls

owned : AreOwned waiting_client.pending (entries_of waiting_client.queue.client.queue) (1 ∷ 2 ∷ [])
unfolding client
owned = (
  record { promise = 1; dpop = none },
  2 ∷ [],
  seen b'a',
  refl,
  refl,
  refl,
  (record { promise = 2; dpop = none }, [], seen b'b', refl, refl, refl, refl),
)

two_queued : length {A = ℕ} (7 ∷ 8 ∷ []) ≡ length (entries_of waiting_client.queue.client.queue)
unfolding client
two_queued = refl

after_handshake-IsReplayed_example :
    IsReplayed host config waiting_client.settled
      (1 ∷ 2 ∷ [])
      (7 ∷ 8 ∷ [])
      (replay_all host config (7 ∷ 8 ∷ []) (after_handshake host config true waiting_client))
after_handshake-IsReplayed_example =
    after_handshake-IsReplayed host config (1 ∷ 2 ∷ []) (7 ∷ 8 ∷ []) waiting_client refl timed owned
      two_queued

after_handshake-IsPurged_example :
    IsPurged waiting_client (after_handshake host config false waiting_client)
after_handshake-IsPurged_example = after_handshake-IsPurged host config waiting_client timed

pub new_client-IsTimed : IsTimed (new_client {Signer = ℕ} {Resolver = ℕ} {Answer = ℕ}).queue
unfolding client_run
new_client-IsTimed = client_run-IsTimed {Answer = ℕ} host config []

enqueue_structured_request-online_example :
    let t =
      enqueue_structured_request {Signer = ℕ} {Resolver = ℕ} {Answer = ℕ} host "late" 3
        (get b'c')
        none
        60
        new_client in
    (pending_of "late" t.pending ≡ some (record { promise = 3; dpop = none }))
    × (get_payload "late" t.queue ≡ none)
enqueue_structured_request-online_example =
    enqueue_structured_request-online host "late" 3 (get b'c') none 60 new_client new_client-IsTimed
      refl

-- One call makes its signer, and a second one is answered from it.
abbrev serial_calls : List (BootStep ℕ)
serial_calls = called ∷ created 5 ∷ called ∷ []

boot_run-AreCurrent_example :
    let b = boot_run (λ n. n) true (new_boot (λ n. n) true) serial_calls in
    AreCurrent (λ n. n) true b.dpop_signer b.given
boot_run-AreCurrent_example =
    boot_run-AreCurrent (λ n. n) true serial_calls
      (unfold boot_run begin_bootstrap end_bootstrap in (refl, (refl, tt)))

abbrev crossing_calls : List (BootStep ℕ)
crossing_calls = called ∷ called ∷ created 5 ∷ created 6 ∷ []

-- Two calls that wait together answer two keys, of which the client keeps the last.
overlapping_calls :
    boot_run (λ n. n) true (new_boot (λ n. n) true) crossing_calls
    ≡ record { dpop_signer = some 6; waiting = 0; given = 5 ∷ 6 ∷ [] }
unfolding boot_run begin_bootstrap end_bootstrap
overlapping_calls = refl
