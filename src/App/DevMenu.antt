-- ===== src/App/DevMenu.antt =====
-- examples/demo-mobile/src/features/dev-menu/hooks/useDevMenu.ts, over the client and its memory queue.
-- The ids that the hook makes from the clock, and what the ingestion service answers, are arguments.
pub mod Resident
use vesper_platform.Base.{
  ℕ, ◌/◌, ◌+◌, String, Bool, true, false, Option, none, some, List, [], ◌∷◌, ◌++◌, ◌==◌,
  if◌then◌else◌, length, Bytes,
}
use vesper_platform.App.Words.{
  text_simulated, text_label, text_ts, text_simulated_path, text_content_type, text_json,
}
use vesper_platform.Binary.Utf8.{Text}
use vesper_platform.Binary.Json.{
  Json, string, number, boolean, object, empty, member, encode_json_body,
}
use vesper_platform.Binary.Wire.{AdapterRequest, serialize_adapter_request}
use vesper_platform.Ledger.Fallback.{Host, get_queue_status}
use vesper_platform.Ledger.Queue.{
  MemoryQueue, Checked, passed, ledger_locked, ledger_compromised, kept, size, enqueue, dequeue,
  toggle_queue_network,
}
use vesper_platform.Core.Context.{trim_start, trim_end, non_empty}
use vesper_platform.Core.Client.{ClientConfig, ClientCore, Started, purge_all}
use vesper_platform.Core.Client.Processing.{begin_replay}
use vesper_platform.Core.Client.Telemetry.{take_snapshot}
use vesper_platform.Adapters.Outcome.{is_ok}

abbrev text_post : Text
text_post = b'P' ∷ b'O' ∷ b'S' ∷ b'T' ∷ []

pub record DevMenuStatus : Type 0 where
  pub queue_size : ℕ
  pub is_locked : Bool
  pub is_integrity_compromised : Bool

-- The message of a flush.
pub data FlushMessage : Type 0 where
  no_events : FlushMessage
  no_api_key : FlushMessage
  sent_events : ℕ → FlushMessage
  responded_with : ℕ → FlushMessage
  raised : Text → FlushMessage

pub record FlushResult : Type 0 where
  pub success : Bool
  pub event_count : ℕ
  pub message : FlushMessage

-- What the post of a snapshot comes to: a status, or an error with its message.
pub data Ingestion : Type 0 where
  status : ℕ → Ingestion
  unreachable : Text → Ingestion

-- The hook's state and the client that it drives.
pub record DevMenu (Signer Resolver Answer : Type 0) : Type 0 where
  pub client : ClientCore Signer Resolver Answer
  pub status : DevMenuStatus
  pub is_simulated_offline : Bool
  pub is_busy : Bool
  pub last_flush_result : Option FlushResult
  pub last_enqueued_id : Option String
  pub custom_api_key : Text
  pub custom_bundle_id : Text

unfoldable pub build_simulated_request : Text → Text → ℕ → AdapterRequest
build_simulated_request api_url label ts = record {
  method = text_post;
  url = api_url ++ text_simulated_path;
  encoded_headers = none;
  headers = some ((text_content_type, text_json) ∷ []);
  body = some (
      encode_json_body (
        object (
          member text_simulated (boolean true)
            (member text_label (string label) (member text_ts (number ts) empty)))));
  timeout_ms = none;
}

-- custom.trim() || configured
unfoldable pub chosen : Text → Option Text → Option Text
chosen custom configured = elim (non_empty (some (trim_end (trim_start custom)))) [
  | some t ↦ some t
  | none ↦ non_empty configured
]

-- After the post of `count` events.
unfoldable pub flush_outcome : ℕ → Ingestion → FlushResult
flush_outcome count (status s) =
    if is_ok s
    then record { success = true; event_count = count; message = sent_events count }
    else record { success = false; event_count = count; message = responded_with s }
flush_outcome count (unreachable message) = record {
  success = false;
  event_count = count;
  message = raised message;
}

module _ {Signer Resolver Answer : Type 0} where
  abbrev pub queue_of : DevMenu Signer Resolver Answer → MemoryQueue
  queue_of m = m.client.queue

  abbrev pub with_queue :
      MemoryQueue → DevMenu Signer Resolver Answer → DevMenu Signer Resolver Answer
  with_queue q m = record m { client = record m.client { queue = q } }

  unfoldable pub refresh_status : DevMenu Signer Resolver Answer → DevMenu Signer Resolver Answer
  refresh_status m =
      let s = get_queue_status m.client.queue.client in
      record m {
        status = record {
          queue_size = s.size;
          is_locked = s.is_locked;
          is_integrity_compromised = s.is_integrity_compromised;
        };
      }

  -- queue.toggleNetworkSim(online) and setIsSimulatedOffline
  abbrev pub go_network :
      Bool → Bool → DevMenu Signer Resolver Answer → DevMenu Signer Resolver Answer
  go_network online offline m = record (with_queue (toggle_queue_network online m.client.queue) m) {
    is_simulated_offline = offline;
  }

  unfoldable pub simulate_offline : DevMenu Signer Resolver Answer → DevMenu Signer Resolver Answer
  unfolding refresh_status
  simulate_offline m = refresh_status (go_network false true m)

  -- What is left to do when a handler ends.
  abbrev pub done_busy : DevMenu Signer Resolver Answer → DevMenu Signer Resolver Answer
  done_busy m = record m { is_busy = false }

  -- flushTelemetryNow, with the configured key and bundle id, and the answer to the post.
  unfoldable pub flush_telemetry_now :
      Option Text
      → (Text → Option Text → Bytes → Ingestion)
      → Option Text
      → DevMenu Signer Resolver Answer
      → FlushResult × DevMenu Signer Resolver Answer
  unfolding flush_outcome chosen
  flush_telemetry_now api_key post bundle_id m =
      let snapshot = take_snapshot m.client.queue in
      let count = length snapshot.0 / 17 in
      let taken = with_queue snapshot.1 m in
      let result : FlushResult =
        if count == 0
        then record { success = false; event_count = 0; message = no_events }
        else elim (chosen m.custom_api_key api_key) [
          | none ↦ record { success = false; event_count = count; message = no_api_key }
          | some key ↦
              flush_outcome count (post key (chosen m.custom_bundle_id bundle_id) snapshot.0)
        ] in
      (result, record taken { last_flush_result = some result })

  -- The rest of the two handlers, from what the queue did.
  unfoldable pub after_test_enqueue :
      String → DevMenu Signer Resolver Answer → Checked MemoryQueue → DevMenu Signer Resolver Answer
  unfolding refresh_status
  after_test_enqueue id m (passed q) =
      refresh_status (record (with_queue q m) { last_enqueued_id = some id })
  after_test_enqueue id m ledger_locked = m
  after_test_enqueue id m ledger_compromised = m

  unfoldable pub after_test_dequeue :
      DevMenu Signer Resolver Answer → Checked MemoryQueue → DevMenu Signer Resolver Answer
  unfolding refresh_status
  after_test_dequeue m (passed q) =
      refresh_status (record (with_queue q m) { last_enqueued_id = none })
  after_test_dequeue m ledger_locked = m
  after_test_dequeue m ledger_compromised = m

  module _ (host : Host) where
    -- stopOperation
    unfoldable pub stop_operation : DevMenu Signer Resolver Answer → DevMenu Signer Resolver Answer
    unfolding refresh_status
    stop_operation m =
        refresh_status (go_network false true (record m { client = purge_all host m.client }))

    -- simulateOnline, up to the first await of the replay, and its `finally` block.
    unfoldable pub simulate_online :
        ClientConfig Signer Resolver
        → DevMenu Signer Resolver Answer
        → Started × DevMenu Signer Resolver Answer
    simulate_online config m =
        let ready = go_network true false (record m { is_busy = true }) in
        let r = begin_replay host config ready.client in (r.0, record ready { client = r.1 })

    unfoldable pub simulate_online_end :
        DevMenu Signer Resolver Answer → DevMenu Signer Resolver Answer
    unfolding refresh_status
    simulate_online_end m = done_busy (refresh_status m)

    -- enqueueTestPayload, for the id and the time of the clock. A queue that throws ends the handler.
    unfoldable pub enqueue_test_payload :
        String → AdapterRequest → DevMenu Signer Resolver Answer → DevMenu Signer Resolver Answer
    unfolding after_test_enqueue
    enqueue_test_payload id request m =
        let offline = go_network false true (record m { is_busy = true }) in
        done_busy (
          after_test_enqueue id offline
            (enqueue host id (serialize_adapter_request request) 60000 offline.client.queue))

    unfoldable pub dequeue_test_payload :
        DevMenu Signer Resolver Answer → DevMenu Signer Resolver Answer
    unfolding after_test_dequeue
    dequeue_test_payload m = elim m.last_enqueued_id [
      | none ↦ m
      | some id ↦ done_busy (after_test_dequeue m (dequeue host id m.client.queue))
    ]

    -- simulateE2EEvent: the flush is reached where neither call of the queue throws.
    unfoldable pub simulate_e2e_event :
        Option Text
        → (Text → Option Text → Bytes → Ingestion)
        → Option Text
        → String
        → AdapterRequest
        → DevMenu Signer Resolver Answer
        → Option FlushResult × DevMenu Signer Resolver Answer
    unfolding refresh_status flush_telemetry_now
    simulate_e2e_event api_key post bundle_id id request m =
        let offline = go_network false true (record m { is_busy = true }) in
        elim (enqueue host id (serialize_adapter_request request) 60000 offline.client.queue) [
          | ledger_locked ↦ (none, done_busy offline)
          | ledger_compromised ↦ (none, done_busy offline)
          | passed q ↦ elim (dequeue host id q) [
            | ledger_locked ↦ (none, done_busy (refresh_status (with_queue q offline)))
            | ledger_compromised ↦ (none, done_busy (refresh_status (with_queue q offline)))
            | passed t ↦
                let r =
                  flush_telemetry_now api_key post bundle_id
                    (refresh_status (with_queue t offline)) in
                (some r.0, done_busy r.1)
          ]
        ]
