-- ===== src/Core/Client/Telemetry.antt =====
-- packages/ghost-ledger/src/core/client.ts: `startTelemetrySync`, and the snapshot that it takes off
-- the queue. Each run of `sync` is cut before its fetch, whose outcome changes nothing in the client.
use vesper_platform.Base.{ℕ, Option, none, some, [], ◌∷◌, ltb, if◌then◌else◌, length, Bytes}
use vesper_platform.Binary.Utf8.{Text}
use vesper_platform.Ledger.Fallback.{get_telemetry_snapshot}
use vesper_platform.Ledger.Queue.{MemoryQueue}
use vesper_platform.Core.Client.{ClientCore}

pub record TelemetryConfig : Type 0 where
  pub api_key : Text
  pub bundle_id : Text
  pub endpoint : Option Text
  pub sync_interval_ms : Option ℕ

-- What is posted: the endpoint, the two header values and the body.
pub record TelemetryPost : Type 0 where
  pub endpoint : Text
  pub api_key : Text
  pub bundle_id : Text
  pub body : Bytes

-- getTelemetrySnapshot of the queue
unfoldable pub take_snapshot : MemoryQueue → Bytes × MemoryQueue
take_snapshot q = let r = get_telemetry_snapshot q.client in (r.0, record q { client = r.1 })

-- "http://127.0.0.1:8081/api/v1/support/telemetry"
abbrev default_endpoint : Text
default_endpoint =
    b'h' ∷ b't' ∷ b't' ∷ b'p' ∷ b':' ∷ b'/' ∷ b'/' ∷ b'1' ∷ b'2' ∷ b'7' ∷ b'.' ∷ b'0' ∷ b'.' ∷ b'0'
    ∷ b'.' ∷ b'1' ∷ b':' ∷ b'8' ∷ b'0' ∷ b'8' ∷ b'1' ∷ b'/' ∷ b'a' ∷ b'p' ∷ b'i' ∷ b'/' ∷ b'v'
    ∷ b'1' ∷ b'/' ∷ b's' ∷ b'u' ∷ b'p' ∷ b'p' ∷ b'o' ∷ b'r' ∷ b't' ∷ b'/' ∷ b't' ∷ b'e' ∷ b'l'
    ∷ b'e' ∷ b'm' ∷ b'e' ∷ b't' ∷ b'r' ∷ b'y' ∷ []

unfoldable pub endpoint_of : TelemetryConfig → Text
endpoint_of config = elim config.endpoint [ some e ↦ e | none ↦ default_endpoint ]

unfoldable pub interval_of : TelemetryConfig → ℕ
interval_of config = elim config.sync_interval_ms [ some ms ↦ ms | none ↦ 15000 ]

module _ {Signer Resolver Answer : Type 0} where
  -- One run: the post, if there are any events, and the delay of the next run.
  unfoldable pub sync :
      TelemetryConfig
      → ClientCore Signer Resolver Answer
      → (Option TelemetryPost × ℕ) × ClientCore Signer Resolver Answer
  unfolding take_snapshot endpoint_of interval_of
  sync config c =
      let r = take_snapshot c.queue in
      (
        (
          if ltb 0 (length r.0)
              then some (record {
                endpoint = endpoint_of config;
                api_key = config.api_key;
                bundle_id = config.bundle_id;
                body = r.0;
              })
              else none,
          interval_of config,
        ),
        record c { queue = r.1 },
      )
