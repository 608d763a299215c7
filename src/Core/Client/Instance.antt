-- ===== src/Core/Client/Instance.antt =====
-- packages/ghost-ledger/src/core/client.ts: the constructor and the single instance, with those of
-- ledger/queue.ts. The bootstrap of the keys and the telemetry sync, which the constructor starts, are
-- in Proofs.antt and Telemetry.antt.
use vesper_platform.Base.{ℕ, ◌≡◌, refl, Bool, false, ◌||◌, Option, none, some, is_some}
use vesper_platform.Ledger.Queue.{MemoryQueue, new_queue, start_watchdog}
use vesper_platform.Ledger.Queue.Engine.{EngineState, configure_queue_engine}
use vesper_platform.Core.ErrorMatrix.{ErrorTrappingConfig, value_or, resolve_trapping_config}
use vesper_platform.Core.Client.{ClientConfig, ClientCore, new_client}
use vesper_platform.Core.Client.Proofs.{KeyConfig}
use vesper_platform.Core.Client.Telemetry.{TelemetryConfig, interval_of}
use vesper_platform.Dpop.Utils.{DpopAlgorithm}

-- What `getInstance` is given, of the members that the client's code reads.
pub record CoreConfig (Resolver : Type 0) : Type 0 where
  pub default_ttl : Option ℕ
  pub error_trapping : Option ErrorTrappingConfig
  pub has_adapter : Bool
  -- the algorithm and the resolver of `dpop`
  pub dpop : Option (Option DpopAlgorithm × Resolver)
  pub enable_auto_dpop : Option Bool
  pub dpop_algorithm : Option DpopAlgorithm
  pub mock : Option Bool
  pub telemetry : Option TelemetryConfig

-- A constructed client: its settings and state, whether it has begun to make its keys, and the delay
-- of its first telemetry run.
pub record Constructed (Signer Resolver Answer : Type 0) : Type 0 where
  pub settings : ClientConfig Signer Resolver
  pub keys : KeyConfig
  pub core : ClientCore Signer Resolver Answer
  pub is_bootstrapping : Bool
  pub first_sync : Option ℕ

-- The variables of the two modules and the two static fields.
pub record Instances (Signer Resolver Answer : Type 0) : Type 0 where
  pub engine : EngineState
  pub queue : Option MemoryQueue
  pub client : Option (Constructed Signer Resolver Answer)

-- GhostMemoryQueue.getInstance
unfoldable pub queue_instance : Option MemoryQueue → MemoryQueue
queue_instance none = new_queue
queue_instance (some q) = q

unfoldable pub settings_of :
    {Signer Resolver : Type 0} → CoreConfig Resolver → ClientConfig Signer Resolver
settings_of config = record {
  signer = none;
  dpop_resolver = elim config.dpop [ none ↦ none | some d ↦ some d.1 ];
  has_adapter = config.has_adapter;
  default_ttl = value_or config.default_ttl 900000;
  trapping = resolve_trapping_config config.error_trapping;
}

unfoldable pub keys_of : {Resolver : Type 0} → CoreConfig Resolver → KeyConfig
keys_of config = record {
  dpop = elim config.dpop [ none ↦ none | some d ↦ some d.0 ];
  enable_auto_dpop = value_or config.enable_auto_dpop false;
  dpop_algorithm = config.dpop_algorithm;
}

module _ {Signer Resolver Answer : Type 0} where
  unfoldable pub construct : CoreConfig Resolver → MemoryQueue → Constructed Signer Resolver Answer
  unfolding settings_of keys_of start_watchdog interval_of
  construct config queue =
      let keys = keys_of config in
      record {
        settings = settings_of config;
        keys = keys;
        core = record new_client { queue = start_watchdog queue };
        is_bootstrapping = is_some keys.dpop || keys.enable_auto_dpop;
        first_sync = elim config.telemetry [ none ↦ none | some t ↦ some (interval_of t) ];
      }

  unfoldable pub get_instance :
      CoreConfig Resolver
      → Instances Signer Resolver Answer
      → Constructed Signer Resolver Answer × Instances Signer Resolver Answer
  unfolding construct configure_queue_engine queue_instance
  get_instance config s = elim s.client [
    | some c ↦ (c, s)
    | none ↦
        let queue = queue_instance s.queue in
        let c = construct config queue in
        (
          c,
          record {
            engine = configure_queue_engine (value_or config.mock false) s.engine;
            queue = some c.core.queue;
            client = some c;
          },
        )
  ]

  get_instance-again_from :
      (first later : CoreConfig Resolver) (e : EngineState) (q : Option MemoryQueue)
      (c : Option (Constructed Signer Resolver Answer))
      → get_instance later (get_instance first (record { engine = e; queue = q; client = c })).1
        ≡ get_instance first (record { engine = e; queue = q; client = c })
  unfolding get_instance
  get_instance-again_from first later e q none = refl
  get_instance-again_from first later e q (some c) = refl

  -- A process has one client: the configuration of a later call is not looked at, and changes nothing.
  get_instance-again :
      (first later : CoreConfig Resolver) (s : Instances Signer Resolver Answer)
      → get_instance later (get_instance first s).1 ≡ get_instance first s
  get_instance-again first later s = get_instance-again_from first later s.engine s.queue s.client

  -- The client of a fresh process starts as `new_client`.
  get_instance-new_client :
      (config : CoreConfig Resolver) (e : EngineState)
      → (get_instance config (record { engine = e; queue = none; client = none })).0.core
        ≡ new_client
  unfolding get_instance
  get_instance-new_client config e = refl
