-- ===== src/Ledger/Queue/Engine.antt =====
-- packages/ghost-ledger/src/ledger/queue.ts: which native client the queue runs on. What the runtime
-- offers is an argument.
use vesper_platform.Base.{Bool, true, ◌||◌, Option, none, some, if◌then◌else◌}

pub data Engine : Type 0 where
  -- GhostSecureClientFallback
  fallback : Engine
  -- the hybrid object of react-native-nitro-modules
  hybrid_object : Engine
  -- GhostSecureClient.node
  node_addon : Engine

-- globalThis.__GHOST_MOCK__ === true, HermesInternal, and which of the two modules can be loaded.
pub record Runtime : Type 0 where
  pub is_mock : Bool
  pub is_hermes : Bool
  pub has_nitro : Bool
  pub has_addon : Bool

-- The two variables of the module.
pub record EngineState : Type 0 where
  pub native_client : Option Engine
  pub forced_mock : Bool

unfoldable pub configure_queue_engine : Bool → EngineState → EngineState
configure_queue_engine mock s =
    if mock then record { native_client = some fallback; forced_mock = true } else s

abbrev loaded : Bool → Engine → Engine
loaded is_there engine = if is_there then engine else fallback

unfoldable pub choose_engine : Bool → Runtime → Engine
choose_engine forced_mock r =
    if forced_mock || r.is_mock
    then fallback
    else if r.is_hermes
    then loaded r.has_nitro hybrid_object
    else loaded r.has_addon node_addon

unfoldable pub get_native_client : Runtime → EngineState → Engine × EngineState
unfolding choose_engine
get_native_client r s = elim s.native_client [
  | some engine ↦ (engine, s)
  | none ↦
      let engine = choose_engine s.forced_mock r in
      (engine, record s { native_client = some engine })
]
