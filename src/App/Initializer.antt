-- ===== src/App/Initializer.antt =====
-- examples/demo-mobile/src/providers/ghost/useGhostInitializer.ts: the observers of the client, and
-- `initGhostClient`, whose awaits follow each other. What the token store answers is an argument,
-- `none` where it throws.
pub mod Bootstrapped
use vesper_platform.Base.{String, Bool, true, false, Option, none, some, if◌then◌else◌}
use vesper_platform.Binary.Json.{Members}
use vesper_platform.Core.Client.{
  Event, session_freeze, session_resume, session_purge, integrity_breached,
}
use vesper_platform.Core.Client.Proofs.{KeyConfig, bootstrap_auto_dpop}
use vesper_platform.Dpop.Keys.{CryptoProvider}
use vesper_platform.Dpop.Signer.{DpopSigner}
use vesper_platform.App.Store.{AppState, set_frozen, init_auth}
use vesper_platform.App.Integrity.{Platform, Globals, evaluate_integrity}

-- The configuration that the hook gives the client.
abbrev pub key_config : KeyConfig
key_config = record { dpop = none; enable_auto_dpop = true; dpop_algorithm = none }

-- The observers: there is none for a breach.
unfoldable pub on_client_event : Event → AppState → AppState
on_client_event session_freeze s = set_frozen true s
on_client_event session_resume s = set_frozen false s
on_client_event session_purge s = set_frozen false s
on_client_event integrity_breached s = s

-- The hook's state, the store, and the signer of the client.
pub record Initializer (Key : Type 0) : Type 0 where
  pub app : AppState
  pub is_bootstrapped : Bool
  pub dpop_public_key : Option Members
  pub signer : Option (DpopSigner Key)

module _ {Key : Type 0} where
  -- `finally`
  abbrev pub finish : Initializer Key → Initializer Key
  finish s = record s { is_bootstrapped = true }

  unfoldable pub after_bootstrap :
      Option (Option (DpopSigner Key) × Option Members) → Initializer Key → Initializer Key
  after_bootstrap none s = s
  after_bootstrap (some keys) s = record s { signer = keys.0; dpop_public_key = keys.1 }

  -- On a sound device: the stored token, then the keys.
  unfoldable pub start_session :
      CryptoProvider Key → Option (Option String) → Initializer Key → Initializer Key
  unfolding after_bootstrap
  start_session provider none s = s
  start_session provider (some token) s =
      after_bootstrap (bootstrap_auto_dpop provider key_config s.signer)
        (record s { app = init_auth token s.app })

  -- On a compromised device: purge, and return from the try block.
  unfoldable pub refuse_device : Initializer Key → Initializer Key
  refuse_device s = record s { app = set_frozen false s.app; is_bootstrapped = false }

  unfoldable pub init_ghost_client :
      Platform
      → Globals
      → CryptoProvider Key
      → Option (Option String)
      → Initializer Key
      → Initializer Key
  unfolding refuse_device start_session
  init_ghost_client platform g provider token s = finish (
      if (evaluate_integrity platform g).is_device_compromised
      then refuse_device s
      else start_session provider token s)
