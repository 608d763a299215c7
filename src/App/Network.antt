-- ===== src/App/Network.antt =====
-- examples/demo-mobile/src/core/network/networkResolver.ts: the listener that follows the network.
-- The state of the subscription stands beside the app's store and the client.
pub mod Transitions
use vesper_platform.Base.{
  ℕ, String, Bool, true, false, ◌&&◌, ◌||◌, not, Option, none, some, List, [], ◌∷◌, if◌then◌else◌,
  str_eq,
}
use vesper_platform.Ledger.Fallback.{Host}
use vesper_platform.Ledger.Queue.{toggle_queue_network}
use vesper_platform.Core.Client.{ClientConfig, ClientCore, Started}
use vesper_platform.Core.Client.Processing.{begin_replay}
use vesper_platform.App.Store.{AppState}

-- What NetInfo reports: the type, and `isConnected`, which may be null.
pub record NetInfoState : Type 0 where
  pub type : String
  pub is_connected : Option Bool

abbrev no_network : NetInfoState → Bool
no_network state = str_eq state.type "none" || str_eq state.type "unknown"

unfoldable pub network_resolver : NetInfoState → Bool
network_resolver state =
    if no_network state then false else elim state.is_connected [ some b ↦ b | none ↦ false ]

abbrev is_true : Option Bool → Bool
is_true none = false
is_true (some b) = b

unfoldable pub is_online_now : NetInfoState → Bool
is_online_now state = not (no_network state) && is_true state.is_connected

pub record AppNetwork (Signer Resolver Answer : Type 0) : Type 0 where
  pub is_currently_online : Bool
  pub is_subscribed : Bool
  pub store : AppState
  pub client : ClientCore Signer Resolver Answer

module _ {Signer Resolver Answer : Type 0} where
  -- The two calls that follow each change of `isCurrentlyOnline`.
  unfoldable pub mirror :
      Bool → AppNetwork Signer Resolver Answer → AppNetwork Signer Resolver Answer
  mirror online n = record n {
    is_currently_online = online;
    store = record n.store { is_online = online };
    client = record n.client { queue = toggle_queue_network online n.client.queue };
  }

  -- startNetworkTransitionsListener, up to the answer of the resolver
  unfoldable pub start_listener :
      AppNetwork Signer Resolver Answer → AppNetwork Signer Resolver Answer
  start_listener n = record n { is_subscribed = true }

  -- the answer of the resolver
  unfoldable pub baseline :
      NetInfoState → AppNetwork Signer Resolver Answer → AppNetwork Signer Resolver Answer
  baseline state n = mirror (network_resolver state) n

  unfoldable pub stop_listener :
      AppNetwork Signer Resolver Answer → AppNetwork Signer Resolver Answer
  stop_listener n = record n { is_subscribed = false }

  module _ (host : Host) (config : ClientConfig Signer Resolver) where
    -- The listener, and what comes of the replay where it asks for one: a client that is compromised
    -- refuses it with an error, which is only logged, and one under way is not started again.
    unfoldable pub on_event :
        NetInfoState
        → AppNetwork Signer Resolver Answer
        → Option Started × AppNetwork Signer Resolver Answer
    on_event state n =
        if not n.is_currently_online && is_online_now state
        then (let up = mirror true n in
            let replay = begin_replay host config up.client in
            (some replay.0, record up { client = replay.1 }))
        else if n.is_currently_online && not (is_online_now state)
        then (none, mirror false n)
        else (none, n)
