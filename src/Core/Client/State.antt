-- ===== src/Core/Client/State.antt =====
-- packages/ghost-ledger/src/core/client.ts: the state of `GhostClientCore`. Signers, resolvers and
-- response data are opaque, of the parameters' types.
use vesper_platform.Base.{
  ℕ, String, Bool, true, false, Option, none, some, List, [], ◌∷◌, if◌then◌else◌, str_eq,
}
use vesper_platform.Binary.Wire.{AdapterRequest}
use vesper_platform.Ledger.Queue.{MemoryQueue, new_queue}
use vesper_platform.Core.ErrorMatrix.{ErrorValue, ResolvedTrappingConfig}
use vesper_platform.Core.Context.{PendingContext}

-- Why a promise is rejected.
pub data Reason : Type 0 where
  integrity_breach : Reason
  no_adapter : Reason
  expired : Reason
  purged : Reason
  zeroized_before_replay : Reason
  unreadable : Reason
  adapter_error : ErrorValue → Reason

pub data Settlement (Answer : Type 0) : Type 0 where
  resolved : Answer → Settlement Answer
  rejected : Reason → Settlement Answer

-- What a dispatched request comes to.
pub data Reply (Answer : Type 0) : Type 0 where
  answer : Answer → Reply Answer
  failure : ErrorValue → Reply Answer

-- The calls of the observers.
pub data Event : Type 0 where
  session_freeze : Event
  session_resume : Event
  session_purge : Event
  integrity_breached : Event

pub data Started : Type 0 where
  refused : Started
  already_running : Started
  started : Started

-- Promises are numbered by their callers.
pub record Pending (Signer Resolver : Type 0) : Type 0 where
  pub promise : ℕ
  pub dpop : Option (PendingContext Signer Resolver)

abbrev pub Pendings : Type 0 → Type 0 → Type 0
Pendings Signer Resolver = List (String × Pending Signer Resolver)

-- Where a replay stands: the ids still to be replayed, and the request whose answer it waits for.
pub data Replay (Signer Resolver : Type 0) : Type 0 where
  resting : Replay Signer Resolver
  shaking_hands : Replay Signer Resolver
  replaying : List String → Replay Signer Resolver
  waiting : String → Pending Signer Resolver → List String → Replay Signer Resolver

pub record ClientConfig (Signer Resolver : Type 0) : Type 0 where
  pub signer : Option Signer
  pub dpop_resolver : Option Resolver
  pub has_adapter : Bool
  pub default_ttl : ℕ
  pub trapping : ResolvedTrappingConfig

pub record RequestOptions (Signer Resolver : Type 0) : Type 0 where
  pub dpop : Option (PendingContext Signer Resolver)
  pub ttl : Option ℕ
  pub require_dpop : Bool

-- `settled` logs the settlements of promises, of which the first of a promise counts; `events` the
-- calls of the observers; `wiped` the requests whose buffers were zeroed, as they were left.
pub record ClientCore (Signer Resolver Answer : Type 0) : Type 0 where
  pub queue : MemoryQueue
  pub is_processing_queue : Bool
  pub pending : Pendings Signer Resolver
  pub is_frozen : Bool
  pub replay : Replay Signer Resolver
  pub settled : List (ℕ × Settlement Answer)
  pub events : List Event
  pub wiped : List AdapterRequest

module _ {Signer Resolver : Type 0} where
  abbrev pub new_client : {Answer : Type 0} → ClientCore Signer Resolver Answer
  new_client = record {
    queue = record new_queue { is_watchdog_running = true; tick_pending = true };
    is_processing_queue = false;
    pending = [];
    is_frozen = false;
    replay = resting;
    settled = [];
    events = [];
    wiped = [];
  }

  -- pendingRequests.get(id)
  unfoldable pub pending_of : String → Pendings Signer Resolver → Option (Pending Signer Resolver)
  pending_of id [] = none
  pending_of id ((k, p) ∷ rest) = if str_eq k id then some p else pending_of id rest

  -- pendingRequests.delete(id)
  unfoldable pub delete_pending : String → Pendings Signer Resolver → Pendings Signer Resolver
  delete_pending id [] = []
  delete_pending id ((k, p) ∷ rest) =
      if str_eq k id then delete_pending id rest else (k, p) ∷ delete_pending id rest

  -- pendingRequests.set(id, p)
  unfoldable pub set_pending :
      String → Pending Signer Resolver → Pendings Signer Resolver → Pendings Signer Resolver
  set_pending id p [] = (id, p) ∷ []
  set_pending id p ((k, old) ∷ rest) =
      if str_eq k id then (k, p) ∷ rest else (k, old) ∷ set_pending id p rest
