-- ===== src/Lib.antt =====
-- packages/ghost-ledger: the offline ledger of the Vesper platform, which keeps requests in a
-- hash-chained queue in memory while the network is down and erases them when they leave it.
--
-- The parts and their files:
-- - packages/ghost-ledger/src/ledger/fallback.ts: Ledger/Fallback.antt and
--   Ledger/Fallback/State.antt. A `Ledger` holds the fields of `GhostSecureClientFallback`; a
--   method is a function of the same name in antt's spelling that takes the state last and returns
--   the new one. An exception is the outcome `blocked`. Two fields are added: `released`, the
--   blocks that left the queue as their memory was left, and `readings`, the number of clock
--   readings taken; the clocks are the parameter `Host`.
-- - packages/ghost-ledger/src/ledger/crypto.ts: Ledger/Sha256.antt. Words are numbers below 2^32;
--   the wrap-around of `| 0` is written out.
-- - packages/ghost-ledger/src/binary.ts: Binary/Headers.antt and Binary/Wire.antt, over the
--   encoder and the decoder of UTF-8 in Binary/Utf8.antt, which follow the WHATWG encoding
--   standard. Texts are lists of code points, buffers lists of bytes, a thrown RangeError is the
--   value `range_error`.
-- - packages/ghost-ledger/src/ledger/queue.ts: Ledger/Queue.antt. A `MemoryQueue` holds a fallback
--   ledger, the map of expiry timers and the watchdog's flags, and beside them the timers that the
--   host still has to fire; `expire` and `tick` are the callbacks of those timers. A rejected
--   promise is a value of `Checked`.
-- - packages/ghost-ledger/src/core/error-matrix.ts and core/config.ts: Core/ErrorMatrix.antt.
-- - packages/ghost-ledger/src/core/utils.ts: Core/Context.antt.
-- - packages/ghost-ledger/src/core/client.ts: Core/Client.antt and Core/Client/State.antt. A
--   `ClientCore` holds the memory queue, the pending promises and the flags, and logs of
--   settlements, observer calls and wiped requests. An async method is one function per part
--   between two awaits; answers of the network, the handshake and the adapter are the functions'
--   inputs.
-- - packages/ghost-ledger/src/dpop: Dpop.antt and Dpop/. Base64.antt is `base64UrlEncode` of
--   ledger/fallback.ts with a decoder beside it; Utils, Keys and Signer are the files of those
--   names. The crypto provider, the clock and the platform's URL parser are arguments, and a
--   rejected promise is `none`. JSON texts are those of Binary/Json.antt.
-- - packages/ghost-ledger/src/core/client.ts, the contexts and proofs of requests, the bootstrap
--   of the keys, the telemetry sync, the constructor and the single instance:
--   Core/Client/Proofs.antt, Bootstrap.antt, Telemetry.antt and Instance.antt beside it.
-- - packages/ghost-ledger/src/ledger/queue.ts, the choice of the native client:
--   Ledger/Queue/Engine.antt.
-- - packages/ghost-ledger/src/adapters: Adapters.antt and Adapters/. A raised error is an
--   `Outcome`; `error_value` is what the error matrix reads of it. `fetch` and the Axios instance
--   are arguments.
-- - examples/demo-mobile/src/core/auth and core/network/handshakeValidator.ts: App/Auth.antt and
--   App/Auth/Handshake.antt. The hook's state is a `Session` with a log of what it sent, and the
--   errors of the secure store are the argument `Keychain`.
-- - examples/demo-mobile/src/features/payment: App/Clearing.antt is `processQueue`, cut at its
--   await, over the ledger: whether `execute` took the batch is an argument, since the batch is an
--   object where the requests of the model hold bytes; App/Transactions.antt is the hash chain of
--   a checkout.
-- - examples/demo-mobile/src/core/security/DeviceIntegrityGuard.ts and
--   providers/ghost/useGhostInitializer.ts: App/Integrity.antt and App/Initializer.antt.
-- - examples/demo-mobile/src/store/useAppStore.ts: App/Store.antt. A `set` is a function from the
--   state to the next; prices are whole amounts.
-- - examples/demo-mobile/src/core/network/networkResolver.ts: App/Network.antt, over the store and
--   the client; the events of NetInfo are the inputs.
-- - examples/demo-mobile/src/features/auth/hooks: App/Credentials.antt. The regular expression of
--   the forms is a matcher, `is_email`. The secure store takes every token there.
-- - examples/demo-mobile/src/features/dev-menu/hooks/useDevMenu.ts: App/DevMenu.antt, over the
--   client.
-- - examples/demo-mobile/src/features, useGhostCheckout.ts, useOnlineCheckoutMutation.ts and
--   useInStoreCheckoutMutation.ts: App/Checkout.antt, over the session and the transaction ledger.
-- - examples/demo-mobile/src/features, useOrders.ts and useVesperCatalog.ts: App/Orders.antt.
-- - examples/demo-mobile/src, useProfile.ts, useStores.ts and useTheme.ts: App/Profile.antt.
-- - Base.antt and Base/: Boolean tests, lists, maps, buffers and bits that the parts share.
--
-- The client serializes a request by binary.ts and enqueues it in the memory queue, which stores
-- it in the ledger under a timer; a replay reads it back, dispatches it and dequeues it.
--
-- A request that needs a proof of possession gets one from the signer when it is dispatched; an
-- adapter turns it into a call of its HTTP client, and the error that it raises decides, by the
-- error matrix, whether the request is queued instead. The app's payment clearing reads and
-- empties the same ledger.
--
-- Loops are structural recursion. `digits_from` runs on fuel, one more than the number it prints,
-- which has fewer digits than that; `decimal_from` on twenty, the digits of a number below 10^20,
-- beyond any integer that the code prints.
--
-- Not modelled: the proofs inside the steps of the client (a dispatch takes its proof as an
-- input), the abort signal of a request, the scanner of the mobile app, its navigation hooks and
-- views, the native (C++) ledger, the Go services and the console.
pub mod Base
pub mod Binary
pub mod Ledger
pub mod Core
pub mod Dpop
pub mod Adapters
pub mod App
