-- ===== src/Adapters.antt =====
-- packages/ghost-ledger/src/adapters: the transports that dispatch a request, and the errors that they
-- raise for the error matrix. The HTTP clients are parameters. The abort signal, which is handed on
-- untouched, is left out.
pub mod Outcome
pub mod Fetch
pub mod Axios
pub mod Graphql
pub mod Encoded
pub mod Freezing
pub mod Proven
mod Tests
