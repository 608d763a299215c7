-- ===== src/Core.antt =====
-- packages/ghost-ledger/src/core: what the client decides and does around the memory queue.
pub mod ErrorMatrix
pub mod Context
pub mod Client
mod Tests
