-- ===== src/Ledger.antt =====
-- packages/ghost-ledger/src/ledger: the volatile RAM ledger.
pub mod Sha256
pub mod Fallback
pub mod Queue
pub mod Tests
