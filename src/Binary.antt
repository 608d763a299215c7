-- ===== src/Binary.antt =====
-- packages/ghost-ledger/src/binary.ts and the text encoding that it stands on.
pub mod Utf8
pub mod Headers
pub mod Wire
pub mod Json
pub mod Tests
