-- ===== src/Dpop.antt =====
-- packages/ghost-ledger/src/dpop: the keys and the proofs of possession of RFC 9449.
pub mod Base64
pub mod Utils
pub mod Keys
pub mod Signer
mod Tests
