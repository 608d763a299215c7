-- ===== src/App.antt =====
-- examples/demo-mobile/src: the state of the demo app.
pub mod Words
pub mod Store
pub mod Network
pub mod Clearing
pub mod Auth
pub mod Transactions
pub mod Integrity
pub mod Initializer
pub mod Credentials
pub mod Orders
pub mod Profile
pub mod Checkout
pub mod DevMenu
mod Tests
mod FeatureTests
