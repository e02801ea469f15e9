-- ===== src/Risk.antt =====
-- src/engine/risk_manager.py: what an order is measured against, and the daily limits.
mod Queries
mod Check
mod Trades
pub mod Approval
mod Tests
pub mod Day
unfoldable pub use Queries.*
unfoldable pub use Check.*
unfoldable pub use Trades.*
