-- ===== src/ExitPerformance.antt =====
-- src/analytics/exit_performance.py: the cost of what was sold, and the figures of the sales.
mod Lots
mod Buckets
mod Suggestions
pub mod Consume
pub mod Tally
mod Tests
unfoldable pub use Lots.*
unfoldable pub use Buckets.*
unfoldable pub use Suggestions.*
