-- ===== src/Strategy.antt =====
-- src/engine/strategy.py and src/config/strategy.py: when to enter and when to leave a position.
pub mod Config
pub mod Defaults
pub mod Entry
pub mod Trailing
pub mod Exit
mod Tests
