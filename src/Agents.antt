-- ===== src/Agents.antt =====
-- The AI agents that check a buy: which model is asked, and how two answers make a decision.
pub mod Route
pub mod Candles
pub mod Analyst
pub mod Runner
mod Tests
