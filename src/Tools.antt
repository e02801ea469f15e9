-- ===== src/Tools.antt =====
-- src/agents/tools: what the chatbot's answers are made of. The queries' rows are inputs.
pub mod Risk
pub mod Market
pub mod News
pub mod SellTiming
pub mod Portfolio
pub mod History
pub mod Policy
pub mod Review
mod Tests
