-- ===== src/Chat.antt =====
-- src/agents/router.py: the chatbot's entry and what guards it.
pub mod Settings
pub mod Intents
pub mod Guard
pub mod Footer
pub mod Steps
pub mod Spacing
pub mod Recall
pub mod History
pub mod Answers
pub mod Words
pub mod Action
pub mod Nodes
pub mod Reports
pub mod Process
mod Tests
