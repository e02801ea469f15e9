-- ===== src/Rss.antt =====
-- src/agents/news/rss_news_pipeline.py: the news that the feeds bring and the score of their risk.
pub mod Keywords
pub mod Feed
pub mod Ingest
pub mod Again
pub mod Dated
pub mod Jobs
pub mod Summary
mod Tests
