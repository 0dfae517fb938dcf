-- ===== src/TokenUsage.antt =====
-- token_usage_formatter.py: which of the records of token usage a command shows.
pub mod Range
pub mod Answers
pub mod Tests
