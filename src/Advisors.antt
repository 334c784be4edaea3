-- ===== src/Advisors.antt =====
-- The band advisors of src/multi_bot_agentic: over a hundred modules with one class each, which
-- compares an observed number with a soft and a hard limit. The modules below name them all.
pub mod Numbers
pub mod Bands
pub mod Orchestration
pub mod Planning
pub mod SharedState
pub mod Tooling
pub mod Shipped
pub mod Severity
pub mod Tests
