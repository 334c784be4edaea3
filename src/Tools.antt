-- ===== src/Tools.antt =====
-- The tools of src/multi_bot_agentic/tools: each takes the arguments of an invocation and answers
-- with a result, and keeps no state.
pub mod JsonPatch
pub mod Tests
