-- ===== src/Tools/JsonPatch.antt =====
-- src/multi_bot_agentic/tools/json_patch_apply.py: RFC 6902 operations on a parsed JSON document. A
-- document is a tree: the code copies what it puts in, so no value stands in two places, and a
-- write in place is a function from the document before to the one after.
pub mod Pointer
pub mod Values
pub mod Operations
pub mod Places
pub mod Writes
pub mod Changes
pub mod Effects
pub mod Printing
pub mod Execute
pub mod Runs
pub mod Succeeds
