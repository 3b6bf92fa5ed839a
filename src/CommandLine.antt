-- ===== src/CommandLine.antt =====
-- The command line of src/main.rs, as far as it has logic of its own: the questions it asks, and the
-- check of a new WiFi token.
pub mod Prompts
pub mod Verify
mod Examples
