-- ===== src/Cmd.antt =====
-- cmd/pmq/main.go.
pub mod Affects
pub mod Main
pub mod Runs
pub mod Serving
mod Tests
