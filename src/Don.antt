-- ===== src/Don.antt =====
-- examples/don: oracle networks whose nodes check signed reports and collect them.
pub mod Report
pub mod ReportBuffer
pub mod Verifier
pub mod Node
pub mod Accepted
pub mod Signed
pub mod Negative
mod Tests
