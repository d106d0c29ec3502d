-- ===== src/Bls.antt =====
-- examples/bls: the nodes that sign, verify and collect reports.
pub mod Report
pub mod ReportBuffer
pub mod Ring
pub mod Window
pub mod History
pub mod Refine
pub mod Sequence
pub mod Crypto
pub mod Share
pub mod Gen
pub mod Shares
pub mod Collected
pub mod Node
pub mod InternalNet
pub mod Quorum
pub mod Nodes
pub mod Slot
pub mod Signs
pub mod Once
pub mod Goroutines
pub mod Racing
pub mod Recovered
pub mod Published
pub mod Signing
mod Tests
