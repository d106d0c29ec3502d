-- ===== src/Api.antt =====
-- api/grpc: the servers through which clients get messages, validate them and control the node.
pub mod Outbox
pub mod Order
pub mod ValRouter
pub mod Moves
pub mod Linked
pub mod Answers
pub mod Orphans
pub mod Duplicates
pub mod Control
pub mod Client
mod Tests
