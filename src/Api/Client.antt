-- ===== src/Api/Client.antt =====
-- api/grpc/client: the consumer and the verifier through which a process outside the node takes part.
pub mod Consumer
pub mod Verifier
pub mod Flow
pub mod Verifying
pub mod Session
pub mod Delivered
pub mod Judged
mod Tests
