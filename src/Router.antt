-- ===== src/Router.antt =====
-- core/router.go: the queue between libp2p's callbacks and the handlers.
pub mod Queue
pub mod Steps
pub mod Bounds
pub mod Accounts
pub mod Callers
pub mod Lost
pub mod Work
pub mod Drain
pub mod Loops
mod Tests
