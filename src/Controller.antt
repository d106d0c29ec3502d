-- ===== src/Controller.antt =====
-- core: the controller's topics and what it does with libp2p's pubsub.
pub mod Libp2p
pub mod Topics
pub mod Pubsub
pub mod Listening
pub mod Heard
pub mod Calls
pub mod Invariant
pub mod Join
pub mod Steps
pub mod Frame
pub mod Lifecycle
pub mod Subscriptions
pub mod Unset
pub mod Panics
pub mod Joining
mod Tests
