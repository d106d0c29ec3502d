-- ===== src/Commons.antt =====
-- commons: the configuration structs, their defaults, and how they become libp2p's.
pub mod Config
pub mod Pubsub
pub mod Scoring
