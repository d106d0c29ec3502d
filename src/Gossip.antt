-- ===== src/Gossip.antt =====
-- core/gossip: the message id functions and the gossipsub parameters.
pub mod MsgId
pub mod Params
pub mod Scores
pub mod Ids
mod Tests
