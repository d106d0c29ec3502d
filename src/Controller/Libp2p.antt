-- ===== src/Controller/Libp2p.antt =====
-- What the controller uses of go-libp2p-pubsub, which is not part of the repository: its handles,
-- and its calls over a state of its own. A call that can fail returns the error's text.
use p2pmq.Base.{ℕ, ◌≡◌, String, List, Option, Result, ok}
use p2pmq.Base.Int.{ℤ}
use p2pmq.Gossip.MsgId.{MsgIdFn}
use p2pmq.Commons.Pubsub.{MsgValidationConfig}

pub record Libp2p : Type 1 where
  pub World : Type 0
  pub Topic : Type 0
  pub Subscription : Type 0
  pub RelayCancelFunc : Type 0
  -- `topic.String()`
  pub topic_name : Topic → String
  -- `pubsub.Join`, with the id functions that `WithTopicMessageIdFn` gives
  pub join : String → List MsgIdFn → World → World × Result Topic
  pub publish : Topic → List ℕ → World → World × Option String
  pub close : Topic → World → World × Option String
  -- `topic.Subscribe`, with the sizes that `WithBufferSize` gives
  pub subscribe : Topic → List ℤ → World → World × Result Subscription
  pub relay : Topic → World → World × Result RelayCancelFunc
  pub cancel : Subscription → World → World
  pub cancel_relay : RelayCancelFunc → World → World
  -- `RegisterTopicValidator`, with the timeout and the concurrency of its options
  pub register_topic_validator : String → MsgValidationConfig → World → World × Option String

-- A handle that `Join` returns carries the name that it was asked for.
pub record IsNaming (p : Libp2p) : Type 0 where
  pub named :
      (name : String) (opts : List MsgIdFn) (w : p.World) (t : p.Topic)
      → (p.join name opts w).1 ≡ ok t
      → p.topic_name t ≡ name
