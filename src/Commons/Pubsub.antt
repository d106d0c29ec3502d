-- ===== src/Commons/Pubsub.antt =====
-- commons/config_pubsub.go: the configuration of the pubsub router and of its topics.
use p2pmq.Base.{
  ◌*◌, String, Bool, true, false, List, [], ◌∷◌, Option, none, some, ◌==◌, string_key,
  if◌then◌else◌,
}
use p2pmq.Base.Int.{ℤ, pos, is_zero, is_pos, milliseconds, second}

pub record MsgIdFnConfig : Type 0 where
  pub type : String
  pub size : ℤ

pub record MsgValidationConfig : Type 0 where
  pub timeout : ℤ
  pub concurrency : ℤ

-- The fields of `TopicConfig` that the code reads.
pub record TopicConfig : Type 0 where
  pub name : String
  pub buffer_size : ℤ
  pub msg_validator : Option MsgValidationConfig
  pub msg_id_fn_config : Option MsgIdFnConfig

-- `TopicConfig{}`, the zero value.
abbrev pub zero_topic_config : TopicConfig
zero_topic_config = record {
  name = "";
  buffer_size = pos 0;
  msg_validator = none;
  msg_id_fn_config = none;
}

-- The fields of `PubsubConfig` that are read when a topic is joined or subscribed to.
pub record PubsubConfig : Type 0 where
  pub topics : List TopicConfig
  pub msg_validator : Option MsgValidationConfig

find_topic : String → List TopicConfig → TopicConfig × Bool
find_topic name [] = (zero_topic_config, false)
find_topic name (t ∷ ts) = if t.name == name then (t, true) else find_topic name ts

unfoldable pub get_topic_config : PubsubConfig → String → TopicConfig × Bool
unfolding find_topic
get_topic_config cfg name = find_topic name cfg.topics

-- `mvc.Defaults(other)`: the built-in values where `mvc` has none, then those of `other`.
abbrev override : Option MsgValidationConfig → MsgValidationConfig → MsgValidationConfig
override none mvc = mvc
override (some other) mvc = record {
  timeout = if is_pos (milliseconds other.timeout) then other.timeout else mvc.timeout;
  concurrency = if is_pos other.concurrency then other.concurrency else mvc.concurrency;
}

unfoldable pub msg_validation_defaults :
    MsgValidationConfig → Option MsgValidationConfig → MsgValidationConfig
msg_validation_defaults mvc other = override other (record {
  timeout = if is_zero (milliseconds mvc.timeout) then pos (5 * second) else mvc.timeout;
  concurrency = if is_zero mvc.concurrency then pos 10 else mvc.concurrency;
})

-- `OverlayParams`; its numbers are `int32`, and its times `time.Duration`.
pub record OverlayParams : Type 0 where
  pub d : ℤ
  pub dlow : ℤ
  pub dhi : ℤ
  pub dlazy : ℤ
  pub heartbeat_interval : ℤ
  pub fanout_ttl : ℤ
  pub mcache_len : ℤ
  pub mcache_gossip : ℤ
  pub seen_ttl : ℤ
