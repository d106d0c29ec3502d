-- ===== src/Gossip/Params.antt =====
-- core/gossip/params.go: libp2p's parameters of gossipsub, with those of the overlay over them.
-- libp2p's defaults are a parameter, with the fields that are written.
use p2pmq.Base.{Option, none, some, if◌then◌else◌}
use p2pmq.Base.Int.{ℤ, is_pos, milliseconds}
use p2pmq.Commons.Pubsub.{OverlayParams}

pub record GossipSubParams : Type 0 where
  pub d : ℤ
  pub dlo : ℤ
  pub dhi : ℤ
  pub dlazy : ℤ
  pub max_ihave_messages : ℤ
  pub max_ihave_length : ℤ
  pub fanout_ttl : ℤ
  pub heartbeat_interval : ℤ

-- `if new > 0 { old = new }`, and the same on a duration's milliseconds.
abbrev or_default : ℤ → ℤ → ℤ
or_default new old = if is_pos new then new else old

abbrev or_default_time : ℤ → ℤ → ℤ
or_default_time new old = if is_pos (milliseconds new) then new else old

unfoldable pub gossip_sub_params : GossipSubParams → Option OverlayParams → GossipSubParams
gossip_sub_params defaults none = defaults
gossip_sub_params defaults (some o) = record defaults {
  d = or_default o.d defaults.d;
  dlo = or_default o.dlow defaults.dlo;
  dhi = or_default o.dhi defaults.dhi;
  dlazy = or_default o.dlazy defaults.dlazy;
  max_ihave_messages = or_default o.mcache_gossip defaults.max_ihave_messages;
  max_ihave_length = or_default o.mcache_len defaults.max_ihave_length;
  fanout_ttl = or_default_time o.fanout_ttl defaults.fanout_ttl;
  heartbeat_interval = or_default_time o.heartbeat_interval defaults.heartbeat_interval;
}
