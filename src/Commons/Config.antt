-- ===== src/Commons/Config.antt =====
-- commons/config.go: the node's configuration and its defaults. `int` and `time.Duration` are
-- integers; `Defaults` is a method on a pointer, and returns here the record that it leaves.
use p2pmq.Base.{◌*◌, ◌==◌, String, string_key, if◌then◌else◌}
use p2pmq.Base.Int.{ℤ, pos, is_zero, milliseconds, second}

-- `DiscMode` is a string.
abbrev pub mode_bootstrapper : String
mode_bootstrapper = "boot"

abbrev pub mode_server : String
mode_server = "server"

abbrev pub mode_client : String
mode_client = "client"

-- The part of `Config` that `Defaults` reads and writes.
pub record Config : Type 0 where
  pub dial_timeout : ℤ
  pub msg_router_queue_size : ℤ
  pub msg_router_workers : ℤ

unfoldable pub config_defaults : Config → Config
config_defaults c = record {
  dial_timeout =
      if is_zero (milliseconds c.dial_timeout) then pos (15 * second) else c.dial_timeout;
  msg_router_queue_size =
      if is_zero c.msg_router_queue_size then pos 1024 else c.msg_router_queue_size;
  msg_router_workers = if is_zero c.msg_router_workers then pos 10 else c.msg_router_workers;
}

pub record ConnManagerConfig : Type 0 where
  pub low_water_mark : ℤ
  pub high_water_mark : ℤ
  pub grace_period : ℤ

unfoldable pub conn_manager_defaults : ConnManagerConfig → ConnManagerConfig
conn_manager_defaults c = record {
  low_water_mark = if is_zero c.low_water_mark then pos 5 else c.low_water_mark;
  high_water_mark = if is_zero c.high_water_mark then pos 25 else c.high_water_mark;
  grace_period =
      if is_zero (milliseconds c.grace_period) then pos (60 * second) else c.grace_period;
}

-- The part of `DiscoveryConfig` that `Defaults` reads and writes.
pub record DiscoveryConfig : Type 0 where
  pub mode : String
  pub protocol_prefix : String

unfoldable pub discovery_defaults : DiscoveryConfig → DiscoveryConfig
discovery_defaults c = record {
  mode = if c.mode == "" then mode_server else c.mode;
  protocol_prefix = if c.protocol_prefix == "" then "p2pmq" else c.protocol_prefix;
}
