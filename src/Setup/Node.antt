-- ===== src/Setup/Node.antt =====
-- core/ctrl.go: NewController with setup. What libp2p does is a parameter; logging and the context are
-- left out.
use Prim.Native.String.{◌++◌ as append}
use p2pmq.Base.{
  wrapped, String, Bool, true, false, not, List, [], ◌∷◌, ◌++◌, ℕ, Option, none, some, Result, ok,
  err, ◌==◌, if◌then◌else◌, string_key,
}
use p2pmq.Base.Int.{ℤ}
use p2pmq.Commons.Config.{
  Config, config_defaults, ConnManagerConfig, conn_manager_defaults, DiscoveryConfig,
  discovery_defaults,
}
use p2pmq.Gossip.Params.{GossipSubParams}
use p2pmq.Setup.Keys.{KeyLib, get_or_generate_private_key}
use p2pmq.Setup.PubsubRouter.{PubsubOption, RouterConfig, setup_pubsub_router}
use p2pmq.Setup.Discovery.{ModeOpt, parse_mode, parse_bootstrappers}

-- `DiscoveryConfig` with its bootstrappers.
pub record Discovery : Type 0 where
  pub config : DiscoveryConfig
  pub bootstrappers : List String

-- The fields of `Config` that are read here; `P` is the pubsub router's configuration.
pub record NodeConfig (P : Type 0) : Type 0 where
  pub base : Config
  pub listen_addrs : List String
  pub private_key : String
  pub psk : List ℕ
  pub disable_ping : Bool
  pub user_agent : String
  pub nat_port_map : Bool
  pub auto_nat : Bool
  pub conn_manager : Option ConnManagerConfig
  pub discovery : Option Discovery
  pub mdns_tag : String
  pub pubsub : Option P

-- What the controller uses of libp2p, of Go's regular expressions and of its keys.
pub record HostLib (Scores : Type 0) : Type 1 where
  pub keys : KeyLib
  -- what a new key would be drawn from
  pub entropy : keys.Entropy
  pub AddrInfo : Type 0
  pub Host : Type 0
  pub PubSub : Type 0
  pub addr_info_from_string : String → Result AddrInfo
  pub new_conn_manager : ConnManagerConfig → Option String
  pub gossip_defaults : GossipSubParams
  pub compile : String → Option String
  pub new_json_tracer : String → Option String
  pub new_gossip_sub : Host → List (PubsubOption Scores) → Result PubSub

abbrev pub is_some : {A : Type 0} → Option A → Bool
is_some none = false
is_some (some _) = true

module _ {Scores : Type 0} (l : HostLib Scores) where
  open l use {AddrInfo, Host, PubSub}

  -- `libp2p.Option`, as far as it is used.
  pub data HostOption : Type 0 where
    listen_addr_strings : List String → HostOption
    identity : Option l.keys.PrivKey → HostOption
    with_dial_timeout : ℤ → HostOption
    with_user_agent : String → HostOption
    with_ping : Bool → HostOption
    private_network : List ℕ → HostOption
    connection_manager : ConnManagerConfig → HostOption
    with_nat_port_map enable_nat_service : HostOption
    -- the DHT, with its prefix, its mode and its bootstrappers
    routing : String → ModeOpt → List AddrInfo → HostOption

  -- `parseDiscoveryConfig`.
  unfoldable pub parse_discovery_config : Discovery → ModeOpt × Result (List AddrInfo)
  parse_discovery_config d =
      (parse_mode d.config.mode, parse_bootstrappers l.addr_info_from_string d.bootstrappers)

  unfoldable pub conn_manager_options : Option ConnManagerConfig → Result (List HostOption)
  conn_manager_options none = ok []
  conn_manager_options (some c) =
      let c' = conn_manager_defaults c in
      elim (l.new_conn_manager c') [
        | some e ↦ err (wrapped "could not create conn manager" e)
        | none ↦ ok (connection_manager c' ∷ [])
      ]

  unfoldable pub discovery_options : Option Discovery → Result (List HostOption)
  discovery_options none = ok []
  discovery_options (some d) =
      let d' : Discovery = record d { config = discovery_defaults d.config } in
      elim (parse_discovery_config d').1 [
        | err e ↦ err e
        | ok bns ↦ ok (routing d'.config.protocol_prefix (parse_discovery_config d').0 bns ∷ [])
      ]

  -- The options of `libp2p.New`, or the first error.
  unfoldable pub host_options : NodeConfig (RouterConfig Scores) → Result (List HostOption)
  host_options cfg =
      let key = get_or_generate_private_key l.keys l.entropy cfg.private_key in
      elim key.error [
        | some e ↦ err e
        | none ↦ elim (conn_manager_options cfg.conn_manager) [
          | err e ↦ err e
          | ok managers ↦ elim (discovery_options cfg.discovery) [
            | err e ↦ err e
            | ok routings ↦ ok (
                (listen_addr_strings cfg.listen_addrs
                  ∷ identity key.sk
                  ∷ with_dial_timeout (config_defaults cfg.base).dial_timeout
                  ∷ with_user_agent (append "p2pmq/" cfg.user_agent)
                  ∷ with_ping (not cfg.disable_ping)
                  ∷ private_network cfg.psk
                  ∷ [])
                ++ managers
                ++ (if cfg.nat_port_map then with_nat_port_map ∷ [] else [])
                ++ (if cfg.auto_nat then enable_nat_service ∷ [] else [])
                ++ routings)
          ]
        ]
      ]

  -- The controller; a nil pointer is `none`, and `libp2p.New` makes the DHT. The defaults of `setup`
  -- that its own configuration shares change nothing that is read later.
  pub record Controller : Type 0 where
    pub cfg : NodeConfig (RouterConfig Scores)
    pub host : Option Host
    pub has_dht : Bool
    pub has_mdns : Bool
    pub pubsub : Option PubSub
    pub has_msg_router : Bool
    pub has_val_router : Bool
    pub started : Bool
    pub stopped : Bool

  abbrev pub bare : Bool → Bool → NodeConfig (RouterConfig Scores) → Controller
  bare msg_router val_router cfg = record {
    cfg = cfg;
    host = none;
    has_dht = false;
    has_mdns = false;
    pubsub = none;
    has_msg_router = msg_router;
    has_val_router = val_router;
    started = false;
    stopped = false;
  }

  -- The controller with its host, and what `setup` does then.
  unfoldable pub setup_parts : Host → Controller → Controller × Option String
  setup_parts h c =
      let c' : Controller = record c {
        host = some h;
        has_dht = is_some c.cfg.discovery;
        has_mdns = not (c.cfg.mdns_tag == "");
      } in
      elim c.cfg.pubsub [
        | none ↦ (c', none)
        | some p ↦
            elim (setup_pubsub_router l.gossip_defaults l.compile l.new_json_tracer
              (l.new_gossip_sub h) p) [
                | err e ↦ (c', some e)
                | ok ps ↦ (record c' { pubsub = some ps }, none)
              ]
      ]

  -- `NewController`: the controller comes with an error, if any.
  unfoldable pub new_controller :
      (new_host : List HostOption → Result Host)
      → (msg_router val_router : Bool) → NodeConfig (RouterConfig Scores)
      → Controller × Option String
  new_controller new_host msg_router val_router cfg = elim (host_options cfg) [
    | err e ↦ (bare msg_router val_router cfg, some e)
    | ok opts ↦ elim (new_host opts) [
      | err e ↦ (bare msg_router val_router cfg, some e)
      | ok h ↦ setup_parts h (bare msg_router val_router cfg)
    ]
  ]
