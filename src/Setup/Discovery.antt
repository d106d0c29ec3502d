-- ===== src/Setup/Discovery.antt =====
-- core/dht.go and core/conn.go: the mode and the bootstrappers of discovery, and which peers the
-- controller dials. Addresses and their parsing are libp2p's.
use Prim.Native.String.{◌++◌}
use p2pmq.Base.{
  wrapped, String, List, [], ◌∷◌, Option, none, some, Result, ok, err, ◌==◌, if◌then◌else◌,
  string_key,
}
use p2pmq.Commons.Config.{mode_bootstrapper, mode_server, mode_client}

-- `dht.ModeOpt`
pub data ModeOpt : Type 0 where
  mode_auto_opt mode_client_opt mode_server_opt mode_auto_server_opt : ModeOpt

unfoldable pub parse_mode : String → ModeOpt
parse_mode mode =
    if mode == mode_client
    then mode_client_opt
    else if mode == mode_bootstrapper
    then mode_server_opt
    else if mode == mode_server
    then mode_auto_server_opt
    else mode_auto_opt

-- The loop of `parseDiscoveryConfig`, over `peer.AddrInfoFromString`.
unfoldable pub parse_bootstrappers :
    {A : Type 0} → (addr_info_from_string : String → Result A) → List String → Result (List A)
parse_bootstrappers addr_info_from_string [] = ok []
parse_bootstrappers addr_info_from_string (s ∷ ss) =
    let rest = parse_bootstrappers addr_info_from_string ss in
    elim (addr_info_from_string s) [
      | err e ↦ err (wrapped ("failed to parse bootstrapper addr " ++ s) e)
      | ok bn ↦ elim rest [ err e ↦ err e | ok bns ↦ ok (bn ∷ bns) ]
    ]

-- `network.Connectedness`
pub data Connectedness : Type 0 where
  not_connected is_connected can_connect cannot_connect : Connectedness

-- `connect`: the peer that a goroutine dials, if one is started.
unfoldable pub connect : {A : Type 0} → (A → Connectedness) → A → Option A
connect connectedness pi = elim (connectedness pi) [
  | cannot_connect ↦ none
  | is_connected ↦ none
  | _ ↦ some pi
]

-- `Controller.Connect`, with its error if any.
unfoldable pub connect_to :
    {A : Type 0}
    → (A → Connectedness)
    → (id_of : A → String) → (dial : A → Option String) → A
    → Option String
connect_to connectedness id_of dial ai = elim (connectedness ai) [
  | is_connected ↦ none
  | cannot_connect ↦ some ("cannot connect to " ++ id_of ai)
  | _ ↦ dial ai
]
