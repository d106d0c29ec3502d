-- ===== src/Setup/Tests.antt =====
-- A node with one key and one host, and the theorems on it.
use p2pmq.Base.{
  panics, ◌≡◌, ◌≢◌, ◌⊎◌, refl, ℕ, true, false, [], ◌∷◌, none, some, ok, err, arith, string_key,
  Bool, String, List, suc, Result, ◌==◌, if◌then◌else◌,
}
use p2pmq.Base.Int.{pos}
use mathlib.Core.Path.{subst}
use p2pmq.Setup.Keys.{KeyLib, IsKeyLib, generate, get_or_generate_private_key, private_key_again}
use p2pmq.Setup.Mdns.{
  MdnsNotifee, setup_mdns_discovery, handle_peer_found, finds, step, Reach, here, next,
}
use p2pmq.Setup.Found.{found_after_close}
use p2pmq.Setup.PubsubRouter.{RouterConfig}
use p2pmq.Setup.Node.{NodeConfig, HostLib, new_controller}
use p2pmq.Setup.Created.{IsClosable, new_controller-IsClosable}

-- Two keys, and the texts of their bytes.
abbrev bit : Bool → List ℕ
bit true = 1 ∷ []
bit false = 0 ∷ []

abbrev bit_text : List ℕ → String
bit_text (suc n ∷ l) = "AQ"
bit_text _ = "AA"

abbrev read_bit : List ℕ → Bool
read_bit (suc n ∷ l) = true
read_bit _ = false

abbrev two_keys : KeyLib
two_keys = record {
  PrivKey = Bool;
  Entropy = Bool;
  generate_key = λ drawn. ok drawn;
  marshal_private_key = λ sk. ok (bit sk);
  unmarshal_private_key = λ b. ok (read_bit b);
  encode_to_string = bit_text;
  decode_string = λ text. ok (if text == "AQ" then 1 ∷ [] else 0 ∷ []);
}

two_keys-IsKeyLib : IsKeyLib two_keys
two_keys-IsKeyLib = record { decodes = decodes; unmarshals = unmarshals; writes = writes }
  where
    same : (a b : List ℕ) → ◌≡◌ {A = Result (List ℕ)} (ok a) (ok b) → a ≡ b
    same a b e = cc

    decodes :
        (sk : Bool) (b : List ℕ) → ok (bit sk) ≡ ok b → two_keys.decode_string (bit_text b) ≡ ok b
    decodes true b e =
        subst (λ x. two_keys.decode_string (bit_text x) ≡ ok x) (same (1 ∷ []) b e) refl
    decodes false b e =
        subst (λ x. two_keys.decode_string (bit_text x) ≡ ok x) (same (0 ∷ []) b e) refl

    unmarshals :
        (sk : Bool) (b : List ℕ)
        → ok (bit sk) ≡ ok b
        → ◌≡◌ {A = Result Bool} (ok (read_bit b)) (ok sk)
    unmarshals true b e = subst (λ x. ok (read_bit x) ≡ ok true) (same (1 ∷ []) b e) refl
    unmarshals false b e = subst (λ x. ok (read_bit x) ≡ ok false) (same (0 ∷ []) b e) refl

    writes : (sk : Bool) (b : List ℕ) → ok (bit sk) ≡ ok b → bit_text b ≢ ""
    writes true b e =
        subst (λ x. bit_text x ≢ "") (same (1 ∷ []) b e)
          (λ z. ground (arith, (string_key.same_iff "AQ" "").1 z))
    writes false b e =
        subst (λ x. bit_text x ≢ "") (same (0 ∷ []) b e)
          (λ z. ground (arith, (string_key.same_iff "AA" "").1 z))

private_key_again_example :
    get_or_generate_private_key two_keys false
      (get_or_generate_private_key two_keys true "").encoded_b64
    ≡ get_or_generate_private_key two_keys true ""
unfolding get_or_generate_private_key generate
private_key_again_example = private_key_again two_keys "" true false two_keys-IsKeyLib refl

abbrev found_one : MdnsNotifee ℕ
found_one = record {
  q = 4 ∷ [];
  closed = false;
  ctx_done = false;
  threads_done = false;
  connected = [];
}

run_to_found : Reach setup_mdns_discovery found_one
unfolding setup_mdns_discovery step handle_peer_found
run_to_found = next here (finds 4) refl

found_after_close_example :
    ((found_one.threads_done ≡ true) ⊎ (handle_peer_found 5 found_one ≢ panics))
    × ((t : MdnsNotifee ℕ) × Reach found_one t × (handle_peer_found 5 t ≡ panics))
found_after_close_example = found_after_close 5 run_to_found refl

-- A pubsub router that is never set up.
abbrev pub no_pubsub : HostLib (Unit {0})
no_pubsub = record {
  keys = two_keys;
  entropy = true;
  AddrInfo = Unit {0};
  Host = Unit {0};
  PubSub = Unit {0};
  addr_info_from_string = λ text. ok tt;
  new_conn_manager = λ c. none;
  gossip_defaults = record {
    d = pos 6;
    dlo = pos 5;
    dhi = pos 12;
    dlazy = pos 6;
    max_ihave_messages = pos 10;
    max_ihave_length = pos 5000;
    fanout_ttl = pos 60;
    heartbeat_interval = pos 1;
  };
  compile = λ pattern. none;
  new_json_tracer = λ file. none;
  new_gossip_sub = λ h opts. err "no router";
}

abbrev pub plain : NodeConfig (RouterConfig (Unit {0}))
plain = record {
  base = record { dial_timeout = pos 0; msg_router_queue_size = pos 0; msg_router_workers = pos 0 };
  listen_addrs = [];
  private_key = "";
  psk = [];
  disable_ping = false;
  user_agent = "";
  nat_port_map = false;
  auto_nat = false;
  conn_manager = none;
  discovery = none;
  mdns_tag = "";
  pubsub = some (record {
    msg_id_fn_config = none;
    overlay = none;
    scoring = none;
    max_message_size = pos 0;
    sub_filter = none;
    trace = none;
  });
}

new_controller-IsClosable_example :
    IsClosable no_pubsub (new_controller no_pubsub (λ opts. ok tt) true true plain)
new_controller-IsClosable_example =
    new_controller-IsClosable no_pubsub (λ opts. ok tt) true true plain
