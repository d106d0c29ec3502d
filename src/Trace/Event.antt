-- ===== src/Trace/Event.antt =====
-- What core/pubsub_trace.go uses of other packages: libp2p's trace events, and the texts of Go's
-- standard library and of libp2p's peer ids, which are parameters.
use p2pmq.Base.{ℕ, Bool, String, List, Option}

-- The types of libp2p's `TraceEvent`; `other` is a value that none of them has.
pub data EventType : Type 0 where
  publish_message reject_message duplicate_message deliver_message add_peer remove_peer join leave
        graft prune send_rpc drop_rpc recv_rpc :
      EventType
  other : ℕ → EventType

-- `TraceEvent_ControlIHaveMeta` and `TraceEvent_ControlIWantMeta`
pub record IHave : Type 0 where
  pub topic : String
  pub message_ids : List (List ℕ)

pub record Control : Type 0 where
  pub ihave : List IHave
  pub iwant : List (List (List ℕ))

-- `TraceEvent_RPCMeta`: `none` for a nil control, and the topics of the subscriptions.
pub record RpcMeta : Type 0 where
  pub control : Option Control
  pub subscription : List String

-- An event, with what the getters of the message of its type return. `peer` is the peer that this
-- message names: the sender, the receiver, or the one that was added, removed, grafted or pruned.
pub record TraceEvent : Type 0 where
  pub type : EventType
  pub peer_id : List ℕ
  pub message_id : List ℕ
  pub topic : String
  pub reason : String
  pub peer : List ℕ
  pub meta : Option RpcMeta

pub record Texts : Type 0 where
  -- `evt.GetType().String()`
  pub type_name : EventType → String
  -- `peer.IDFromBytes`, as the `String()` of its id and whether there is no error
  pub id_from_bytes : List ℕ → String × Bool
  pub encode_to_string : List ℕ → String
  pub itoa : ℕ → String
  pub join_comma : List String → String
