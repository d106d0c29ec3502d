-- ===== src/Trace/Fields.antt =====
-- core/pubsub_trace.go: the fields that `Trace` collects of an event. They are a map, which Go hands
-- on by reference, and each write replaces the value of its key.
use p2pmq.Base.{ℕ, String, List, [], ◌∷◌, Option, none, some, length, if◌then◌else◌, string_key}
use Prim.Native.String.{◌++◌}
use p2pmq.Base.Dict.{Dict, insert}
use p2pmq.Trace.Event.{
  publish_message, reject_message, duplicate_message, deliver_message, add_peer, remove_peer, join,
  leave, graft, prune, send_rpc, drop_rpc, recv_rpc, other, IHave, RpcMeta, TraceEvent, Texts,
}

abbrev pub EventFields : Type 0
EventFields = Dict String String

module _ (x : Texts) where
  open x use {type_name, id_from_bytes, encode_to_string, itoa, join_comma}

  -- The loops that collect the ids of a message list, and of several.
  encoded : List (List ℕ) → List String
  encoded [] = []
  encoded (mid ∷ mids) = encode_to_string mid ∷ encoded mids

  append_encoded : List (List ℕ) → List String → List String
  append_encoded [] rest = rest
  append_encoded (mid ∷ mids) rest = encode_to_string mid ∷ append_encoded mids rest

  all_encoded : List (List (List ℕ)) → List String
  all_encoded [] = []
  all_encoded (mids ∷ l) = append_encoded mids (all_encoded l)

  ihave_topics : List IHave → EventFields → EventFields
  ihave_topics [] fields = fields
  ihave_topics (im ∷ l) fields =
      ihave_topics l
        (insert (im.topic ++ "-IHAVEmsgIDs") (join_comma (encoded im.message_ids)) fields)

  unfoldable pub append_ihave : List IHave → EventFields → EventFields
  unfolding ihave_topics encoded
  append_ihave [] fields = fields
  append_ihave (im ∷ l) fields =
      ihave_topics (im ∷ l) (insert "ihaveCount" (itoa (length (im ∷ l))) fields)

  unfoldable pub append_iwant : String → List (List (List ℕ)) → EventFields → EventFields
  unfolding all_encoded append_encoded
  append_iwant peer [] fields = fields
  append_iwant peer (im ∷ l) fields =
      insert (peer ++ "-IWANTmsgIDs") (join_comma (all_encoded (im ∷ l)))
        (insert "iwantCount" (itoa (length (im ∷ l))) fields)

  -- `if err == nil { fields[key] = pid.String() }`
  abbrev peer_field : String → List ℕ → EventFields → EventFields
  peer_field key bytes fields =
      let (id, valid) = id_from_bytes bytes in if valid then insert key id fields else fields

  abbrev message_fields : TraceEvent → EventFields → EventFields
  message_fields e fields =
      insert "topic" e.topic (insert "msgID" (encode_to_string e.message_id) fields)

  -- The part of an RPC's metadata; `peer` is "self" or the id of the sender.
  unfoldable pub meta_fields : String → Option RpcMeta → EventFields → EventFields
  meta_fields peer none fields = fields
  meta_fields peer (some meta) fields =
      insert "subs" (join_comma meta.subscription) (elim meta.control [
        | none ↦ fields
        | some ctrl ↦ append_iwant peer ctrl.iwant (append_ihave ctrl.ihave fields)
      ])

  -- The `switch` of `Trace`.
  unfoldable pub type_fields : TraceEvent → EventFields → EventFields
  type_fields e fields = elim e.type [
    | publish_message ↦ message_fields e fields
    | reject_message ↦
        insert "reason" e.reason (message_fields e (peer_field "receivedFrom" e.peer fields))
    | duplicate_message ↦ message_fields e (peer_field "receivedFrom" e.peer fields)
    | deliver_message ↦ message_fields e (peer_field "receivedFrom" e.peer fields)
    | add_peer ↦ peer_field "targetPeer" e.peer fields
    | remove_peer ↦ peer_field "targetPeer" e.peer fields
    | join ↦ insert "topic" e.topic fields
    | leave ↦ insert "topic" e.topic fields
    | graft ↦ insert "topic" e.topic (peer_field "graftPeer" e.peer fields)
    | prune ↦ insert "topic" e.topic (peer_field "prunePeer" e.peer fields)
    | send_rpc ↦ meta_fields "self" e.meta (peer_field "targetPeer" e.peer fields)
    | drop_rpc ↦ peer_field "targetPeer" e.peer fields
    | recv_rpc ↦
        meta_fields (id_from_bytes e.peer).0 e.meta (peer_field "receivedFrom" e.peer fields)
    | other n ↦ fields
  ]

  -- All the fields of an event that is traced at a time.
  unfoldable pub event_fields : String → TraceEvent → EventFields
  event_fields now e = type_fields e (
      insert "peerID" (id_from_bytes e.peer_id).0
        (insert "time" now (insert "type" (type_name e.type) [])))
