-- ===== src/Trace/Tracer.antt =====
-- core/pubsub_trace.go: the tracer, its counters and its events. The counters are shared pointers to
-- atomic integers, so `Faucets` and `Reset` read and write the tracer's own; here they are numbers
-- below 2^64. The debug log is not modelled; `sub_traced` has the events given to the sub-tracer.
use p2pmq.Base.{
  ℕ, ◌+◌, ◌%◌, ◌==◌, Bool, false, ◌||◌, String, List, [], ◌∷◌, ◌++◌, if◌then◌else◌, string_key,
}
use p2pmq.Base.Int.{u64_mod}
use p2pmq.Trace.Event.{
  EventType, publish_message, reject_message, duplicate_message, deliver_message, add_peer,
  remove_peer, join, leave, graft, prune, send_rpc, drop_rpc, recv_rpc, other, TraceEvent, Texts,
}
use p2pmq.Trace.Fields.{EventFields, event_fields}

pub record TraceFaucets : Type 0 where
  pub join_count : ℕ
  pub leave_count : ℕ
  pub publish_count : ℕ
  pub deliver_count : ℕ
  pub reject_count : ℕ
  pub duplicate_count : ℕ
  pub add_peer_count : ℕ
  pub remove_peer_count : ℕ
  pub graft_count : ℕ
  pub prune_count : ℕ
  pub send_rpc_count : ℕ
  pub drop_rpc_count : ℕ
  pub recv_rpc_count : ℕ

unfoldable pub new_trace_faucets : TraceFaucets
new_trace_faucets = record {
  join_count = 0;
  leave_count = 0;
  publish_count = 0;
  deliver_count = 0;
  reject_count = 0;
  duplicate_count = 0;
  add_peer_count = 0;
  remove_peer_count = 0;
  graft_count = 0;
  prune_count = 0;
  send_rpc_count = 0;
  drop_rpc_count = 0;
  recv_rpc_count = 0;
}

-- `Add(n)` of a counter.
abbrev pub add_u64 : ℕ → ℕ → ℕ
add_u64 n c = (c + n) % u64_mod

-- `tf.add(other)`, with `other` first
unfoldable pub add_faucets : TraceFaucets → TraceFaucets → TraceFaucets
add_faucets tf' tf = record {
  join_count = add_u64 tf'.join_count tf.join_count;
  leave_count = add_u64 tf'.leave_count tf.leave_count;
  publish_count = add_u64 tf'.publish_count tf.publish_count;
  deliver_count = add_u64 tf'.deliver_count tf.deliver_count;
  reject_count = add_u64 tf'.reject_count tf.reject_count;
  duplicate_count = add_u64 tf'.duplicate_count tf.duplicate_count;
  add_peer_count = add_u64 tf'.add_peer_count tf.add_peer_count;
  remove_peer_count = add_u64 tf'.remove_peer_count tf.remove_peer_count;
  graft_count = add_u64 tf'.graft_count tf.graft_count;
  prune_count = add_u64 tf'.prune_count tf.prune_count;
  send_rpc_count = add_u64 tf'.send_rpc_count tf.send_rpc_count;
  drop_rpc_count = add_u64 tf'.drop_rpc_count tf.drop_rpc_count;
  recv_rpc_count = add_u64 tf'.recv_rpc_count tf.recv_rpc_count;
}

-- `tf.set(other)`, with `other` first
unfoldable pub set_faucets : TraceFaucets → TraceFaucets → TraceFaucets
set_faucets tf' tf = record {
  join_count = tf'.join_count;
  leave_count = tf'.leave_count;
  publish_count = tf'.publish_count;
  deliver_count = tf'.deliver_count;
  reject_count = tf'.reject_count;
  duplicate_count = tf'.duplicate_count;
  add_peer_count = tf'.add_peer_count;
  remove_peer_count = tf'.remove_peer_count;
  graft_count = tf'.graft_count;
  prune_count = tf'.prune_count;
  send_rpc_count = tf'.send_rpc_count;
  drop_rpc_count = tf'.drop_rpc_count;
  recv_rpc_count = tf'.recv_rpc_count;
}

-- The counter of a type, and what `Trace` does to the counters on an event of a type.
unfoldable pub faucet : EventType → TraceFaucets → ℕ
faucet join tf = tf.join_count
faucet leave tf = tf.leave_count
faucet publish_message tf = tf.publish_count
faucet deliver_message tf = tf.deliver_count
faucet reject_message tf = tf.reject_count
faucet duplicate_message tf = tf.duplicate_count
faucet add_peer tf = tf.add_peer_count
faucet remove_peer tf = tf.remove_peer_count
faucet graft tf = tf.graft_count
faucet prune tf = tf.prune_count
faucet send_rpc tf = tf.send_rpc_count
faucet drop_rpc tf = tf.drop_rpc_count
faucet recv_rpc tf = tf.recv_rpc_count
faucet (other n) tf = 0

unfoldable pub count_event : EventType → TraceFaucets → TraceFaucets
count_event join tf = record tf { join_count = add_u64 1 tf.join_count }
count_event leave tf = record tf { leave_count = add_u64 1 tf.leave_count }
count_event publish_message tf = record tf { publish_count = add_u64 1 tf.publish_count }
count_event deliver_message tf = record tf { deliver_count = add_u64 1 tf.deliver_count }
count_event reject_message tf = record tf { reject_count = add_u64 1 tf.reject_count }
count_event duplicate_message tf = record tf { duplicate_count = add_u64 1 tf.duplicate_count }
count_event add_peer tf = record tf { add_peer_count = add_u64 1 tf.add_peer_count }
count_event remove_peer tf = record tf { remove_peer_count = add_u64 1 tf.remove_peer_count }
count_event graft tf = record tf { graft_count = add_u64 1 tf.graft_count }
count_event prune tf = record tf { prune_count = add_u64 1 tf.prune_count }
count_event send_rpc tf = record tf { send_rpc_count = add_u64 1 tf.send_rpc_count }
count_event drop_rpc tf = record tf { drop_rpc_count = add_u64 1 tf.drop_rpc_count }
count_event recv_rpc tf = record tf { recv_rpc_count = add_u64 1 tf.recv_rpc_count }
count_event (other n) tf = tf

pub record PsTracer : Type 0 where
  pub skiplist : List String
  pub has_sub_tracer : Bool
  pub faucets : TraceFaucets
  pub events : List EventFields
  pub sub_traced : List TraceEvent

unfoldable pub new_pubsub_tracer : List String → Bool → PsTracer
new_pubsub_tracer skiplist has_sub_tracer = record {
  skiplist = skiplist;
  has_sub_tracer = has_sub_tracer;
  faucets = new_trace_faucets;
  events = [];
  sub_traced = [];
}

unfoldable pub reset : PsTracer → PsTracer
reset t = record t { events = []; faucets = set_faucets new_trace_faucets t.faucets }

-- `shouldSkip`: the loop over the skip list.
unfoldable pub should_skip : String → List String → Bool
should_skip type [] = false
should_skip type (skip ∷ l) = type == skip || should_skip type l

unfoldable pub store_event : EventFields → PsTracer → PsTracer
store_event fields t = record t { events = t.events ++ (fields ∷ []) }

module _ (x : Texts) where
  -- `Trace`, at the time `now`.
  unfoldable pub trace : String → TraceEvent → PsTracer → PsTracer
  trace now e t =
      let counted = record t { faucets = count_event e.type t.faucets } in
      if should_skip (x.type_name e.type) t.skiplist
      then counted
      else (let stored = store_event (event_fields x now e) counted in
          if t.has_sub_tracer
          then record stored { sub_traced = t.sub_traced ++ (e ∷ []) }
          else stored)
