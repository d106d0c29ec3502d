-- ===== src/Trace/Tests.antt =====
-- A tracer that skips the type "JOIN", and the theorems on a few events.
use p2pmq.Base.{◌+◌, ◌%◌, ◌≡◌, refl, String, true, List, [], ◌∷◌, none, arith, length}
use p2pmq.Trace.Event.{EventType, publish_message, join, TraceEvent, Texts}
use p2pmq.Base.Int.{u64_mod}
use p2pmq.Trace.Tracer.{
  faucet, new_trace_faucets, PsTracer, new_pubsub_tracer, count_event, should_skip, store_event,
  trace,
}
use p2pmq.Trace.Counts.{occurrences, trace_all, faucet-trace_all}

abbrev name_of : EventType → String
name_of publish_message = "PUBLISH_MESSAGE"
name_of join = "JOIN"
name_of _ = "?"

abbrev toy : Texts
toy = record {
  type_name = name_of;
  id_from_bytes = λ bytes. ("id", true);
  encode_to_string = λ bytes. "00";
  itoa = λ n. "n";
  join_comma = λ l. ",";
}

abbrev event : EventType → TraceEvent
event type = record {
  type = type;
  peer_id = [];
  message_id = [];
  topic = "t";
  reason = "";
  peer = [];
  meta = none;
}

abbrev some_events : List (String × TraceEvent)
some_events = ("1", event join) ∷ ("2", event publish_message) ∷ ("3", event join) ∷ []

abbrev tracer : PsTracer
tracer = new_pubsub_tracer ("JOIN" ∷ []) true

-- One event of three is kept.
one_kept : length (trace_all toy some_events tracer).events ≡ 1
unfolding new_pubsub_tracer count_event should_skip store_event trace
one_kept = refl

no_joins : faucet join tracer.faucets ≡ 0
unfolding new_pubsub_tracer faucet new_trace_faucets
no_joins = refl

-- Skipped events are counted.
faucet-trace_all_example :
    faucet join (trace_all toy some_events tracer).faucets
    ≡ (faucet join tracer.faucets + occurrences join some_events) % u64_mod
faucet-trace_all_example =
    faucet-trace_all toy join some_events tracer (λ e. omega arith) (omega (arith, no_joins))
