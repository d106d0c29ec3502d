-- ===== src/Trace/Counts.antt =====
-- What the tracer counts and records.
use p2pmq.Base.{
  ℕ, suc, ◌+◌, ◌%◌, ◌≡◌, ◌≢◌, ◌<◌, refl, String, List, [], ◌∷◌, if◌then◌else◌, string_key,
  Bool-cases, inl, inr, arith, eqb, ◌∙◌, ap,
}
use p2pmq.Trace.Event.{
  EventType, publish_message, reject_message, duplicate_message, deliver_message, add_peer,
  remove_peer, join, leave, graft, prune, send_rpc, drop_rpc, recv_rpc, other, TraceEvent, Texts,
}
use p2pmq.Base.Int.{u64_mod}
use p2pmq.Trace.Tracer.{
  TraceFaucets, faucet, count_event, PsTracer, should_skip, store_event, trace,
}

-- The number of a type, 0 for all that none of the counters is for.
abbrev pub code : EventType → ℕ
code publish_message = 1
code reject_message = 2
code duplicate_message = 3
code deliver_message = 4
code add_peer = 5
code remove_peer = 6
code join = 7
code leave = 8
code graft = 9
code prune = 10
code send_rpc = 11
code drop_rpc = 12
code recv_rpc = 13
code (other n) = 0

-- How many of several events have a type that is counted.
abbrev pub occurrences : EventType → List (String × TraceEvent) → ℕ
occurrences type [] = 0
occurrences type ((now, e) ∷ l) =
    let rest = occurrences type l in if eqb (code type) (code e.type) then suc rest else rest

-- The counter of each type after an event.
faucet-count_event :
    (type seen : EventType) (tf : TraceFaucets)
    → faucet type (count_event seen tf) ≡ (
        if eqb (code type) (code seen)
        then (if eqb (code type) 0 then 0 else (faucet type tf + 1) % u64_mod)
        else faucet type tf)
unfolding faucet count_event
faucet-count_event type seen tf = ground arith

module _ (x : Texts) where
  abbrev pub trace_all : List (String × TraceEvent) → PsTracer → PsTracer
  trace_all [] t = t
  trace_all ((now, e) ∷ l) t = trace_all l (trace x now e t)

  faucets-trace :
      (now : String) (e : TraceEvent) (t : PsTracer)
      → (trace x now e t).faucets ≡ count_event e.type t.faucets
  unfolding trace store_event
  faucets-trace now e t = elim (Bool-cases (should_skip (x.type_name e.type) t.skiplist)) [
    | inl skipped ↦ rw (skipped, trace) refl
    | inr whole ↦ rw (whole, trace) (ground arith)
  ]

  faucet-trace :
      (type : EventType) (now : String) (e : TraceEvent) (t : PsTracer)
      → code type ≢ 0
      → faucet type (trace x now e t).faucets ≡ (
          if eqb (code type) (code e.type)
          then (faucet type t.faucets + 1) % u64_mod
          else faucet type t.faucets)
  faucet-trace type now e t counted =
      ap (faucet type) (faucets-trace now e t)
      ∙ ground (arith, faucet-count_event type e.type t.faucets, counted)

  -- After any events, the counter of a type that has one is what it was plus the number of events
  -- of that type, modulo 2^64: neither the skip list nor the sub-tracer hides an event from it.
  pub faucet-trace_all :
      (type : EventType) (l : List (String × TraceEvent)) (t : PsTracer)
      → code type ≢ 0
      → faucet type t.faucets < u64_mod
      → faucet type (trace_all l t).faucets ≡ (faucet type t.faucets + occurrences type l) % u64_mod
  faucet-trace_all type [] t counted small = omega (arith, small)
  faucet-trace_all type ((now, e) ∷ l) t counted small =
      faucet-trace_all type l (trace x now e t) counted
        (ground (arith, faucet-trace type now e t counted, small))
      ∙ ground (arith, faucet-trace type now e t counted, small)
