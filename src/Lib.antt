-- ===== src/Lib.antt =====
-- p2pmq is a messaging node over libp2p's gossipsub. A controller joins topics, publishes,
-- subscribes and relays; its subscriptions hand messages to a message router, and its topic
-- validators wait for the answer of a validation router; each router is a bounded queue with a
-- bounded number of handlers. A gRPC API passes the controller's calls on and streams the
-- routers' messages to clients, whose answers resolve the validations. The BLS example is a
-- client: nodes that sign reports, verify and collect the signatures of others and publish a
-- report once enough have signed.
--
-- Base: shared tests, lists, association lists with a decidable key, signed integers. Go's maps
--   are association lists with `lookup` and `insert`; `int` and `time.Duration` are Base.Int.ℤ; a
--   `uint64` is a number below 2^64, with its wrap-around written out.
-- Gossip: core/gossip/msg_id.go (MsgId), with the hash as a parameter, and core/gossip/params.go
--   (Params), with libp2p's defaults as a parameter, and core/gossip/scoring.go (Scores). Ids is
--   proofs.
-- Commons: commons/config.go (Config) and commons/config_pubsub.go (Pubsub, and Scoring: the
--   scoring parameters and their translation, with float64 as a parameter), the configurations
--   that the modelled code reads, and their defaults.
-- Controller: core/topic.go (Topics: the topic manager, its state and its operations) and
--   core/pubsub.go (Pubsub: Publish, Leave, Unsubscribe, Subscribe, Relay, Unrelay, tryJoin,
--   trySubscribe). A call is a function from a controller to a controller and an outcome: a
--   returned error, nil, or a panic. Libp2p is what the calls use of go-libp2p-pubsub, a record
--   of parameters with a state of its own, and IsNaming the one thing that the proofs ask of it:
--   a joined handle has the name that it was joined with. Calls is the relation of what calls
--   reach, one after the other; the log lines are not modelled. Listening has listenSubscription
--   and validateMsg. Joining has calls of tryJoin that run at the same time, on a heap of
--   wrappers, in steps between which another call can run; its children are proofs (Moves: what
--   each step does; Represents and Alone: a call that runs alone is the call as one step; Owned
--   and Handles: every order of steps; Races: orders that go wrong). Only tryJoin is modelled in
--   steps. Heard, Invariant, Join, Steps, Frame, Lifecycle, Panics and Subscriptions are proofs.
--   Unset has the calls of a controller without pubsub.
-- Router: core/router.go (Queue: msgRouter with its queue, its loops of Start, its worker slots,
--   and the callers of HandleWait; Steps: one step is what a goroutine does up to the next point
--   where it can be interrupted, and runs are steps in any order). A handler is not modelled,
--   only that it returns an answer. Accounts, Bounds, Callers, Lost, Loops, Work and Drain are
--   proofs.
-- Api: api/grpc/msg_router.go and api/grpc/val_router.go (Outbox: the queue of messages and the
--   streams that empty it, which both servers share; ValRouter: PushWait and the pending
--   results), api/grpc/control.go (Control). The streams are gRPC's; that a send fails or a
--   client answers is a step. Moves, Linked, Order, Answers, Orphans and Duplicates are proofs.
--   Client has api/grpc/client/consumer.go (Consumer), verifier.go (Verifier) and a validation
--   router with such a verifier (Session); Flow, Verifying, Delivered and Judged are proofs.
-- Trace: core/pubsub_trace.go (Event: libp2p's events and the texts that Go and libp2p make,
--   which are parameters; Fields: what Trace collects of an event; Tracer: the tracer). Counts is
--   proofs.
-- Bls: examples/bls (ReportBuffer: reportbuf.go; Share: share.go and reconstruct.go; Gen: gen.go;
--   Node, Nodes and InternalNet: node.go and node_internalnet.go; Report: report.go). Crypto is
--   the signature scheme, a record of parameters; IsScheme in Recovered is what the one theorem
--   that needs it asks of it. InternalNet has the goroutines that a message starts run to their
--   end one after the other; Goroutines has those of one network as steps that interleave, and
--   Racing is proofs on them. History specifies the report buffer by all that was added to it.
--   Refine, Ring, Window, Sequence, Quorum, Signing, Slot, Signs, Once, Shares, Collected,
--   Recovered and Published are proofs.
-- Don: examples/don (Report: report.go and signer_ocr.go; ReportBuffer: reportbuf.go; Verifier:
--   verifier.go; Node: node.go, transmitter.go and localdon.go). The keyring, a copy of libocr,
--   JSON and Sprintf are the record Ocr of parameters. A panic is an outcome. Accepted, Signed
--   and Negative are proofs.
-- Setup: core/ctrl.go (Node: NewController and setup; Lifecycle: Start, Close and RefreshRouters,
--   as the effects that they have), core/dht.go and conn.go (Discovery), core/mdns.go (Mdns),
--   setupPubsubRouter of core/pubsub.go (PubsubRouter), commons/net.go and io.go (Keys). Found
--   and Created are proofs.
-- Cmd: cmd/pmq/main.go (Main: the action, with RefreshRouters as a call that can block). Affects,
--   Serving and Runs are proofs.
--
-- Loops are recursions on a list; no definition uses fuel. Not modelled: what libp2p and gRPC do,
-- the JSON encodings, log lines, and the helpers for goroutines of commons/utils.
pub mod Base
pub mod Proto
pub mod Gossip
pub mod Commons
pub mod Don
pub mod Setup
pub mod Controller
pub mod Router
pub mod Api
pub mod Trace
pub mod Bls
pub mod Cmd
