-- ===== src/Api/Control.antt =====
-- api/grpc/control.go: the calls that a client makes on the controller. An error becomes gRPC's
-- internal status with its text; a panic in a handler ends the node, since no interceptor recovers.
use p2pmq.Base.{ℕ, String, List, none, some}
use p2pmq.Commons.Pubsub.{PubsubConfig}
use p2pmq.Controller.Libp2p.{Libp2p}
use p2pmq.Controller.Pubsub.{
  Controller, Outcome, returns, panic, publish as ctrl_publish, subscribe as ctrl_subscribe,
  unsubscribe as ctrl_unsubscribe,
}

pub data Rpc : Type 0 where
  response crash : Rpc
  internal : String → Rpc

unfoldable pub to_rpc : Outcome → Rpc
to_rpc panic = crash
to_rpc (returns o) = elim o [ none ↦ response | some e ↦ internal e ]

module _ (p : Libp2p) (cfg : PubsubConfig) where
  unfoldable pub control_publish : String → List ℕ → Controller p → Controller p × Rpc
  control_publish topic bytes c = let (d, o) = ctrl_publish p cfg topic bytes c in (d, to_rpc o)

  unfoldable pub control_subscribe : String → Controller p → Controller p × Rpc
  control_subscribe topic c = let (d, o) = ctrl_subscribe p cfg topic c in (d, to_rpc o)

  unfoldable pub control_unsubscribe : String → Controller p → Controller p × Rpc
  control_unsubscribe topic c = let (d, o) = ctrl_unsubscribe p topic c in (d, to_rpc o)
