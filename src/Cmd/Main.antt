-- ===== src/Cmd/Main.antt =====
-- cmd/pmq/main.go: what the command does up to where it serves gRPC, and after. The flags, the
-- loggers and gRPC are left out; that RefreshRouters blocks is an outcome.
use p2pmq.Base.{
  String, Bool, true, List, [], ◌∷◌, Option, none, some, Result, ok, err, Outcome, returns, panics,
  wrapped, ◌==◌, if◌then◌else◌, string_key,
}
use p2pmq.Base.Int.{ℤ, pos, negsuc}
use p2pmq.Router.Queue as R
use p2pmq.Setup.PubsubRouter.{RouterConfig}
use p2pmq.Setup.Discovery.{Connectedness}
use p2pmq.Setup.Node.{HostLib, HostOption, NodeConfig, Controller, new_controller}
use p2pmq.Setup.Lifecycle.{
  Effect, start_msg_router, start_val_router, refresh_msg_router, refresh_val_router,
  refresh_routers, start, close,
}

-- The two routers; `M` is a message, and `E` and `V` are what their handlers answer.
pub record Routers (M E V : Type 0) : Type 0 where
  pub msg_router : R.MsgRouter M E
  pub val_router : R.MsgRouter M V

-- `NewMsgRouter` with the configuration's sizes; `make` panics on a negative one.
unfoldable pub make_router : {M T : Type 0} → ℤ → ℤ → Outcome (R.MsgRouter M T)
make_router (pos q_size) (pos workers) = returns (R.new_msg_router q_size workers)
make_router (pos q_size) (negsuc n) = panics
make_router (negsuc m) workers = panics

-- `RefreshHandler`: nil is sent, and the handlers that run are waited for.
unfoldable pub refresh_router : {M T : Type 0} → R.MsgRouter M T → Option (R.MsgRouter M T)
refresh_router r = elim (R.refresh r) [ none ↦ none | some s ↦ R.refreshed s ]

module _ {M E V A : Type 0} where
  -- What an effect of the controller does to the routers; `none` where it blocks.
  unfoldable pub affect : Effect A → Routers M E V → Option (Routers M E V)
  affect start_msg_router r = some (record r { msg_router = R.start r.msg_router })
  affect start_val_router r = some (record r { val_router = R.start r.val_router })
  affect refresh_msg_router r = elim (refresh_router r.msg_router) [
    | none ↦ none
    | some m ↦ some (record r { msg_router = m })
  ]
  affect refresh_val_router r = elim (refresh_router r.val_router) [
    | none ↦ none
    | some v ↦ some (record r { val_router = v })
  ]
  affect _ r = some r

  unfoldable pub affect_all : List (Effect A) → Routers M E V → Option (Routers M E V)
  affect_all [] r = some r
  affect_all (e ∷ es) r = elim (affect e r) [ none ↦ none | some s ↦ affect_all es s ]

module _ {P : Type 0} (l : HostLib P) (M E V : Type 0) where
  -- It returns an error, panics, blocks, or comes to serve.
  pub data Run : Type 0 where
    fails : String → Run
    crashes blocks : Run
    serves : Controller l → Routers M E V → Run

  -- The effects of a call of the controller, and what comes next.
  unfoldable pub then_effects :
      Outcome (Controller l × List (Effect l.AddrInfo))
      → Routers M E V
      → (Controller l → Routers M E V → Run)
      → Run
  then_effects panics r next = crashes
  then_effects (returns (c, es)) r next = elim (affect_all es r) [
    | none ↦ blocks
    | some s ↦ next c s
  ]

  module _ (connectedness : l.AddrInfo → Connectedness) (bootstrap_works : Bool) where
    -- `RefreshRouters`, then `Start`.
    unfoldable pub with_controller : Routers M E V → Controller l × Option String → Run
    with_controller r (c, some e) = fails e
    with_controller r (c, none) =
        then_effects (refresh_routers l c) r
          (λ c' s. then_effects (start l connectedness bootstrap_works c') s serves)

    module _ (new_host : List (HostOption l) → Result l.Host) where
      unfoldable pub with_config : NodeConfig (RouterConfig P) → Run
      with_config cfg =
          elim (make_router cfg.base.msg_router_queue_size cfg.base.msg_router_workers) [
            | panics ↦ crashes
            | returns msg ↦
                elim (make_router cfg.base.msg_router_queue_size cfg.base.msg_router_workers) [
                  | panics ↦ crashes
                  | returns val ↦
                      with_controller (record { msg_router = msg; val_router = val })
                        (new_controller l new_host true true cfg)
                ]
          ]

      -- The action, over `ReadConfig`.
      unfoldable pub action : (String → Result (NodeConfig (RouterConfig P))) → String → Run
      action read cfg_path =
          if cfg_path == "" then fails "missing config file" else elim (read cfg_path) [
            | err e ↦ fails (wrapped "failed to read config file" e)
            | ok cfg ↦ with_config cfg
          ]

module _ {P : Type 0} (l : HostLib P) where
  -- `ListenGrpc` has returned, and the deferred `Close` runs.
  unfoldable pub stop_serving :
      Option String → Controller l → Outcome (List (Effect l.AddrInfo) × Option String)
  stop_serving listen_error c = elim (close l c) [
    | panics ↦ panics
    | returns (c', es) ↦ returns (es, listen_error)
  ]
