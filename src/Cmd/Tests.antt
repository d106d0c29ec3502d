-- ===== src/Cmd/Tests.antt =====
-- Tests of the command.
use p2pmq.Base.{ℕ, ◌+◌, ◌∷◌, ◌≡◌, refl, ok, ◌↔◌, String, [], none, true}
use p2pmq.Base.Int.{pos}
use p2pmq.Router.Queue as R
use p2pmq.Router.Steps.{step, Reach, here, next, receives}
use p2pmq.Router.Drain.{nils, loops}
use p2pmq.Router.Loops.{begun, dismissed}
use p2pmq.Setup.PubsubRouter.{RouterConfig}
use p2pmq.Setup.Discovery.{not_connected}
use p2pmq.Setup.Keys.{generate, get_or_generate_private_key}
use p2pmq.Setup.Lifecycle.{start, start_discovery, refresh_routers}
use p2pmq.Commons.Config.{config_defaults}
use p2pmq.Setup.Node.{
  NodeConfig, Controller, new_controller, host_options, conn_manager_options, discovery_options,
  setup_parts,
}
use p2pmq.Setup.Tests.{no_pubsub, plain}
use p2pmq.Cmd.Main.{
  Run, action, blocks, serves, make_router, refresh_router, affect, affect_all, then_effects,
  with_controller, with_config,
}
use p2pmq.Cmd.Runs.{action-loops, action-blocks}

program : Unit {0}
unfolding action with_config make_router with_controller then_effects affect_all affect
    refresh_router new_controller host_options conn_manager_options discovery_options setup_parts
    generate get_or_generate_private_key refresh_routers start start_discovery config_defaults
    R.new_msg_router R.refresh R.refreshed R.send R.receive R.start step
program = tt

-- A configuration with these sizes for its routers, and the command with it.
abbrev sized : ℕ → NodeConfig (RouterConfig (Unit {0}))
sized n = record plain {
  base = record { dial_timeout = pos 0; msg_router_queue_size = pos n; msg_router_workers = pos n };
  pubsub = none;
}

abbrev run : ℕ → Run no_pubsub String ℕ ℕ
run n =
    action no_pubsub String ℕ ℕ (λ a. not_connected) true (λ opts. ok tt) (λ path. ok (sized n))
      "p2pmq.json"

abbrev serving : Controller no_pubsub
serving = record (new_controller no_pubsub (λ opts. ok tt) true true (sized 1)).0 { started = true }

abbrev before : R.MsgRouter String ℕ
before = record {
  q_size = 1;
  workers = 1;
  q = none ∷ [];
  idle = 2;
  held = [];
  busy = [];
  callers = [];
  handled = [];
  submitted = 0;
}

abbrev after : R.MsgRouter String ℕ
after = record before { q = []; idle = 1 }

run_to_after : Reach before after
unfolding program
run_to_after = next here receives refl

runs : run 1 ≡ serves serving (record { msg_router = before; val_router = before })
unfolding program
runs = refl

action-loops_example :
    (loops after + dismissed run_to_after ≡ 1 + begun run_to_after + nils after.q)
    × (loops after + dismissed run_to_after ≡ 1 + begun run_to_after + nils after.q)
unfolding program
action-loops_example =
    action-loops no_pubsub (λ a. not_connected) true (λ opts. ok tt) (λ path. ok (sized 1))
      "p2pmq.json" serving (record { msg_router = before; val_router = before }) runs run_to_after
      run_to_after

action-blocks_example : (run 0 ≡ blocks) ↔ (◌≡◌ {A = ℕ} 0 0)
unfolding program
action-blocks_example =
    action-blocks no_pubsub (λ a. not_connected) true (λ opts. ok tt) (λ path. ok (sized 0))
      "p2pmq.json" (sized 0) 0 0 refl refl refl refl refl
