-- ===== src/Cmd/Runs.antt =====
-- cmd/pmq/main.go: a run of the command.
use p2pmq.Base.{
  ℕ, ◌+◌, ◌≡◌, ◌<◌, ◌∙◌, ◌↔◌, inl, inr, String, Bool, true, false, List, none, some, Result, ok,
  ◌==◌, string_key, arith, Bool-cases, Result-cases,
}
use p2pmq.Base.Int.{pos}
use p2pmq.Router.Queue as R
use p2pmq.Router.Steps.{Reach}
use p2pmq.Router.Drain.{nils, loops}
use p2pmq.Router.Loops.{begun, dismissed}
use p2pmq.Setup.PubsubRouter.{RouterConfig}
use p2pmq.Setup.Discovery.{Connectedness}
use p2pmq.Setup.Node.{HostLib, HostOption, NodeConfig, Controller, new_controller}
use p2pmq.Cmd.Main.{Routers, blocks, serves, with_controller, action}
use p2pmq.Cmd.Affects.{loops-from, new_controller-IsFresh}
use p2pmq.Cmd.Serving.{
  with_config-serves, with_config-pos, with_controller-runs, looping_pair, new_pair,
}

module _ {P : Type 0} (l : HostLib P) {M E V : Type 0} (connectedness : l.AddrInfo → Connectedness)
    (works : Bool) (new_host : List (HostOption l) → Result l.Host)
    (read : String → Result (NodeConfig (RouterConfig P))) (path : String) where
  action-serves :
      (c : Controller l) (s : Routers M E V)
      → action l M E V connectedness works new_host read path ≡ serves c s
      → (q_size workers : ℕ) × (h : l.Host) × (0 < q_size)
        × (s ≡ looping_pair l q_size workers 2)
        × (c.host ≡ some h)
        × (c.stopped ≡ false)
  unfolding action
  action-serves c s e = elim (Bool-cases (path == "")) [
    | inl y ↦ absurd (ground arith)
    | inr n ↦ elim (Result-cases (read path)) [
      | inr (x, f) ↦ absurd (ground arith)
      | inl (cfg, f) ↦ with_config-serves l connectedness works new_host cfg c s (rw (n, f) at e)
    ]
  ]

  -- When the command comes to serve, then whatever steps its routers make from there, the running
  -- loops of each router, the loops that Stop has ended since and the nils that RefreshHandler has
  -- sent since are together one more than the loops that were started since and the nils that are
  -- still queued.
  pub action-loops :
      (c : Controller l) (s : Routers M E V)
      → action l M E V connectedness works new_host read path ≡ serves c s
      → {m : R.MsgRouter M E} {v : R.MsgRouter M V} (j : Reach s.msg_router m)
        (k : Reach s.val_router v)
      → (loops m + dismissed j ≡ 1 + begun j + nils m.q)
        × (loops v + dismissed k ≡ 1 + begun k + nils v.q)
  unfolding R.new_msg_router
  action-loops c s e j k =
      let (q_size, workers, h, size, eq, host, up) = action-serves c s e in
      let a = loops-from j in let b = loops-from k in (ground arith, ground arith)

  -- Where a configuration path is given, the configuration is read, its two sizes are not negative
  -- and NewController returns no error, the command blocks in RefreshRouters exactly when the
  -- queue size that was read is 0.
  pub action-blocks :
      (cfg : NodeConfig (RouterConfig P)) (q_size workers : ℕ)
      → (path == "") ≡ false
      → read path ≡ ok cfg
      → cfg.base.msg_router_queue_size ≡ pos q_size
      → cfg.base.msg_router_workers ≡ pos workers
      → (new_controller l new_host true true cfg).1 ≡ none
      → (action l M E V connectedness works new_host read path ≡ blocks) ↔ (q_size ≡ 0)
  unfolding action
  action-blocks cfg q_size workers n f q w z =
      let c = new_controller l new_host true true cfg in
      let eq : action l M E V connectedness works new_host read path
          ≡ with_controller l M E V connectedness works (new_pair l q_size workers) (c.0, none) =
        rw (n, f)
          (rw z at (
            with_config-pos l {M = M} {E = E} {V = V} connectedness works new_host cfg q_size
              workers q w)) in
      elim (with_controller-runs l {M = M} {E = E} {V = V} connectedness works new_host q_size
        workers c.0 (new_controller-IsFresh l new_host cfg)) [
          | inl (empty, r) ↦ ((λ _. empty), (λ _. eq ∙ r))
          | inr (size, inl r) ↦ ((λ e. absurd (ground arith)), (λ e. absurd (ground arith)))
          | inr (size, inr r) ↦ ((λ e. absurd (ground arith)), (λ e. absurd (ground arith)))
        ]
