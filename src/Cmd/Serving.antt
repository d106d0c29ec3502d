-- ===== src/Cmd/Serving.antt =====
-- How the command comes to serve, and with which routers.
use p2pmq.Base.{
  ℕ, ◌<◌, ◌≡◌, refl, ◌∙◌, ◌⊎◌, inl, inr, Bool, true, false, List, [], ◌∷◌, ◌++◌, none, some, Result,
  Outcome, returns, panics, All, ltb, arith, Bool-cases, Option-cases, if◌then◌else◌,
}
use p2pmq.Base.Int.{ℤ, pos, negsuc}
use p2pmq.Router.Queue as R
use p2pmq.Setup.PubsubRouter.{RouterConfig}
use p2pmq.Setup.Discovery.{Connectedness}
use p2pmq.Setup.Node.{HostLib, HostOption, NodeConfig, Controller, new_controller}
use mathlib.Core.Path.{sym}
use p2pmq.Setup.Lifecycle.{Effect, mdns_start, refresh_routers, start, start_discovery, effect_if}
use p2pmq.Cmd.Main.{
  Routers, make_router, affect, affect_all, Run, crashes, blocks, serves, then_effects,
  with_controller, with_config,
}
use p2pmq.Cmd.Affects.{
  with_loops, refresh-new, IsHarmless, All-append, harmless-affect_all, start_discovery-IsHarmless,
  IsFresh, new_controller-IsFresh, new_controller-host,
}

module _ {P : Type 0} (l : HostLib P) where
  module _ {M E V : Type 0} where
    serves-injective :
        (c d : Controller l) (r s : Routers M E V)
        → ◌≡◌ {A = Run l M E V} (serves c r) (serves d s)
        → (c ≡ d) × (r ≡ s)
    serves-injective c d r s e = (cc, cc)

    effects-last :
        (b : Bool) (es : List (Effect l.AddrInfo)) (r : Routers M E V)
        → All IsHarmless es
        → affect_all (es ++ effect_if l b mdns_start) r ≡ some r
    effects-last true es r h =
        harmless-affect_all (es ++ (mdns_start ∷ [])) r (All-append IsHarmless es _ h (tt, tt))
    effects-last false es r h = harmless-affect_all (es ++ []) r (All-append IsHarmless es [] h tt)

    abbrev started_pair : Routers M E V → Routers M E V
    started_pair r = record { msg_router = R.start r.msg_router; val_router = R.start r.val_router }

    -- `Start` of a fresh controller panics, or comes to serve with both routers started.
    start-affect :
        (connectedness : l.AddrInfo → Connectedness) (works : Bool) (c : Controller l)
        (r : Routers M E V)
        → IsFresh l c
        → (then_effects l M E V (start l connectedness works c) r serves ≡ crashes)
          ⊎ (then_effects l M E V (start l connectedness works c) r serves
              ≡ serves (record c { started = true }) (started_pair r))
    unfolding start then_effects affect_all affect
    start-affect connectedness works c r f = go (start_discovery l connectedness works c) refl
      where
        go :
            (o : Outcome (List (Effect l.AddrInfo)))
            → start_discovery l connectedness works c ≡ o
            → (then_effects l M E V (start l connectedness works c) r serves ≡ crashes)
              ⊎ (then_effects l M E V (start l connectedness works c) r serves
                  ≡ serves (record c { started = true }) (started_pair r))
        go panics d = inl (ground arith)
        go (returns es) d =
            let h =
              effects-last c.has_mdns es (started_pair r)
                (start_discovery-IsHarmless l connectedness works c es d) in
            inr (ground arith)

    abbrev pub new_pair : ℕ → ℕ → Routers M E V
    new_pair q_size workers = record {
      msg_router = R.new_msg_router q_size workers;
      val_router = R.new_msg_router q_size workers;
    }

    abbrev pub looping_pair : ℕ → ℕ → ℕ → Routers M E V
    looping_pair q_size workers n = record {
      msg_router = with_loops q_size workers n;
      val_router = with_loops q_size workers n;
    }

    refresh-affect :
        (q_size workers : ℕ) (c : Controller l) (after : Controller l → Routers M E V → Run l M E V)
        → IsFresh l c
        → then_effects l M E V (refresh_routers l c) (new_pair q_size workers) after
          ≡ (if ltb 0 q_size then after c (looping_pair q_size workers 1) else blocks)
    unfolding then_effects refresh_routers affect_all affect R.start R.new_msg_router
    refresh-affect q_size workers c after f =
        let m = refresh-new {M = M} {T = E} q_size workers in
        let v = refresh-new {M = M} {T = V} q_size workers in ground arith

    module _ (connectedness : l.AddrInfo → Connectedness) (works : Bool)
        (new_host : List (HostOption l) → Result l.Host) where
      pub with_controller-none :
          (q_size workers : ℕ) (c : Controller l)
          → IsFresh l c
          → with_controller l M E V connectedness works (new_pair q_size workers) (c, none) ≡ (
              if ltb 0 q_size
              then then_effects l M E V
                  (start l connectedness works c)
                  (looping_pair q_size workers 1)
                  serves
              else blocks)
      unfolding with_controller
      with_controller-none q_size workers c f = refresh-affect q_size workers c _ f

      pub with_config-pos :
          (cfg : NodeConfig (RouterConfig P)) (q_size workers : ℕ)
          → cfg.base.msg_router_queue_size ≡ pos q_size
          → cfg.base.msg_router_workers ≡ pos workers
          → with_config l M E V connectedness works new_host cfg
            ≡ with_controller l M E V connectedness works
                (new_pair q_size workers)
                (new_controller l new_host true true cfg)
      unfolding with_config make_router
      with_config-pos cfg q_size workers q w = rw (q, w) refl

      -- With new routers and a controller without an error the command blocks, panics or serves.
      pub with_controller-runs :
          (q_size workers : ℕ) (c : Controller l)
          → IsFresh l c
          → (let run =
                with_controller l M E V connectedness works (new_pair q_size workers) (c, none) in
              ((q_size ≡ 0) × (run ≡ blocks))
              ⊎ ((0 < q_size)
                  × ((run ≡ crashes)
                      ⊎ (run
                          ≡ serves (record c { started = true }) (looping_pair q_size workers 2)))))
      unfolding R.start
      with_controller-runs q_size workers c f =
          let k = with_controller-none q_size workers c f in
          elim (Bool-cases (ltb 0 q_size)) [
            | inr n ↦ inl (ground arith)
            | inl y ↦
                let r = start-affect connectedness works c (looping_pair q_size workers 1) f in
                inr (ground arith, ground arith)
          ]

      pub with_config-serves :
          (cfg : NodeConfig (RouterConfig P)) (c : Controller l) (s : Routers M E V)
          → with_config l M E V connectedness works new_host cfg ≡ serves c s
          → (q_size workers : ℕ) × (h : l.Host) × (0 < q_size)
            × (s ≡ looping_pair q_size workers 2)
            × (c.host ≡ some h)
            × (c.stopped ≡ false)
      unfolding with_config make_router with_controller
      with_config-serves cfg c s e =
          go cfg.base.msg_router_queue_size refl cfg.base.msg_router_workers refl
        where
          go :
              (a : ℤ)
              → cfg.base.msg_router_queue_size ≡ a
              → (b : ℤ) → cfg.base.msg_router_workers ≡ b
              → (q_size workers : ℕ) × (h : l.Host) × (0 < q_size)
                × (s ≡ looping_pair q_size workers 2)
                × (c.host ≡ some h)
                × (c.stopped ≡ false)
          go (negsuc n) x b y = absurd (ground arith)
          go (pos q_size) x (negsuc n) y = absurd (ground arith)
          go (pos q_size) x (pos workers) y =
              let made = with_config-pos cfg q_size workers x y in
              let f = new_controller-IsFresh l new_host cfg in
              elim (Option-cases (new_controller l new_host true true cfg).1) [
                | inr (m, z) ↦ absurd (ground arith)
                | inl z ↦
                    let (h, host) = new_controller-host l new_host cfg z in
                    let eq = rw z at (sym made ∙ e) in
                    elim (with_controller-runs q_size workers
                      (new_controller l new_host true true cfg).0 f) [
                        | inl r ↦ absurd (ground arith)
                        | inr (size, inl r) ↦ absurd (ground arith)
                        | inr (size, inr r) ↦
                            let same = serves-injective _ c _ s (sym r ∙ eq) in
                            (q_size, workers, h, size, sym same.1, ground arith, ground arith)
                      ]
              ]
