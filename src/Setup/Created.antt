-- ===== src/Setup/Created.antt =====
-- What NewController leaves to be closed.
use p2pmq.Base.{
  returns, panics, ◌≡◌, ◌≢◌, refl, sym, ◌∙◌, ◌⊎◌, inl, inr, String, Bool, true, false, List, [],
  ◌∷◌, ◌++◌, Option, none, some, Result, Result-cases, arith,
}
use mathlib.Core.List.{append_assoc}
use mathlib.Core.Path.{subst}
use p2pmq.Setup.PubsubRouter.{RouterConfig}
use p2pmq.Setup.Node.{
  HostLib, NodeConfig, Controller, HostOption, host_options, setup_parts, new_controller, bare,
}
use p2pmq.Setup.Lifecycle.{
  Effect, threads_close, dht_close, mdns_close, host_close, effect_if, close,
}

module _ {P : Type 0} (l : HostLib P) where
  -- Closed in order.
  abbrev pub ClosesInOrder : Controller l → Type 0
  ClosesInOrder c =
      (between : List (Effect l.AddrInfo)) × (close l c
        ≡ returns (record c { stopped = true }, threads_close ∷ between ++ (host_close ∷ [])))

  hosted_closes :
      (c : Controller l) (h : l.Host) → c.host ≡ some h → c.stopped ≡ false → ClosesInOrder c
  unfolding close
  hosted_closes c h e f = (
    effect_if l c.has_dht dht_close ++ effect_if l c.has_mdns mdns_close,
    ground (
      arith,
      e,
      f,
      append_assoc (effect_if l c.has_dht dht_close) (effect_if l c.has_mdns mdns_close)
          (host_close ∷ []),
    ),
  )

  setup_parts-host :
      (h : l.Host) (c : Controller l)
      → ((setup_parts l h c).0.host ≡ some h) × ((setup_parts l h c).0.stopped ≡ c.stopped)
  unfolding setup_parts
  setup_parts-host h c = (ground arith, ground arith)

  -- The controller closes in order, or came with an error and does not close.
  abbrev pub IsClosable : Controller l × Option String → Type 0
  IsClosable (c, e) = ClosesInOrder c ⊎ ((e ≢ none) × (close l c ≡ panics))

  bare-IsClosable :
      (msg_router val_router : Bool) (cfg : NodeConfig (RouterConfig P)) (e : String)
      → IsClosable (bare l msg_router val_router cfg, some e)
  unfolding close
  bare-IsClosable msg_router val_router cfg e = inr ((λ z. ground arith), refl)

  hosted-IsClosable :
      (h : l.Host) (c : Controller l) → c.stopped ≡ false → IsClosable (setup_parts l h c)
  hosted-IsClosable h c fresh =
      let (made, same) = setup_parts-host h c in
      inl (hosted_closes (setup_parts l h c).0 h made (same ∙ fresh))

  -- For every configuration and whatever libp2p answers, the controller that NewController returns
  -- either has a host, so that Close ends the threads first and closes the host last, or comes
  -- with an error and panics in Close.
  pub new_controller-IsClosable :
      (new_host : List (HostOption l) → Result l.Host) (msg_router val_router : Bool)
      (cfg : NodeConfig (RouterConfig P))
      → IsClosable (new_controller l new_host msg_router val_router cfg)
  unfolding new_controller
  new_controller-IsClosable new_host msg_router val_router cfg =
      elim (Result-cases (host_options l cfg)) [
        | inr (e, f) ↦
            subst IsClosable (sym (rw (f, new_controller) refl))
              (bare-IsClosable msg_router val_router cfg e)
        | inl (opts, f) ↦ elim (Result-cases (new_host opts)) [
          | inr (e, g) ↦
              subst IsClosable (sym (rw (f, new_controller) (rw g refl)))
                (bare-IsClosable msg_router val_router cfg e)
          | inl (h, g) ↦
              subst IsClosable (sym (rw (f, new_controller) (rw g refl)))
                (hosted-IsClosable h (bare l msg_router val_router cfg) refl)
        ]
      ]
