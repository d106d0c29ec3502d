-- ===== src/Setup/Lifecycle.antt =====
-- core/ctrl.go: Start, Close and RefreshRouters, as the effects that they have in order. Logging is left
-- out, and so is how a goroutine that is started goes on.
use p2pmq.Base.{
  Outcome, returns, panics, Bool, true, List, [], ◌∷◌, ◌++◌, none, some, ok, err, if◌then◌else◌,
}
use p2pmq.Setup.Discovery.{Connectedness, connect}
use p2pmq.Setup.Node.{HostLib, Controller, parse_discovery_config}

-- What a call does outside the controller.
pub data Effect (A : Type 0) : Type 0 where
  start_msg_router start_val_router refresh_msg_router refresh_val_router : Effect A
  dials : A → Effect A
  dht_bootstrap mdns_start threads_close dht_close mdns_close host_close : Effect A

module _ {P : Type 0} (l : HostLib P) where
  abbrev pub Call : Type 0
  Call = Outcome (Controller l × List (Effect l.AddrInfo))

  abbrev pub effect_if : Bool → Effect l.AddrInfo → List (Effect l.AddrInfo)
  effect_if b e = if b then e ∷ [] else []

  -- `connect` for each bootstrapper.
  unfoldable pub dial_all :
      (l.AddrInfo → Connectedness) → List l.AddrInfo → List (Effect l.AddrInfo)
  dial_all connectedness [] = []
  dial_all connectedness (b ∷ bs) =
      let rest = dial_all connectedness bs in
      elim (connect connectedness b) [ none ↦ rest | some pi ↦ dials pi ∷ rest ]

  -- The part of `Start` on discovery; a panic where the addresses do not parse, where there is no
  -- DHT (a method of nil) or where it does not start.
  unfoldable pub start_discovery :
      (l.AddrInfo → Connectedness)
      → (bootstrap_works : Bool) → Controller l
      → Outcome (List (Effect l.AddrInfo))
  start_discovery connectedness bootstrap_works c = elim c.cfg.discovery [
    | none ↦ returns []
    | some d ↦ elim (parse_discovery_config l d).1 [
      | err e ↦ panics
      | ok bns ↦
          if c.has_dht
          then (if bootstrap_works
              then returns (dial_all connectedness bns ++ (dht_bootstrap ∷ []))
              else panics)
          else panics
    ]
  ]

  -- `Start`, once.
  unfoldable pub start : (l.AddrInfo → Connectedness) → Bool → Controller l → Call
  start connectedness bootstrap_works c =
      if c.started
      then returns (c, [])
      else elim (start_discovery connectedness bootstrap_works c) [
        | panics ↦ panics
        | returns effects ↦ returns (
          record c { started = true },
          effect_if c.has_msg_router start_msg_router
              ++ effect_if c.has_val_router start_val_router
              ++ effects
              ++ effect_if c.has_mdns mdns_start,
        )
      ]

  -- `Close`, once; `c.host.ID()` panics on the nil host.
  unfoldable pub close : Controller l → Call
  close c = if c.stopped then returns (c, []) else elim c.host [
    | none ↦ panics
    | some h ↦ returns (
      record c { stopped = true },
      (threads_close ∷ [])
          ++ effect_if c.has_dht dht_close
          ++ effect_if c.has_mdns mdns_close
          ++ (host_close ∷ []),
    )
  ]

  unfoldable pub refresh_routers : Controller l → Call
  refresh_routers c = returns (
    c,
    (if c.has_val_router then refresh_val_router ∷ start_val_router ∷ [] else [])
        ++ (if c.has_msg_router then refresh_msg_router ∷ start_msg_router ∷ [] else []),
  )
