-- ===== src/Cmd/Affects.antt =====
-- What the effects of the controller do to the routers of the command.
use p2pmq.Base.{
  ℕ, ◌+◌, ◌≡◌, refl, inl, inr, Bool, true, false, List, [], ◌∷◌, ◌++◌, Option, none, some, Result,
  returns, All, ltb, arith, Option-cases, Result-cases, if◌then◌else◌,
}
use p2pmq.Router.Queue as R
use p2pmq.Router.Steps.{Reach, here, next}
use p2pmq.Router.Drain.{nils, loops}
use p2pmq.Router.Loops.{begun, dismissed, loops-step}
use p2pmq.Setup.PubsubRouter.{RouterConfig}
use p2pmq.Setup.Discovery.{Connectedness, connect}
use p2pmq.Setup.Node.{
  HostLib, HostOption, NodeConfig, Controller, new_controller, setup_parts, parse_discovery_config,
}
use mathlib.Core.Path.{subst}
use p2pmq.Setup.Lifecycle.{
  Effect, start_msg_router, dials, dht_bootstrap, mdns_start, start_discovery, dial_all,
}
use p2pmq.Cmd.Main.{Routers, refresh_router, affect, affect_all}

-- Between two states of a router the loops change with the starts, the ends and the nils.
pub loops-from :
    {M T : Type 0} {r s : R.MsgRouter M T} (k : Reach r s)
    → loops s + dismissed k + nils r.q ≡ loops r + begun k + nils s.q
loops-from here = omega arith
loops-from (next {s = s} {t = t} k o e) = omega (arith, loops-from k, loops-step o s t e)

-- A new router, with the nil of RefreshHandler and the loops that calls of Start began.
abbrev pub with_loops : {M T : Type 0} → ℕ → ℕ → ℕ → R.MsgRouter M T
with_loops q_size workers n = record (R.new_msg_router q_size workers) { q = none ∷ []; idle = n }

pub refresh-new :
    {M T : Type 0} (q_size workers : ℕ)
    → ◌≡◌ {A = Option (R.MsgRouter M T)} (refresh_router (R.new_msg_router q_size workers)) (
        if ltb 0 q_size
        then some (record (R.new_msg_router q_size workers) { q = none ∷ [] })
        else none)
unfolding refresh_router R.refresh R.refreshed R.send R.receive R.new_msg_router
refresh-new q_size workers = ground arith

-- What does nothing to the routers, among the effects of `Start`.
abbrev pub IsHarmless : {A : Type 0} → Effect A → Type 0
IsHarmless (dials a) = Unit
IsHarmless dht_bootstrap = Unit
IsHarmless mdns_start = Unit
IsHarmless _ = ⊥

pub All-append :
    {A : Type 0} (P : A → Type 0) (es fs : List A) → All P es → All P fs → All P (es ++ fs)
All-append P [] fs h k = k
All-append P (e ∷ es) fs h k = (h.0, All-append P es fs h.1 k)

module _ {M E V A : Type 0} where
  harmless-affect : (e : Effect A) (r : Routers M E V) → IsHarmless e → affect e r ≡ some r
  unfolding affect
  harmless-affect (dials a) r h = refl
  harmless-affect dht_bootstrap r h = refl
  harmless-affect mdns_start r h = refl
  harmless-affect start_msg_router r h = absurd h
  harmless-affect _ r h = absurd h

  pub harmless-affect_all :
      (es : List (Effect A)) (r : Routers M E V) → All IsHarmless es → affect_all es r ≡ some r
  unfolding affect_all
  harmless-affect_all [] r h = refl
  harmless-affect_all (e ∷ es) r h =
      rw (harmless-affect e r h.0, affect_all) (harmless-affect_all es r h.1)

module _ {P : Type 0} (l : HostLib P) where
  pub dial_all-IsHarmless :
      (connectedness : l.AddrInfo → Connectedness) (bs : List l.AddrInfo)
      → All IsHarmless (dial_all l connectedness bs)
  unfolding dial_all
  dial_all-IsHarmless connectedness [] = tt
  dial_all-IsHarmless connectedness (b ∷ bs) = elim (Option-cases (connect connectedness b)) [
    | inl e ↦ rw (e, dial_all) (dial_all-IsHarmless connectedness bs)
    | inr (pi, e) ↦ rw (e, dial_all) (tt, dial_all-IsHarmless connectedness bs)
  ]

  pub start_discovery-IsHarmless :
      (connectedness : l.AddrInfo → Connectedness) (works : Bool) (c : Controller l)
      (es : List (Effect l.AddrInfo))
      → start_discovery l connectedness works c ≡ returns es
      → All IsHarmless es
  unfolding start_discovery
  start_discovery-IsHarmless connectedness works c es e = elim (Option-cases c.cfg.discovery) [
    | inl n ↦ let eq : [] ≡ es = ground arith in subst (All IsHarmless) eq tt
    | inr (d, n) ↦ elim (Result-cases (parse_discovery_config l d).1) [
      | inr (x, f) ↦ absurd (ground arith)
      | inl (bns, f) ↦
          let eq : (dial_all l connectedness bns ++ (dht_bootstrap ∷ [])) ≡ es = ground arith in
          subst (All IsHarmless) eq (
            All-append IsHarmless (dial_all l connectedness bns) (dht_bootstrap ∷ [])
              (dial_all-IsHarmless connectedness bns) (tt, tt))
    ]
  ]

  -- What the controller of the command is like when the routers are refreshed.
  abbrev pub IsFresh : Controller l → Type 0
  IsFresh c =
      (c.has_msg_router ≡ true)
      × (c.has_val_router ≡ true)
      × (c.started ≡ false)
      × (c.stopped ≡ false)

  pub new_controller-IsFresh :
      (new_host : List (HostOption l) → Result l.Host) (cfg : NodeConfig (RouterConfig P))
      → IsFresh (new_controller l new_host true true cfg).0
  unfolding new_controller setup_parts
  new_controller-IsFresh new_host cfg = ground arith

  -- A controller without an error has a host.
  pub new_controller-host :
      (new_host : List (HostOption l) → Result l.Host) (cfg : NodeConfig (RouterConfig P))
      → (new_controller l new_host true true cfg).1 ≡ none
      → (h : l.Host) × ((new_controller l new_host true true cfg).0.host ≡ some h)
  unfolding new_controller setup_parts
  new_controller-host new_host cfg e =
      elim (Option-cases (new_controller l new_host true true cfg).0.host) [
        | inl n ↦ absurd (ground arith)
        | inr h ↦ h
      ]
