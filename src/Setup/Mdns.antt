-- ===== src/Setup/Mdns.antt =====
-- core/mdns.go: the peers that are found on the local network, on their way to `connect`. The
-- notifee has the context of `NewController`, the goroutine that of the controller's threads.
-- `HandlePeerFound` is one step here.
use p2pmq.Base.{
  Outcome, returns, panics, ℕ, ◌≡◌, Bool, true, false, List, [], ◌∷◌, ◌++◌, Option, none, some,
  length, ltb, if◌then◌else◌,
}

-- The size of `q`.
abbrev pub notifee_q_size : ℕ
notifee_q_size = 32

pub record MdnsNotifee (P : Type 0) : Type 0 where
  pub q : List P
  pub closed : Bool
  -- whether the notifee's context is done, and that of the threads, and the peers
  -- that `connect` was called for
  pub ctx_done : Bool
  pub threads_done : Bool
  pub connected : List P

pub data Op (P : Type 0) : Type 0 where
  finds : P → Op P
  takes leaves cancels closes : Op P

module _ {P : Type 0} where
  unfoldable pub setup_mdns_discovery : MdnsNotifee P
  setup_mdns_discovery = record {
    q = [];
    closed = false;
    ctx_done = false;
    threads_done = false;
    connected = [];
  }

  -- `HandlePeerFound`.
  unfoldable pub handle_peer_found : P → MdnsNotifee P → Outcome (MdnsNotifee P)
  handle_peer_found pi m =
      if m.ctx_done
      then returns m
      else if m.closed
      then panics
      else if ltb (length m.q) notifee_q_size
      then returns (record m { q = m.q ++ (pi ∷ []) })
      else returns m

  -- `case p := <-notifee.q`, and `connect`.
  unfoldable pub take_peer : MdnsNotifee P → Option (MdnsNotifee P)
  take_peer m = if m.closed then none else elim m.q [
    | [] ↦ none
    | p ∷ rest ↦ some (record m { q = rest; connected = m.connected ++ (p ∷ []) })
  ]

  -- `case <-ctx.Done()`, and the deferred `Close`.
  unfoldable pub leave : MdnsNotifee P → Option (MdnsNotifee P)
  leave m =
      if m.closed then none else if m.threads_done then some (record m { closed = true }) else none

  -- `cancels` ends the notifee's context, `closes` is the `threadControl.Close` of `Close`.
  unfoldable pub step : Op P → MdnsNotifee P → Option (Outcome (MdnsNotifee P))
  step (finds pi) m = some (handle_peer_found pi m)
  step takes m = elim (take_peer m) [ none ↦ none | some t ↦ some (returns t) ]
  step leaves m = elim (leave m) [ none ↦ none | some t ↦ some (returns t) ]
  step cancels m = some (returns (record m { ctx_done = true }))
  step closes m = some (returns (record m { threads_done = true }))

  pub data Reach (r : MdnsNotifee P) : MdnsNotifee P → Type 0 where
    here : Reach r r
    next : {s t : MdnsNotifee P} → Reach r s → (o : Op P) → step o s ≡ some (returns t) → Reach r t
