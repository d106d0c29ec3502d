-- ===== src/Setup/Found.antt =====
-- When a peer that is found panics.
use p2pmq.Base.{
  returns, panics, ◌≡◌, ◌≢◌, Bool, true, false, List, [], ◌∷◌, some, arith, refl, inl, inr, ◌⊎◌,
}
use p2pmq.Setup.Mdns.{
  MdnsNotifee, setup_mdns_discovery, handle_peer_found, take_peer, leave, Op, finds, takes, leaves,
  cancels, closes, step, Reach, here, next,
}

module _ {P : Type 0} where
  step_closed :
      (o : Op P) (s t : MdnsNotifee P)
      → step o s ≡ some (returns t)
      → (s.closed ≡ true → s.threads_done ≡ true)
      → t.closed ≡ true
      → t.threads_done ≡ true
  unfolding step handle_peer_found take_peer leave
  step_closed (finds pi) s t e h c = ground arith
  step_closed takes s t e h c = go s.q refl
    where
      go : (q : List P) → s.q ≡ q → t.threads_done ≡ true
      go [] f = absurd (ground arith)
      go (p ∷ rest) f = ground arith
  step_closed leaves s t e h c = ground arith
  step_closed cancels s t e h c = ground arith
  step_closed closes s t e h c = ground arith

  Reach_closed :
      {s : MdnsNotifee P} → Reach setup_mdns_discovery s → s.closed ≡ true → s.threads_done ≡ true
  unfolding setup_mdns_discovery
  Reach_closed here c = absurd (ground arith)
  Reach_closed (next {s = s} {t = t} k o e) c = step_closed o s t e (Reach_closed k) c

  Reach_trans : {r s t : MdnsNotifee P} → Reach r s → Reach s t → Reach r t
  Reach_trans k here = k
  Reach_trans k (next l o e) = next (Reach_trans k l) o e

  -- In every state that the local discovery reaches while the context of NewController is not
  -- done, a peer that is found does not panic unless Close has ended the controller's threads; and
  -- from every such state Close leads to one in which the next peer that is found panics, by a
  -- send on the channel that the goroutine closed.
  pub found_after_close :
      {s : MdnsNotifee P} (pi : P)
      → Reach setup_mdns_discovery s
      → s.ctx_done ≡ false
      → ((s.threads_done ≡ true) ⊎ (handle_peer_found pi s ≢ panics))
        × ((t : MdnsNotifee P) × Reach s t × (handle_peer_found pi t ≡ panics))
  unfolding handle_peer_found leave step
  found_after_close {s} pi k active = (calm s.threads_done refl, after s.closed refl)
    where
      calm :
          (b : Bool)
          → s.threads_done ≡ b
          → (s.threads_done ≡ true) ⊎ (handle_peer_found pi s ≢ panics)
      calm true e = inl e
      calm false e = inr (λ f. absurd (ground (arith, Reach_closed k)))

      after :
          (b : Bool)
          → s.closed ≡ b
          → (t : MdnsNotifee P) × Reach s t × (handle_peer_found pi t ≡ panics)
      after true e = (s, here, ground arith)
      after false e = (
        record s { threads_done = true; closed = true },
        next (next here closes refl) leaves (ground arith),
        ground arith,
      )
