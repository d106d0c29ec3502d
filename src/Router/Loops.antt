-- ===== src/Router/Loops.antt =====
-- How many loops of `Start` a router has.
use p2pmq.Base.{
  ℕ, zero, suc, ◌+◌, ◌≡◌, refl, List, [], ◌∷◌, ◌++◌, Option, none, some, Option-cases, inl, inr,
  length, length-append, arith, Bool, true, false, ltb,
}
use p2pmq.Router.Queue.{
  MsgWrapper, MsgRouter, receive, dispatch_msg, finish, pick, handle, handle_wait, await, expire,
  send, start, stop, refresh, refreshed,
}
use p2pmq.Router.Steps.{
  Op, handling, handling_wait, awaiting, expiring, dispatching, finishing, receives, starts, stops,
  refreshing, refreshes, step, Reach, here, next,
}
use p2pmq.Router.Bounds.{length-pick}
use p2pmq.Router.Drain.{nils, loops}

nils-append :
    {M : Type 0} (q : List (Option (MsgWrapper M))) (m : Option (MsgWrapper M))
    → nils (q ++ (m ∷ [])) ≡ nils q + nils (m ∷ [])
nils-append [] m = omega arith
nils-append (none ∷ q) m = omega (arith, nils-append q m)
nils-append (some w ∷ q) m = nils-append q m

module _ {M T : Type 0} where
  -- The steps that begin a loop, and those that end one: a Stop now, a RefreshHandler once a loop
  -- reads its nil.
  abbrev begins : Op M T → ℕ
  begins starts = 1
  begins _ = 0

  abbrev ends : Op M T → ℕ
  ends stops = 1
  ends refreshing = 1
  ends _ = 0

  abbrev pub begun : {r s : MsgRouter M T} → Reach r s → ℕ
  begun here = 0
  begun (next k o e) = begun k + begins o

  -- How many loops Stop has ended, and how many nils RefreshHandler has sent.
  abbrev pub dismissed : {r s : MsgRouter M T} → Reach r s → ℕ
  dismissed here = 0
  dismissed (next k o e) = dismissed k + ends o

  loops-receive :
      (s t : MsgRouter M T) → receive s ≡ some t → loops t + nils s.q ≡ loops s + nils t.q
  unfolding receive
  loops-receive s t e = go s.idle refl s.q refl
    where
      go :
          (n : ℕ)
          → s.idle ≡ n
          → (q : List (Option (MsgWrapper M))) → s.q ≡ q
          → loops t + nils s.q ≡ loops s + nils t.q
      go zero i q f = absurd (ground arith)
      go (suc n) i [] f = absurd (ground arith)
      go (suc n) i (none ∷ q) f = ground arith
      go (suc n) i (some w ∷ q) f = ground (arith, length-append s.held (w ∷ []))

  loops-send :
      (m : Option (MsgWrapper M)) (s t : MsgRouter M T)
      → send m s ≡ some t
      → loops t + nils s.q + nils (m ∷ []) ≡ loops s + nils t.q
  unfolding send
  loops-send m s t e = go (ltb (length s.q) s.q_size) refl s.q refl
    where
      go :
          (b : Bool)
          → ltb (length s.q) s.q_size ≡ b
          → (q : List (Option (MsgWrapper M))) → s.q ≡ q
          → loops t + nils s.q + nils (m ∷ []) ≡ loops s + nils t.q
      go true b q f = ground (arith, nils-append s.q m)
      go false b (x ∷ xs) f = absurd (ground arith)
      go false b [] f = ground (arith, loops-receive (record s { q = m ∷ [] }) t)

  pub loops-step :
      (o : Op M T) (s t : MsgRouter M T)
      → step o s ≡ some t
      → loops t + ends o + nils s.q ≡ loops s + begins o + nils t.q
  unfolding step handle handle_wait await expire start stop refresh refreshed dispatch_msg finish
  loops-step (handling msg) s t e =
      let w : MsgWrapper M = record { number = s.submitted; msg = msg; has_callback = false } in
      elim (Option-cases (send (some w) s)) [
        | inl full ↦ ground arith
        | inr (u, z) ↦ ground (arith, loops-send (some w) s u z)
      ]
  loops-step (handling_wait msg) s t e =
      let w : MsgWrapper M = record { number = s.submitted; msg = msg; has_callback = true } in
      elim (Option-cases (send (some w) s)) [
        | inl full ↦ ground arith
        | inr (u, z) ↦ ground (arith, loops-send (some w) s u z)
      ]
  loops-step (awaiting n) s t e = ground arith
  loops-step (expiring n) s t e = ground arith
  loops-step (dispatching i) s t e = elim (Option-cases (pick i s.held)) [
    | inl z ↦ absurd (ground arith)
    | inr ((w, ws), z) ↦ ground (arith, length-pick i s.held z)
  ]
  loops-step (finishing i x) s t e = elim (Option-cases (pick i s.busy)) [
    | inl z ↦ absurd (ground arith)
    | inr ((w, ws), z) ↦ ground arith
  ]
  loops-step receives s t e = omega (arith, loops-receive s t e)
  loops-step starts s t e = ground arith
  loops-step stops s t e = ground arith
  loops-step refreshing s t e = omega (arith, loops-send none s t e)
  loops-step refreshes s t e = ground arith
