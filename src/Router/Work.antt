-- ===== src/Router/Work.antt =====
-- What is left for a router to do that nothing is submitted to.
use p2pmq.Base.{
  ℕ, zero, suc, ◌+◌, ◌*◌, ◌≤◌, ◌<◌, ◌≡◌, refl, List, [], ◌∷◌, Option, none, some, Option-cases, inl,
  inr, length, length-append, arith,
}
use p2pmq.Router.Queue.{MsgWrapper, MsgRouter, receive, dispatch_msg, finish, pick}
use p2pmq.Router.Steps.{dispatching, finishing, receives, step}
use p2pmq.Router.Bounds.{length-pick}

module _ {M T : Type 0} where
  -- What is left to do, counted in steps: a queued message is received, dispatched and handled.
  abbrev pub work : MsgRouter M T → ℕ
  work r = 3 * length r.q + 2 * length r.held + length r.busy

  -- The router's own steps, which need no caller: some loop receives or dispatches, or some
  -- handler returns. The number is that of the steps.
  pub data Works (r : MsgRouter M T) : ℕ → MsgRouter M T → Type 0 where
    rest : Works r 0 r
    received :
        {k : ℕ} {s t : MsgRouter M T} → Works r k s → step receives s ≡ some t → Works r (suc k) t
    dispatched :
        {k : ℕ} {s t : MsgRouter M T}
        → Works r k s
        → (i : ℕ) → step (dispatching i) s ≡ some t
        → Works r (suc k) t
    finished :
        {k : ℕ} {s t : MsgRouter M T}
        → Works r k s
        → (i : ℕ) (x : T) → step (finishing i x) s ≡ some t
        → Works r (suc k) t

  work-receive : (s t : MsgRouter M T) → step receives s ≡ some t → work t < work s
  unfolding step receive
  work-receive s t e = go s.idle refl s.q refl
    where
      go : (n : ℕ) → s.idle ≡ n → (q : List (Option (MsgWrapper M))) → s.q ≡ q → work t < work s
      go zero i q f = absurd (ground arith)
      go (suc n) i [] f = absurd (ground arith)
      go (suc n) i (none ∷ q) f = ground arith
      go (suc n) i (some w ∷ q) f = ground (arith, length-append s.held (w ∷ []))

  work-dispatch_msg :
      (i : ℕ) (s t : MsgRouter M T) → step (dispatching i) s ≡ some t → work t < work s
  unfolding step dispatch_msg
  work-dispatch_msg i s t e = elim (Option-cases (pick i s.held)) [
    | inl z ↦ absurd (ground arith)
    | inr ((w, ws), z) ↦ ground (arith, length-append s.busy (w ∷ []), length-pick i s.held z)
  ]

  work-finish :
      (i : ℕ) (x : T) (s t : MsgRouter M T) → step (finishing i x) s ≡ some t → work t < work s
  unfolding step finish
  work-finish i x s t e = elim (Option-cases (pick i s.busy)) [
    | inl z ↦ absurd (ground arith)
    | inr ((w, ws), z) ↦ ground (arith, length-pick i s.busy z)
  ]

  -- A router to which nobody sends cannot run for ever: in any run of receives, dispatches and
  -- finished handlers, the number of steps and the work that is left at the end are at most the
  -- work at the start, which counts three steps for a queued message, two for one that is held and
  -- one for a running handler.
  pub Works-le-work : {r s : MsgRouter M T} {k : ℕ} → Works r k s → k + work s ≤ work r
  Works-le-work rest = omega arith
  Works-le-work (received {s = s} {t = t} w e) = omega (arith, Works-le-work w, work-receive s t e)
  Works-le-work (dispatched {s = s} {t = t} w i e) =
      omega (arith, Works-le-work w, work-dispatch_msg i s t e)
  Works-le-work (finished {s = s} {t = t} w i x e) =
      omega (arith, Works-le-work w, work-finish i x s t e)
