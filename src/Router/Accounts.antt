-- ===== src/Router/Accounts.antt =====
-- Where each accepted message is.
use p2pmq.Base.{
  ℕ, zero, suc, ◌+◌, ◌≡◌, refl, true, false, List, [], ◌∷◌, ◌++◌, Option, none, some, ltb, eqb,
  if◌then◌else◌, Option-cases, inl, inr, arith, nat_key,
}
use p2pmq.Router.Queue.{
  MsgWrapper, MsgRouter, handle, handle_wait, await, expire, receive, send, pick, dispatch_msg,
  finish, start, stop, refresh, refreshed, new_msg_router,
}
use p2pmq.Router.Steps.{
  Op, handling, handling_wait, awaiting, expiring, dispatching, finishing, receives, starts, stops,
  refreshing, refreshes, step, Reach, Reach_inv,
}

abbrev one : ℕ → ℕ → ℕ
one n k = if eqb k n then 1 else 0

-- How often the message of a submission stands in a list.
abbrev pub occurs : {M : Type 0} → ℕ → List (MsgWrapper M) → ℕ
occurs n [] = 0
occurs n (w ∷ ws) = one n w.number + occurs n ws

abbrev pub occurs_queued : {M : Type 0} → ℕ → List (Option (MsgWrapper M)) → ℕ
occurs_queued n [] = 0
occurs_queued n (none ∷ ws) = occurs_queued n ws
occurs_queued n (some w ∷ ws) = one n w.number + occurs_queued n ws

abbrev pub occurs_handled : {T : Type 0} → ℕ → List (ℕ × T) → ℕ
occurs_handled n [] = 0
occurs_handled n ((k, res) ∷ l) = one n k + occurs_handled n l

occurs-append :
    {M : Type 0} (n : ℕ) (xs : List (MsgWrapper M)) (w : MsgWrapper M)
    → occurs n (xs ++ (w ∷ [])) ≡ occurs n xs + one n w.number
occurs-append n [] w = omega arith
occurs-append n (x ∷ xs) w = omega (arith, occurs-append n xs w)

occurs_queued-append :
    {M : Type 0} (n : ℕ) (xs : List (Option (MsgWrapper M))) (m : Option (MsgWrapper M))
    → occurs_queued n (xs ++ (m ∷ [])) ≡ occurs_queued n xs + occurs_queued n (m ∷ [])
occurs_queued-append n [] m = omega arith
occurs_queued-append n (none ∷ xs) m = occurs_queued-append n xs m
occurs_queued-append n (some x ∷ xs) m = omega (arith, occurs_queued-append n xs m)

pub occurs-pick :
    {M : Type 0} (n i : ℕ) (l : List (MsgWrapper M)) {w : MsgWrapper M} {rest : List (MsgWrapper M)}
    → pick i l ≡ some (w, rest)
    → occurs n l ≡ one n w.number + occurs n rest
unfolding pick
occurs-pick n i [] e = absurd (ground arith)
occurs-pick n zero (x ∷ xs) e = ground arith
occurs-pick n (suc i) (x ∷ xs) e = elim (Option-cases (pick i xs)) [
  | inl z ↦ absurd (ground arith)
  | inr ((y, ys), z) ↦ ground (arith, occurs-pick n i xs z)
]

module _ {M T : Type 0} where
  -- The queue, the loops, the running handlers and those that have returned.
  abbrev pub places : ℕ → MsgRouter M T → ℕ
  places n r = occurs_queued n r.q + occurs n r.held + occurs n r.busy + occurs_handled n r.handled

  receive-places :
      (n : ℕ) (s t : MsgRouter M T)
      → receive s ≡ some t
      → (places n t ≡ places n s) × (t.submitted ≡ s.submitted)
  unfolding receive
  receive-places n s t e = go s.q refl
    where
      go :
          (q : List (Option (MsgWrapper M)))
          → s.q ≡ q
          → (places n t ≡ places n s) × (t.submitted ≡ s.submitted)
      go [] eq = absurd (ground arith)
      go (none ∷ rest) eq = ground arith
      go (some w ∷ rest) eq = ground (arith, occurs-append n s.held w)

  send-places :
      (n : ℕ) (m : Option (MsgWrapper M)) (s t : MsgRouter M T)
      → send m s ≡ some t
      → (places n t ≡ places n s + occurs_queued n (m ∷ [])) × (t.submitted ≡ s.submitted)
  unfolding send
  send-places n m s t e =
      ground (arith, occurs_queued-append n s.q m, receive-places n (record s { q = m ∷ [] }) t)

  dispatch_msg-places :
      (n i : ℕ) (s t : MsgRouter M T)
      → dispatch_msg i s ≡ some t
      → (places n t ≡ places n s) × (t.submitted ≡ s.submitted)
  unfolding dispatch_msg
  dispatch_msg-places n i s t e = elim (Option-cases (pick i s.held)) [
    | inl z ↦ absurd (ground arith)
    | inr ((w, rest), p) ↦ ground (arith, occurs-append n s.busy w, occurs-pick n i s.held p)
  ]

  finish-places :
      (n i : ℕ) (res : T) (s t : MsgRouter M T)
      → finish i res s ≡ some t
      → (places n t ≡ places n s) × (t.submitted ≡ s.submitted)
  unfolding finish
  finish-places n i res s t e = elim (Option-cases (pick i s.busy)) [
    | inl z ↦ absurd (ground arith)
    | inr ((w, rest), p) ↦ ground (arith, occurs-pick n i s.busy p)
  ]

  -- Every accepted message is in one place, once, and no other number is anywhere.
  abbrev pub IsAccounted : MsgRouter M T → Type 0
  IsAccounted r = (n : ℕ) → places n r ≡ (if ltb n r.submitted then 1 else 0)

  handle-IsAccounted : (msg : M) (s : MsgRouter M T) → IsAccounted s → IsAccounted (handle msg s).0
  unfolding handle
  handle-IsAccounted msg s h n =
      let w : MsgWrapper M = record { number = s.submitted; msg = msg; has_callback = false } in
      elim (Option-cases (send (some w) s)) [
        | inl full ↦ rw (full, handle) (h n)
        | inr (t, e) ↦ rw (e, handle) (ground (arith, send-places n (some w) s t e, h n))
      ]

  handle_wait-IsAccounted :
      (msg : M) (s : MsgRouter M T) → IsAccounted s → IsAccounted (handle_wait msg s).0
  unfolding handle_wait
  handle_wait-IsAccounted msg s h n =
      let w : MsgWrapper M = record { number = s.submitted; msg = msg; has_callback = true } in
      elim (Option-cases (send (some w) s)) [
        | inl full ↦ rw (full, handle_wait) (h n)
        | inr (t, e) ↦ rw (e, handle_wait) (ground (arith, send-places n (some w) s t e, h n))
      ]

  pub step-IsAccounted :
      (o : Op M T) (s t : MsgRouter M T) → step o s ≡ some t → IsAccounted s → IsAccounted t
  unfolding step await expire start stop refresh refreshed
  step-IsAccounted (handling msg) s t e h n = ground (arith, handle-IsAccounted msg s h n)
  step-IsAccounted (handling_wait msg) s t e h n = ground (arith, handle_wait-IsAccounted msg s h n)
  step-IsAccounted (awaiting k) s t e h n = ground (arith, h n)
  step-IsAccounted (expiring k) s t e h n = ground (arith, h n)
  step-IsAccounted (dispatching i) s t e h n = ground (arith, dispatch_msg-places n i s t e, h n)
  step-IsAccounted (finishing i res) s t e h n = ground (arith, finish-places n i res s t e, h n)
  step-IsAccounted receives s t e h n = ground (arith, receive-places n s t e, h n)
  step-IsAccounted starts s t e h n = ground (arith, h n)
  step-IsAccounted stops s t e h n = ground (arith, h n)
  step-IsAccounted refreshing s t e h n = ground (arith, send-places n none s t e, h n)
  step-IsAccounted refreshes s t e h n = ground (arith, h n)

  -- In any order of steps from a new router, each accepted message stands exactly once among the
  -- queue, the loops that hold one, the running handlers and the handlers that have returned: none
  -- is lost and none is handled twice. A submission that was not accepted stands nowhere.
  pub Reach-IsAccounted :
      (q_size workers : ℕ) {r : MsgRouter M T}
      → Reach (new_msg_router q_size workers) r
      → (n : ℕ) → places n r ≡ (if ltb n r.submitted then 1 else 0)
  unfolding new_msg_router
  Reach-IsAccounted q_size workers k = Reach_inv IsAccounted step-IsAccounted k (λ n. ground arith)
