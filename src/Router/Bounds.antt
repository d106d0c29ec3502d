-- ===== src/Router/Bounds.antt =====
-- The capacities of the queue and of the slots.
use p2pmq.Base.{
  ℕ, zero, suc, ◌≤◌, ◌≡◌, true, false, List, [], ◌∷◌, Option, none, some, length, length-append,
  Option-cases, ◌⊎◌, inl, inr, arith, nat_key,
}
use p2pmq.Router.Queue.{
  MsgWrapper, MsgRouter, handle, handle_wait, await, expire, receive, send, pick, dispatch_msg,
  finish, start, stop, refresh, refreshed, new_msg_router,
}
use p2pmq.Router.Steps.{
  Op, handling, handling_wait, awaiting, expiring, dispatching, finishing, receives, starts, stops,
  refreshing, refreshes, step, Reach, Reach_inv,
}

pub length-pick {ℓ} :
    {A : Type ℓ} (i : ℕ) (l : List A) {x : A} {rest : List A}
    → pick i l ≡ some (x, rest)
    → length l ≡ suc (length rest)
unfolding pick
length-pick i [] e = absurd (ground arith)
length-pick zero (x ∷ xs) e = ground arith
length-pick (suc i) (x ∷ xs) e = elim (Option-cases (pick i xs)) [
  | inl n ↦ absurd (ground arith)
  | inr ((y, ys), n) ↦ ground (arith, length-pick i xs n)
]

module _ {M T : Type 0} (q_size workers : ℕ) where
  pub record IsBounded (r : MsgRouter M T) : Type 0 where
    pub size : r.q_size ≡ q_size
    pub slots : r.workers ≡ workers
    pub queued : length r.q ≤ q_size
    pub running : length r.busy ≤ workers

  receive-IsBounded : (s t : MsgRouter M T) → receive s ≡ some t → IsBounded s → IsBounded t
  unfolding receive
  receive-IsBounded s t e h = ground arith

  send-IsBounded :
      (m : Option (MsgWrapper M)) (s t : MsgRouter M T)
      → send m s ≡ some t
      → IsBounded s
      → IsBounded t
  unfolding send receive
  send-IsBounded m s t e h = ground (arith, length-append s.q (m ∷ []))

  dispatch_msg-IsBounded :
      (i : ℕ) (s t : MsgRouter M T) → dispatch_msg i s ≡ some t → IsBounded s → IsBounded t
  unfolding dispatch_msg
  dispatch_msg-IsBounded i s t e h = elim (Option-cases (pick i s.held)) [
    | inl n ↦ absurd (ground arith)
    | inr ((w, rest), p) ↦ ground (arith, length-append s.busy (w ∷ []))
  ]

  finish-IsBounded :
      (i : ℕ) (res : T) (s t : MsgRouter M T) → finish i res s ≡ some t → IsBounded s → IsBounded t
  unfolding finish
  finish-IsBounded i res s t e h = elim (Option-cases (pick i s.busy)) [
    | inl n ↦ absurd (ground arith)
    | inr ((w, rest), p) ↦ ground (arith, length-pick i s.busy p)
  ]

  sent :
      (m : Option (MsgWrapper M)) (s : MsgRouter M T)
      → (send m s ≡ none) ⊎ ((t : MsgRouter M T) × (send m s ≡ some t))
  sent m s = Option-cases (send m s)

  handle-IsBounded : (msg : M) (s : MsgRouter M T) → IsBounded s → IsBounded (handle msg s).0
  unfolding handle
  handle-IsBounded msg s h =
      let w : MsgWrapper M = record { number = s.submitted; msg = msg; has_callback = false } in
      elim (sent (some w) s) [
        | inl full ↦ rw (full, handle) h
        | inr (t, e) ↦
            rw (e, handle)
              (let b = send-IsBounded (some w) s t e h in
                record { size = b.size; slots = b.slots; queued = b.queued; running = b.running })
      ]

  handle_wait-IsBounded :
      (msg : M) (s : MsgRouter M T) → IsBounded s → IsBounded (handle_wait msg s).0
  unfolding handle_wait
  handle_wait-IsBounded msg s h =
      let w : MsgWrapper M = record { number = s.submitted; msg = msg; has_callback = true } in
      elim (sent (some w) s) [
        | inl full ↦ rw (full, handle_wait) h
        | inr (t, e) ↦
            rw (e, handle_wait)
              (let b = send-IsBounded (some w) s t e h in
                record { size = b.size; slots = b.slots; queued = b.queued; running = b.running })
      ]

  pub step-IsBounded :
      (o : Op M T) (s t : MsgRouter M T) → step o s ≡ some t → IsBounded s → IsBounded t
  unfolding step await expire start stop refresh refreshed
  step-IsBounded (handling msg) s t e h = ground (arith, handle-IsBounded msg s h)
  step-IsBounded (handling_wait msg) s t e h = ground (arith, handle_wait-IsBounded msg s h)
  step-IsBounded (awaiting n) s t e h = ground arith
  step-IsBounded (expiring n) s t e h = ground arith
  step-IsBounded (dispatching i) s t e h = dispatch_msg-IsBounded i s t e h
  step-IsBounded (finishing i res) s t e h = finish-IsBounded i res s t e h
  step-IsBounded receives s t e h = receive-IsBounded s t e h
  step-IsBounded starts s t e h = ground arith
  step-IsBounded stops s t e h = ground arith
  step-IsBounded refreshing s t e h = send-IsBounded none s t e h
  step-IsBounded refreshes s t e h = ground arith

  pub new-IsBounded : IsBounded (new_msg_router q_size workers)
  unfolding new_msg_router
  new-IsBounded = omega arith

  -- In any order of steps of a new router the queue never holds more than its size, and there are
  -- never more handlers running than workers.
  pub Reach-IsBounded : {r : MsgRouter M T} → Reach (new_msg_router q_size workers) r → IsBounded r
  Reach-IsBounded k = Reach_inv IsBounded step-IsBounded k (new-IsBounded)
