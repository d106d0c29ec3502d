-- ===== src/Router/Callers.antt =====
-- What the callers of `HandleWait` get.
use p2pmq.Base.{
  ℕ, ◌≡◌, refl, true, false, List, [], ◌∷◌, Option, none, some, eqb, if◌then◌else◌, Option-cases,
  ◌⊎◌, inl, inr, arith, nat_key,
}
use p2pmq.Base.Dict.{Dict, lookup, insert, lookup-insert}
use p2pmq.Router.Queue.{
  MsgWrapper, MsgRouter, Caller, calling, receiving, expired, got, handle, handle_wait, await,
  expire, receive, send, pick, callback, dispatch_msg, finish, start, stop, refresh, refreshed,
  new_msg_router,
}
use p2pmq.Router.Steps.{
  Op, handling, handling_wait, awaiting, expiring, dispatching, finishing, receives, starts, stops,
  refreshing, refreshes, step, Reach, Reach_inv,
}

-- The handler returned this answer for that submission.
abbrev pub Answered : {T : Type 0} → ℕ → T → List (ℕ × T) → Type 0
Answered n res [] = ⊥
Answered n res ((k, x) ∷ l) = ((k ≡ n) × (x ≡ res)) ⊎ Answered n res l

module _ {M T : Type 0} where
  -- Sends and loops leave the callers and the answers alone.
  pub receive_callers :
      (s t : MsgRouter M T) → receive s ≡ some t → (t.callers ≡ s.callers) × (t.handled ≡ s.handled)
  unfolding receive
  receive_callers s t e = ground arith

  pub send_callers :
      (m : Option (MsgWrapper M)) (s t : MsgRouter M T)
      → send m s ≡ some t
      → (t.callers ≡ s.callers) × (t.handled ≡ s.handled)
  unfolding send
  send_callers m s t e = ground (arith, receive_callers (record s { q = m ∷ [] }) t)

  pub dispatch_callers :
      (i : ℕ) (s t : MsgRouter M T)
      → dispatch_msg i s ≡ some t
      → (t.callers ≡ s.callers) × (t.handled ≡ s.handled)
  unfolding dispatch_msg
  dispatch_callers i s t e = ground arith

  pub handle_callers :
      (msg : M) (s : MsgRouter M T)
      → ((handle msg s).0.callers ≡ s.callers) × ((handle msg s).0.handled ≡ s.handled)
  unfolding handle
  handle_callers msg s =
      let w : MsgWrapper M = record { number = s.submitted; msg = msg; has_callback = false } in
      elim (Option-cases (send (some w) s)) [
        | inl full ↦ rw (full, handle) (refl, refl)
        | inr (t, e) ↦ rw (e, handle) (send_callers (some w) s t e)
      ]

  pub handle_wait_callers :
      (msg : M) (s : MsgRouter M T)
      → (((handle_wait msg s).0.callers ≡ s.callers)
          ⊎ ((handle_wait msg s).0.callers ≡ insert s.submitted calling s.callers))
        × ((handle_wait msg s).0.handled ≡ s.handled)
  unfolding handle_wait
  handle_wait_callers msg s =
      let w : MsgWrapper M = record { number = s.submitted; msg = msg; has_callback = true } in
      elim (Option-cases (send (some w) s)) [
        | inl full ↦ rw (full, handle_wait) (inl refl, refl)
        | inr (t, e) ↦
            let (same, kept) = send_callers (some w) s t e in
            rw (e, handle_wait) (inr (rw same), kept)
      ]

  -- The caller of a message that finishes while it is in its second select gets the answer; any
  -- other caller's state is left as it was.
  pub lookup-callback :
      (n : ℕ) (w : MsgWrapper M) (res : T) (callers : Dict ℕ (Caller T))
      → lookup n (callback w res callers) ≡ (
          if w.has_callback
          then (if eqb w.number n
              then elim (lookup n callers) [
                | some receiving ↦ some (got res)
                | none ↦ none
                | some other ↦ some other
              ]
              else lookup n callers)
          else lookup n callers)
  unfolding callback
  lookup-callback n w res callers = ground (arith, lookup-insert w.number n (got res) callers)

  -- A result that a caller has got is one that the handler returned for its message.
  abbrev AreAnswers : MsgRouter M T → Type 0
  AreAnswers r = (n : ℕ) (res : T) → lookup n r.callers ≡ some (got res) → Answered n res r.handled

  finish-AreAnswers :
      (i : ℕ) (x : T) (s t : MsgRouter M T) → finish i x s ≡ some t → AreAnswers s → AreAnswers t
  unfolding finish
  finish-AreAnswers i x s t e h n res got_it = elim (Option-cases (pick i s.busy)) [
    | inl z ↦ absurd (ground arith)
    | inr ((w, rest), p) ↦ ground (arith, lookup-callback n w x s.callers, h n res)
  ]

  step-AreAnswers :
      (o : Op M T) (s t : MsgRouter M T) → step o s ≡ some t → AreAnswers s → AreAnswers t
  unfolding step await expire start stop refresh refreshed
  step-AreAnswers (handling msg) s t e h n res g = ground (arith, handle_callers msg s, h n res)
  step-AreAnswers (handling_wait msg) s t e h n res g = ground (
    arith,
    handle_wait_callers msg s,
    h n res,
    lookup-insert {V = Caller T} s.submitted n calling s.callers,
  )
  step-AreAnswers (awaiting k) s t e h n res g =
      ground (arith, h n res, lookup-insert {V = Caller T} k n receiving s.callers)
  step-AreAnswers (expiring k) s t e h n res g =
      ground (arith, h n res, lookup-insert {V = Caller T} k n expired s.callers)
  step-AreAnswers (dispatching i) s t e h n res g =
      ground (arith, dispatch_callers i s t e, h n res)
  step-AreAnswers (finishing i x) s t e h n res g = finish-AreAnswers i x s t e h n res g
  step-AreAnswers receives s t e h n res g = ground (arith, receive_callers s t e, h n res)
  step-AreAnswers starts s t e h n res g = ground (arith, h n res)
  step-AreAnswers stops s t e h n res g = ground (arith, h n res)
  step-AreAnswers refreshing s t e h n res g = ground (arith, send_callers none s t e, h n res)
  step-AreAnswers refreshes s t e h n res g = ground (arith, h n res)

  -- In any order of steps from a new router, a result that HandleWait returns is an answer that
  -- the handler gave for the message of that call.
  pub handle_wait-Answered :
      (q_size workers : ℕ) {r : MsgRouter M T}
      → Reach (new_msg_router q_size workers) r
      → (n : ℕ) (res : T) → lookup n r.callers ≡ some (got res)
      → Answered n res r.handled
  unfolding new_msg_router lookup
  handle_wait-Answered q_size workers k =
      Reach_inv AreAnswers step-AreAnswers k (λ n res e. ground arith)
