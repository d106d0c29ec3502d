-- ===== src/Router/Queue.antt =====
-- core/router.go: `msgRouter`, as a state and the points at which its goroutines can be
-- interrupted. `M` is a message with its sender, `T` what a handler answers.
--
-- The loops of `Start` are alike: `idle` counts those blocked in the select, and `held` has the
-- messages of those blocked in `dispatchMsg`. `busy` has the goroutines that `dispatchMsg` has
-- started and that hold a slot of `workers`. A message is known by the number of its submission.
-- What a handler answers is given with the step in which it returns.
use p2pmq.Base.{
  ℕ, zero, suc, String, Bool, true, false, List, [], ◌∷◌, ◌++◌, Option, none, some, length, ltb,
  if◌then◌else◌, nat_key,
}
use p2pmq.Base.Dict.{Dict, lookup, insert}

pub record MsgWrapper (M : Type 0) : Type 0 where
  pub number : ℕ
  pub msg : M
  -- whether `callbackC` is not nil
  pub has_callback : Bool

-- Where a caller of `HandleWait` is after its message was accepted: before the second select, in
-- it, or past it with a result or an error.
pub data Caller (T : Type 0) : Type 0 where
  calling receiving expired : Caller T
  got : T → Caller T

pub record MsgRouter (M T : Type 0) : Type 0 where
  pub q_size : ℕ
  pub workers : ℕ
  -- nil is what `RefreshHandler` sends
  pub q : List (Option (MsgWrapper M))
  pub idle : ℕ
  pub held : List (MsgWrapper M)
  pub busy : List (MsgWrapper M)
  pub callers : Dict ℕ (Caller T)
  -- the calls of the handler that have returned
  pub handled : List (ℕ × T)
  pub submitted : ℕ

abbrev pub queue_full : String
queue_full = "router queue is full, dropping msg"

-- The member at a place, with the list before and after it.
unfoldable pub pick {ℓ} : {A : Type ℓ} → ℕ → List A → Option (A × List A)
pick i [] = none
pick zero (x ∷ xs) = some (x, xs)
pick (suc i) (x ∷ xs) = elim (pick i xs) [ none ↦ none | some (y, ys) ↦ some (y, x ∷ ys) ]

module _ {M T : Type 0} where
  unfoldable pub new_msg_router : ℕ → ℕ → MsgRouter M T
  new_msg_router q_size workers = record {
    q_size = q_size;
    workers = workers;
    q = [];
    idle = 0;
    held = [];
    busy = [];
    callers = [];
    handled = [];
    submitted = 0;
  }

  -- A loop in the select takes the first of the queue: it returns on nil, and goes on to
  -- `dispatchMsg` with a message. `none` where no loop can.
  unfoldable pub receive : MsgRouter M T → Option (MsgRouter M T)
  receive r = elim r.idle [
    | zero ↦ none
    | suc n ↦ elim r.q [
      | [] ↦ none
      | m ∷ rest ↦ elim m [
        | none ↦ some (record r { q = rest; idle = n })
        | some w ↦ some (record r { q = rest; idle = n; held = r.held ++ (w ∷ []) })
      ]
    ]
  ]

  -- A send to `r.q`: into its buffer, or to a loop that waits for it. `none` where it would block.
  unfoldable pub send : Option (MsgWrapper M) → MsgRouter M T → Option (MsgRouter M T)
  send m r =
      if ltb (length r.q) r.q_size
      then some (record r { q = r.q ++ (m ∷ []) })
      else elim r.q [ [] ↦ receive (record r { q = m ∷ [] }) | _ ∷ _ ↦ none ]

  -- `Handle`.
  unfoldable pub handle : M → MsgRouter M T → MsgRouter M T × Option String
  handle msg r =
      let w : MsgWrapper M = record { number = r.submitted; msg = msg; has_callback = false } in
      elim (send (some w) r) [
        | none ↦ (r, some queue_full)
        | some s ↦ (record s { submitted = suc r.submitted }, none)
      ]

  -- `HandleWait` up to its second select.
  unfoldable pub handle_wait : M → MsgRouter M T → MsgRouter M T × Option String
  handle_wait msg r =
      let w : MsgWrapper M = record { number = r.submitted; msg = msg; has_callback = true } in
      elim (send (some w) r) [
        | none ↦ (r, some queue_full)
        | some s ↦ (
          record s { submitted = suc r.submitted; callers = insert r.submitted calling s.callers },
          none,
        )
      ]

  -- The caller goes into the second select, and out of it when its context is done.
  unfoldable pub await : ℕ → MsgRouter M T → Option (MsgRouter M T)
  await number r = elim (lookup number r.callers) [
    | some calling ↦ some (record r { callers = insert number receiving r.callers })
    | _ ↦ none
  ]

  unfoldable pub expire : ℕ → MsgRouter M T → Option (MsgRouter M T)
  expire number r = elim (lookup number r.callers) [
    | some receiving ↦ some (record r { callers = insert number expired r.callers })
    | _ ↦ none
  ]

  -- `callback`: a send that does not block, on a channel with no buffer.
  unfoldable pub callback : MsgWrapper M → T → Dict ℕ (Caller T) → Dict ℕ (Caller T)
  callback w res callers =
      if w.has_callback
      then elim (lookup w.number callers) [
        | some receiving ↦ insert w.number (got res) callers
        | _ ↦ callers
      ]
      else callers

  -- `dispatchMsg`: a loop gets a slot, starts the goroutine and goes back to its select.
  unfoldable pub dispatch_msg : ℕ → MsgRouter M T → Option (MsgRouter M T)
  dispatch_msg i r =
      if ltb (length r.busy) r.workers
      then elim (pick i r.held) [
        | none ↦ none
        | some (w, rest) ↦
            some (record r { held = rest; busy = r.busy ++ (w ∷ []); idle = suc r.idle })
      ]
      else none

  -- A goroutine's handler returns; its callback is made and its slot is given back.
  unfoldable pub finish : ℕ → T → MsgRouter M T → Option (MsgRouter M T)
  finish i res r = elim (pick i r.busy) [
    | none ↦ none
    | some (w, rest) ↦ some (record r {
      busy = rest;
      callers = callback w res r.callers;
      handled = (w.number, res) ∷ r.handled;
    })
  ]

  -- A new loop of `Start`, and the end of one in its select when its context is done.
  unfoldable pub start : MsgRouter M T → MsgRouter M T
  start r = record r { idle = suc r.idle }

  unfoldable pub stop : MsgRouter M T → Option (MsgRouter M T)
  stop r = elim r.idle [ zero ↦ none | suc n ↦ some (record r { idle = n }) ]

  -- `RefreshHandler`: the send of nil, and the wait for the goroutines.
  unfoldable pub refresh : MsgRouter M T → Option (MsgRouter M T)
  refresh r = send none r

  unfoldable pub refreshed : MsgRouter M T → Option (MsgRouter M T)
  refreshed r = elim r.busy [ [] ↦ some r | _ ∷ _ ↦ none ]
