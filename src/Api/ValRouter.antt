-- ===== src/Api/ValRouter.antt =====
-- api/grpc/val_router.go: the calls of `PushWait`, the pending results and the receivers of clients'
-- answers, as a state and the points at which goroutines can be interrupted. A call is known by its
-- number, which stands for the channel that `add` makes for it.
use p2pmq.Base.{ℕ, suc, ◌≡◌, String, Bool, List, [], ◌∷◌, Option, none, some, string_key, nat_key}
use p2pmq.Base.Dict.{Dict, lookup, insert}
use p2pmq.Proto.{ValidationResult, nil, accept, reject, ignore}
use p2pmq.Router.Queue.{pick}
use p2pmq.Api.Outbox.{Message, Outbox, new_outbox, try_send, take_next, listen, hang_up, send_next}

-- `pubsub.ValidationResult` of libp2p, with the three values that are used.
pub record Verdicts : Type 1 where
  pub Verdict : Type 0
  pub validation_accept : Verdict
  pub validation_reject : Verdict
  pub validation_ignore : Verdict

-- Where a call is: before the first select, between the two, in the second, past it with its
-- result before the deferred `cancel`, and after it.
pub data Phase (V : Type 0) : Type 0 where
  added pushed waiting : Phase V
  leaving returned : V → Phase V

pub record Waiter (V : Type 0) : Type 0 where
  pub message : Message
  pub phase : Phase V

module _ (v : Verdicts) where
  open v use {Verdict, validation_accept, validation_reject, validation_ignore}

  pub record ValRouter : Type 0 where
    pub outbox : Outbox
    -- a nil channel is `none`
    pub results : Dict String (Option ℕ)
    -- the receivers that have read a channel, and will try to send a result on it
    pub resolving : List (Option ℕ × Verdict)
    pub waiters : Dict ℕ (Waiter Verdict)
    pub calls : ℕ

  unfoldable pub new_val_router : ℕ → ValRouter
  new_val_router q_size = record {
    outbox = new_outbox q_size;
    results = [];
    resolving = [];
    waiters = [];
    calls = 0;
  }

  unfoldable pub convert_result : ValidationResult → Verdict
  convert_result accept = validation_accept
  convert_result reject = validation_reject
  convert_result ignore = validation_ignore
  convert_result nil = validation_ignore

  abbrev pub set_phase : ℕ → Waiter Verdict → Phase Verdict → ValRouter → ValRouter
  set_phase n w phase r = record r { waiters = insert n (record w { phase = phase }) r.waiters }

  -- `PushWait` up to its first select: `add` makes a channel for the id, over any that was there.
  unfoldable pub push_wait : Message → ValRouter → ValRouter
  push_wait m r = record r {
    results = insert m.message_id (some r.calls) r.results;
    waiters = insert r.calls (record { message = m; phase = added }) r.waiters;
    calls = suc r.calls;
  }

  -- The first select.
  unfoldable pub enqueue : ℕ → ValRouter → Option ValRouter
  enqueue n r = elim (lookup n r.waiters) [
    | none ↦ none
    | some w ↦ elim w.phase [
      | added ↦ elim (try_send w.message r.outbox) [
        | none ↦ some (set_phase n w (leaving validation_ignore) r)
        | some o ↦ some (set_phase n w pushed (record r { outbox = o }))
      ]
      | _ ↦ none
    ]
  ]

  -- The call goes into the second select, and out of it when its context is done.
  unfoldable pub await : ℕ → ValRouter → Option ValRouter
  await n r = elim (lookup n r.waiters) [
    | none ↦ none
    | some w ↦ elim w.phase [ pushed ↦ some (set_phase n w waiting r) | _ ↦ none ]
  ]

  unfoldable pub expire : ℕ → ValRouter → Option ValRouter
  expire n r = elim (lookup n r.waiters) [
    | none ↦ none
    | some w ↦ elim w.phase [
      | waiting ↦ some (set_phase n w (leaving validation_ignore) r)
      | _ ↦ none
    ]
  ]

  -- `cancel`: the id's channel becomes nil, whichever call made it.
  unfoldable pub cancel : String → Dict String (Option ℕ) → Dict String (Option ℕ)
  cancel mid results = elim (lookup mid results) [
    | none ↦ results
    | some _ ↦ insert mid none results
  ]

  unfoldable pub leave : ℕ → ValRouter → Option ValRouter
  leave n r = elim (lookup n r.waiters) [
    | none ↦ none
    | some w ↦ elim w.phase [
      | leaving res ↦ some (
          set_phase n w (returned res)
            (record r { results = cancel w.message.message_id r.results }))
      | _ ↦ none
    ]
  ]

  -- `resolve`: a receiver reads the channel of an answer's id, and then sends without blocking; a
  -- send on nil, or to a call that is not in its second select, is dropped.
  unfoldable pub find : String → ValidationResult → ValRouter → ValRouter
  find mid res r =
      let verdict = convert_result res in
      elim (lookup mid r.results) [
        | none ↦ r
        | some c ↦ record r { resolving = (c, verdict) ∷ r.resolving }
      ]

  unfoldable pub resolve_to : Option ℕ → Verdict → ValRouter → ValRouter
  resolve_to none res r = r
  resolve_to (some n) res r = elim (lookup n r.waiters) [
    | none ↦ r
    | some w ↦ elim w.phase [ waiting ↦ set_phase n w (leaving res) r | _ ↦ r ]
  ]

  unfoldable pub resolve : ℕ → ValRouter → Option ValRouter
  resolve i r = elim (pick i r.resolving) [
    | none ↦ none
    | some ((c, res), rest) ↦ some (resolve_to c res (record r { resolving = rest }))
  ]

  -- A step of the streams that empty the queue.
  unfoldable pub stream : Option Outbox → ValRouter → Option ValRouter
  stream o r = elim o [ none ↦ none | some s ↦ some (record r { outbox = s }) ]

  pub data Op : Type 0 where
    pushing : Message → Op
    enqueuing awaiting expiring leaving_call : ℕ → Op
    finding : String → ValidationResult → Op
    resolving_at : ℕ → Op
    taking listening hanging_up : Op
    sending_at : ℕ → Bool → Op

  unfoldable pub step : Op → ValRouter → Option ValRouter
  step (pushing m) r = some (push_wait m r)
  step (enqueuing n) r = enqueue n r
  step (awaiting n) r = await n r
  step (expiring n) r = expire n r
  step (leaving_call n) r = leave n r
  step (finding mid res) r = some (find mid res r)
  step (resolving_at i) r = resolve i r
  step taking r = stream (take_next r.outbox) r
  step listening r = stream (some (listen r.outbox)) r
  step hanging_up r = stream (hang_up r.outbox) r
  step (sending_at i works) r = stream (send_next i works r.outbox) r

  pub data Reach (r : ValRouter) : ValRouter → Type 0 where
    here : Reach r r
    next : {s t : ValRouter} → Reach r s → (o : Op) → step o s ≡ some t → Reach r t
