-- ===== src/Api/Outbox.antt =====
-- The queue of messages of a server of api/grpc, with the streams that empty it: `Listen` of
-- msg_router.go and `Handle` of val_router.go have the same loop. `q` has no other readers, and is
-- never closed. A stream is idle in its select or sends a message; gRPC decides whether that works.
use p2pmq.Base.{
  ℕ, zero, suc, ◌≡◌, String, Bool, List, [], ◌∷◌, ◌++◌, Option, none, some, length, ltb,
  if◌then◌else◌,
}
use p2pmq.Router.Queue.{pick}

-- `proto.Message`
pub record Message : Type 0 where
  pub message_id : String
  pub topic : String
  pub bytes : List ℕ

pub record Outbox : Type 0 where
  pub q_size : ℕ
  pub q : List Message
  pub idle : ℕ
  pub sending : List Message
  -- what was put into the queue, what streams took from it, and what was sent, in order
  pub accepted : List Message
  pub taken : List Message
  pub delivered : List Message

unfoldable pub new_outbox : ℕ → Outbox
new_outbox q_size = record {
  q_size = q_size;
  q = [];
  idle = 0;
  sending = [];
  accepted = [];
  taken = [];
  delivered = [];
}

-- `case next := <-r.q`. `none` where no stream can.
unfoldable pub take_next : Outbox → Option Outbox
take_next r = elim r.idle [
  | zero ↦ none
  | suc n ↦ elim r.q [
    | [] ↦ none
    | m ∷ rest ↦ some (record r {
      q = rest;
      idle = n;
      sending = r.sending ++ (m ∷ []);
      taken = r.taken ++ (m ∷ []);
    })
  ]
]

-- The select that puts a message into the queue, or gives it to a stream that waits; `none` is its
-- default.
unfoldable pub try_send : Message → Outbox → Option Outbox
try_send m r =
    if ltb (length r.q) r.q_size
    then some (record r { q = r.q ++ (m ∷ []); accepted = r.accepted ++ (m ∷ []) })
    else elim r.q [
      | [] ↦ take_next (record r { q = m ∷ []; accepted = r.accepted ++ (m ∷ []) })
      | _ ∷ _ ↦ none
    ]

-- `Push` of msg_router.go.
unfoldable pub push : Message → Outbox → Outbox × Option String
push m r = elim (try_send m r) [ none ↦ (r, some "queue is full") | some s ↦ (s, none) ]

-- `stream.Send(next)`: the loop goes on, or the stream ends with an error.
unfoldable pub send_next : ℕ → Bool → Outbox → Option Outbox
send_next i works r = elim (pick i r.sending) [
  | none ↦ none
  | some (m, rest) ↦
      if works
      then some
          (record r { sending = rest; idle = suc r.idle; delivered = r.delivered ++ (m ∷ []) })
      else some (record r { sending = rest })
]

-- A new stream, and the end of one whose context is done.
unfoldable pub listen : Outbox → Outbox
listen r = record r { idle = suc r.idle }

unfoldable pub hang_up : Outbox → Option Outbox
hang_up r = elim r.idle [ zero ↦ none | suc n ↦ some (record r { idle = n }) ]

pub data Op : Type 0 where
  pushing : Message → Op
  sends : ℕ → Bool → Op
  takes listens hangs_up : Op

unfoldable pub step : Op → Outbox → Option Outbox
step (pushing m) r = some (push m r).0
step (sends i works) r = send_next i works r
step takes r = take_next r
step listens r = some (listen r)
step hangs_up r = hang_up r

pub data Reach (r : Outbox) : Outbox → Type 0 where
  here : Reach r r
  next : {s t : Outbox} → Reach r s → (o : Op) → step o s ≡ some t → Reach r t
