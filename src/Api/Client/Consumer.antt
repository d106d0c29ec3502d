-- ===== src/Api/Client/Consumer.antt =====
-- api/grpc/client/consumer.go: a goroutine that receives messages into a queue, and the loop of
-- `Start` that hands them to the handler. gRPC's stream decides what is received and when it ends;
-- that a context is done is a step. `none` where the goroutine of a step is blocked or has ended.
use p2pmq.Base.{
  ℕ, ◌≡◌, String, Bool, true, false, List, [], ◌∷◌, ◌++◌, Option, none, some, Result, ok, err,
  length, ltb, if◌then◌else◌,
}

-- The size of `msgQ`.
abbrev pub msg_q_size : ℕ
msg_q_size = 128

pub record MsgConsumer (M : Type 0) : Type 0 where
  pub msg_q : List M
  pub receiving : Bool
  pub looping : Bool
  -- the message that the handler is at
  pub handling : Option M
  -- what came in, and what of it was queued, dropped and handed to the handler, in order
  pub received : List M
  pub queued : List M
  pub dropped : List M
  pub handed : List M

pub data Op (M : Type 0) : Type 0 where
  receives : M → Op M
  closes takes returns stops : Op M

module _ {M : Type 0} where
  unfoldable pub start : MsgConsumer M
  start = record {
    msg_q = [];
    receiving = true;
    looping = true;
    handling = none;
    received = [];
    queued = [];
    dropped = [];
    handed = [];
  }

  -- `Recv` returns a message, which is dropped where the queue is full.
  unfoldable pub recv : M → MsgConsumer M → Option (MsgConsumer M)
  recv m c =
      if c.receiving
      then (if ltb (length c.msg_q) msg_q_size
          then some (record c {
            msg_q = c.msg_q ++ (m ∷ []);
            received = c.received ++ (m ∷ []);
            queued = c.queued ++ (m ∷ []);
          })
          else some
              (record c { received = c.received ++ (m ∷ []); dropped = c.dropped ++ (m ∷ []) }))
      else none

  -- The stream ends, or its context does, and the queue is closed.
  unfoldable pub close : MsgConsumer M → Option (MsgConsumer M)
  close c = if c.receiving then some (record c { receiving = false }) else none

  -- `case msg := <-msgQ`: the next message, or nil from a queue that is closed and empty.
  unfoldable pub take_msg : MsgConsumer M → Option (MsgConsumer M)
  take_msg c = elim c.handling [
    | some _ ↦ none
    | none ↦
        if c.looping
        then elim c.msg_q [
          | [] ↦ if c.receiving then none else some (record c { looping = false })
          | m ∷ rest ↦
              some (record c { msg_q = rest; handling = some m; handed = c.handed ++ (m ∷ []) })
        ]
        else none
  ]

  -- The handler returns; its error is dropped.
  unfoldable pub handled : MsgConsumer M → Option (MsgConsumer M)
  handled c = elim c.handling [ none ↦ none | some _ ↦ some (record c { handling = none }) ]

  -- `case <-ctx.Done()`.
  unfoldable pub done : MsgConsumer M → Option (MsgConsumer M)
  done c = elim c.handling [
    | some _ ↦ none
    | none ↦ if c.looping then some (record c { looping = false }) else none
  ]

  unfoldable pub step : Op M → MsgConsumer M → Option (MsgConsumer M)
  step (receives m) c = recv m c
  step closes c = close c
  step takes c = take_msg c
  step returns c = handled c
  step stops c = done c

  pub data Reach (r : MsgConsumer M) : MsgConsumer M → Type 0 where
    here : Reach r r
    next : {s t : MsgConsumer M} → Reach r s → (o : Op M) → step o s ≡ some t → Reach r t

-- `Subscribe`: the topics in turn, up to the first that fails. `call` is the control client's.
unfoldable pub subscribe_each :
    {W Conn : Type 0}
    → (Conn → String → W → W × Option String)
    → Conn
    → List String
    → W
    → W × Option String
subscribe_each call conn [] w = (w, none)
subscribe_each call conn (topic ∷ topics) w =
    let (w', e) = call conn topic w in
    let rest = subscribe_each call conn topics w' in elim e [ none ↦ rest | some x ↦ (w', some x) ]

unfoldable pub subscribe :
    {W Conn : Type 0}
    → Result Conn
    → (Conn → String → W → W × Option String)
    → List String
    → W
    → W × Option String
subscribe (err e) call topics w = (w, some e)
subscribe (ok conn) call topics w = subscribe_each call conn topics w
