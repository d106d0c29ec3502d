-- ===== src/Api/Client/Verifier.antt =====
-- api/grpc/client/verifier.go: a goroutine that receives messages one ahead, and the loop of `Start`
-- that validates them and sends what came out. gRPC's stream decides what is received, when it ends
-- and whether a send works, whose error is dropped; that a context is done is a step.
use p2pmq.Base.{
  ℕ, ◌≡◌, Bool, true, false, List, [], ◌∷◌, ◌++◌, Option, none, some, length, ltb, if◌then◌else◌,
}

-- The size of `valQ`.
abbrev pub val_q_size : ℕ
val_q_size = 1

pub record ClientVerifier (M R : Type 0) : Type 0 where
  pub val_q : List M
  pub receiving : Bool
  pub looping : Bool
  -- the message that waits for room in the queue
  pub held : Option M
  -- what came in, what the loop took, and the results that it sent or failed to send, in order
  pub received : List M
  pub taken : List M
  pub sent : List (R × M)

pub data Op (M : Type 0) : Type 0 where
  receives : M → Op M
  enqueues closes processes stops : Op M

module _ {M R : Type 0} where
  unfoldable pub start : ClientVerifier M R
  start = record {
    val_q = [];
    receiving = true;
    looping = true;
    held = none;
    received = [];
    taken = [];
    sent = [];
  }

  -- `Recv` returns a message.
  unfoldable pub recv : M → ClientVerifier M R → Option (ClientVerifier M R)
  recv m c = elim c.held [
    | some _ ↦ none
    | none ↦
        if c.receiving
        then some (record c { held = some m; received = c.received ++ (m ∷ []) })
        else none
  ]

  -- `case valQ <- msg`, which waits for room.
  unfoldable pub enqueue : ClientVerifier M R → Option (ClientVerifier M R)
  enqueue c = elim c.held [
    | none ↦ none
    | some m ↦
        if ltb (length c.val_q) val_q_size
        then some (record c { held = none; val_q = c.val_q ++ (m ∷ []) })
        else none
  ]

  -- The stream ends, or the goroutine's context does, and the queue is closed. A held message is
  -- lost.
  unfoldable pub close : ClientVerifier M R → Option (ClientVerifier M R)
  close c = if c.receiving then some (record c { receiving = false; held = none }) else none

  -- One round of the loop: `Process`, which is the validator, and `Send`; or its end, where the
  -- queue is closed and empty.
  unfoldable pub process_next : (M → R) → ClientVerifier M R → Option (ClientVerifier M R)
  process_next validator c =
      if c.looping
      then elim c.val_q [
        | [] ↦ if c.receiving then none else some (record c { looping = false })
        | m ∷ rest ↦ some (record c {
          val_q = rest;
          taken = c.taken ++ (m ∷ []);
          sent = c.sent ++ ((validator m, m) ∷ []);
        })
      ]
      else none

  -- `case <-ctx.Done()`.
  unfoldable pub done : ClientVerifier M R → Option (ClientVerifier M R)
  done c = if c.looping then some (record c { looping = false }) else none

  unfoldable pub step : (M → R) → Op M → ClientVerifier M R → Option (ClientVerifier M R)
  step validator (receives m) c = recv m c
  step validator enqueues c = enqueue c
  step validator closes c = close c
  step validator processes c = process_next validator c
  step validator stops c = done c

  pub data Reach (validator : M → R) (r : ClientVerifier M R) : ClientVerifier M R → Type 0 where
    here : Reach validator r r
    next :
        {s t : ClientVerifier M R}
        → Reach validator r s
        → (o : Op M) → step validator o s ≡ some t
        → Reach validator r t
