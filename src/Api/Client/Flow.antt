-- ===== src/Api/Client/Flow.antt =====
-- What becomes of the messages that a consumer receives.
use p2pmq.Base.{
  ◌≤◌, ◌≡◌, refl, true, false, Bool-cases, List, [], ◌∷◌, ◌++◌, some, inl, inr, length, ltb,
  length-append, arith, sym, ap, ◌∙◌,
}
use mathlib.Core.List.{append_assoc}
use mathlib.Core.Path.{subst}
use p2pmq.Api.Client.Consumer as C

-- The third list holds the members of the first and of the second, each in its order.
pub data IsMerge {M : Type 0} : List M → List M → List M → Type 0 where
  empty : IsMerge [] [] []
  left :
      {xs ys zs : List M}
      → IsMerge xs ys zs
      → (m : M) → IsMerge (xs ++ (m ∷ [])) ys (zs ++ (m ∷ []))
  right :
      {xs ys zs : List M}
      → IsMerge xs ys zs
      → (m : M) → IsMerge xs (ys ++ (m ∷ [])) (zs ++ (m ∷ []))

module _ {M : Type 0} where
  -- Received messages are queued or dropped, and queued ones handed on in order.
  pub record IsFlowing (c : C.MsgConsumer M) : Type 0 where
    pub order : c.handed ++ c.msg_q ≡ c.queued
    pub merge : IsMerge c.queued c.dropped c.received
    pub room : length c.msg_q ≤ C.msg_q_size

  queued-IsFlowing :
      (m : M) (c : C.MsgConsumer M)
      → ltb (length c.msg_q) C.msg_q_size ≡ true
      → IsFlowing c
      → IsFlowing (record c {
        msg_q = c.msg_q ++ (m ∷ []);
        received = c.received ++ (m ∷ []);
        queued = c.queued ++ (m ∷ []);
      })
  queued-IsFlowing m c fits h = record {
    order = sym (append_assoc c.handed c.msg_q (m ∷ [])) ∙ ap (λ l. l ++ (m ∷ [])) h.order;
    merge = left h.merge m;
    room = ground (arith, length-append c.msg_q (m ∷ []));
  }

  recv-IsFlowing : (m : M) (c d : C.MsgConsumer M) → C.recv m c ≡ some d → IsFlowing c → IsFlowing d
  unfolding C.recv
  recv-IsFlowing m c d e h = elim (Bool-cases (ltb (length c.msg_q) C.msg_q_size)) [
    | inl fits ↦ subst IsFlowing (ground arith) (queued-IsFlowing m c fits h)
    | inr full ↦ subst IsFlowing (ground arith) (dropped m)
  ]
    where
      dropped :
          (m : M)
          → IsFlowing
              (record c { received = c.received ++ (m ∷ []); dropped = c.dropped ++ (m ∷ []) })
      dropped m = record { order = h.order; merge = right h.merge m; room = h.room }

  take_msg-IsFlowing : (c d : C.MsgConsumer M) → C.take_msg c ≡ some d → IsFlowing c → IsFlowing d
  unfolding C.take_msg
  take_msg-IsFlowing c d e h = go c.msg_q refl
    where
      handed :
          (m : M) (rest : List M)
          → c.msg_q ≡ m ∷ rest
          → IsFlowing (record c { msg_q = rest; handling = some m; handed = c.handed ++ (m ∷ []) })
      handed m rest f = record {
        order = append_assoc c.handed (m ∷ []) rest ∙ ap (λ l. c.handed ++ l) (sym f) ∙ h.order;
        merge = h.merge;
        room = ground (arith, h.room);
      }

      ended : IsFlowing (record c { looping = false })
      ended = record { order = h.order; merge = h.merge; room = h.room }

      go : (q : List M) → c.msg_q ≡ q → IsFlowing d
      go [] f = subst IsFlowing (ground arith) ended
      go (m ∷ rest) f = subst IsFlowing (ground arith) (handed m rest f)

  -- A step that moves no message.
  still-IsFlowing :
      (c d : C.MsgConsumer M)
      → c.msg_q ≡ d.msg_q
      → c.received ≡ d.received
      → c.queued ≡ d.queued
      → c.dropped ≡ d.dropped
      → c.handed ≡ d.handed
      → IsFlowing c
      → IsFlowing d
  still-IsFlowing c d a b e f g h = record {
    order = rw⁻¹ (a, e, g) h.order;
    merge = rw⁻¹ (b, e, f) h.merge;
    room = rw⁻¹ a h.room;
  }

  step-IsFlowing :
      (o : C.Op M) (c d : C.MsgConsumer M) → C.step o c ≡ some d → IsFlowing c → IsFlowing d
  unfolding C.step C.close C.handled C.done
  step-IsFlowing (C.receives m) c d e h = recv-IsFlowing m c d e h
  step-IsFlowing C.takes c d e h = take_msg-IsFlowing c d e h
  step-IsFlowing C.closes c d e h =
      still-IsFlowing c d (ground arith) (ground arith) (ground arith) (ground arith) (ground arith)
        h
  step-IsFlowing C.returns c d e h =
      still-IsFlowing c d (ground arith) (ground arith) (ground arith) (ground arith) (ground arith)
        h
  step-IsFlowing C.stops c d e h =
      still-IsFlowing c d (ground arith) (ground arith) (ground arith) (ground arith) (ground arith)
        h

  -- In any order of steps of a consumer, the messages given to its handler, followed by those in
  -- its queue, are the ones that were queued, in their order; the queued and the dropped ones
  -- together are the received ones, each in the order received; and the queue never holds more
  -- than 128.
  pub consumer-IsFlowing : {c : C.MsgConsumer M} → C.Reach C.start c → IsFlowing c
  unfolding C.start
  consumer-IsFlowing C.here = record { order = refl; merge = empty; room = omega arith }
  consumer-IsFlowing (C.next {s = s} {t = t} k o e) = step-IsFlowing o s t e (consumer-IsFlowing k)
