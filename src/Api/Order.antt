-- ===== src/Api/Order.antt =====
-- The order in which messages leave an outbox.
use p2pmq.Base.{
  ℕ, zero, suc, ◌≤◌, ◌≡◌, refl, false, List, [], ◌∷◌, ◌++◌, some, length, ltb, Bool-cases,
  Option-cases, inl, inr, arith, length-append, sym, ◌∙◌, ap,
}
use mathlib.Core.List.{append-nil, append_assoc}
use p2pmq.Router.Queue.{pick}
use p2pmq.Api.Outbox.{
  Message, Outbox, Op, pushing, sends, takes, listens, hangs_up, step, Reach, here, next, take_next,
  try_send, push, send_next, listen, hang_up, new_outbox,
}

-- What was taken, and then the queue, are what was accepted; and the queue keeps to its size.
pub record IsOrdered (q_size : ℕ) (r : Outbox) : Type 0 where
  pub size : r.q_size ≡ q_size
  pub order : r.taken ++ r.q ≡ r.accepted
  pub room : length r.q ≤ q_size

take_next_order :
    (r s : Outbox)
    → take_next r ≡ some s
    → (s.taken ++ s.q ≡ r.taken ++ r.q)
      × (s.accepted ≡ r.accepted)
      × (s.q_size ≡ r.q_size)
      × (length r.q ≡ suc (length s.q))
unfolding take_next
take_next_order r s e = go r.idle refl r.q refl
  where
    go :
        (n : ℕ)
        → r.idle ≡ n
        → (l : List Message) → r.q ≡ l
        → (s.taken ++ s.q ≡ r.taken ++ r.q)
          × (s.accepted ≡ r.accepted)
          × (s.q_size ≡ r.q_size)
          × (length r.q ≡ suc (length s.q))
    go zero i l f = absurd (ground arith)
    go (suc n) i [] f = absurd (ground arith)
    go (suc n) i (m ∷ rest) f = ground (arith, append_assoc r.taken (m ∷ []) rest)

-- A full queue that is empty has no buffer: the message goes to a stream that waits.
try_send_handoff :
    (m : Message) (r : Outbox)
    → ltb (length r.q) r.q_size ≡ false
    → r.q ≡ []
    → try_send m r ≡ take_next (record r { q = m ∷ []; accepted = r.accepted ++ (m ∷ []) })
unfolding try_send
try_send_handoff m r full f = rw (full, try_send) (rw f refl)

try_send-IsOrdered :
    (q_size : ℕ) (m : Message) (r s : Outbox)
    → IsOrdered q_size r
    → try_send m r ≡ some s
    → IsOrdered q_size s
unfolding try_send
try_send-IsOrdered q_size m r s h e = elim (Bool-cases (ltb (length r.q) r.q_size)) [
  | inl fits ↦
      ground (arith, append_assoc r.taken r.q (m ∷ []), length-append r.q (m ∷ []), h.order, h.size)
  | inr full ↦ go full r.q refl
]
  where
    given_taken : r.q ≡ [] → r.taken ≡ r.accepted
    given_taken f = sym (append-nil r.taken) ∙ ap (λ l. r.taken ++ l) (sym f) ∙ h.order

    go : ltb (length r.q) r.q_size ≡ false → (l : List Message) → r.q ≡ l → IsOrdered q_size s
    go full (x ∷ xs) f = absurd (ground arith)
    go full [] f =
        let given = record r { q = m ∷ []; accepted = r.accepted ++ (m ∷ []) } in
        let t = take_next_order given s (sym (try_send_handoff m r full f) ∙ e) in
        record {
          size = t.2 ∙ h.size;
          order = t.0 ∙ ap (λ x. x ++ (m ∷ [])) (given_taken f) ∙ sym t.1;
          room = omega (arith, t.3, h.room);
        }

step-IsOrdered :
    (q_size : ℕ) (o : Op) (r s : Outbox)
    → IsOrdered q_size r
    → step o r ≡ some s
    → IsOrdered q_size s
unfolding step push send_next listen hang_up
step-IsOrdered q_size (pushing m) r s h e = elim (Option-cases (try_send m r)) [
  | inl n ↦ ground arith
  | inr (t, f) ↦ ground (arith, try_send-IsOrdered q_size m r t h f)
]
step-IsOrdered q_size (sends i works) r s h e = elim (Option-cases (pick i r.sending)) [
  | inl n ↦ ground arith
  | inr (x, f) ↦ ground arith
]
step-IsOrdered q_size takes r s h e =
    let t = take_next_order r s e in
    record {
      size = t.2 ∙ h.size;
      order = t.0 ∙ h.order ∙ sym t.1;
      room = omega (arith, t.3, h.room);
    }
step-IsOrdered q_size listens r s h e = ground arith
step-IsOrdered q_size hangs_up r s h e = ground arith

-- In any order of steps of a new outbox, with any number of streams, the messages that streams
-- took, followed by those in the queue, are the accepted ones in their order, so none is taken
-- twice or out of turn; and the queue never holds more than its size.
pub Reach-IsOrdered : (q_size : ℕ) {r : Outbox} → Reach (new_outbox q_size) r → IsOrdered q_size r
unfolding new_outbox
Reach-IsOrdered q_size here = record { size = refl; order = refl; room = omega arith }
Reach-IsOrdered q_size (next {s = s} {t = t} k o e) =
    step-IsOrdered q_size o s t (Reach-IsOrdered q_size k) e
